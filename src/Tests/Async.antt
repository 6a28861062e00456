-- ===== src/Tests/Async.antt =====
-- The asynchronous connection and the asynchronous calls of source/Client on small messages.
use tzrpc.Prelude.{
  ℕ, ◌+◌, ◌*◌, ◌≤◌, ◌≡◌, refl, false, none, some, List, [], ◌∷◌, ◌++◌, arith, length, map, foldl,
  inl, inr,
}
use tzrpc.Core.Endian.{little, big, Bytes, htobe16, htobe32, mem16, mem32}
use tzrpc.Core.Message.{Message, of_data, net_str}
use tzrpc.Core.Message.Codec.{of_data-IsHeader}
use tzrpc.Core.Buffer.{append, consume_raw, get_length, front_erase}
use tzrpc.Network.NetConn.{head, fresh_socket, io_buffer_size}
use tzrpc.Network.TcpConnAsync.Parsing.{stream}
use tzrpc.Network.TcpConnAsync.Stream.{joined}
use tzrpc.Rpc.Request
use tzrpc.Rpc.Request.{of_call}
use tzrpc.Rpc.Response
use tzrpc.Rpc.Response.{of_reply, status_code}
use tzrpc.Client.RpcClientStatus.{ok}
use tzrpc.Client.TcpConnSync.{ClientLimits}
use tzrpc.Client.TcpConnAsync.{
  TcpConnAsync, wait_for, new_connection, send_net_message, do_write, start_write, complete_writes,
  receive_all,
}
use tzrpc.Client.TcpConnAsync.Simulation.{as_server, server_conf, IsLimits, lift, silent}
use tzrpc.Client.TcpConnAsync.Stream.{IsListening}
use tzrpc.Client.TcpConnAsync.Order.{IsUnused, Sent, opened, taken, Sent-drains}
use tzrpc.Client.TcpConnAsync.Refinement.{
  sends, write_ends, read_ends, Event, server_run, client_run, client_run-as_server,
}
use tzrpc.Client.RpcClientImpl.{RpcClientImpl, new_client}
use tzrpc.Client.RpcClientImpl.Async.{on_answer, call_rpc_async}
use tzrpc.Client.RpcClientImpl.Async.Pending.{IsOpen, request_message, call_rpc_async-IsOpen}
use tzrpc.Client.RpcClientImpl.Async.Replies.{
  Reply, IsReply, reply_message, told, receive_all-replies,
}

abbrev limits : ClientLimits
limits = record { send_max_msg_size = 1000; recv_max_msg_size = 1000 }

limits-IsLimits : IsLimits limits
limits-IsLimits = record { sends = omega arith; recvs = omega arith }

abbrev hello : Message
hello = of_data (104 ∷ 105 ∷ [])

abbrev bye : Message
bye = of_data (98 ∷ [])

abbrev conn : TcpConnAsync
conn = new_connection fresh_socket

-- A handler that notes every payload.
abbrev note : List Bytes → Bytes → List Bytes
note seen payload = seen ++ (payload ∷ [])

abbrev events : List Event
events = sends hello ∷ write_ends ∷ read_ends (0x74 ∷ 0x6b ∷ []) ∷ sends bye ∷ []

client_run-as_server_example :
    server_run little (server_conf limits) (silent note) events ([], as_server conn)
    ≡ lift (client_run little limits note events ([], conn))
client_run-as_server_example =
    client_run-as_server little limits limits-IsLimits note events [] conn

conn-IsUnused : IsUnused conn
unfolding new_connection
conn-IsUnused = record {
  works = refl;
  idle = refl;
  no_write = refl;
  nothing_written = refl;
  nothing_queued = refl;
}

-- The first message starts a write at once, and the second one waits in the buffer behind it.
abbrev both : TcpConnAsync
both = (send_net_message little limits (send_net_message little limits conn hello).1 bye).1

both-Sent : Sent little limits both (([] ++ net_str little hello) ++ net_str little bye)
unfolding new_connection send_net_message do_write start_write of_data append net_str htobe16
    htobe32 mem16 mem32 consume_raw get_length front_erase
both-Sent =
    taken bye (taken hello (opened conn conn-IsUnused) (omega arith) (inr (omega arith)))
      (omega arith) (inr (omega arith))

both_small : length both.send_bound.buffer.bytes + io_buffer_size ≤ io_buffer_size * 2
unfolding new_connection send_net_message do_write start_write of_data append net_str htobe16
    htobe32 mem16 mem32 consume_raw get_length front_erase
both_small = omega arith

Sent-drains_example :
    (both.net.socket.written ++ both.send_bound.buffer.bytes
      ≡ ([] ++ net_str little hello) ++ net_str little bye)
    × ((complete_writes 2 both).net.socket.written
        ≡ ([] ++ net_str little hello) ++ net_str little bye)
    × ((complete_writes 2 both).net.socket.writes ≡ [])
Sent-drains_example = Sent-drains little limits 2 limits-IsLimits both-Sent both_small

-- The user's handler notes what every call answers.
abbrev noted : List (ℕ × ℕ × ℕ × Bytes) → ℕ → ℕ → ℕ → Bytes → List (ℕ × ℕ × ℕ × Bytes)
noted seen status service opcode bytes = seen ++ ((status, service, opcode, bytes) ∷ [])

abbrev request : Message
request = request_message little 1 2 (7 ∷ 8 ∷ [])

request-within : request.header.length ≤ 1000
unfolding of_data Request.net_str of_call htobe16 mem16 mem32
request-within = omega arith

request_size : length (net_str little request) ≡ 34
unfolding of_data net_str Request.net_str of_call htobe16 htobe32 mem16 mem32
request_size = refl

call_rpc_async-IsOpen_example :
    (impl' : RpcClientImpl) × (call_rpc_async little
        (some noted)
        none
        false
        1
        2
        (7 ∷ 8 ∷ [])
        30
        []
        (new_client limits)
      ≡ some (ok, [], impl'))
    × (impl'.limits ≡ (new_client limits).limits)
    × IsOpen little impl' ([] ++ net_str little request)
unfolding new_client
call_rpc_async-IsOpen_example =
    call_rpc_async-IsOpen little 1 2 (7 ∷ 8 ∷ []) 30 (some noted) [] (new_client limits)
      limits-IsLimits (inl (refl, refl)) (omega (arith, request_size)) (inr request-within)

-- Two replies of a server of the other byte order, of which the second one is cut.
abbrev replies : List Reply
replies =
    record { service = 1; opcode = 2; bytes = 9 ∷ [] }
    ∷ record { service = 1; opcode = 3; bytes = 5 ∷ 6 ∷ [] }
    ∷ []

abbrev pieces : List Bytes
pieces =
    (0x74 ∷ 0x6b ∷ 0 ∷ 1 ∷ 0 ∷ 0 ∷ 0 ∷ 18 ∷ 0 ∷ 0 ∷ 0 ∷ 0 ∷ 0 ∷ 0 ∷ 0 ∷ 0 ∷ 0 ∷ 0x74 ∷ 0x72 ∷ 0 ∷ 1
      ∷ 0 ∷ 1 ∷ 0 ∷ 2 ∷ 0 ∷ 0 ∷ 0 ∷ 0 ∷ 0 ∷ 0 ∷ 0 ∷ 0 ∷ 9 ∷ 0x74 ∷ 0x6b ∷ 0 ∷ 1 ∷ [])
    ∷ (0 ∷ 0 ∷ 0 ∷ 19 ∷ 0 ∷ 0 ∷ 0 ∷ 0 ∷ 0 ∷ 0 ∷ 0 ∷ 0 ∷ 0 ∷ 0x74 ∷ 0x72 ∷ 0 ∷ 1 ∷ 0 ∷ 1 ∷ 0 ∷ 3 ∷ 0
        ∷ 0 ∷ 0 ∷ 0 ∷ 0 ∷ 0 ∷ 0 ∷ 0 ∷ 5 ∷ 6 ∷ [])
    ∷ []

pieces-replies : joined pieces ≡ stream big (map (reply_message big) replies)
unfolding of_data net_str Response.net_str of_reply status_code htobe16 htobe32 mem16 mem32
pieces-replies = refl

first-IsReply : IsReply big limits (record { service = 1; opcode = 2; bytes = 9 ∷ [] })
unfolding of_data Response.net_str of_reply htobe16 mem16 mem32
first-IsReply = record {
  service_fits = omega arith;
  opcode_fits = omega arith;
  accepted = record {
    header = of_data-IsHeader (Response.net_str big (of_reply 1 2 (9 ∷ [])));
    magic = refl;
    version = refl;
    measured = refl;
    fits = omega arith;
    within = inr (omega arith);
  };
}

second-IsReply : IsReply big limits (record { service = 1; opcode = 3; bytes = 5 ∷ 6 ∷ [] })
unfolding of_data Response.net_str of_reply htobe16 mem16 mem32
second-IsReply = record {
  service_fits = omega arith;
  opcode_fits = omega arith;
  accepted = record {
    header = of_data-IsHeader (Response.net_str big (of_reply 1 3 (5 ∷ 6 ∷ [])));
    magic = refl;
    version = refl;
    measured = refl;
    fits = omega arith;
    within = inr (omega arith);
  };
}

abbrev listening : TcpConnAsync
listening = wait_for (head 16) conn

listening-IsListening : IsListening listening
unfolding new_connection
listening-IsListening = record { works = refl; empty = refl; wanted = 16; reading = refl }

receive_all-replies_example :
    (d : TcpConnAsync) × (receive_all little limits
        (some (on_answer little (some noted)))
        []
        listening
        pieces
      ≡ some (foldl (told little big limits noted) [] replies, d))
    × IsListening d
receive_all-replies_example =
    receive_all-replies little big limits noted [] listening replies pieces limits-IsLimits
      listening-IsListening (first-IsReply, (second-IsReply, tt)) (omega arith, (omega arith, tt))
      pieces-replies
