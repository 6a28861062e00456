-- ===== src/Tests/Network.antt =====
-- The server's connection of source/Network/TcpConnAsync.cpp on two small messages.
use tzrpc.Prelude.{
  ◌+◌, ◌*◌, ◌≤◌, ◌≡◌, refl, some, List, [], ◌∷◌, ◌++◌, arith, length, inl, inr, ◌⊎◌,
}
use tzrpc.Prelude.Int.{pos}
use tzrpc.Core.Endian.{little, big, Bytes, htobe16, htobe32, mem16, mem32, be16toh, load16}
use tzrpc.Core.Message.{Message, of_data, net_str, from_net_endian, load_header}
use tzrpc.Core.Message.Codec.{of_data-IsHeader}
use tzrpc.Core.Buffer.{append, consume_raw, get_length, front_erase}
use tzrpc.Network.NetConn.{
  ConnStat, head, shutdown, close, ShutdownType, fresh_socket, io_buffer_size,
}
use tzrpc.Network.TcpConnAsync.{
  ConnConf, TcpConnAsync, new_connection, async_send_message, do_write, start_write,
  complete_writes, set_ops_cancel_timeout,
}
use tzrpc.Network.TcpConnAsync.Read.{serve, receive_all}
use tzrpc.Network.TcpConnAsync.Rejection.{IsRefused, header_of, receive_all_refuses}
use tzrpc.Network.TcpConnAsync.Parsing.{IsReady, IsAccepted, stream}
use tzrpc.Network.TcpConnAsync.Framing.{handled}
use tzrpc.Network.TcpConnAsync.Stream.{IsIdle, joined, serve-stream}
use tzrpc.Network.TcpConnAsync.Termination.{Ends}
use tzrpc.Network.TcpConnAsync.Termination.Handlers.{serve-Ends}
use tzrpc.Network.TcpConnAsync.Order.{
  IsUnused, Sent, opened, taken, Sent-in_order, complete_writes-drains,
}

abbrev conf : ConnConf
conf = record {
  ops_cancel_time_out = pos 10;
  send_max_msg_size = pos 1000;
  recv_max_msg_size = pos 1000;
}

abbrev hello : Message
hello = of_data (104 ∷ 105 ∷ [])

abbrev bye : Message
bye = of_data (98 ∷ [])

-- A dispatcher that notes every payload and sends it back at once.
abbrev echo : List Bytes → Bytes → List Bytes × List Message
echo seen payload = (seen ++ (payload ∷ []), of_data payload ∷ [])

-- The 35 bytes of both messages: three bytes of a header, then the rest of it with a payload and a half
-- of the next header, then what is left.
abbrev pieces : List Bytes
pieces =
    (0x74 ∷ 0x6b ∷ 0 ∷ [])
    ∷ (1 ∷ 0 ∷ 0 ∷ 0 ∷ 2 ∷ 0 ∷ 0 ∷ 0 ∷ 0 ∷ 0 ∷ 0 ∷ 0 ∷ 0 ∷ 104 ∷ 105 ∷ 0x74 ∷ 0x6b ∷ 0 ∷ 1 ∷ [])
    ∷ (0 ∷ 0 ∷ 0 ∷ 1 ∷ 0 ∷ 0 ∷ 0 ∷ 0 ∷ 0 ∷ 0 ∷ 0 ∷ 0 ∷ 98 ∷ [])
    ∷ []

hello-IsAccepted : IsAccepted conf hello
unfolding of_data
hello-IsAccepted = record {
  header = of_data-IsHeader (104 ∷ 105 ∷ []);
  magic = refl;
  version = refl;
  measured = refl;
  fits = omega arith;
  within = inr (omega arith);
}

bye-IsAccepted : IsAccepted conf bye
unfolding of_data
bye-IsAccepted = record {
  header = of_data-IsHeader (98 ∷ []);
  magic = refl;
  version = refl;
  measured = refl;
  fits = omega arith;
  within = inr (omega arith);
}

pieces-stream : joined pieces ≡ stream big (hello ∷ bye ∷ [])
unfolding of_data net_str htobe16 htobe32 mem16 mem32
pieces-stream = refl

serve-stream_example :
    (c : TcpConnAsync) × (serve little conf echo [] pieces
      ≡ some (handled echo [] (hello ∷ bye ∷ []), c))
    × IsIdle c
serve-stream_example =
    serve-stream little big conf echo [] (hello ∷ bye ∷ []) pieces
      (hello-IsAccepted, (bye-IsAccepted, tt)) (omega arith, (omega arith, (omega arith, tt)))
      pieces-stream

serve-Ends_example : Ends (length (joined pieces)) (serve little conf echo [] pieces)
serve-Ends_example = serve-Ends little conf echo [] pieces (omega arith)

abbrev working : TcpConnAsync
working = record (new_connection fresh_socket) {
  net = record { conn_stat = ConnStat.working; socket = fresh_socket };
}

-- The first message starts a write at once, and the second one waits in the buffer behind it.
abbrev first : TcpConnAsync
first = (async_send_message little conf working hello).1

abbrev both : TcpConnAsync
both = (async_send_message little conf first bye).1

-- A connection that waits for a header, and sixteen bytes with another magic number.
abbrev waiting : TcpConnAsync
waiting = record working {
  net = record {
    conn_stat = ConnStat.working;
    socket = record fresh_socket { reads = head 16 ∷ [] };
  };
}

abbrev other_magic : Bytes
other_magic = 1 ∷ 0x6b ∷ 0 ∷ 1 ∷ 0 ∷ 0 ∷ 0 ∷ 0 ∷ 0 ∷ 0 ∷ 0 ∷ 0 ∷ 0 ∷ 0 ∷ 0 ∷ 0 ∷ []

other_magic-IsRefused : IsRefused conf (header_of little other_magic)
unfolding from_net_endian load_header be16toh load16
other_magic-IsRefused = inl (λ e. absurd (omega (arith, e)))

waiting-IsReady : IsReady waiting
unfolding new_connection
waiting-IsReady = record { works = refl; live = refl }

receive_all_refuses_example :
    (d : TcpConnAsync) × (receive_all little conf echo [] waiting (other_magic ∷ pieces)
      ≡ some ([], d))
    × (d.net.conn_stat ≡ ConnStat.closed)
    × (d.net.socket.calls ≡ ([] ++ (shutdown ShutdownType.both ∷ [])) ++ (close ∷ []))
    × (d.net.socket.written ≡ [])
unfolding new_connection
receive_all_refuses_example =
    receive_all_refuses little conf echo [] waiting other_magic 16 pieces waiting-IsReady refl
      (omega arith) (omega arith) other_magic-IsRefused

working-IsUnused : IsUnused working
unfolding new_connection
working-IsUnused = record {
  ready = record { works = refl; live = refl };
  idle = refl;
  no_write = refl;
  nothing_written = refl;
  nothing_queued = refl;
}

both-Sent : Sent little conf both (([] ++ net_str little hello) ++ net_str little bye)
unfolding new_connection async_send_message do_write start_write of_data append net_str htobe16
    htobe32 mem16 mem32 consume_raw get_length front_erase set_ops_cancel_timeout
both-Sent =
    taken bye (taken hello (opened working working-IsUnused) (omega arith) refl) (omega arith) refl

Sent-in_order_example :
    (both.net.socket.written ++ both.send_bound.buffer.bytes
      ≡ ([] ++ net_str little hello) ++ net_str little bye)
    × (((b : Bytes) × (both.net.socket.writes ≡ b ∷ []))
        ⊎ ((both.net.socket.writes ≡ [])
            × (both.net.socket.written ≡ ([] ++ net_str little hello) ++ net_str little bye)))
Sent-in_order_example = Sent-in_order little conf both-Sent

both_small : length both.send_bound.buffer.bytes + io_buffer_size ≤ io_buffer_size * 2
unfolding new_connection async_send_message do_write start_write of_data append net_str htobe16
    htobe32 mem16 mem32 consume_raw get_length front_erase set_ops_cancel_timeout
both_small = omega arith

complete_writes-drains_example :
    ((complete_writes conf 2 both).net.socket.written
      ≡ ([] ++ net_str little hello) ++ net_str little bye)
    × ((complete_writes conf 2 both).net.socket.writes ≡ [])
complete_writes-drains_example = complete_writes-drains little conf 2 both-Sent both_small
