-- ===== src/Tests/Client.antt =====
-- The client of source/Client on a call of service 1, operation 2.
use tzrpc.Prelude.{
  none, ◌<◌, ℕ, ◌≤◌, ◌≡◌, ◌≢◌, refl, ap, true, some, List, [], ◌∷◌, ◌++◌, arith, length, map, inl,
  inr,
}
use tzrpc.Core.Endian.{little, big, Bytes, htobe16, htobe32, mem16, mem32}
use tzrpc.Core.Message.{Message, of_data, net_str, empty_message}
use tzrpc.Core.Message.Codec.{of_data-IsHeader}
use tzrpc.Network.NetConn.{fresh_socket}
use tzrpc.Network.TcpConnAsync.Stream.{joined}
use tzrpc.Rpc.Request
use tzrpc.Rpc.Request.{of_call}
use tzrpc.Rpc.Response
use tzrpc.Rpc.Response.{RpcResponseStatus, of_reply, of_status, status_code}
use tzrpc.Client.RpcClientStatus.{
  ok, network_send_error, rpc_call_timeout_status, recv_format_error,
}
use tzrpc.Client.TcpConnSync.{
  ClientLimits, TcpConnSync, new_connection, got, returned, send_net_message, recv_net_message,
}
use tzrpc.Client.TcpConnSync.Receive.{IsAnswer}
use tzrpc.Client.TcpConnSync.Delivery.{recv_net_message-net_str}
use tzrpc.Client.TcpConnSync.Send.{successes, Wrote, send_net_message-net_str}
use tzrpc.Client.RpcClientImpl.{
  RpcClientImpl, finished, new_client, check_response, async_recv_wrapper, call_rpc,
  rpc_call_timeout,
}
use tzrpc.Client.RpcClientImpl.Answer.{check_response-of_status, async_recv_wrapper-of_reply}
use tzrpc.Client.RpcClientImpl.Timer.{call_rpc_late_timer, call_rpc_null_timer}
use tzrpc.Client.RpcClientImpl.Exchange.{IsIdle, connection, healthy, call_rpc-of_reply}

abbrev limits : ClientLimits
limits = record { send_max_msg_size = 1000; recv_max_msg_size = 1000 }

abbrev request : Message
request = of_data (Request.net_str little (of_call 1 2 (7 ∷ 8 ∷ [])))

abbrev answer : Message
answer = of_data (Response.net_str big (of_reply 1 2 (9 ∷ [])))

-- The 34 bytes of the answer in two pieces, cut in its header.
abbrev pieces : List Bytes
pieces =
    (0x74 ∷ 0x6b ∷ 0 ∷ 1 ∷ 0 ∷ [])
    ∷ (0 ∷ 0 ∷ 18 ∷ 0 ∷ 0 ∷ 0 ∷ 0 ∷ 0 ∷ 0 ∷ 0 ∷ 0 ∷ 0 ∷ 0x74 ∷ 0x72 ∷ 0 ∷ 1 ∷ 0 ∷ 1 ∷ 0 ∷ 2 ∷ 0 ∷ 0
        ∷ 0 ∷ 0 ∷ 0 ∷ 0 ∷ 0 ∷ 0 ∷ 9 ∷ [])
    ∷ []

pieces-answer : joined pieces ≡ net_str big answer
unfolding of_data net_str Response.net_str of_reply status_code htobe16 htobe32 mem16 mem32
pieces-answer = refl

answer-IsAnswer : IsAnswer limits answer
unfolding of_data Response.net_str of_reply htobe16 mem16 mem32
answer-IsAnswer = record {
  header = of_data-IsHeader (Response.net_str big (of_reply 1 2 (9 ∷ [])));
  magic = refl;
  version = refl;
  measured = refl;
  fits = omega arith;
  within = inr (omega arith);
}

abbrev conn : TcpConnSync
conn = new_connection fresh_socket

recv_net_message-net_str_example :
    (d : TcpConnSync) × (recv_net_message little limits conn empty_message (map got pieces)
      ≡ (returned true d, answer))
    × (d.recv_bound.buffer.bytes ≡ [])
    × (d.net ≡ conn.net)
    × (d.send_bound ≡ conn.send_bound)
unfolding new_connection
recv_net_message-net_str_example =
    recv_net_message-net_str little big limits pieces conn answer empty_message answer-IsAnswer refl
      refl pieces-answer

request-within : request.header.length ≤ 1000
unfolding of_data Request.net_str of_call htobe16 mem16 mem32
request-within = omega arith

request-size : length (net_str little request) ≡ 34
unfolding of_data net_str Request.net_str of_call htobe16 htobe32 mem16 mem32
request-size = refl

send_net_message-net_str_example :
    (d : TcpConnSync) × (send_net_message little limits conn request (successes 1)
      ≡ returned true d)
    × Wrote (net_str little request) conn d
    × (d.send_bound.buffer.bytes ≡ [])
unfolding new_connection
send_net_message-net_str_example =
    send_net_message-net_str little limits conn request 1 refl refl (inr request-within)
      (omega (arith, request-size)) (omega (arith, request-size))

conn-IsIdle : IsIdle (connection (new_client limits))
unfolding new_client new_connection
conn-IsIdle = record { works = refl; unsent = refl; unread = refl }

request_in_limits : request.header.length ≤ (new_client limits).limits.send_max_msg_size
unfolding new_client
request_in_limits = request-within

answer_in_limits : IsAnswer (new_client limits).limits answer
unfolding new_client
answer_in_limits = answer-IsAnswer

call_rpc-of_reply_example :
    (impl' : RpcClientImpl) × (call_rpc little
        (healthy 1 pieces)
        1
        2
        (7 ∷ 8 ∷ [])
        []
        30
        (new_client limits)
      ≡ finished ok (9 ∷ []) impl')
    × (impl'.limits ≡ (new_client limits).limits)
    × (impl'.conn_sync ≡ some (connection impl'))
    × IsIdle (connection impl')
    × ((connection impl').net.socket.written
        ≡ (connection (new_client limits)).net.socket.written ++ net_str little request)
call_rpc-of_reply_example =
    call_rpc-of_reply little big 1 2 (7 ∷ 8 ∷ []) (9 ∷ []) [] 1 pieces 30 (new_client limits)
      (omega arith) (omega arith) conn-IsIdle (inr request_in_limits) (omega (arith, request-size))
      (omega (arith, request-size)) answer_in_limits pieces-answer

one_not_zero : ◌≢◌ {A = ℕ} 1 0
one_not_zero e = absurd (omega arith)

check_response-of_status_example :
    check_response little 1 2
      (Response.net_str big (of_status RpcResponseStatus.invalid_service))
      []
    ≡ (recv_format_error, [])
check_response-of_status_example =
    check_response-of_status little big 1 2 RpcResponseStatus.invalid_service [] (inl one_not_zero)

not_ok : RpcResponseStatus.invalid_service ≢ RpcResponseStatus.ok
unfolding status_code
not_ok e = absurd (omega (arith, ap status_code e))

async_recv_wrapper-of_reply_example : async_recv_wrapper little answer ≡ (ok, 1, 2, (9 ∷ []))
unfolding of_data
async_recv_wrapper-of_reply_example =
    async_recv_wrapper-of_reply little big 1 2 (9 ∷ []) answer (omega arith) (omega arith) refl

-- A client after a call that timed out, with a limit of ten bytes.
abbrev marked : RpcClientImpl
marked = record {
  limits = record { send_max_msg_size = 10; recv_max_msg_size = 0 };
  was_timeout = true;
  timer = none;
  conn_sync = none;
  conn_async = none;
}

ten_not_zero : ◌≢◌ {A = ℕ} 10 0
ten_not_zero e = absurd (omega arith)

request_too_long : 10 < request.header.length
unfolding of_data Request.net_str of_call htobe16 mem16 mem32
request_too_long = omega arith

thirty_not_zero : ◌≢◌ {A = ℕ} 30 0
thirty_not_zero e = absurd (omega arith)

call_rpc_late_timer_example :
    (first timed_out last : RpcClientImpl) × (call_rpc little
        (healthy 1 pieces)
        1
        2
        (7 ∷ 8 ∷ [])
        []
        30
        (new_client limits)
      ≡ finished ok (9 ∷ []) first)
    × (first.timer ≡ some (30, true))
    × (rpc_call_timeout none true first ≡ some timed_out)
    × (call_rpc little (healthy 1 pieces) 1 2 (7 ∷ 8 ∷ []) [] 0 timed_out
        ≡ finished rpc_call_timeout_status [] last)
call_rpc_late_timer_example =
    call_rpc_late_timer little big 1 2 (7 ∷ 8 ∷ []) (9 ∷ []) [] 1 pieces 30 (new_client limits)
      (healthy 1 pieces) 1 2 (7 ∷ 8 ∷ []) [] thirty_not_zero (omega arith) (omega arith) conn-IsIdle
      (inr request_in_limits) (omega (arith, request-size)) (omega (arith, request-size))
      answer_in_limits pieces-answer

call_rpc_null_timer_example :
    (after : RpcClientImpl) × (call_rpc little (healthy 1 []) 1 2 (7 ∷ 8 ∷ []) [] 30 marked
      ≡ finished network_send_error [] after)
    × (after.timer ≡ some (30, true))
    × (rpc_call_timeout none true after ≡ none)
call_rpc_null_timer_example =
    call_rpc_null_timer little 1 [] 1 2 (7 ∷ 8 ∷ []) [] 30 marked thirty_not_zero ten_not_zero
      request_too_long
