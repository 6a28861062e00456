-- ===== src/Client/RpcClientImpl/Async.antt =====
-- source/Client/RpcClientImpl.cpp: the asynchronous calls.
-- `W` is the state that the user's handler changes, and `handler` is that function, if there is one.
pub mod Pending
pub mod Calls
pub mod Replies
use tzrpc.Prelude.{ℕ, Bool, true, false, not, Option, none, some, if◌then◌else◌}
use tzrpc.Core.Endian.{Endian, Bytes}
use tzrpc.Core.Message.{Message, of_data}
use tzrpc.Network.NetConn.{ErrorCode, fresh_socket}
use tzrpc.Rpc.Request
use tzrpc.Rpc.Request.{of_call}
use tzrpc.Client.RpcClientStatus.{
  ok, network_connect_error, network_send_error, rpc_call_timeout_status,
}
use tzrpc.Client.TcpConnSync as Client_sync
use tzrpc.Client.TcpConnAsync.{
  TcpConnAsync, new_connection, recv_net_message, send_net_message, shutdown_and_close_socket,
}
use tzrpc.Client.RpcClientImpl.{
  RpcClientImpl, mark_timeout, set_rpc_call_timeout, async_recv_wrapper,
}

-- The timer runs out during the work on an asynchronous connection, if it waits. A timer that a
-- synchronous call left finds that call's connection, or a null pointer, which is the `none`.
unfoldable pub expire_async :
    Bool → RpcClientImpl → TcpConnAsync → Option (RpcClientImpl × TcpConnAsync)
expire_async fires impl c = elim (impl.timer) [
  | none ↦ some (impl, c)
  | some (sec, sync) ↦
      if not fires
      then some (impl, c)
      else if not sync
      then some (mark_timeout impl, shutdown_and_close_socket c)
      else elim (impl.conn_sync) [
        | none ↦ none
        | some d ↦ some (
          record (mark_timeout impl) { conn_sync = some (Client_sync.shutdown_and_close_socket d) },
          c,
        )
      ]
]

-- What follows the start of the timer.
unfoldable pub send_async :
    Endian → Message → Option (RpcClientImpl × TcpConnAsync) → Option (ℕ × RpcClientImpl)
send_async host request none = none
send_async host request (some (impl, c)) =
    let (sent, c') = send_net_message host impl.limits c request in
    if sent
    then some (ok, record impl { conn_async = some c' })
    else some (
      if impl.was_timeout then rpc_call_timeout_status else network_send_error,
      record impl { conn_async = none },
    )

-- The call on a connection that is there.
unfoldable pub call_on_async :
    Endian → Bool → ℕ → ℕ → Bytes → ℕ → TcpConnAsync → RpcClientImpl → Option (ℕ × RpcClientImpl)
unfolding send_async
call_on_async host expires service_id opcode payload timeout_sec c impl =
    let request = of_data (Request.net_str host (of_call service_id opcode payload)) in
    send_async host request (expire_async expires (set_rpc_call_timeout timeout_sec false impl) c)

module _ {W : Type 0} (host : Endian) (handler : Option (W → ℕ → ℕ → ℕ → Bytes → W)) where
  -- `async_recv_wrapper` with the call of the user's handler.
  unfoldable pub on_answer : W → Message → W
  on_answer w net_message =
      let (status, service_id, opcode, respload) = async_recv_wrapper host net_message in
      elim handler [ none ↦ w | some h ↦ h w status service_id opcode respload ]

  abbrev result : W → Option (ℕ × RpcClientImpl) → Option (ℕ × W × RpcClientImpl)
  result w none = none
  result w (some (status, impl)) = some (status, w, impl)

  -- `connect` is the error of the connection, if it cannot be made; the server's address is taken to
  -- be one. The result is `none` where the timer met a null pointer or the model ran out of fuel.
  unfoldable pub call_rpc_async :
      Option ErrorCode
      → Bool
      → ℕ
      → ℕ
      → Bytes
      → ℕ
      → W
      → RpcClientImpl
      → Option (ℕ × W × RpcClientImpl)
  call_rpc_async connect expires service_id opcode payload timeout_sec w impl =
      elim (impl.conn_async) [
        | some c ↦
            result w (call_on_async host expires service_id opcode payload timeout_sec c impl)
        | none ↦ elim connect [
          | some ec ↦ some (network_connect_error, w, impl)
          | none ↦
              elim (recv_net_message host impl.limits (some on_answer) w
                (new_connection fresh_socket)) [
                  | none ↦ none
                  | some (w', c) ↦
                      result w'
                        (call_on_async host expires service_id opcode payload timeout_sec c impl)
                ]
        ]
      ]
