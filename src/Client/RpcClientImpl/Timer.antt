-- ===== src/Client/RpcClientImpl/Timer.antt =====
-- What the timer of a call that is over does in source/Client/RpcClientImpl.cpp.
use tzrpc.Prelude.{
  ℕ, ◌*◌, ◌^◌, ◌≤◌, ◌<◌, ◌≡◌, ◌≢◌, refl, true, none, some, List, arith, length, ◌⊎◌,
}
use tzrpc.Core.Endian.{Endian, Bytes, IsU16}
use tzrpc.Core.Message.{of_data, net_str}
use tzrpc.Network.NetConn.{NetConn, ShutdownType, sock_shutdown_and_close, io_buffer_size, ConnStat}
use tzrpc.Network.TcpConnAsync.Stream.{joined}
use tzrpc.Rpc.Request
use tzrpc.Rpc.Request.{of_call}
use tzrpc.Client.RpcClientStatus.{ok, network_send_error, rpc_call_timeout_status}
use tzrpc.Client.TcpConnSync.{TcpConnSync, send_net_message, do_write, shutdown_and_close_socket}
use tzrpc.Client.TcpConnSync.Receive.{IsAnswer}
use tzrpc.Client.RpcClientImpl.{
  RpcClientImpl, Env, finished, mark_timeout, set_rpc_call_timeout, rpc_call_timeout, expire,
  fail_call, after_send, call_on, call_rpc,
}
use tzrpc.Client.RpcClientImpl.Exchange.{IsIdle, connection, healthy, request, reply, call_rpc_done}

-- The client once the timer of a call ran out, whose connection this is.
abbrev pub cut_off : TcpConnSync → RpcClientImpl → RpcClientImpl
cut_off d impl = record (mark_timeout impl) { conn_sync = some (shutdown_and_close_socket d) }

closed_conn :
    (n : NetConn) → (sock_shutdown_and_close n ShutdownType.both).conn_stat ≡ ConnStat.closed
unfolding sock_shutdown_and_close
closed_conn n = ground arith

-- A call on such a client.
call_rpc-cut_off :
    (host : Endian) (env : Env) (service opcode : ℕ) (payload respload : Bytes) (d : TcpConnSync)
    (impl : RpcClientImpl)
    → call_rpc host env service opcode payload respload 0 (cut_off d impl)
      ≡ finished rpc_call_timeout_status respload (record (mark_timeout impl) { conn_sync = none })
unfolding call_rpc call_on set_rpc_call_timeout expire after_send fail_call send_net_message
    do_write shutdown_and_close_socket
call_rpc-cut_off host env service opcode payload respload d impl = ground (arith, closed_conn d.net)

set_rpc_call_timeout-timer :
    (sec : ℕ) (impl : RpcClientImpl)
    → sec ≢ 0
    → (set_rpc_call_timeout sec true impl).timer ≡ some (sec, true)
unfolding set_rpc_call_timeout
set_rpc_call_timeout-timer sec impl some_time = ground (arith, some_time)

-- The timer of a call goes on after the call ended well. When it runs out it closes the connection
-- that the client keeps, and the next call, which has no timeout and whatever the network would do,
-- ends with RPC_CALL_TIMEOUT. The first call is one that is answered in the way of
-- `call_rpc-of_reply`, with a timeout.
pub call_rpc_late_timer :
    (host peer : Endian) (service opcode : ℕ) (payload bytes respload : Bytes) (k : ℕ)
    (chunks : List Bytes) (sec : ℕ) (impl : RpcClientImpl) (env : Env) (service' opcode' : ℕ)
    (payload' respload' : Bytes)
    → sec ≢ 0
    → IsU16 service
    → IsU16 opcode
    → IsIdle (connection impl)
    → (impl.limits.send_max_msg_size ≡ 0)
      ⊎ ((request host peer service opcode payload bytes respload k chunks).header.length
          ≤ impl.limits.send_max_msg_size)
    → length (net_str host (request host peer service opcode payload bytes respload k chunks))
      < 2 ^ 32
    → length (net_str host (request host peer service opcode payload bytes respload k chunks))
      ≤ io_buffer_size * k
    → IsAnswer impl.limits (reply host peer service opcode payload bytes respload k chunks)
    → joined chunks ≡ net_str peer (reply host peer service opcode payload bytes respload k chunks)
    → (first timed_out last : RpcClientImpl) × (call_rpc host
          (healthy k chunks)
          service
          opcode
          payload
          respload
          sec
          impl
        ≡ finished ok bytes first)
      × (first.timer ≡ some (sec, true))
      × (rpc_call_timeout none true first ≡ some timed_out)
      × (call_rpc host env service' opcode' payload' respload' 0 timed_out
          ≡ finished rpc_call_timeout_status respload' last)
unfolding rpc_call_timeout
call_rpc_late_timer host peer service opcode payload bytes respload k chunks sec impl env service'
      opcode' payload' respload' some_time s o idle within small enough answer sent =
    let (d, run, idle', written) =
      call_rpc_done host peer service opcode payload bytes respload k chunks sec impl s o idle
        within small enough answer sent in
    let first : RpcClientImpl = record (set_rpc_call_timeout sec true impl) {
      conn_sync = some d;
    } in
    (
      first,
      cut_off d first,
      record (mark_timeout first) { conn_sync = none },
      run,
      set_rpc_call_timeout-timer sec impl some_time,
      refl,
      call_rpc-cut_off host env service' opcode' payload' respload' d first,
    )

-- And a timer that goes on after a call that could not send finds no connection: the handler goes
-- through a null pointer. The request is over the client's limit, the connection can be made, and
-- the timeout does not run out meanwhile.
pub call_rpc_null_timer :
    (host : Endian) (k : ℕ) (chunks : List Bytes) (service opcode : ℕ) (payload respload : Bytes)
    (sec : ℕ) (impl : RpcClientImpl)
    → sec ≢ 0
    → impl.limits.send_max_msg_size ≢ 0
    → impl.limits.send_max_msg_size
      < (of_data (Request.net_str host (of_call service opcode payload))).header.length
    → (after : RpcClientImpl) × (call_rpc host
          (healthy k chunks)
          service
          opcode
          payload
          respload
          sec
          impl
        ≡ finished network_send_error respload after)
      × (after.timer ≡ some (sec, true))
      × (rpc_call_timeout none true after ≡ none)
unfolding call_rpc call_on set_rpc_call_timeout expire after_send fail_call send_net_message
    rpc_call_timeout
call_rpc_null_timer host k chunks service opcode payload respload sec impl some_time limited long =
    let after : RpcClientImpl = record (set_rpc_call_timeout sec true impl) { conn_sync = none } in
    (
      after,
      ground (arith, some_time, limited, long),
      set_rpc_call_timeout-timer sec impl some_time,
      refl,
    )
