-- ===== src/Client/RpcClientImpl/Timeout.antt =====
-- What a timeout leaves behind in source/Client/RpcClientImpl.cpp.
use tzrpc.Prelude.{ℕ, ◌<◌, ◌≡◌, ◌≢◌, true, false, none, arith}
use tzrpc.Core.Endian.{Endian, Bytes}
use tzrpc.Core.Message.{Message, of_data}
use tzrpc.Network.NetConn.{fresh_socket}
use tzrpc.Rpc.Request
use tzrpc.Rpc.Request.{of_call}
use tzrpc.Client.RpcClientStatus.{rpc_call_timeout_status}
use tzrpc.Client.TcpConnSync.{TcpConnSync, new_connection, send_net_message, returned}
use tzrpc.Client.RpcClientImpl.{
  RpcClientImpl, Env, finished, set_rpc_call_timeout, expire, fail_call, after_send, call_on,
  call_rpc,
}

module _ (host : Endian) (env : Env) (service opcode : ℕ) (payload respload : Bytes)
    (impl : RpcClientImpl) where
  abbrev request : Message
  request = of_data (Request.net_str host (of_call service opcode payload))

  over_limit :
      (c : TcpConnSync)
      → impl.limits.send_max_msg_size ≢ 0
      → impl.limits.send_max_msg_size < request.header.length
      → send_net_message host impl.limits c request env.sent ≡ returned false c
  unfolding send_net_message
  over_limit c limited long = ground (arith, limited)

  -- A call without a timeout, on a client that has no connection and no timer and whose earlier
  -- call timed out, with a request over the limit of the client, ends with the status
  -- RPC_CALL_TIMEOUT where the connection can be made, although the request is refused at once: the
  -- mark of the earlier timeout is only taken back where a timer is set.
  pub call_rpc_stale_timeout :
      impl.conn_sync ≡ none
      → env.is_address ≡ true
      → env.connect ≡ none
      → impl.was_timeout ≡ true
      → impl.timer ≡ none
      → impl.limits.send_max_msg_size ≢ 0
      → impl.limits.send_max_msg_size < request.header.length
      → call_rpc host env service opcode payload respload 0 impl
        ≡ finished rpc_call_timeout_status respload impl
  unfolding call_rpc call_on set_rpc_call_timeout expire after_send fail_call
  call_rpc_stale_timeout no_conn address connects marked no_timer limited long = ground (
    arith,
    no_conn,
    address,
    connects,
    marked,
    no_timer,
    over_limit (new_connection fresh_socket) limited long,
  )
