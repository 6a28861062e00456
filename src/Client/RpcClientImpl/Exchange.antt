-- ===== src/Client/RpcClientImpl/Exchange.antt =====
-- A whole call of source/Client/RpcClientImpl.cpp: the request on the wire, and the reply taken.
use tzrpc.Prelude.{
  ℕ, ◌^◌, ◌*◌, ◌≤◌, ◌<◌, ◌≡◌, refl, ap, ◌∙◌, true, false, none, some, List, [], ◌++◌, map, arith,
  length, ◌⊎◌,
}
use tzrpc.Core.Endian.{Endian, Bytes, IsU16}
use tzrpc.Core.Message.{Message, of_data, empty_message, net_str}
use tzrpc.Network.NetConn.{ConnStat, NetConn, IoBound, fresh_socket, io_buffer_size}
use tzrpc.Network.TcpConnAsync.Stream.{joined}
use tzrpc.Rpc.Request
use tzrpc.Rpc.Request.{of_call}
use tzrpc.Rpc.Response
use tzrpc.Rpc.Response.{of_reply}
use tzrpc.Client.RpcClientStatus.{ok}
use tzrpc.Client.TcpConnSync.{
  ClientLimits, TcpConnSync, got, returned, new_connection, send_net_message, recv_net_message,
}
use tzrpc.Client.TcpConnSync.Receive.{IsAnswer}
use tzrpc.Client.TcpConnSync.Delivery.{recv_net_message-net_str}
use tzrpc.Client.TcpConnSync.Send.{successes, send_net_message-net_str}
use tzrpc.Client.RpcClientImpl.{
  RpcClientImpl, Env, finished, set_rpc_call_timeout, expire, after_recv, after_send, call_on,
  call_rpc,
}
use tzrpc.Client.RpcClientImpl.Answer.{check_response-of_reply}

-- A working connection with nothing left over from an earlier call.
pub record IsIdle (c : TcpConnSync) : Type 0 where
  pub works : c.net.conn_stat ≡ ConnStat.working
  pub unsent : c.send_bound.buffer.bytes ≡ []
  pub unread : c.recv_bound.buffer.bytes ≡ []

-- The connection that the next call uses: the one there is, or a new one.
abbrev pub connection : RpcClientImpl → TcpConnSync
connection impl = elim (impl.conn_sync) [ some c ↦ c | none ↦ new_connection fresh_socket ]

-- A network that connects, takes `k` writes and delivers `chunks`, with time to spare.
abbrev pub healthy : ℕ → List Bytes → Env
healthy k chunks = record {
  is_address = true;
  connect = none;
  sent = successes k;
  received = map got chunks;
  expires_before_send = false;
  expires_in_send = false;
  expires_in_recv = false;
}

expire-false : (impl : RpcClientImpl) (c : TcpConnSync) → expire false impl c ≡ some (impl, c)
unfolding expire
expire-false impl c = ground arith

call_rpc-call_on :
    (host : Endian) (k : ℕ) (chunks : List Bytes) (service opcode : ℕ) (payload respload : Bytes)
    (sec : ℕ) (impl : RpcClientImpl)
    → call_rpc host (healthy k chunks) service opcode payload respload sec impl
      ≡ call_on host (healthy k chunks) service opcode payload respload (connection impl) sec impl
unfolding call_rpc
call_rpc-call_on host k chunks service opcode payload respload sec impl = ground arith

set_rpc_call_timeout-limits :
    (sec : ℕ) (impl : RpcClientImpl) → (set_rpc_call_timeout sec true impl).limits ≡ impl.limits
unfolding set_rpc_call_timeout
set_rpc_call_timeout-limits sec impl = ground arith

module _ (host peer : Endian) (service opcode : ℕ) (payload bytes respload : Bytes) (k : ℕ)
    (chunks : List Bytes) where
  abbrev pub request : Message
  request = of_data (Request.net_str host (of_call service opcode payload))

  abbrev pub reply : Message
  reply = of_data (Response.net_str peer (of_reply service opcode bytes))

  after_recv_lem :
      (impl : RpcClientImpl) (d : TcpConnSync)
      → IsU16 service
      → IsU16 opcode
      → after_recv host
          (healthy k chunks)
          service
          opcode
          payload
          respload
          impl
          (returned true d, reply)
        ≡ finished ok bytes (record impl { conn_sync = some d })
  unfolding after_recv of_data
  after_recv_lem impl d s o = ground (
    arith,
    expire-false impl d,
    check_response-of_reply host peer service opcode bytes respload s o,
  )

  after_send_lem :
      (impl : RpcClientImpl) (c d : TcpConnSync)
      → IsU16 service
      → IsU16 opcode
      → recv_net_message host impl.limits c empty_message (map got chunks)
        ≡ (returned true d, reply)
      → after_send host (healthy k chunks) service opcode payload respload impl (returned true c)
        ≡ finished ok bytes (record impl { conn_sync = some d })
  unfolding after_send
  after_send_lem impl c d s o run =
      ground (arith, expire-false impl c, after_recv_lem impl d s o, run)

  call_on_lem :
      (impl : RpcClientImpl) (c c' d : TcpConnSync) (sec : ℕ)
      → IsU16 service
      → IsU16 opcode
      → send_net_message host impl.limits c request (successes k) ≡ returned true c'
      → recv_net_message host impl.limits c' empty_message (map got chunks)
        ≡ (returned true d, reply)
      → call_on host (healthy k chunks) service opcode payload respload c sec impl
        ≡ finished ok bytes (record (set_rpc_call_timeout sec true impl) { conn_sync = some d })
  unfolding call_on
  call_on_lem impl c c' d sec s o sent run =
      let timed = set_rpc_call_timeout sec true impl in
      let same = set_rpc_call_timeout-limits sec impl in
      ground (
        arith,
        expire-false timed c,
        same,
        sent,
        after_send_lem timed c' d s o (
            ap (λ (l : ClientLimits). recv_net_message host l c' empty_message (map got chunks))
              same
            ∙ run),
      )

  pub call_rpc_done :
      (sec : ℕ) (impl : RpcClientImpl)
      → IsU16 service
      → IsU16 opcode
      → IsIdle (connection impl)
      → (impl.limits.send_max_msg_size ≡ 0)
        ⊎ (request.header.length ≤ impl.limits.send_max_msg_size)
      → length (net_str host request) < 2 ^ 32
      → length (net_str host request) ≤ io_buffer_size * k
      → IsAnswer impl.limits reply
      → joined chunks ≡ net_str peer reply
      → (d : TcpConnSync) × (call_rpc host
            (healthy k chunks)
            service
            opcode
            payload
            respload
            sec
            impl
          ≡ finished ok bytes (record (set_rpc_call_timeout sec true impl) { conn_sync = some d }))
        × IsIdle d
        × (d.net.socket.written ≡ (connection impl).net.socket.written ++ net_str host request)
  call_rpc_done sec impl s o idle within small enough answer sent =
      let c = connection impl in
      let (c', run, wrote, drained) =
        send_net_message-net_str host impl.limits c request k idle.works idle.unsent within small
          enough in
      let (d, got_it, empty, same, sends) =
        recv_net_message-net_str host peer impl.limits chunks c' reply empty_message answer
          (wrote.stat ∙ idle.works)
          (ap (λ (b : IoBound). b.buffer.bytes) wrote.receives ∙ idle.unread) sent in
      (
        d,
        call_rpc-call_on host k chunks service opcode payload respload sec impl
            ∙ call_on_lem impl c c' d sec s o run got_it,
        record {
          works = ap (λ (n : NetConn). n.conn_stat) same ∙ wrote.stat ∙ idle.works;
          unsent = ap (λ (b : IoBound). b.buffer.bytes) sends ∙ drained;
          unread = empty;
        },
        ap (λ (n : NetConn). n.socket.written) same ∙ wrote.written,
      )

  -- A call on a client whose connection is idle, or that has none yet and makes one: where the
  -- network takes the writes of the request and delivers the server's reply in any pieces, the call
  -- ends with the status OK and the response that the service gave. It has put exactly the request
  -- on the socket, and leaves the client with the connection idle again, so that another call may
  -- follow. The ids are 16 bits wide, the request and the reply are within the client's limits,
  -- which the call leaves as they are, and the request takes at most `k` writes and is shorter than
  -- 2 ^ 32 bytes. The server's address is one, the connection can be made, and no timer runs out
  -- during the call, whatever its timeout.
  pub call_rpc-of_reply :
      (sec : ℕ) (impl : RpcClientImpl)
      → IsU16 service
      → IsU16 opcode
      → IsIdle (connection impl)
      → (impl.limits.send_max_msg_size ≡ 0)
        ⊎ (request.header.length ≤ impl.limits.send_max_msg_size)
      → length (net_str host request) < 2 ^ 32
      → length (net_str host request) ≤ io_buffer_size * k
      → IsAnswer impl.limits reply
      → joined chunks ≡ net_str peer reply
      → (impl' : RpcClientImpl) × (call_rpc host
            (healthy k chunks)
            service
            opcode
            payload
            respload
            sec
            impl
          ≡ finished ok bytes impl')
        × (impl'.limits ≡ impl.limits)
        × (impl'.conn_sync ≡ some (connection impl'))
        × IsIdle (connection impl')
        × ((connection impl').net.socket.written
            ≡ (connection impl).net.socket.written ++ net_str host request)
  call_rpc-of_reply sec impl s o idle within small enough answer sent =
      let (d, run, idle', written) =
        call_rpc_done sec impl s o idle within small enough answer sent in
      (
        record (set_rpc_call_timeout sec true impl) { conn_sync = some d },
        run,
        set_rpc_call_timeout-limits sec impl,
        refl,
        idle',
        written,
      )
