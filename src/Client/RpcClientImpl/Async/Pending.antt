-- ===== src/Client/RpcClientImpl/Async/Pending.antt =====
-- What the asynchronous calls of source/Client/RpcClientImpl.cpp leave on their connection.
use tzrpc.Prelude.{
  ℕ, ◌+◌, ◌^◌, ◌<◌, ◌≡◌, refl, sym, ap, ◌∙◌, true, false, Option, none, some, [], ◌++◌, arith,
  length, ◌⊎◌, inl, inr,
}
use tzrpc.Core.Endian.{Endian, Bytes}
use tzrpc.Core.Message.{Message, of_data, net_str}
use tzrpc.Core.Buffer.{get_length, append}
use tzrpc.Network.NetConn.{ConnStat, IoBound, head, fresh_socket}
use tzrpc.Network.TcpConnAsync as Server
use tzrpc.Network.TcpConnAsync.Sending.{async_send_message-SameReader}
use tzrpc.Rpc.Request
use tzrpc.Rpc.Request.{of_call}
use tzrpc.Client.RpcClientStatus.{ok}
use tzrpc.Client.TcpConnSync.{ClientLimits}
use tzrpc.Client.TcpConnAsync.{
  TcpConnAsync, new_connection, recv_net_message, send_net_message, do_write, read_loop, do_read,
  wait_for,
}
use tzrpc.Client.TcpConnAsync.Simulation.{
  as_server, server_conf, IsLimits, send_net_message-as_server,
}
use tzrpc.Client.TcpConnAsync.Stream.{IsListening}
use tzrpc.Client.TcpConnAsync.Order.{Sent, IsWithin, opened, taken}
use tzrpc.Client.RpcClientImpl.{RpcClientImpl, set_rpc_call_timeout}
use tzrpc.Client.RpcClientImpl.Async.{
  expire_async, send_async, call_on_async, call_rpc_async, on_answer,
}

-- A client with a connection that waits for answers, and from which the bytes `out` are to go.
pub record IsOpen (host : Endian) (impl : RpcClientImpl) (out : Bytes) : Type 0 where
  pub conn : TcpConnAsync
  pub there : impl.conn_async ≡ some conn
  pub listens : IsListening conn
  pub sent : Sent host impl.limits conn out

do_write-true : (c : TcpConnAsync) → c.net.conn_stat ≡ ConnStat.working → (do_write c).0 ≡ true
unfolding do_write
do_write-true c works = ground arith

send_net_message-true :
    (host : Endian) (limits : ClientLimits) (c : TcpConnAsync) (m : Message)
    → c.net.conn_stat ≡ ConnStat.working
    → IsWithin limits m
    → (send_net_message host limits c m).0 ≡ true
unfolding send_net_message
send_net_message-true host limits c m works within =
    let queued : TcpConnAsync = record c {
      send_bound = record (c.send_bound) { buffer = (append host c.send_bound.buffer m).0 };
    } in
    ground (arith, within, do_write-true queued works)

send_net_message-IsListening :
    (host : Endian) (limits : ClientLimits) (c : TcpConnAsync) (m : Message)
    → IsLimits limits
    → IsListening c
    → IsListening (send_net_message host limits c m).1
send_net_message-IsListening host limits c m v waits =
    let same = async_send_message-SameReader host (server_conf limits) (as_server c) m in
    let e = send_net_message-as_server host limits c m v in
    record {
      works = sym (ap (λ (d : Server.TcpConnAsync). d.net.conn_stat) e) ∙ same.stat ∙ waits.works;
      empty =
          sym (ap (λ (d : Server.TcpConnAsync). d.recv_bound.buffer.bytes) e)
          ∙ ap (λ (b : IoBound). b.buffer.bytes) same.bound
          ∙ waits.empty;
      wanted = waits.wanted;
      reading =
          sym (ap (λ (d : Server.TcpConnAsync). d.net.socket.reads) e) ∙ same.reads ∙ waits.reading;
    }

expire_async-false :
    (impl : RpcClientImpl) (c : TcpConnAsync) → expire_async false impl c ≡ some (impl, c)
unfolding expire_async
expire_async-false impl c = ground arith

set_rpc_call_timeout-limits :
    (sec : ℕ) (impl : RpcClientImpl) → (set_rpc_call_timeout sec false impl).limits ≡ impl.limits
unfolding set_rpc_call_timeout
set_rpc_call_timeout-limits sec impl = ground arith

-- The message of a call.
abbrev pub request_message : Endian → ℕ → ℕ → Bytes → Message
request_message host service opcode payload =
    of_data (Request.net_str host (of_call service opcode payload))

-- What is left to be sent of earlier calls.
abbrev pub unsent : RpcClientImpl → Bytes
unsent impl = elim (impl.conn_async) [ none ↦ [] | some c ↦ c.send_bound.buffer.bytes ]

pub unsent_there :
    (impl : RpcClientImpl) {c : TcpConnAsync}
    → impl.conn_async ≡ some c
    → unsent impl ≡ c.send_bound.buffer.bytes
unsent_there impl there = rw there refl

module _ (host : Endian) (service opcode : ℕ) (payload : Bytes) (sec : ℕ) where
  abbrev request : Message
  request = request_message host service opcode payload

  -- The call on a connection that waits.
  call_on_async-IsOpen :
      {out : Bytes} (impl : RpcClientImpl) (c : TcpConnAsync)
      → IsLimits impl.limits
      → IsListening c
      → Sent host impl.limits c out
      → length c.send_bound.buffer.bytes + length (net_str host request) < 2 ^ 32
      → IsWithin impl.limits request
      → (impl' : RpcClientImpl) × (call_on_async host false service opcode payload sec c impl
          ≡ some (ok, impl'))
        × (impl'.limits ≡ impl.limits)
        × IsOpen host impl' (out ++ net_str host request)
  unfolding call_on_async send_async
  call_on_async-IsOpen {out} impl c v waits sent room within =
      let timed : RpcClientImpl = set_rpc_call_timeout sec false impl in
      let same = set_rpc_call_timeout-limits sec impl in
      let d : TcpConnAsync = (send_net_message host impl.limits c request).1 in
      (
        record timed { conn_async = some d },
        rw
            (
              expire_async-false timed c,
              same,
              send_net_message-true host impl.limits c request waits.works within,
            )
            refl,
        same,
        record {
          conn = d;
          there = refl;
          listens = send_net_message-IsListening host impl.limits c request v waits;
          sent = rw same (taken request sent room within);
        },
      )

  -- A new connection waits for the header of an answer.
  recv_net_message-IsListening :
      (limits : ClientLimits) {W : Type 0} (handler : Option (W → Message → W)) (w : W)
      → (c : TcpConnAsync) × (recv_net_message host limits handler w (new_connection fresh_socket)
          ≡ some (w, c))
        × IsListening c
        × Sent host limits c []
        × (c.send_bound.buffer.bytes ≡ [])
  unfolding recv_net_message read_loop do_read new_connection get_length
  recv_net_message-IsListening limits handler w =
      let c : TcpConnAsync = wait_for (head 16) (new_connection fresh_socket) in
      (
        c,
        refl,
        record { works = refl; empty = refl; wanted = 16; reading = refl },
        opened c (record {
          works = refl;
          idle = refl;
          no_write = refl;
          nothing_written = refl;
          nothing_queued = refl;
        }),
        refl,
      )

  module _ {W : Type 0} (handler : Option (W → ℕ → ℕ → ℕ → Bytes → W)) (w : W)
      (impl impl' : RpcClientImpl) where
    -- The call that makes a connection.
    call_rpc_async_new :
        {c : TcpConnAsync}
        → impl.conn_async ≡ none
        → recv_net_message host impl.limits
            (some (on_answer host handler))
            w
            (new_connection fresh_socket)
          ≡ some (w, c)
        → call_on_async host false service opcode payload sec c impl ≡ some (ok, impl')
        → call_rpc_async host handler none false service opcode payload sec w impl
          ≡ some (ok, w, impl')
    unfolding call_rpc_async
    call_rpc_async_new no_conn run called = ground (arith, no_conn, run, called)

    -- The call that finds one.
    call_rpc_async_open :
        {c : TcpConnAsync}
        → impl.conn_async ≡ some c
        → call_on_async host false service opcode payload sec c impl ≡ some (ok, impl')
        → call_rpc_async host handler none false service opcode payload sec w impl
          ≡ some (ok, w, impl')
    unfolding call_rpc_async
    call_rpc_async_open there called = ground (arith, there, called)

  -- An asynchronous call without an error of the connection returns OK at once and leaves a
  -- connection that waits for answers and from which the request goes after all those before it,
  -- whether it made the connection or found it so. The request is within the client's limit, finds
  -- room in the buffer, and the call's timer does not run out meanwhile.
  pub call_rpc_async-IsOpen :
      {W : Type 0} (handler : Option (W → ℕ → ℕ → ℕ → Bytes → W)) (w : W) {out : Bytes}
      (impl : RpcClientImpl)
      → IsLimits impl.limits
      → ((impl.conn_async ≡ none) × (out ≡ [])) ⊎ IsOpen host impl out
      → length (unsent impl) + length (net_str host request) < 2 ^ 32
      → IsWithin impl.limits request
      → (impl' : RpcClientImpl) × (call_rpc_async host handler none false service opcode payload sec
            w impl
          ≡ some (ok, w, impl'))
        × (impl'.limits ≡ impl.limits)
        × IsOpen host impl' (out ++ net_str host request)
  call_rpc_async-IsOpen handler w {out} impl v (inl (no_conn, no_out)) room within =
      let (c, run, waits, sent, empty) =
        recv_net_message-IsListening impl.limits (some (on_answer host handler)) w in
      let (impl', called, same, is_open) =
        call_on_async-IsOpen impl c v waits (rw no_out sent) (omega (arith, room, ap length empty))
          within in
      (impl', call_rpc_async_new handler w impl impl' no_conn run called, same, is_open)
  call_rpc_async-IsOpen handler w {out} impl v (inr o) room within =
      let (impl', called, same, is_open) =
        call_on_async-IsOpen impl o.conn v o.listens o.sent
          (omega (arith, room, ap length (unsent_there impl o.there))) within in
      (impl', call_rpc_async_open handler w impl impl' o.there called, same, is_open)
