-- ===== src/Client/RpcClientImpl/Async/Calls.antt =====
-- Several asynchronous calls of source/Client/RpcClientImpl.cpp, and what they are for the server's
-- connection of source/Network/TcpConnAsync.cpp.
use tzrpc.Prelude.{
  ℕ, zero, suc, ◌+◌, ◌^◌, ◌≤◌, ◌<◌, ◌≡◌, refl, sym, ap, ◌∙◌, subst, false, Option, none, some, List,
  [], ◌∷◌, ◌++◌, append-nil, append_assoc, map, arith, length, length-append, All, inl, inr,
}
use tzrpc.Core.Endian.{Endian, Bytes}
use tzrpc.Core.Message.{Message, net_str}
use tzrpc.Network.TcpConnAsync as Server
use tzrpc.Network.TcpConnAsync.{ConnConf}
use tzrpc.Network.TcpConnAsync.Parsing.{IsAccepted, stream}
use tzrpc.Network.TcpConnAsync.Framing.{handled}
use tzrpc.Network.TcpConnAsync.Stream.{joined, IsBlock, serve-stream}
use tzrpc.Network.TcpConnAsync.Read.{serve}
use tzrpc.Client.RpcClientStatus.{ok}
use tzrpc.Client.TcpConnSync.{ClientLimits}
use tzrpc.Client.TcpConnAsync.{TcpConnAsync, complete_writes}
use tzrpc.Client.TcpConnAsync.Simulation.{IsLimits}
use tzrpc.Client.TcpConnAsync.Order.{IsWithin, Sent-drains}
use tzrpc.Client.RpcClientImpl.{RpcClientImpl}
use tzrpc.Client.RpcClientImpl.Async.{call_rpc_async}
use tzrpc.Client.RpcClientImpl.Async.Pending.{
  IsOpen, request_message, unsent, unsent_there, call_rpc_async-IsOpen,
}

pub record Call : Type 0 where
  pub service : ℕ
  pub opcode : ℕ
  pub payload : Bytes
  pub timeout_sec : ℕ

module _ (host : Endian) {W : Type 0} (handler : Option (W → ℕ → ℕ → ℕ → Bytes → W)) where
  abbrev pub message_of : Call → Message
  message_of call = request_message host call.service call.opcode call.payload

  -- One call after the other, without an error of the connection; `none` where one is not OK.
  unfoldable pub call_all : List Call → W → RpcClientImpl → Option (W × RpcClientImpl)
  call_all [] w impl = some (w, impl)
  call_all (call ∷ rest) w impl =
      elim (call_rpc_async host handler none false call.service call.opcode call.payload
        call.timeout_sec w impl) [
          | some (zero, w', impl') ↦ call_all rest w' impl'
          | some (suc n, w', impl') ↦ none
          | none ↦ none
        ]

  -- The requests that the client's limit allows.
  abbrev pub AreWithin : ClientLimits → List Call → Type 0
  AreWithin limits calls = All (λ (call : Call). IsWithin limits (message_of call)) calls

  call_all-next :
      (call : Call) (rest : List Call) (w : W) (impl impl' : RpcClientImpl)
      → call_rpc_async host handler none false call.service call.opcode call.payload
          call.timeout_sec w impl
        ≡ some (ok, w, impl')
      → call_all (call ∷ rest) w impl ≡ call_all rest w impl'
  unfolding call_all
  call_all-next call rest w impl impl' called = ground (arith, called)

  -- What waits to be sent is a part of all that was to be sent.
  unsent_within :
      (impl : RpcClientImpl) (out : Bytes)
      → IsLimits impl.limits
      → IsOpen host impl out
      → length (unsent impl) ≤ length out
  unsent_within impl out v o =
      let c : TcpConnAsync = o.conn in
      let whole =
        (Sent-drains host impl.limits (length c.send_bound.buffer.bytes + 1) v o.sent
          (omega arith)).0 in
      omega (
        arith,
        ap length (unsent_there impl o.there),
        ap length whole,
        length-append c.net.socket.written c.send_bound.buffer.bytes,
      )

  unsent_none : (impl : RpcClientImpl) → impl.conn_async ≡ none → unsent impl ≡ []
  unsent_none impl no_conn = rw no_conn refl

  call_all-IsOpen :
      (calls : List Call) (w : W) (impl : RpcClientImpl) (out : Bytes)
      → IsLimits impl.limits
      → IsOpen host impl out
      → AreWithin impl.limits calls
      → length out + length (stream host (map message_of calls)) < 2 ^ 32
      → (impl' : RpcClientImpl) × (call_all calls w impl ≡ some (w, impl'))
        × (impl'.limits ≡ impl.limits)
        × IsOpen host impl' (out ++ stream host (map message_of calls))
  unfolding call_all
  call_all-IsOpen [] w impl out v o within small =
      (impl, refl, refl, subst (IsOpen host impl) (sym (append-nil out)) o)
  call_all-IsOpen (call ∷ rest) w impl out v o within small =
      let m = message_of call in
      let later = stream host (map message_of rest) in
      let split = length-append (net_str host m) later in
      let grown = length-append out (net_str host m) in
      let (next, called, same, o') =
        call_rpc_async-IsOpen host call.service call.opcode call.payload call.timeout_sec handler w
          impl v (inr o) (omega (arith, unsent_within impl out v o, split, small)) within.0 in
      let (last, run, same', o'') =
        call_all-IsOpen rest w next (out ++ net_str host m) (subst IsLimits (sym same) v) o'
          (subst (λ (l : ClientLimits). AreWithin l rest) (sym same) within.1)
          (omega (arith, split, grown, small)) in
      (
        last,
        call_all-next call rest w impl next called ∙ run,
        same' ∙ same,
        subst (IsOpen host last) (append_assoc out (net_str host m) later) o'',
      )

  -- Asynchronous calls one after the other, on a client that has no connection for them yet and
  -- without an error of the connection, are all OK at once; and once enough writes have ended the
  -- socket was given the requests one after the other. A connection of a server of either byte
  -- order that receives these bytes without an error, in blocks of at most 2048 bytes cut in any
  -- way, gives the dispatcher each request once and in the order of the calls. There is at least
  -- one call, the requests are within the limits of both sides and together shorter than 2 ^ 32
  -- bytes, and no timer runs out meanwhile.
  pub call_all-serve :
      (server : Endian) (conf : ConnConf) {V : Type 0} (handle_rpc : V → Bytes → V × List Message)
      (s : V) (call : Call) (rest : List Call) (w : W) (impl : RpcClientImpl) (chunks : List Bytes)
      → IsLimits impl.limits
      → impl.conn_async ≡ none
      → AreWithin impl.limits (call ∷ rest)
      → length (stream host (map message_of (call ∷ rest))) < 2 ^ 32
      → All (IsAccepted conf) (map message_of (call ∷ rest))
      → All IsBlock chunks
      → joined chunks ≡ stream host (map message_of (call ∷ rest))
      → (impl' : RpcClientImpl) × (c : TcpConnAsync) × (d : Server.TcpConnAsync) × (call_all
            (call ∷ rest)
            w
            impl
          ≡ some (w, impl'))
        × (impl'.conn_async ≡ some c)
        × ((complete_writes (length (joined chunks) + 1) c).net.socket.written ≡ joined chunks)
        × (serve server conf handle_rpc s chunks
            ≡ some (handled handle_rpc s (map message_of (call ∷ rest)), d))
  call_all-serve server conf handle_rpc s call rest w impl chunks v no_conn within small accepted
        blocks sent =
      let m = message_of call in
      let later = stream host (map message_of rest) in
      let split = length-append (net_str host m) later in
      let (next, called, same, o) =
        call_rpc_async-IsOpen host call.service call.opcode call.payload call.timeout_sec handler w
          impl v (inl (no_conn, refl))
          (omega (arith, ap length (unsent_none impl no_conn), split, small)) within.0 in
      let (last, run, same', o') =
        call_all-IsOpen rest w next (net_str host m) (subst IsLimits (sym same) v) o
          (subst (λ (l : ClientLimits). AreWithin l rest) (sym same) within.1)
          (omega (arith, split, small)) in
      let v' : IsLimits last.limits = subst IsLimits (sym (same' ∙ same)) v in
      let bound = unsent_within last (net_str host m ++ later) v' o' in
      let drained =
        Sent-drains host last.limits (length (joined chunks) + 1) v' o'.sent
          (omega (arith, ap length sent, bound, ap length (unsent_there last o'.there))) in
      let (d, served, idle) =
        serve-stream server host conf handle_rpc s (map message_of (call ∷ rest)) chunks accepted
          blocks sent in
      (
        last,
        o'.conn,
        d,
        call_all-next call rest w impl next called ∙ run,
        o'.there,
        drained.1 ∙ sym sent,
        served,
      )
