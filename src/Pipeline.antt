-- ===== src/Pipeline.antt =====
-- From the asynchronous calls of a client, source/Client/RpcClientImpl.cpp, through the server's
-- connection, source/Network/TcpConnAsync.cpp, and source/RPC/Dispatcher.cpp to the service behind an
-- executor, source/RPC/Executor.cpp.
use tzrpc.Prelude.{
  ℕ, ◌+◌, ◌^◌, ◌<◌, ◌≡◌, ◌≢◌, Option, none, some, List, [], ◌∷◌, map, foldl, take, drop, arith,
  length, All, ==_iff,
}
use tzrpc.Core.Endian.{Endian, Bytes}
use tzrpc.Core.Message.{Message, of_data}
use tzrpc.Network.TcpConnAsync as Server
use tzrpc.Network.TcpConnAsync.{ConnConf}
use tzrpc.Network.TcpConnAsync.Parsing.{IsAccepted, stream}
use tzrpc.Network.TcpConnAsync.Framing.{handled}
use tzrpc.Network.TcpConnAsync.Stream.{joined, IsBlock}
use tzrpc.Network.TcpConnAsync.Read.{serve}
use tzrpc.Rpc.Request
use tzrpc.Rpc.Request.{of_call}
use tzrpc.Rpc.RpcInstance.{RpcInstance}
use tzrpc.Rpc.RpcInstance.Validate.{IsRequest, holding}
use tzrpc.Rpc.Executor
use tzrpc.Rpc.Executor.{Executor, ThreadStatus, executor_service_run}
use tzrpc.Rpc.Executor.Order.{pushed, working, told, executor_service_run-pushed}
use tzrpc.Rpc.Dispatcher.{Dispatcher, find, handle_payload}
use tzrpc.Rpc.Dispatcher.Routing.{handle_payload-net_str}
use tzrpc.Client.TcpConnAsync.{TcpConnAsync, complete_writes}
use tzrpc.Client.TcpConnAsync.Simulation.{IsLimits}
use tzrpc.Client.RpcClientImpl.{RpcClientImpl}
use tzrpc.Client.RpcClientImpl.Async.Calls.{Call, message_of, call_all, AreWithin, call_all-serve}

-- A call of that service that the dispatcher takes.
pub record IsCallOf (id : ℕ) (call : Call) : Type 0 where
  pub asked : call.service ≡ id
  pub request : IsRequest (of_call call.service call.opcode call.payload)
  pub some_payload : call.payload ≢ []

-- What the service gets for a call.
abbrev pub instance_of : Endian → ℕ → Call → RpcInstance
instance_of host full_socket call =
    let m = of_call call.service call.opcode call.payload in
    holding full_socket m (Request.net_str host m)

module _ {S : Type 0} (server client : Endian) (service_handle : S → RpcInstance → S)
    (full_socket id : ℕ) {W : Type 0} (handler : Option (W → ℕ → ℕ → ℕ → Bytes → W)) where
  -- The dispatcher over executors takes a payload of a connection.
  abbrev pub take_payload : Dispatcher (Executor S) → Bytes → Dispatcher (Executor S) × List Message
  take_payload = handle_payload server Executor.handle_rpc full_socket

  abbrev pub messages : List Call → List Message
  messages calls = map (message_of client handler) calls

  next_pushed :
      (call : Call) (d : Dispatcher (Executor S)) (e : Executor S)
      → find id d.services ≡ some e
      → IsCallOf id call
      → find id (take_payload d (message_of client handler call).payload).0.services
        ≡ some (Executor.handle_rpc e (instance_of client full_socket call))
  unfolding of_data of_call
  next_pushed call d e found v =
      let m = of_call call.service call.opcode call.payload in
      let found' : find call.service d.services ≡ some e = rw (v.asked) found in
      ground (
        arith,
        (handle_payload-net_str server Executor.handle_rpc full_socket d client m e id v.request
            v.some_payload found').0,
        ==_iff call.service id,
        v.asked,
      )

  handled-pushed :
      (calls : List Call) (d : Dispatcher (Executor S)) (e : Executor S)
      → find id d.services ≡ some e
      → All (IsCallOf id) calls
      → find id (handled take_payload d (messages calls)).services
        ≡ some (pushed service_handle e (map (instance_of client full_socket) calls))
  handled-pushed [] d e found all = found
  handled-pushed (call ∷ rest) d e found all =
      handled-pushed rest (take_payload d (message_of client handler call).payload).0
        (Executor.handle_rpc e (instance_of client full_socket call))
        (next_pushed call d e found all.0) all.1

  -- Asynchronous calls of one service, one after the other, on a client that has no connection for
  -- them yet and without an error of the connection, are all OK at once; once enough writes have
  -- ended the socket was given their requests; and a server of either byte order that receives
  -- these bytes, in blocks of at most 2048 bytes cut in any way, puts each request into the queue
  -- of that service's executor, whose thread hands the service as many of them as it finds itself
  -- running before it is told to terminate, each once and in the order of the calls. There is at
  -- least one call, the requests are well formed, have payloads, are within the limits of both
  -- sides and together shorter than 2 ^ 32 bytes, the service is registered and its queue was
  -- empty, and no timer runs out meanwhile.
  pub call_all-executor_service_run :
      (conf : ConnConf) (d : Dispatcher (Executor S)) (e : Executor S)
      (statuses : List ThreadStatus) (call : Call) (rest : List Call) (w : W) (impl : RpcClientImpl)
      (chunks : List Bytes)
      → IsLimits impl.limits
      → impl.conn_async ≡ none
      → AreWithin client handler impl.limits (call ∷ rest)
      → length (stream client (messages (call ∷ rest))) < 2 ^ 32
      → All (IsAccepted conf) (messages (call ∷ rest))
      → All (IsCallOf id) (call ∷ rest)
      → find id d.services ≡ some e
      → e.rpc_queue ≡ []
      → All IsBlock chunks
      → joined chunks ≡ stream client (messages (call ∷ rest))
      → (impl' : RpcClientImpl) × (c : TcpConnAsync) × (d' : Dispatcher (Executor S))
        × (e' : Executor S) × (conn : Server.TcpConnAsync) × (call_all client handler
              (call ∷ rest)
              w
              impl
            ≡ some (w, impl'))
        × (impl'.conn_async ≡ some c)
        × ((complete_writes (length (joined chunks) + 1) c).net.socket.written ≡ joined chunks)
        × (serve server conf take_payload d chunks ≡ some (d', conn))
        × (find id d'.services ≡ some e')
        × (executor_service_run service_handle statuses e' ≡ (
          told statuses,
          record e {
            service_impl =
                foldl service_handle e.service_impl
                  (take (working statuses) (map (instance_of client full_socket) (call ∷ rest)));
            rpc_queue =
                drop (working statuses) (map (instance_of client full_socket) (call ∷ rest));
          },
        ))
  call_all-executor_service_run conf d e statuses call rest w impl chunks v no_conn within small
        accepted calls found empty blocks sent =
      let (impl', c, conn, called, there, written, served) =
        call_all-serve client handler server conf take_payload d call rest w impl chunks v no_conn
          within small accepted blocks sent in
      let is = map (instance_of client full_socket) (call ∷ rest) in
      (
        impl',
        c,
        handled take_payload d (messages (call ∷ rest)),
        pushed service_handle e is,
        conn,
        called,
        there,
        written,
        served,
        handled-pushed (call ∷ rest) d e found calls,
        executor_service_run-pushed service_handle statuses is e empty,
      )
