-- ===== src/Protocol/XtraTaskService/Echo.antt =====
-- An echo on its whole way: from the payload of a connection through source/RPC/Dispatcher.cpp, the
-- queue of source/RPC/Executor.cpp and source/Protocol/ServiceImpl/XtraTaskService.cpp back to the
-- connection of source/Network/TcpConnAsync.cpp, and to the caller in source/Client/RpcClientImpl.cpp.
use tzrpc.Prelude.{
  ℕ, ◌+◌, ◌*◌, ◌^◌, ◌≤◌, ◌<◌, ◌≡◌, ◌≢◌, refl, sym, ap, ◌∙◌, true, Option, none, some, List, [], ◌∷◌,
  arith, length, ◌⊎◌, length-append, ==_iff,
}
use tzrpc.Prelude.Int.{pos}
use tzrpc.Core.Endian.{Endian, Bytes}
use tzrpc.Core.Message.{Message, of_data, net_str}
use tzrpc.Core.Message.Codec.{length-net_str}
use tzrpc.Network.NetConn.{io_buffer_size}
use tzrpc.Network.TcpConnAsync.{
  ConnConf, TcpConnAsync, async_send_message, send_all, complete_writes, is_zero, to_u32,
}
use tzrpc.Network.TcpConnAsync.Order.{
  IsUnused, opened, taken, Sent-in_order, complete_writes-drains,
}
use tzrpc.Network.TcpConnAsync.Stream.{joined}
use tzrpc.Rpc.Request
use tzrpc.Rpc.Request.{RpcRequestMessage, of_call}
use tzrpc.Rpc.Response
use tzrpc.Rpc.Response.{of_reply}
use tzrpc.Rpc.RpcInstance.{RpcInstance, new_instance}
use tzrpc.Rpc.RpcInstance.Validate.{IsRequest, holding}
use tzrpc.Rpc.Executor
use tzrpc.Rpc.Executor.{Executor, service_turn}
use tzrpc.Rpc.Dispatcher.{Dispatcher, find, handle_payload}
use tzrpc.Rpc.Dispatcher.Routing.{handle_payload-net_str}
use tzrpc.Client.RpcClientStatus.{ok}
use tzrpc.Client.TcpConnSync.Receive.{IsAnswer}
use tzrpc.Client.TcpConnAsync.Order.{IsWithin}
use tzrpc.Client.RpcClientImpl.{RpcClientImpl, finished, call_rpc}
use tzrpc.Client.RpcClientImpl.Exchange.{IsIdle, connection, healthy, call_rpc-of_reply}
use tzrpc.Client.RpcClientImpl.Async.Pending.{request_message}
use tzrpc.Protocol.XtraTaskService.{ReadRequest, ReadResponse, cmd_read}
use tzrpc.Protocol.XtraTaskService as XtraTaskService
use tzrpc.Protocol.XtraTaskService.Answers.{echoed, IsEcho, handle_rpc_echo}

module _ (server : Endian) (unmarshal : Bytes → Option ReadRequest) (marshal : ReadResponse → Bytes)
    (conf : ConnConf) (full_socket : ℕ) where
  -- The service works on a request of the connection.
  abbrev pub on_request : TcpConnAsync → RpcInstance → TcpConnAsync
  on_request c i = send_all server conf c (XtraTaskService.handle_rpc server unmarshal marshal i)

  -- The connection once a payload went to the dispatcher, the executor of the service made a turn, and
  -- `k` writes ended.
  abbrev pub answered : ℕ → ℕ → Dispatcher (Executor TcpConnAsync) → Bytes → Option TcpConnAsync
  answered k id d payload =
      elim (find id (handle_payload server Executor.handle_rpc full_socket d payload).0.services) [
        | none ↦ none
        | some e ↦ some (complete_writes conf k (service_turn on_request e).service_impl)
      ]

  turn-handle_rpc :
      (e : Executor TcpConnAsync) (i : RpcInstance)
      → e.rpc_queue ≡ []
      → (service_turn on_request (Executor.handle_rpc e i)).service_impl
        ≡ on_request e.service_impl i
  unfolding service_turn Executor.handle_rpc
  turn-handle_rpc e i empty = ground (arith, empty)

  send_all-one :
      (c : TcpConnAsync) (m : Message)
      → send_all server conf c (m ∷ []) ≡ (async_send_message server conf c m).1
  unfolding send_all
  send_all-one c m = refl

  send_taken :
      (c : TcpConnAsync) (m : Message)
      → (is_zero conf.send_max_msg_size ≡ true) ⊎ (m.header.length ≤ to_u32 conf.send_max_msg_size)
      → (async_send_message server conf c m).0 ≡ pos 0
  unfolding async_send_message
  send_taken c m within = ground (arith, within)

  -- The answer to an echo, and whether the server's limit allows it.
  abbrev pub answer : ℕ → Bytes → Message
  answer id text =
      of_data
        (Response.net_str server (of_reply id cmd_read (echoed server unmarshal marshal text)))

  abbrev pub IsAllowed : Message → Type 0
  IsAllowed m =
      (is_zero conf.send_max_msg_size ≡ true) ⊎ (m.header.length ≤ to_u32 conf.send_max_msg_size)

  -- A message that an unused connection sends is on the socket after enough ends of writes.
  sent_alone :
      (k : ℕ) (c : TcpConnAsync) (m : Message)
      → IsUnused c
      → IsAllowed m
      → length (net_str server m) < 2 ^ 32
      → length (net_str server m) + io_buffer_size ≤ io_buffer_size * k
      → (complete_writes conf k (async_send_message server conf c m).1).net.socket.written
        ≡ net_str server m
  sent_alone k c m fresh allowed small enough =
      let d = (async_send_message server conf c m).1 in
      let sent =
        taken m (opened c fresh) (omega (arith, small, ap length fresh.nothing_queued))
          (send_taken c m allowed) in
      let whole = ap length (Sent-in_order server conf sent).0 in
      (complete_writes-drains server conf k sent (
        omega
          (arith, enough, whole, length-append d.net.socket.written d.send_bound.buffer.bytes))).0

  module _ (client : Endian) (id : ℕ) (payload text : Bytes) where
    -- The request for an echo as the payload of the client's message.
    abbrev pub request : RpcRequestMessage
    request = of_call id cmd_read payload

    abbrev pub request_bytes : Bytes
    request_bytes = Request.net_str client request

    turned :
        (k : ℕ) (e : Executor TcpConnAsync)
        → e.rpc_queue ≡ []
        → IsUnused e.service_impl
        → IsEcho server unmarshal marshal payload text
        → IsAllowed (answer id text)
        → length (net_str server (answer id text)) < 2 ^ 32
        → length (net_str server (answer id text)) + io_buffer_size ≤ io_buffer_size * k
        → (complete_writes conf k
            (service_turn on_request (
              Executor.handle_rpc e
                (holding full_socket request request_bytes))).service_impl).net.socket.written
          ≡ net_str server (answer id text)
    unfolding of_call new_instance
    turned k e empty fresh decoded allowed small enough =
        ap (λ (c : TcpConnAsync). (complete_writes conf k c).net.socket.written)
          (turn-handle_rpc e (holding full_socket request request_bytes) empty
            ∙ ap (send_all server conf e.service_impl) (
                handle_rpc_echo server unmarshal marshal (holding full_socket request request_bytes)
                  text refl refl refl decoded)
            ∙ send_all-one e.service_impl (answer id text))
        ∙ sent_alone k e.service_impl (answer id text) fresh allowed small enough

    pub answered_echo :
        (k : ℕ) (d : Dispatcher (Executor TcpConnAsync)) (e : Executor TcpConnAsync)
        → find id d.services ≡ some e
        → IsRequest request
        → payload ≢ []
        → answered k id d request_bytes
          ≡ some (
              complete_writes conf k
                (service_turn on_request
                  (Executor.handle_rpc e (holding full_socket request request_bytes))).service_impl)
    unfolding of_call
    answered_echo k d e found v some_payload =
        let routed =
          (handle_payload-net_str server Executor.handle_rpc full_socket d client request e id v
            some_payload found).0 in
        ground (arith, routed, ==_iff id id)

    -- An echo goes around. Where the service is registered under the id of a well-formed request
    -- whose payload decodes to an echo and is not empty, its executor has no other work and the
    -- connection has not sent anything yet, the connection sends the answer, once the executor has
    -- made a turn and `k` writes have ended; and the synchronous call of a client of either byte
    -- order, whose request it was and which receives what the connection sent in any pieces, ends
    -- with OK and, encoded, the text behind "echo:". The request and the answer are within the
    -- limits of both sides, and the writes are enough for them. The server's address is one, the
    -- connection can be made, and no timer runs out during the call, whatever its timeout.
    pub call_rpc-echo :
        (k n sec : ℕ) (d : Dispatcher (Executor TcpConnAsync)) (e : Executor TcpConnAsync)
        (respload : Bytes) (c : TcpConnAsync) (chunks : List Bytes) (impl : RpcClientImpl)
        → find id d.services ≡ some e
        → IsRequest request
        → payload ≢ []
        → e.rpc_queue ≡ []
        → IsUnused e.service_impl
        → IsEcho server unmarshal marshal payload text
        → IsAllowed (answer id text)
        → length (net_str server (answer id text)) + io_buffer_size ≤ io_buffer_size * k
        → IsIdle (connection impl)
        → IsWithin impl.limits (request_message client id cmd_read payload)
        → length (net_str client (request_message client id cmd_read payload)) < 2 ^ 32
        → length (net_str client (request_message client id cmd_read payload)) ≤ io_buffer_size * n
        → IsAnswer impl.limits (answer id text)
        → answered k id d request_bytes ≡ some c
        → joined chunks ≡ c.net.socket.written
        → (impl' : RpcClientImpl) × (call_rpc client
              (healthy n chunks)
              id
              cmd_read
              payload
              respload
              sec
              impl
            ≡ finished ok (echoed server unmarshal marshal text) impl')
          × IsIdle (connection impl')
    unfolding of_call
    call_rpc-echo k n sec d e respload c chunks impl found v some_payload empty fresh decoded
          allowed enough idle within small few is_answer served received =
        let sent : c.net.socket.written ≡ net_str server (answer id text) =
          ap
            (λ (o : Option TcpConnAsync). elim o [
              | none ↦ c.net.socket.written
              | some d ↦ d.net.socket.written
            ])
            (sym served ∙ answered_echo k d e found v some_payload)
          ∙ turned k e empty fresh decoded allowed
              (omega
                (arith, is_answer.fits, length-net_str server (answer id text) is_answer.header))
              enough in
        let (impl', run, same, there, idle', wrote) =
          call_rpc-of_reply client server id cmd_read payload (echoed server unmarshal marshal text)
            respload n chunks sec impl v.header.service_fits (omega arith) idle within small few
            is_answer (received ∙ sent) in
        (impl', run, idle')
