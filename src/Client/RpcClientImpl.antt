-- ===== src/Client/RpcClientImpl.antt =====
-- source/Client/RpcClientImpl.{h,cpp}: the client's calls.
-- What the network does during a call is an argument: whether the server's address is one, whether the connection is made, what the socket
-- answers, and at which of three points the call's timer runs out. Times are left out.
pub mod Answer
pub mod Exchange
pub mod Timeout
pub mod Timer
pub mod Async
use tzrpc.Prelude.{
  ℕ, Bool, true, false, ◌||◌, not, Option, none, some, List, [], ◌==◌, if◌then◌else◌,
}
use tzrpc.Core.Endian.{Endian, Bytes}
use tzrpc.Core.Message.{Message, of_data, empty_message}
use tzrpc.Network.NetConn.{ErrorCode, fresh_socket}
use tzrpc.Rpc.Request
use tzrpc.Rpc.Request.{rpc_header_magic, of_call}
use tzrpc.Rpc.Response
use tzrpc.Rpc.Response.{RpcResponseMessage, RpcResponseStatus, empty_response, status_code}
use tzrpc.Client.RpcClientStatus.{
  ok, network_connect_error, network_send_error, network_recv_error, rpc_call_timeout_status,
  recv_format_error,
}
use tzrpc.Client.TcpConnAsync as Client_async
use tzrpc.Client.TcpConnSync.{
  ClientLimits, TcpConnSync, ReadResult, CallResult, returned, blocked, new_connection,
  send_net_message, recv_net_message, shutdown_and_close_socket,
}

-- `timer` holds the seconds that `rpc_call_timer_` waits for, if it waits, and whether for the
-- synchronous connection.
pub record RpcClientImpl : Type 0 where
  pub limits : ClientLimits
  pub was_timeout : Bool
  pub timer : Option (ℕ × Bool)
  pub conn_sync : Option TcpConnSync
  pub conn_async : Option Client_async.TcpConnAsync

-- `is_address` tells whether `address::from_string` takes the server's address; otherwise it throws.
pub record Env : Type 0 where
  pub is_address : Bool
  pub connect : Option ErrorCode
  pub sent : List (Option ErrorCode)
  pub received : List ReadResult
  pub expires_before_send : Bool
  pub expires_in_send : Bool
  pub expires_in_recv : Bool

-- How a call ends: with its status and the string for the response, not yet, with an exception, or in
-- a call through a null pointer.
pub data CallOutcome : Type 0 where
  finished : ℕ → Bytes → RpcClientImpl → CallOutcome
  hangs : RpcClientImpl → CallOutcome
  throws crashes : CallOutcome

unfoldable pub new_client : ClientLimits → RpcClientImpl
new_client limits = record {
  limits = limits;
  was_timeout = false;
  timer = none;
  conn_sync = none;
  conn_async = none;
}

unfoldable pub set_rpc_call_timeout : ℕ → Bool → RpcClientImpl → RpcClientImpl
set_rpc_call_timeout sec sync impl =
    if sec == 0 then impl else record impl { was_timeout = false; timer = some (sec, sync) }

abbrev pub mark_timeout : RpcClientImpl → RpcClientImpl
mark_timeout impl = record impl { was_timeout = true; timer = none }

-- The timer's handler. Where the connection is not there any more the source calls through a null
-- pointer, which is the `none`.
unfoldable pub rpc_call_timeout : Option ErrorCode → Bool → RpcClientImpl → Option RpcClientImpl
rpc_call_timeout (some ec) sync impl = some impl
rpc_call_timeout none true impl = elim (impl.conn_sync) [
  | none ↦ none
  | some c ↦ some (record (mark_timeout impl) { conn_sync = some (shutdown_and_close_socket c) })
]
rpc_call_timeout none false impl = elim (impl.conn_async) [
  | none ↦ none
  | some c ↦
      some (record (mark_timeout impl) {
        conn_async = some (Client_async.shutdown_and_close_socket c);
      })
]

-- The timer runs out during a synchronous call's work on a connection, if it waits. A timer that an
-- asynchronous call left closes that call's connection instead; where that is gone the source calls
-- through a null pointer, which is the `none`.
unfoldable pub expire : Bool → RpcClientImpl → TcpConnSync → Option (RpcClientImpl × TcpConnSync)
expire fires impl c = elim (impl.timer) [
  | none ↦ some (impl, c)
  | some (sec, sync) ↦
      if not fires
      then some (impl, c)
      else if sync
      then some (mark_timeout impl, shutdown_and_close_socket c)
      else elim (impl.conn_async) [
        | none ↦ none
        | some d ↦ some (
          record (mark_timeout impl) {
            conn_async = some (Client_async.shutdown_and_close_socket d);
          },
          c,
        )
      ]
]

-- The destructor.
unfoldable pub destroy : RpcClientImpl → RpcClientImpl
destroy impl = record impl {
  conn_sync = elim (impl.conn_sync) [ none ↦ none | some c ↦ some (shutdown_and_close_socket c) ];
  conn_async = elim (impl.conn_async) [
    | none ↦ none
    | some c ↦ some (Client_async.shutdown_and_close_socket c)
  ];
}

-- `io_service` tells whether the settings bring one; otherwise one of Roo's is set up, or not.
unfoldable pub init : Bool → Bool → Bool
init io_service roo_io_service = io_service || roo_io_service

-- From `RpcResponseMessageParse` on: the status, and what `respload` holds then.
unfoldable pub check_response : Endian → ℕ → ℕ → Bytes → Bytes → ℕ × Bytes
check_response host service_id opcode payload respload =
    let (parsed, m) = Response.parse host payload empty_response in
    if not parsed
    then (recv_format_error, respload)
    else if not (m.header.magic == rpc_header_magic)
        || not (m.header.service_id == service_id)
        || not (m.header.opcode == opcode)
    then (recv_format_error, respload)
    else if not (m.header.status == status_code RpcResponseStatus.ok)
    then (m.header.status, respload)
    else (ok, m.payload)

-- A send or a receive that failed drops the connection.
unfoldable pub fail_call : ℕ → Bytes → RpcClientImpl → CallOutcome
fail_call status respload impl =
    finished (if impl.was_timeout then rpc_call_timeout_status else status) respload
      (record impl { conn_sync = none })

module _ (host : Endian) (env : Env) (service_id opcode : ℕ) (payload respload : Bytes) where
  unfoldable pub after_recv : RpcClientImpl → CallResult × Message → CallOutcome
  unfolding expire check_response fail_call
  after_recv impl (blocked c, msg) = hangs (record impl { conn_sync = some c })
  after_recv impl (returned false c, msg) = elim (expire env.expires_in_recv impl c) [
    | none ↦ crashes
    | some (impl', c') ↦ fail_call network_recv_error respload impl'
  ]
  after_recv impl (returned true c, msg) = elim (expire env.expires_in_recv impl c) [
    | none ↦ crashes
    | some (impl', c') ↦
        let (status, out) = check_response host service_id opcode msg.payload respload in
        finished status out (record impl' { conn_sync = some c' })
  ]

  unfoldable pub after_send : RpcClientImpl → CallResult → CallOutcome
  unfolding expire fail_call after_recv
  after_send impl (blocked c) = hangs (record impl { conn_sync = some c })
  after_send impl (returned false c) = elim (expire env.expires_in_send impl c) [
    | none ↦ crashes
    | some (impl', c') ↦ fail_call network_send_error respload impl'
  ]
  after_send impl (returned true c) = elim (expire env.expires_in_send impl c) [
    | none ↦ crashes
    | some (impl', c') ↦
        after_recv impl' (recv_net_message host impl'.limits c' empty_message env.received)
  ]

  -- The call on a connection that is there.
  unfoldable pub call_on : TcpConnSync → ℕ → RpcClientImpl → CallOutcome
  unfolding set_rpc_call_timeout expire after_send
  call_on c timeout_sec impl =
      let request = of_data (Request.net_str host (of_call service_id opcode payload)) in
      elim (expire env.expires_before_send (set_rpc_call_timeout timeout_sec true impl) c) [
        | none ↦ crashes
        | some (impl', c') ↦
            after_send impl' (send_net_message host impl'.limits c' request env.sent)
      ]

  unfoldable pub call_rpc : ℕ → RpcClientImpl → CallOutcome
  unfolding call_on
  call_rpc timeout_sec impl = elim (impl.conn_sync) [
    | some c ↦ call_on c timeout_sec impl
    | none ↦ if not env.is_address then throws else elim (env.connect) [
      | some ec ↦ finished network_connect_error respload impl
      | none ↦ call_on (new_connection fresh_socket) timeout_sec impl
    ]
  ]

-- What `async_recv_wrapper` hands to the user's handler: the status, the service, the operation and the
-- response. Where it fails the ids are the largest uint16_t and the response is empty.
unfoldable pub async_recv_wrapper : Endian → Message → ℕ × ℕ × ℕ × Bytes
async_recv_wrapper host net_message =
    let (parsed, m) = Response.parse host net_message.payload empty_response in
    if not parsed
    then (recv_format_error, 65535, 65535, [])
    else if not (m.header.magic == rpc_header_magic)
    then (recv_format_error, 65535, 65535, [])
    else if not (m.header.status == status_code RpcResponseStatus.ok)
    then (m.header.status, 65535, 65535, [])
    else (ok, m.header.service_id, m.header.opcode, m.payload)
