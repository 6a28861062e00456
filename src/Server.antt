-- ===== src/Server.antt =====
-- The whole server: its connections, by their numbers, hand the payloads that they receive to
-- source/RPC/Dispatcher.cpp, threads of the executors of source/RPC/Executor.cpp take what waits and
-- answer it side by side, and an answer goes to the connection that the request came from. How a connection cuts its bytes
-- into payloads, and how it sends, is in Network/TcpConnAsync.
pub mod Counting
pub mod Staying
pub mod Answering
pub mod Alone
pub mod Isolation
pub mod Draining
pub mod Completion
use tzrpc.Prelude.{
  ℕ, suc, ◌+◌, Bool, true, false, not, ◌||◌, ◌&&◌, none, some, List, [], ◌∷◌, ◌++◌, ◌==◌, take,
  get_elem?, erase_idx, if◌then◌else◌,
}
use tzrpc.Core.Endian.{Endian, Bytes}
use tzrpc.Core.Message.{Message}
use tzrpc.Rpc.RpcInstance.{RpcInstance}
use tzrpc.Rpc.Executor
use tzrpc.Rpc.Executor.{Executor, service_turn}
use tzrpc.Rpc.Dispatcher.{Dispatcher, find, assign, handle_payload}
use tzrpc.Protocol.XtraTaskService.{XtraTaskService}

-- The calls of `async_send_message`: each message with the number of the connection that it is handed to.
-- What that call makes of it, the refusal of a message over `send_max_msg_size` among it, is in
-- Network/TcpConnAsync.
abbrev pub Outbox : Type 0
Outbox = List (ℕ × Message)

abbrev pub tagged : ℕ → List Message → Outbox
tagged conn [] = []
tagged conn (m ∷ ms) = (conn, m) ∷ tagged conn ms

-- `taken` holds the requests that threads have taken from a queue and not yet answered, in the order in
-- which they were taken; `handed` the answers handed to connections; `gone` the numbers of the connections whose object is destroyed.
pub record Server : Type 0 where
  pub dispatcher : Dispatcher (Executor XtraTaskService)
  pub taken : List RpcInstance
  pub handed : Outbox
  pub gone : List ℕ

abbrev pub has_number : ℕ → List ℕ → Bool
has_number k [] = false
has_number k (j ∷ js) = j == k || has_number k js

-- A connection receives a payload; a thread of the executor of a service takes a request; the thread that
-- has the request at that place of `taken` answers it; or a connection is destroyed.
pub data Event : Type 0 where
  arrives : ℕ → Bytes → Event
  takes : ℕ → Event
  finishes : ℕ → Event
  leaves : ℕ → Event

-- POP alone: a turn in which the service does nothing.
abbrev pub popped : Executor XtraTaskService → Executor XtraTaskService
popped e = service_turn (λ s i. s) e

unfoldable pub take_request : ℕ → Server → Server
take_request id srv = elim (find id srv.dispatcher.services) [
  | none ↦ srv
  | some e ↦ record srv {
    dispatcher = record (srv.dispatcher) {
      services = assign id (popped e) srv.dispatcher.services;
    };
    taken = srv.taken ++ take 1 e.rpc_queue;
  }
]

module _ (host : Endian) (service : RpcInstance → List Message) where
  unfoldable pub arrive : ℕ → Bytes → Server → Server
  arrive conn payload srv =
      let (d, replies) = handle_payload host Executor.handle_rpc conn srv.dispatcher payload in
      if has_number conn srv.gone
      then srv
      else record srv { dispatcher = d; handed = srv.handed ++ tagged conn replies }

  -- `full_socket_.lock()` is called while the service answers.
  unfoldable pub answer : List ℕ → RpcInstance → Outbox
  answer gone i =
      tagged i.full_socket
        (service (record i { socket_alive = not (has_number i.full_socket gone) }))

  unfoldable pub finish : ℕ → Server → Server
  unfolding answer
  finish n srv = elim (get_elem? srv.taken n) [
    | none ↦ srv
    | some i ↦ record srv {
      taken = erase_idx srv.taken n;
      handed = srv.handed ++ answer srv.gone i;
    }
  ]

  unfoldable pub step : Event → Server → Server
  unfolding arrive take_request finish
  step (arrives conn payload) srv = arrive conn payload srv
  step (takes id) srv = take_request id srv
  step (finishes n) srv = finish n srv
  step (leaves conn) srv = record srv { gone = conn ∷ srv.gone }

  unfoldable pub run : List Event → Server → Server
  unfolding step
  run [] srv = srv
  run (event ∷ rest) srv = run rest (step event srv)
