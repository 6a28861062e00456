-- ===== src/Server/Counting.antt =====
-- Counting the requests of a connection of the server, and what the dispatcher adds to them.
use tzrpc.Prelude.{
  ℕ, ◌+◌, ◌≡◌, ap, Bool, true, false, inl, inr, Option, none, some, List, [], ◌∷◌, ◌++◌, ◌==◌,
  arith, length, if◌then◌else◌, Bool-cases,
}
use tzrpc.Core.Endian.{Endian, Bytes}
use tzrpc.Core.Message.{Message}
use tzrpc.Rpc.Response.{RpcResponseStatus}
use tzrpc.Rpc.RpcInstance.{RpcInstance, new_instance, validate_request, reject, validate_payload}
use tzrpc.Rpc.Executor
use tzrpc.Rpc.Executor.{Executor, service_turn}
use tzrpc.Rpc.Dispatcher.{Dispatcher, find, assign, handle_payload}
use tzrpc.Rpc.Dispatcher.Routing.{Routed}
use tzrpc.Server.{Outbox, tagged, Server, Event, arrives, takes, finishes, leaves}
use tzrpc.Protocol.XtraTaskService.{XtraTaskService}

-- How many of the messages are handed to the connection `k`, and how many requests of it wait.
abbrev pub handed_by : ℕ → Outbox → ℕ
handed_by k [] = 0
handed_by k ((j, m) ∷ rest) = (if j == k then 1 else 0) + handed_by k rest

abbrev pub queued : ℕ → List RpcInstance → ℕ
queued k [] = 0
queued k (i ∷ rest) = (if i.full_socket == k then 1 else 0) + queued k rest

abbrev pub waiting : ℕ → List (ℕ × Executor XtraTaskService) → ℕ
waiting k [] = 0
waiting k ((id, e) ∷ rest) = queued k e.rpc_queue + waiting k rest

-- How many payloads the connection receives.
abbrev pub requests : ℕ → List Event → ℕ
requests k [] = 0
requests k (arrives j payload ∷ rest) = (if j == k then 1 else 0) + requests k rest
requests k (takes id ∷ rest) = requests k rest
requests k (finishes n ∷ rest) = requests k rest
requests k (leaves j ∷ rest) = requests k rest

-- Whether it stays.
abbrev pub stays : ℕ → List Event → Bool
stays k [] = true
stays k (arrives j payload ∷ rest) = stays k rest
stays k (takes id ∷ rest) = stays k rest
stays k (finishes n ∷ rest) = stays k rest
stays k (leaves j ∷ rest) = if j == k then false else stays k rest

-- What was handed to the connection, what of it waits, and what of it threads have taken.
abbrev pub accounted : ℕ → Server → ℕ
accounted k srv = handed_by k srv.handed + waiting k srv.dispatcher.services + queued k srv.taken

module _ (k : ℕ) where
  pub handed_by-append : (a b : Outbox) → handed_by k (a ++ b) ≡ handed_by k a + handed_by k b
  handed_by-append [] b = omega arith
  handed_by-append ((j, m) ∷ rest) b = omega (arith, handed_by-append rest b)

  pub handed_by-tagged :
      (j : ℕ) (ms : List Message) → handed_by k (tagged j ms) ≡ (if j == k then length ms else 0)
  handed_by-tagged j [] = ground arith
  handed_by-tagged j (m ∷ ms) = ground (arith, handed_by-tagged j ms)

  pub queued-append : (a b : List RpcInstance) → queued k (a ++ b) ≡ queued k a + queued k b
  queued-append [] b = omega arith
  queued-append (i ∷ rest) b = omega (arith, queued-append rest b)

  pub waiting-assign :
      (id : ℕ) (e new : Executor XtraTaskService) (l : List (ℕ × Executor XtraTaskService))
      → find id l ≡ some e
      → waiting k (assign id new l) + queued k e.rpc_queue ≡ waiting k l + queued k new.rpc_queue
  unfolding find assign
  waiting-assign id e new [] found = ground (arith, found)
  waiting-assign id e new ((j, x) ∷ rest) found = elim (Bool-cases (j == id)) [
    | inl here ↦
        let same : queued k x.rpc_queue ≡ queued k e.rpc_queue =
          ap
            (λ (o : Option (Executor XtraTaskService)). elim o [
              | none ↦ 0
              | some y ↦ queued k y.rpc_queue
            ])
            (rw here at found) in
        rw here (omega (arith, same))
    | inr there ↦ rw there (omega (arith, waiting-assign id e new rest (rw there at found)))
  ]

-- Validation keeps the connection of an instance.
record SameSocket (i j : RpcInstance) : Type 0 where
  pub same : j.full_socket ≡ i.full_socket
  pub alive : j.socket_alive ≡ i.socket_alive

validate_request-SameSocket :
    (host : Endian) (i : RpcInstance) → SameSocket i (validate_request host i).1
unfolding validate_request validate_payload
validate_request-SameSocket host i = ground arith

length-reject :
    (host : Endian) (i : RpcInstance) (status : RpcResponseStatus)
    → i.socket_alive ≡ true
    → length (reject host i status) ≡ 1
unfolding reject
length-reject host i status alive = ground (arith, alive)

module _ (host : Endian) (k conn : ℕ) (d : Dispatcher (Executor XtraTaskService))
    (payload : Bytes) where
  abbrev pub instance_ : RpcInstance
  instance_ = (validate_request host (new_instance conn payload)).1

  pub instance_-socket : (instance_.full_socket ≡ conn) × (instance_.socket_alive ≡ true)
  unfolding new_instance
  instance_-socket =
      let same = validate_request-SameSocket host (new_instance conn payload) in
      (same.same, same.alive)

  abbrev pub one_of : ℕ
  one_of = if conn == k then 1 else 0

  -- A payload is rejected at once or waits.
  abbrev pub Accounts : Dispatcher (Executor XtraTaskService) × List Message → Type 0
  Accounts (d', replies) =
      handed_by k (tagged conn replies) + waiting k d'.services ≡ waiting k d.services + one_of

  rejected-Accounts : (status : RpcResponseStatus) → Accounts (d, reject host instance_ status)
  rejected-Accounts status = ground (
    arith,
    handed_by-tagged k conn (reject host instance_ status),
    length-reject host instance_ status instance_-socket.1,
  )

  pushed-Accounts :
      (e : Executor XtraTaskService)
      → find instance_.service_id d.services ≡ some e
      → Accounts (
        record d {
          services = assign instance_.service_id (Executor.handle_rpc e instance_) d.services;
        },
        [],
      )
  unfolding Executor.handle_rpc
  pushed-Accounts e found = ground (
    arith,
    waiting-assign k instance_.service_id e
        (record e { rpc_queue = e.rpc_queue ++ (instance_ ∷ []) }) d.services found,
    queued-append k e.rpc_queue (instance_ ∷ []),
    instance_-socket.0,
  )

  pub handle_payload-Accounts :
      Routed host Executor.handle_rpc conn d payload
      → Accounts (handle_payload host Executor.handle_rpc conn d payload)
  handle_payload-Accounts (inl (invalid, e)) = rw e (rejected-Accounts _)
  handle_payload-Accounts (inr (inl (valid, missing, e))) = rw e (rejected-Accounts _)
  handle_payload-Accounts (inr (inr (x, valid, found, e))) = rw e (pushed-Accounts x found)
