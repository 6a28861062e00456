-- ===== src/Server/Alone.antt =====
-- The part of the server that is one connection's, and what the dispatcher does to it.
pub mod Steps
pub mod Finishing
use tzrpc.Prelude.{
  ℕ, ◌≡◌, refl, sym, ap, ◌∙◌, false, inl, inr, none, some, List, [], ◌∷◌, ◌++◌, ◌==◌, arith,
  append-nil, ==_iff, if◌then◌else◌, Bool-cases,
}
use tzrpc.Core.Endian.{Endian, Bytes}
use tzrpc.Core.Message.{Message}
use tzrpc.Rpc.RpcInstance.{RpcInstance}
use tzrpc.Rpc.Executor
use tzrpc.Rpc.Executor.{Executor, service_turn}
use tzrpc.Rpc.Dispatcher.{Dispatcher, find, assign, handle_payload}
use tzrpc.Rpc.Dispatcher.Routing.{Routed, route_valid, route_unknown, route_invalid}
use tzrpc.Protocol.XtraTaskService.{XtraTaskService}
use tzrpc.Server.Counting.{instance_, instance_-socket}
use tzrpc.Server.{Outbox, tagged, Server, has_number}

-- What is the connection's own.
abbrev pub own_messages : ℕ → Outbox → Outbox
own_messages k [] = []
own_messages k ((j, m) ∷ rest) =
    if j == k then (j, m) ∷ own_messages k rest else own_messages k rest

abbrev pub own_requests : ℕ → List RpcInstance → List RpcInstance
own_requests k [] = []
own_requests k (i ∷ rest) =
    if i.full_socket == k then i ∷ own_requests k rest else own_requests k rest

abbrev pub own_numbers : ℕ → List ℕ → List ℕ
own_numbers k [] = []
own_numbers k (j ∷ rest) = if j == k then j ∷ own_numbers k rest else own_numbers k rest

abbrev pub own_executor : ℕ → Executor XtraTaskService → Executor XtraTaskService
own_executor k e = record e { rpc_queue = own_requests k e.rpc_queue }

abbrev pub own_services :
    ℕ → List (ℕ × Executor XtraTaskService) → List (ℕ × Executor XtraTaskService)
own_services k [] = []
own_services k ((id, e) ∷ rest) = (id, own_executor k e) ∷ own_services k rest

-- The server as if the connection `k` were its only one.
abbrev pub alone : ℕ → Server → Server
alone k srv = record {
  dispatcher = record (srv.dispatcher) { services = own_services k srv.dispatcher.services };
  taken = own_requests k srv.taken;
  handed = own_messages k srv.handed;
  gone = own_numbers k srv.gone;
}

module _ (k : ℕ) where
  pub own_messages-append :
      (a b : Outbox) → own_messages k (a ++ b) ≡ own_messages k a ++ own_messages k b
  own_messages-append [] b = refl
  own_messages-append ((j, m) ∷ rest) b = ground (arith, own_messages-append rest b)

  pub own_messages-tagged :
      (j : ℕ) (ms : List Message)
      → own_messages k (tagged j ms) ≡ (if j == k then tagged j ms else [])
  own_messages-tagged j [] = ground arith
  own_messages-tagged j (m ∷ ms) = ground (arith, own_messages-tagged j ms)

  pub own_requests-append :
      (a b : List RpcInstance) → own_requests k (a ++ b) ≡ own_requests k a ++ own_requests k b
  own_requests-append [] b = refl
  own_requests-append (i ∷ rest) b = ground (arith, own_requests-append rest b)

  pub has_number-own : (js : List ℕ) → has_number k (own_numbers k js) ≡ has_number k js
  has_number-own [] = refl
  has_number-own (j ∷ rest) = ground (arith, has_number-own rest)

  find-own :
      (id : ℕ) (l : List (ℕ × Executor XtraTaskService))
      → find id (own_services k l)
        ≡ elim (find id l) [ none ↦ none | some e ↦ some (own_executor k e) ]
  unfolding find
  find-own id [] = refl
  find-own id ((j, e) ∷ rest) = ground (arith, find-own id rest)

  pub own-assign :
      (id : ℕ) (e : Executor XtraTaskService) (l : List (ℕ × Executor XtraTaskService))
      → own_services k (assign id e l) ≡ assign id (own_executor k e) (own_services k l)
  unfolding assign
  own-assign id e [] = refl
  own-assign id e ((j, x) ∷ rest) = ground (arith, own-assign id e rest)

pub assign-same :
    (id : ℕ) (e : Executor XtraTaskService) (l : List (ℕ × Executor XtraTaskService))
    → find id l ≡ some e
    → assign id e l ≡ l
unfolding find assign
assign-same id e [] found = ground (arith, found)
assign-same id e ((j, x) ∷ rest) found = elim (Bool-cases (j == id)) [
  | inl here ↦
      let same : some x ≡ some e = rw here at found in rw here (cc ((==_iff j id).0 here, same))
  | inr there ↦ rw there (ap (◌∷◌ (j, x)) (assign-same id e rest (rw there at found)))
]

abbrev pub own_dispatcher :
    ℕ → Dispatcher (Executor XtraTaskService) → Dispatcher (Executor XtraTaskService)
own_dispatcher k d = record d { services = own_services k d.services }

own_push :
    (k : ℕ) (e : Executor XtraTaskService) (i : RpcInstance)
    → i.full_socket ≡ k
    → own_executor k (Executor.handle_rpc e i) ≡ Executor.handle_rpc (own_executor k e) i
unfolding Executor.handle_rpc
own_push k e i own =
    ground (arith, own_requests-append k e.rpc_queue (i ∷ []), own, ==_iff i.full_socket k)

other_push :
    (k : ℕ) (e : Executor XtraTaskService) (i : RpcInstance)
    → (i.full_socket == k) ≡ false
    → own_executor k (Executor.handle_rpc e i) ≡ own_executor k e
unfolding Executor.handle_rpc
other_push k e i other = ground (
  arith,
  own_requests-append k e.rpc_queue (i ∷ []),
  other,
  append-nil (own_requests k e.rpc_queue),
)

pub find-own_some :
    (k id : ℕ) (e : Executor XtraTaskService) (l : List (ℕ × Executor XtraTaskService))
    → find id l ≡ some e
    → find id (own_services k l) ≡ some (own_executor k e)
find-own_some k id e l found = find-own k id l ∙ rw found refl

find-own_none :
    (k id : ℕ) (l : List (ℕ × Executor XtraTaskService))
    → find id l ≡ none
    → find id (own_services k l) ≡ none
find-own_none k id l missing = find-own k id l ∙ rw missing refl

module _ (host : Endian) (k : ℕ) (d : Dispatcher (Executor XtraTaskService)) (payload : Bytes) where
  abbrev pub asked :
      ℕ
      → Dispatcher (Executor XtraTaskService)
      → Dispatcher (Executor XtraTaskService) × List Message
  asked conn d' = handle_payload host Executor.handle_rpc conn d' payload

  abbrev pub on_own :
      Dispatcher (Executor XtraTaskService) × List Message
      → Dispatcher (Executor XtraTaskService) × List Message
  on_own r = (own_dispatcher k r.0, r.1)

  pub own_payload :
      Routed host Executor.handle_rpc k d payload
      → asked k (own_dispatcher k d) ≡ on_own (asked k d)
  own_payload (inl (invalid, e)) =
      let i : RpcInstance = instance_ host k k d payload in
      route_invalid host Executor.handle_rpc k (own_dispatcher k d) payload i (λ t. (invalid t, i))
      ∙ sym (ap on_own e)
  own_payload (inr (inl (valid, missing, e))) =
      let i : RpcInstance = instance_ host k k d payload in
      route_unknown host Executor.handle_rpc k (own_dispatcher k d) payload i (λ t. (valid t, i))
        (find-own_none k i.service_id d.services missing)
      ∙ sym (ap on_own e)
  own_payload (inr (inr (x, valid, found, e))) =
      let i : RpcInstance = instance_ host k k d payload in
      route_valid host Executor.handle_rpc k (own_dispatcher k d) payload i (λ t. (valid t, i))
        (own_executor k x) (find-own_some k i.service_id x d.services found)
      ∙ ap (λ (l : List (ℕ × Executor XtraTaskService)). (record d { services = l }, []))
          (sym (
            own-assign k i.service_id (Executor.handle_rpc x i) d.services
            ∙ ap
                (λ (y : Executor XtraTaskService).
                  assign i.service_id y (own_services k d.services))
                (own_push k x i (instance_-socket host k k d payload).0)))
      ∙ sym (ap on_own e)

  pub other_payload :
      (conn : ℕ)
      → (conn == k) ≡ false
      → Routed host Executor.handle_rpc conn d payload
      → own_dispatcher k (asked conn d).0 ≡ own_dispatcher k d
  other_payload conn other (inl (invalid, e)) = rw e refl
  other_payload conn other (inr (inl (valid, missing, e))) = rw e refl
  other_payload conn other (inr (inr (x, valid, found, e))) =
      let i : RpcInstance = instance_ host k conn d payload in
      let i_other : (i.full_socket == k) ≡ false =
        rw (instance_-socket host k conn d payload).0 other in
      rw e (
        ap (λ (l : List (ℕ × Executor XtraTaskService)). record d { services = l })
          (own-assign k i.service_id (Executor.handle_rpc x i) d.services
            ∙ ap
                (λ (y : Executor XtraTaskService).
                  assign i.service_id y (own_services k d.services))
                (other_push k x i i_other)
            ∙ assign-same i.service_id (own_executor k x) (own_services k d.services)
                (find-own_some k i.service_id x d.services found)))
