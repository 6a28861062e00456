-- ===== src/Server/Draining.antt =====
-- What waits in the server is answered once its threads have worked it off.
use tzrpc.Prelude.{
  ℕ, zero, suc, ◌≡◌, refl, sym, ap, ◌∙◌, false, some, List, [], ◌∷◌, ◌++◌, arith, length, take,
  subst, append-nil, append_assoc,
}
use tzrpc.Core.Endian.{Endian}
use tzrpc.Core.Message.{Message}
use tzrpc.Rpc.RpcInstance.{RpcInstance}
use tzrpc.Rpc.Executor.{Executor, service_turn}
use tzrpc.Rpc.Dispatcher.{Dispatcher, find, assign}
use tzrpc.Protocol.XtraTaskService.{XtraTaskService}
use tzrpc.Server.{
  Server, has_number, Event, takes, finishes, popped, take_request, finish, step, run,
}
use tzrpc.Server.Counting.{waiting}

abbrev pub Services : Type 0
Services = List (ℕ × Executor XtraTaskService)

abbrev pub keys : Services → List ℕ
keys [] = []
keys ((id, e) ∷ rest) = id ∷ keys rest

-- No key is in the map twice: none is among those before it.
abbrev pub AreNew : List ℕ → List ℕ → Type 0
AreNew before [] = Unit
AreNew before (id ∷ rest) = (has_number id before ≡ false) × AreNew (before ++ (id ∷ [])) rest

abbrev pub repeat : ℕ → Event → List Event
repeat zero event = []
repeat (suc n) event = event ∷ repeat n event

-- The threads of each service take all that waits for it.
abbrev pub take_all : Services → List Event
take_all [] = []
take_all ((id, e) ∷ rest) = repeat (length e.rpc_queue) (takes id) ++ take_all rest

abbrev pub all_queued : Services → List RpcInstance
all_queued [] = []
all_queued ((id, e) ∷ rest) = e.rpc_queue ++ all_queued rest

abbrev pub emptied : Services → Services
emptied [] = []
emptied ((id, e) ∷ rest) = (id, record e { rpc_queue = [] }) ∷ emptied rest

-- And then they answer what they have taken.
abbrev pub work_off : Server → List Event
work_off srv =
    take_all srv.dispatcher.services
    ++ repeat (length (srv.taken ++ all_queued srv.dispatcher.services)) (finishes 0)

-- The server with these services and these requests in the hands of threads.
abbrev at : Services → List RpcInstance → Server → Server
at l t srv = record srv { dispatcher = record (srv.dispatcher) { services = l }; taken = t }

find-skip :
    (id : ℕ) (e : Executor XtraTaskService) (pre rest : Services)
    → has_number id (keys pre) ≡ false
    → find id (pre ++ ((id, e) ∷ rest)) ≡ some e
unfolding find
find-skip id e [] rest new = ground arith
find-skip id e ((j, x) ∷ pre) rest new = ground (arith, new, find-skip id e pre rest)

assign-skip :
    (id : ℕ) (e e' : Executor XtraTaskService) (pre rest : Services)
    → has_number id (keys pre) ≡ false
    → assign id e' (pre ++ ((id, e) ∷ rest)) ≡ pre ++ ((id, e') ∷ rest)
unfolding assign
assign-skip id e e' [] rest new = ground arith
assign-skip id e e' ((j, x) ∷ pre) rest new = ground (arith, new, assign-skip id e e' pre rest)

take_request-at :
    (id : ℕ) (e : Executor XtraTaskService) (pre rest : Services) (t : List RpcInstance)
    (srv : Server)
    → has_number id (keys pre) ≡ false
    → take_request id (at (pre ++ ((id, e) ∷ rest)) t srv)
      ≡ at (pre ++ ((id, popped e) ∷ rest)) (t ++ take 1 e.rpc_queue) srv
unfolding take_request
take_request-at id e pre rest t srv new =
    rw (find-skip id e pre rest new, assign-skip id e (popped e) pre rest new, take_request) refl

keys-append :
    (pre : Services) (id : ℕ) (e : Executor XtraTaskService)
    → keys (pre ++ ((id, e) ∷ [])) ≡ keys pre ++ (id ∷ [])
keys-append [] id e = refl
keys-append ((j, x) ∷ pre) id e = ap (◌∷◌ j) (keys-append pre id e)

waiting-emptied : (k : ℕ) (l : Services) → waiting k (emptied l) ≡ 0
waiting-emptied k [] = refl
waiting-emptied k ((id, e) ∷ rest) = omega (arith, waiting-emptied k rest)

module _ (host : Endian) (service : RpcInstance → List Message) where
  pub run-append :
      (a b : List Event) (srv : Server)
      → run host service (a ++ b) srv ≡ run host service b (run host service a srv)
  unfolding run
  run-append [] b srv = refl
  run-append (event ∷ rest) b srv = run-append rest b (step host service event srv)

  take_one :
      (q : List RpcInstance) (id : ℕ) (e : Executor XtraTaskService) (pre rest : Services)
      (t : List RpcInstance) (srv : Server)
      → has_number id (keys pre) ≡ false
      → run host service
          (repeat (length q) (takes id))
          (at (pre ++ ((id, record e { rpc_queue = q }) ∷ rest)) t srv)
        ≡ at (pre ++ ((id, record e { rpc_queue = [] }) ∷ rest)) (t ++ q) srv
  unfolding run step service_turn
  take_one [] id e pre rest t srv new =
      ap (λ (l : List RpcInstance). at (pre ++ ((id, record e { rpc_queue = [] }) ∷ rest)) l srv)
        (sym (append-nil t))
  take_one (i ∷ q) id e pre rest t srv new =
      ap (run host service (repeat (length q) (takes id)))
        (take_request-at id (record e { rpc_queue = i ∷ q }) pre rest t srv new)
      ∙ take_one q id e pre rest (t ++ (i ∷ [])) srv new
      ∙ ap (λ (l : List RpcInstance). at (pre ++ ((id, record e { rpc_queue = [] }) ∷ rest)) l srv)
          (append_assoc t (i ∷ []) q)

  finish_first :
      (i : RpcInstance) (t : List RpcInstance) (srv : Server)
      → srv.taken ≡ i ∷ t
      → ((finish host service 0 srv).taken ≡ t)
        × ((finish host service 0 srv).dispatcher ≡ srv.dispatcher)
  unfolding finish
  finish_first i t srv same = ground (arith, same)

  finish_all :
      (t : List RpcInstance) (srv : Server)
      → srv.taken ≡ t
      → ((run host service (repeat (length t) (finishes 0)) srv).taken ≡ [])
        × ((run host service (repeat (length t) (finishes 0)) srv).dispatcher ≡ srv.dispatcher)
  unfolding run step
  finish_all [] srv same = (same, refl)
  finish_all (i ∷ t) srv same =
      let (fewer, kept) = finish_first i t srv same in
      let (none_left, kept') = finish_all t (finish host service 0 srv) fewer in
      (none_left, kept' ∙ kept)

  take_services :
      (rest pre : Services) (t : List RpcInstance) (srv : Server)
      → AreNew (keys pre) (keys rest)
      → run host service (take_all rest) (at (pre ++ rest) t srv)
        ≡ at (pre ++ emptied rest) (t ++ all_queued rest) srv
  unfolding run
  take_services [] pre t srv new =
      ap (λ (l : List RpcInstance). at (pre ++ []) l srv) (sym (append-nil t))
  take_services ((id, e) ∷ rest) pre t srv new =
      let e' = record e { rpc_queue = [] } in
      let pre' = pre ++ ((id, e') ∷ []) in
      let t' = t ++ e.rpc_queue in
      run-append (repeat (length e.rpc_queue) (takes id)) (take_all rest) _
      ∙ ap (run host service (take_all rest)) (
          take_one e.rpc_queue id e pre rest t srv new.0
          ∙ ap (λ (l : Services). at l t' srv) (sym (append_assoc pre ((id, e') ∷ []) rest)))
      ∙ take_services rest pre' t' srv
          (subst (λ (ks : List ℕ). AreNew ks (keys rest)) (sym (keys-append pre id e')) new.1)
      ∙ (λ i.
          at (append_assoc pre ((id, e') ∷ []) (emptied rest) i)
            (append_assoc t e.rpc_queue (all_queued rest) i) srv)

  -- After the work nothing waits, and no thread has anything to answer.
  pub work_off_lem :
      (k : ℕ) (srv : Server)
      → AreNew [] (keys srv.dispatcher.services)
      → (waiting k (run host service (work_off srv) srv).dispatcher.services ≡ 0)
        × ((run host service (work_off srv) srv).taken ≡ [])
  work_off_lem k srv new =
      let l = srv.dispatcher.services in
      let t = srv.taken ++ all_queued l in
      let taking = take_services l [] srv.taken srv new in
      let split =
        run-append (take_all l) (repeat (length t) (finishes 0)) srv
        ∙ ap (run host service (repeat (length t) (finishes 0))) taking in
      let (none_left, kept) = finish_all t (at (emptied l) t srv) refl in
      (
        ap (λ (s : Server). waiting k s.dispatcher.services) split
            ∙ ap (λ (d : Dispatcher (Executor XtraTaskService)). waiting k d.services) kept
            ∙ waiting-emptied k l,
        ap (λ (s : Server). s.taken) split ∙ none_left,
      )
