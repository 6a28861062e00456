-- ===== src/Server/Completion.antt =====
-- Every request of a connection of the server is answered in the end.
use tzrpc.Prelude.{
  ℕ, zero, suc, ◌+◌, ◌≡◌, refl, sym, ap, ◌∙◌, subst, true, false, some, List, [], ◌∷◌, ◌++◌, ◌==◌,
  arith, length, append_assoc, inl, inr, ==_iff, if◌then◌else◌, Bool-cases, Option-cases,
}
use tzrpc.Core.Endian.{Endian, Bytes}
use tzrpc.Core.Message.{Message}
use tzrpc.Rpc.RpcInstance.{RpcInstance}
use tzrpc.Rpc.Executor
use tzrpc.Rpc.Executor.{Executor}
use tzrpc.Rpc.Dispatcher.{Dispatcher, find, assign, handle_payload}
use tzrpc.Rpc.Dispatcher.Routing.{Routed, handle_payload_cases}
use tzrpc.Protocol.XtraTaskService.{XtraTaskService}
use tzrpc.Server.{
  Server, has_number, Event, arrives, takes, finishes, leaves, popped, take_request, arrive, finish,
  step, run,
}
use tzrpc.Server.Counting.{handed_by, queued, requests, stays, accounted}
use tzrpc.Server.Answering.{accounted-run}
use tzrpc.Server.Staying.{run-gone}
use tzrpc.Server.Draining.{Services, keys, AreNew, repeat, take_all, work_off, work_off_lem}

keys-assign :
    (id : ℕ) (e e' : Executor XtraTaskService) (l : Services)
    → find id l ≡ some e
    → keys (assign id e' l) ≡ keys l
unfolding find assign
keys-assign id e e' [] found = absurd (ground (arith, found))
keys-assign id e e' ((j, x) ∷ rest) found = elim (Bool-cases (j == id)) [
  | inl here ↦ rw here (ap (λ (n : ℕ). n ∷ keys rest) (sym ((==_iff j id).0 here)))
  | inr there ↦ rw there (ap (◌∷◌ j) (keys-assign id e e' rest (rw there at found)))
]

abbrev pub server_keys : Server → List ℕ
server_keys srv = keys srv.dispatcher.services

take_request-keys : (id : ℕ) (srv : Server) → server_keys (take_request id srv) ≡ server_keys srv
unfolding take_request
take_request-keys id srv = elim (Option-cases (find id srv.dispatcher.services)) [
  | inl missing ↦ rw (missing, take_request) refl
  | inr (e, found) ↦
      rw (found, take_request) (keys-assign id e (popped e) srv.dispatcher.services found)
]

handle_payload-keys :
    (host : Endian) (conn : ℕ) (d : Dispatcher (Executor XtraTaskService)) (payload : Bytes)
    → Routed host Executor.handle_rpc conn d payload
    → keys (handle_payload host Executor.handle_rpc conn d payload).0.services ≡ keys d.services
handle_payload-keys host conn d payload (inl (invalid, e)) = rw e refl
handle_payload-keys host conn d payload (inr (inl (valid, missing, e))) = rw e refl
handle_payload-keys host conn d payload (inr (inr (x, valid, found, e))) =
    rw e (keys-assign _ x _ d.services found)

-- The work of threads brings no request and ends no connection.
record IsQuiet (k : ℕ) (events : List Event) : Type 0 where
  pub no_request : requests k events ≡ 0
  pub stay : stays k events ≡ true

takes-IsQuiet :
    (k n id : ℕ) (rest : List Event) → IsQuiet k rest → IsQuiet k (repeat n (takes id) ++ rest)
takes-IsQuiet k zero id rest quiet = quiet
takes-IsQuiet k (suc n) id rest quiet =
    let later = takes-IsQuiet k n id rest quiet in
    record { no_request = later.no_request; stay = later.stay }

finishes-IsQuiet : (k n m : ℕ) → IsQuiet k (repeat n (finishes m))
finishes-IsQuiet k zero m = record { no_request = refl; stay = refl }
finishes-IsQuiet k (suc n) m =
    let later = finishes-IsQuiet k n m in
    record { no_request = later.no_request; stay = later.stay }

take_all-IsQuiet :
    (k : ℕ) (l : Services) (rest : List Event) → IsQuiet k rest → IsQuiet k (take_all l ++ rest)
take_all-IsQuiet k [] rest quiet = quiet
take_all-IsQuiet k ((id, e) ∷ l) rest quiet =
    subst (IsQuiet k)
      (sym (append_assoc (repeat (length e.rpc_queue) (takes id)) (take_all l) rest))
      (takes-IsQuiet k (length e.rpc_queue) id (take_all l ++ rest)
        (take_all-IsQuiet k l rest quiet))

module _ (host : Endian) (service : RpcInstance → List Message)
    (answers : (i : RpcInstance) → length (service i) ≡ (if i.socket_alive then 1 else 0))
    (k : ℕ) where
  arrive-keys :
      (conn : ℕ) (payload : Bytes) (srv : Server)
      → server_keys (arrive host service conn payload srv) ≡ server_keys srv
  unfolding arrive
  arrive-keys conn payload srv = elim (Bool-cases (has_number conn srv.gone)) [
    | inl left ↦ rw (left, arrive) refl
    | inr here ↦
        rw (here, arrive)
          (handle_payload-keys host conn srv.dispatcher payload
            (handle_payload_cases host Executor.handle_rpc conn srv.dispatcher payload))
  ]

  finish-keys : (n : ℕ) (srv : Server) → server_keys (finish host service n srv) ≡ server_keys srv
  unfolding finish
  finish-keys n srv = ground arith

  run-keys :
      (events : List Event) (srv : Server)
      → server_keys (run host service events srv) ≡ server_keys srv
  unfolding run step
  run-keys [] srv = refl
  run-keys (arrives conn payload ∷ rest) srv =
      run-keys rest (arrive host service conn payload srv) ∙ arrive-keys conn payload srv
  run-keys (takes id ∷ rest) srv = run-keys rest (take_request id srv) ∙ take_request-keys id srv
  run-keys (finishes n ∷ rest) srv = run-keys rest (finish host service n srv) ∙ finish-keys n srv
  run-keys (leaves conn ∷ rest) srv = run-keys rest (record srv { gone = conn ∷ srv.gone })

  -- Every request gets to an answer: whatever came before, once the threads have taken what waits
  -- and answered what they took, exactly one answer has been handed to `async_send_message` of a
  -- connection that lives for each payload that it received and for each of its requests that
  -- waited at the start, after what it had been handed then. The services have different ids, and a
  -- service makes one answer for a request whose connection lives, and none otherwise. Whether the
  -- connection then takes the answer, which it does not where that is over `send_max_msg_size`, is
  -- not part of this.
  pub run-work_off :
      (events : List Event) (srv : Server)
      → AreNew [] (server_keys srv)
      → has_number k srv.gone ≡ false
      → stays k events ≡ true
      → handed_by k
          (run host service
            (work_off (run host service events srv))
            (run host service events srv)).handed
        ≡ accounted k srv + requests k events
  run-work_off events srv new there stay =
      let s = run host service events srv in
      let quiet = take_all-IsQuiet k s.dispatcher.services _ (finishes-IsQuiet k _ 0) in
      let (no_wait, none_taken) =
        work_off_lem host service k s (subst (AreNew []) (sym (run-keys events srv)) new) in
      let before = accounted-run host service answers k events srv there stay in
      let after =
        accounted-run host service answers k (work_off s) s
          (run-gone host service k events srv there stay) quiet.stay in
      omega (arith, no_wait, ap (queued k) none_taken, before, after, quiet.no_request)
