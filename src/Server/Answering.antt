-- ===== src/Server/Answering.antt =====
-- How many answers a connection of the server gets.
use tzrpc.Prelude.{
  ℕ, zero, suc, ◌+◌, ◌≤◌, ◌≡◌, refl, ap, ◌∙◌, true, false, not, inl, inr, Option, none, some, List,
  [], ◌∷◌, ◌==◌, arith, length, take, get_elem?, erase_idx, ==_iff, if◌then◌else◌, Bool-cases,
  Option-cases,
}
use tzrpc.Core.Endian.{Endian, Bytes}
use tzrpc.Core.Message.{Message}
use tzrpc.Rpc.RpcInstance.{RpcInstance}
use tzrpc.Rpc.Executor
use tzrpc.Rpc.Executor.{Executor, service_turn}
use tzrpc.Rpc.Dispatcher.{find, handle_payload}
use tzrpc.Rpc.Dispatcher.Routing.{handle_payload_cases}
use tzrpc.Protocol.XtraTaskService.{XtraTaskService}
use tzrpc.Server.{
  tagged, Server, has_number, Event, arrives, takes, finishes, leaves, popped, take_request, arrive,
  answer, finish, step, run,
}
use tzrpc.Server.Staying.{arrive-gone, take_request-gone, finish-gone}
use tzrpc.Server.Counting.{
  handed_by, queued, requests, stays, accounted, handed_by-append, handed_by-tagged, queued-append,
  waiting-assign, handle_payload-Accounts,
}

-- What a thread takes off a queue it has in its hands.
popped-queued :
    (k : ℕ) (q : List RpcInstance) (e : Executor XtraTaskService)
    → queued k (popped (record e { rpc_queue = q })).rpc_queue + queued k (take 1 q) ≡ queued k q
unfolding service_turn
popped-queued k [] e = omega arith
popped-queued k (i ∷ rest) e = omega arith

take_request-accounted :
    (k id : ℕ) (srv : Server) → accounted k (take_request id srv) ≡ accounted k srv
unfolding take_request
take_request-accounted k id srv = elim (Option-cases (find id srv.dispatcher.services)) [
  | inl missing ↦ rw (missing, take_request) refl
  | inr (e, found) ↦
      rw (found, take_request)
        (omega (
          arith,
          waiting-assign k id e (popped e) srv.dispatcher.services found,
          queued-append k srv.taken (take 1 e.rpc_queue),
          popped-queued k e.rpc_queue e,
        ))
]

erase_idx-queued :
    (k : ℕ) (l : List RpcInstance) (n : ℕ) (i : RpcInstance)
    → get_elem? l n ≡ some i
    → (if i.full_socket == k then 1 else 0) + queued k (erase_idx l n) ≡ queued k l
erase_idx-queued k [] n i there = ground (arith, there)
erase_idx-queued k (x ∷ rest) zero i there =
    let same : queued k (x ∷ []) ≡ queued k (i ∷ []) =
      ap (λ (o : Option RpcInstance). elim o [ none ↦ 0 | some y ↦ queued k (y ∷ []) ]) there in
    omega (arith, same)
erase_idx-queued k (x ∷ rest) (suc n) i there = omega (arith, erase_idx-queued k rest n i there)

-- A service gives one answer for a request whose connection lives, and none for any other.
module _ (host : Endian) (service : RpcInstance → List Message)
    (answers : (i : RpcInstance) → length (service i) ≡ (if i.socket_alive then 1 else 0))
    (k : ℕ) where
  answer_le :
      (gone : List ℕ) (i : RpcInstance)
      → handed_by k (answer host service gone i) ≤ (if i.full_socket == k then 1 else 0)
  unfolding answer
  answer_le gone i =
      let i' = record i { socket_alive = not (has_number i.full_socket gone) } in
      ground (arith, handed_by-tagged k i.full_socket (service i'), answers i')

  answer_one :
      (gone : List ℕ) (i : RpcInstance)
      → has_number k gone ≡ false
      → handed_by k (answer host service gone i) ≡ (if i.full_socket == k then 1 else 0)
  unfolding answer
  answer_one gone i there =
      let lives = not (has_number i.full_socket gone) in
      let i' = record i { socket_alive = lives } in
      elim (Bool-cases (i.full_socket == k)) [
        | inl own ↦
            let alive : lives ≡ true =
              ap (λ (n : ℕ). not (has_number n gone)) ((==_iff i.full_socket k).0 own)
              ∙ ap not there in
            ground (arith, handed_by-tagged k i.full_socket (service i'), own, answers i', alive)
        | inr other ↦ ground (arith, handed_by-tagged k i.full_socket (service i'), other)
      ]

  arrive_le :
      (conn : ℕ) (payload : Bytes) (srv : Server)
      → (accounted k (arrive host service conn payload srv)
          ≤ accounted k srv + (if conn == k then 1 else 0))
        × (has_number k srv.gone ≡ false
            → accounted k (arrive host service conn payload srv)
              ≡ accounted k srv + (if conn == k then 1 else 0))
  unfolding arrive
  arrive_le conn payload srv =
      let (d', replies) = handle_payload host Executor.handle_rpc conn srv.dispatcher payload in
      let routed =
        handle_payload-Accounts host k conn srv.dispatcher payload
          (handle_payload_cases host Executor.handle_rpc conn srv.dispatcher payload) in
      let handed = handed_by-append k srv.handed (tagged conn replies) in
      elim (Bool-cases (has_number conn srv.gone)) [
        | inl left ↦
            (rw (left, arrive) (omega arith), λ there. ground (arith, left, there, ==_iff conn k))
        | inr here ↦ (
          rw (here, arrive) (omega (arith, routed, handed)),
          λ there. rw (here, arrive) (omega (arith, routed, handed)),
        )
      ]

  finish_le :
      (n : ℕ) (srv : Server)
      → (accounted k (finish host service n srv) ≤ accounted k srv)
        × (has_number k srv.gone ≡ false
            → accounted k (finish host service n srv) ≡ accounted k srv)
  unfolding finish
  finish_le n srv = elim (Option-cases (get_elem? srv.taken n)) [
    | inl missing ↦ (rw (missing, finish) (omega arith), λ there. rw (missing, finish) refl)
    | inr (i, found) ↦
        let handed = handed_by-append k srv.handed (answer host service srv.gone i) in
        let erased = erase_idx-queued k srv.taken n i found in
        (
          rw (found, finish) (omega (arith, handed, erased, answer_le srv.gone i)),
          λ there. rw (found, finish) (omega (arith, handed, erased, answer_one srv.gone i there)),
        )
  ]

  -- No connection is handed more answers than it received requests: whatever payloads arrive at whatever
  -- connections, whatever threads take and answer in between and whichever connections end, what was
  -- handed to a connection, what of it waits and what of it is being answered grow together by no
  -- more than one for each payload that it receives.
  pub accounted-le :
      (events : List Event) (srv : Server)
      → accounted k (run host service events srv) ≤ accounted k srv + requests k events
  unfolding run step
  accounted-le [] srv = omega arith
  accounted-le (arrives conn payload ∷ rest) srv = omega (
    arith,
    (arrive_le conn payload srv).0,
    accounted-le rest (arrive host service conn payload srv),
  )
  accounted-le (takes id ∷ rest) srv =
      omega (arith, take_request-accounted k id srv, accounted-le rest (take_request id srv))
  accounted-le (finishes n ∷ rest) srv =
      omega (arith, (finish_le n srv).0, accounted-le rest (finish host service n srv))
  accounted-le (leaves conn ∷ rest) srv =
      omega (arith, accounted-le rest (record srv { gone = conn ∷ srv.gone }))

  -- As long as a connection lives, for each of its requests one of three holds: it waits, it is
  -- being answered, or one answer was handed to the connection's `async_send_message`, and nothing
  -- else is handed to that: however the payloads of all connections, the threads that take and
  -- answer requests side by side and the ends of other connections interleave, what was handed to
  -- it, what of it waits and what of it is being answered grow together by exactly one for each
  -- payload that it receives, be it a request, an unknown service or no request at all. A service
  -- makes one answer for a request whose connection lives, and none otherwise. Whether the
  -- connection then takes the answer, which it does not where that is over `send_max_msg_size`, is
  -- not part of this.
  pub accounted-run :
      (events : List Event) (srv : Server)
      → has_number k srv.gone ≡ false
      → stays k events ≡ true
      → accounted k (run host service events srv) ≡ accounted k srv + requests k events
  unfolding run step
  accounted-run [] srv there stay = omega arith
  accounted-run (arrives conn payload ∷ rest) srv there stay =
      let after = arrive host service conn payload srv in
      let later =
        accounted-run rest after
          (ap (has_number k) (arrive-gone host service k conn payload srv) ∙ there) stay in
      omega (arith, (arrive_le conn payload srv).1 there, later)
  accounted-run (takes id ∷ rest) srv there stay =
      let later =
        accounted-run rest (take_request id srv)
          (ap (has_number k) (take_request-gone host service k id srv) ∙ there) stay in
      omega (arith, take_request-accounted k id srv, later)
  accounted-run (finishes n ∷ rest) srv there stay =
      let later =
        accounted-run rest (finish host service n srv)
          (ap (has_number k) (finish-gone host service k n srv) ∙ there) stay in
      omega (arith, (finish_le n srv).1 there, later)
  accounted-run (leaves conn ∷ rest) srv there stay =
      let after : Server = record srv { gone = conn ∷ srv.gone } in
      let other : (conn == k) ≡ false = ground (arith, stay) in
      omega (arith, accounted-run rest after (ground (arith, other, there)) (rw other at stay))
