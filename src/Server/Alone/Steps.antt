-- ===== src/Server/Alone/Steps.antt =====
-- What an arrival, and the taking of a request by a thread, do to the part of it that is one connection's.
use tzrpc.Prelude.{
  ℕ, ◌≡◌, refl, ap, ◌∙◌, Bool, true, false, inl, inr, none, some, List, [], ◌∷◌, ◌++◌, ◌==◌, arith,
  take, append-nil, ==-self, Bool-cases, Option-cases,
}
use tzrpc.Core.Endian.{Endian, Bytes}
use tzrpc.Core.Message.{Message}
use tzrpc.Rpc.RpcInstance.{RpcInstance}
use tzrpc.Rpc.Executor
use tzrpc.Rpc.Executor.{Executor, service_turn}
use tzrpc.Rpc.Dispatcher.{find, assign}
use tzrpc.Rpc.Dispatcher.Routing.{handle_payload_cases}
use tzrpc.Protocol.XtraTaskService.{XtraTaskService}
use tzrpc.Server.{Outbox, tagged, Server, has_number, popped, take_request, arrive}
use tzrpc.Server.Alone.{
  own_messages, own_requests, own_numbers, own_executor, own_services, alone, own_messages-append,
  own_messages-tagged, own_requests-append, has_number-own, own-assign, assign-same, find-own_some,
  own_payload, other_payload, asked,
}

-- The request that a thread of the service would take next is the connection's own.
abbrev pub head_own : ℕ → List RpcInstance → Bool
head_own k [] = false
head_own k (i ∷ rest) = i.full_socket == k

module _ (host : Endian) (service : RpcInstance → List Message) (k : ℕ) where
  pub arrive_own :
      (payload : Bytes) (srv : Server)
      → alone k (arrive host service k payload srv) ≡ arrive host service k payload (alone k srv)
  unfolding arrive
  arrive_own payload srv =
      let routed = handle_payload_cases host Executor.handle_rpc k srv.dispatcher payload in
      let replies = (asked host k srv.dispatcher payload k srv.dispatcher).1 in
      elim (Bool-cases (has_number k srv.gone)) [
        | inl left ↦ rw (has_number-own k srv.gone, left, arrive) refl
        | inr here ↦
            rw
              (
                has_number-own k srv.gone,
                here,
                own_payload host k srv.dispatcher payload routed,
                own_messages-append k srv.handed (tagged k replies),
                own_messages-tagged k k replies,
                ==-self k,
                arrive,
              )
              refl
      ]

  pub arrive_other :
      (conn : ℕ) (payload : Bytes) (srv : Server)
      → (conn == k) ≡ false
      → alone k (arrive host service conn payload srv) ≡ alone k srv
  unfolding arrive
  arrive_other conn payload srv other =
      let routed = handle_payload_cases host Executor.handle_rpc conn srv.dispatcher payload in
      let replies = (asked host k srv.dispatcher payload conn srv.dispatcher).1 in
      elim (Bool-cases (has_number conn srv.gone)) [
        | inl left ↦ rw (left, arrive) refl
        | inr here ↦
            let handed' : own_messages k (srv.handed ++ tagged conn replies)
                ≡ own_messages k srv.handed =
              own_messages-append k srv.handed (tagged conn replies)
              ∙ ap (λ (l : Outbox). own_messages k srv.handed ++ l)
                  (own_messages-tagged k conn replies ∙ rw other refl)
              ∙ append-nil (own_messages k srv.handed) in
            let dispatcher' = other_payload host k srv.dispatcher payload conn other routed in
            rw (here, arrive)
              (λ t. record {
                dispatcher = dispatcher' t;
                taken = own_requests k srv.taken;
                handed = handed' t;
                gone = own_numbers k srv.gone;
              })
      ]

module _ (k : ℕ) where
  -- A thread of that service would take a request of the connection.
  abbrev pub takes_own : ℕ → Server → Bool
  takes_own id srv = elim (find id srv.dispatcher.services) [
    | none ↦ false
    | some e ↦ head_own k e.rpc_queue
  ]

  popped_own :
      (q : List RpcInstance) (e : Executor XtraTaskService)
      → head_own k q ≡ true
      → (own_executor k (popped (record e { rpc_queue = q }))
          ≡ popped (own_executor k (record e { rpc_queue = q })))
        × (own_requests k (take 1 q) ≡ take 1 (own_requests k q))
  unfolding service_turn
  popped_own [] e own = ground (arith, own)
  popped_own (i ∷ rest) e own = (rw (own, service_turn) refl, rw own refl)

  popped_other :
      (q : List RpcInstance) (e : Executor XtraTaskService)
      → head_own k q ≡ false
      → (own_executor k (popped (record e { rpc_queue = q }))
          ≡ own_executor k (record e { rpc_queue = q }))
        × (own_requests k (take 1 q) ≡ [])
  unfolding service_turn
  popped_other [] e other = (refl, refl)
  popped_other (i ∷ rest) e other = (rw other refl, rw other refl)

  pub take_own :
      (id : ℕ) (srv : Server)
      → takes_own id srv ≡ true
      → alone k (take_request id srv) ≡ take_request id (alone k srv)
  unfolding take_request
  take_own id srv own = elim (Option-cases (find id srv.dispatcher.services)) [
    | inl missing ↦ ground (arith, missing, own)
    | inr (e, found) ↦
        let (executor, front) = popped_own e.rpc_queue e (rw (found, takes_own) at own) in
        let taken' =
          own_requests-append k srv.taken (take 1 e.rpc_queue)
          ∙ ap (λ (l : List RpcInstance). own_requests k srv.taken ++ l) front in
        let services' =
          own-assign k id (popped e) srv.dispatcher.services
          ∙ ap
              (λ (x : Executor XtraTaskService).
                assign id x (own_services k srv.dispatcher.services))
              executor in
        rw (found, find-own_some k id e srv.dispatcher.services found, take_request)
          (λ t. record {
            dispatcher = record (srv.dispatcher) { services = services' t };
            taken = taken' t;
            handed = own_messages k srv.handed;
            gone = own_numbers k srv.gone;
          })
  ]

  pub take_other :
      (id : ℕ) (srv : Server)
      → takes_own id srv ≡ false
      → alone k (take_request id srv) ≡ alone k srv
  unfolding take_request
  take_other id srv other = elim (Option-cases (find id srv.dispatcher.services)) [
    | inl missing ↦ rw (missing, take_request) refl
    | inr (e, found) ↦
        let (executor, front) = popped_other e.rpc_queue e (rw (found, takes_own) at other) in
        let taken' =
          own_requests-append k srv.taken (take 1 e.rpc_queue)
          ∙ ap (λ (l : List RpcInstance). own_requests k srv.taken ++ l) front
          ∙ append-nil (own_requests k srv.taken) in
        let services' =
          own-assign k id (popped e) srv.dispatcher.services
          ∙ ap
              (λ (x : Executor XtraTaskService).
                assign id x (own_services k srv.dispatcher.services))
              executor
          ∙ assign-same id (own_executor k e) (own_services k srv.dispatcher.services)
              (find-own_some k id e srv.dispatcher.services found) in
        rw (found, take_request)
          (λ t. record {
            dispatcher = record (srv.dispatcher) { services = services' t };
            taken = taken' t;
            handed = own_messages k srv.handed;
            gone = own_numbers k srv.gone;
          })
  ]
