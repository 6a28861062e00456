-- ===== src/Server/Isolation.antt =====
-- What a client of the server can learn of the other clients: nothing.
use tzrpc.Prelude.{
  ℕ, ◌≡◌, refl, sym, ap, ◌∙◌, inl, inr, List, [], ◌∷◌, ◌==◌, arith, ==_iff, if◌then◌else◌,
  Bool-cases, subst,
}
use tzrpc.Core.Endian.{Endian, Bytes}
use tzrpc.Core.Message.{Message}
use tzrpc.Rpc.RpcInstance.{RpcInstance}
use tzrpc.Server.{
  Server, Event, arrives, takes, finishes, leaves, arrive, take_request, finish, step, run,
}
use tzrpc.Server.Alone.{own_numbers, alone}
use tzrpc.Server.Alone.Steps.{takes_own, arrive_own, arrive_other, take_own, take_other}
use tzrpc.Server.Alone.Finishing.{own_at, own_index, finish_own, finish_other}

-- The payloads that connections receive, and those of one connection.
abbrev pub received : List Event → List (ℕ × Bytes)
received [] = []
received (arrives conn payload ∷ rest) = (conn, payload) ∷ received rest
received (takes id ∷ rest) = received rest
received (finishes n ∷ rest) = received rest
received (leaves conn ∷ rest) = received rest

abbrev pub received_by : ℕ → List Event → List (ℕ × Bytes)
received_by k [] = []
received_by k (arrives conn payload ∷ rest) =
    if conn == k then (conn, payload) ∷ received_by k rest else received_by k rest
received_by k (takes id ∷ rest) = received_by k rest
received_by k (finishes n ∷ rest) = received_by k rest
received_by k (leaves conn ∷ rest) = received_by k rest

module _ (host : Endian) (service : RpcInstance → List Message) (k : ℕ) where
  -- Those of the events that are the connection's own: what it receives, its end, and what
  -- threads do with its requests, each at its place among the connection's own.
  abbrev pub own_events : Server → List Event → List Event
  own_events srv [] = []
  own_events srv (arrives conn payload ∷ rest) =
      let later = own_events (arrive host service conn payload srv) rest in
      if conn == k then arrives conn payload ∷ later else later
  own_events srv (takes id ∷ rest) =
      let later = own_events (take_request id srv) rest in
      if takes_own k id srv then takes id ∷ later else later
  own_events srv (finishes n ∷ rest) =
      let later = own_events (finish host service n srv) rest in
      if own_at k srv.taken n then finishes (own_index k srv.taken n) ∷ later else later
  own_events srv (leaves conn ∷ rest) =
      let later = own_events (record srv { gone = conn ∷ srv.gone }) rest in
      if conn == k then leaves conn ∷ later else later

  received-own_events :
      (events : List Event) (srv : Server) → received (own_events srv events) ≡ received_by k events
  received-own_events [] srv = refl
  received-own_events (arrives conn payload ∷ rest) srv =
      ground (arith, received-own_events rest (arrive host service conn payload srv))
  received-own_events (takes id ∷ rest) srv =
      ground (arith, received-own_events rest (take_request id srv))
  received-own_events (finishes n ∷ rest) srv =
      ground (arith, received-own_events rest (finish host service n srv))
  received-own_events (leaves conn ∷ rest) srv =
      ground (arith, received-own_events rest (record srv { gone = conn ∷ srv.gone }))

  run-alone :
      (events : List Event) (srv : Server)
      → alone k (run host service events srv)
        ≡ run host service (own_events srv events) (alone k srv)
  unfolding run step
  run-alone [] srv = refl
  run-alone (arrives conn payload ∷ rest) srv = elim (Bool-cases (conn == k)) [
    | inl own ↦
        let same : alone k (arrive host service conn payload srv)
            ≡ arrive host service conn payload (alone k srv) =
          subst
            (λ (c : ℕ).
              alone k (arrive host service c payload srv)
              ≡ arrive host service c payload (alone k srv))
            (sym ((==_iff conn k).0 own)) (arrive_own host service k payload srv) in
        rw own (
          run-alone rest (arrive host service conn payload srv)
          ∙ ap (run host service (own_events (arrive host service conn payload srv) rest)) same)
    | inr other ↦ rw other (
        run-alone rest (arrive host service conn payload srv)
        ∙ ap (run host service (own_events (arrive host service conn payload srv) rest))
            (arrive_other host service k conn payload srv other))
  ]
  run-alone (takes id ∷ rest) srv =
      let after = take_request id srv in
      let later = run-alone rest after in
      elim (Bool-cases (takes_own k id srv)) [
        | inl own ↦
            rw own (later ∙ ap (run host service (own_events after rest)) (take_own k id srv own))
        | inr other ↦
            rw other
              (later ∙ ap (run host service (own_events after rest)) (take_other k id srv other))
      ]
  run-alone (finishes n ∷ rest) srv =
      let after = finish host service n srv in
      let later = run-alone rest after in
      elim (Bool-cases (own_at k srv.taken n)) [
        | inl own ↦ rw own (
            later
            ∙ ap (run host service (own_events after rest)) (finish_own host service k n srv own))
        | inr other ↦ rw other (
            later
            ∙ ap (run host service (own_events after rest))
                (finish_other host service k n srv other))
      ]
  run-alone (leaves conn ∷ rest) srv =
      let after : Server = record srv { gone = conn ∷ srv.gone } in
      let later = run-alone rest after in
      elim (Bool-cases (conn == k)) [
        | inl own ↦
            let same : alone k after
                ≡ record (alone k srv) { gone = conn ∷ own_numbers k srv.gone } =
              rw own refl in
            rw own (later ∙ ap (run host service (own_events after rest)) same)
        | inr other ↦
            let same : alone k after ≡ alone k srv = rw other refl in
            rw other (later ∙ ap (run host service (own_events after rest)) same)
      ]

  -- No client learns of the others: what is handed to a connection to be sent, and what of it waits
  -- or is being answered in the end, is what it would be if the server had that connection alone
  -- and only the connection's own events happened, which hold all that it receives and nothing that
  -- others receive: whatever arrives at other connections, whatever threads take and answer for
  -- them in between, and whenever they end.
  pub alone-run :
      (events : List Event) (srv : Server)
      → (alone k (run host service events srv)
          ≡ run host service (own_events srv events) (alone k srv))
        × (received (own_events srv events) ≡ received_by k events)
  alone-run events srv = (run-alone events srv, received-own_events events srv)
