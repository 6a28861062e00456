-- ===== src/Server/Alone/Finishing.antt =====
-- What the answer to a request does to the part of the server that is one connection's.
use tzrpc.Prelude.{
  ℕ, zero, suc, ◌≡◌, refl, sym, ap, ◌∙◌, Bool, true, false, not, inl, inr, none, some, List, [],
  ◌∷◌, ◌++◌, ◌==◌, arith, get_elem?, erase_idx, append-nil, ==_iff, if◌then◌else◌, Bool-cases,
  Option-cases,
}
use tzrpc.Core.Endian.{Endian}
use tzrpc.Core.Message.{Message}
use tzrpc.Rpc.RpcInstance.{RpcInstance}
use tzrpc.Server.{Outbox, tagged, Server, has_number, answer, finish}
use tzrpc.Server.Alone.{
  own_messages, own_requests, own_numbers, alone, own_messages-append, own_messages-tagged,
  has_number-own,
}

-- The place of a request among the connection's own that are taken.
abbrev pub own_index : ℕ → List RpcInstance → ℕ → ℕ
own_index k [] n = 0
own_index k (i ∷ rest) zero = 0
own_index k (i ∷ rest) (suc n) =
    if i.full_socket == k then suc (own_index k rest n) else own_index k rest n

abbrev pub own_at : ℕ → List RpcInstance → ℕ → Bool
own_at k l n = elim (get_elem? l n) [ none ↦ false | some i ↦ i.full_socket == k ]

erase_own :
    (k : ℕ) (l : List RpcInstance) (n : ℕ)
    → own_at k l n ≡ true
    → (get_elem? (own_requests k l) (own_index k l n) ≡ get_elem? l n)
      × (own_requests k (erase_idx l n) ≡ erase_idx (own_requests k l) (own_index k l n))
erase_own k [] n own = absurd (ground (arith, own))
erase_own k (x ∷ rest) zero own = rw own (refl, refl)
erase_own k (x ∷ rest) (suc n) own =
    let (there, erased) = erase_own k rest n own in
    elim (Bool-cases (x.full_socket == k)) [
      | inl e ↦ rw e (there, ap (◌∷◌ x) erased)
      | inr e ↦ rw e (there, erased)
    ]

erase_other :
    (k : ℕ) (l : List RpcInstance) (n : ℕ)
    → own_at k l n ≡ false
    → own_requests k (erase_idx l n) ≡ own_requests k l
erase_other k [] n other = refl
erase_other k (x ∷ rest) zero other = rw other refl
erase_other k (x ∷ rest) (suc n) other = ground (arith, erase_other k rest n other)

module _ (host : Endian) (service : RpcInstance → List Message) (k : ℕ) where
  answer_own :
      (gone : List ℕ) (i : RpcInstance)
      → (i.full_socket == k) ≡ true
      → own_messages k (answer host service gone i) ≡ answer host service (own_numbers k gone) i
  unfolding answer
  answer_own gone i own =
      let same = (==_iff i.full_socket k).0 own in
      let lives : has_number i.full_socket (own_numbers k gone) ≡ has_number i.full_socket gone =
        ap (λ (n : ℕ). has_number n (own_numbers k gone)) same
        ∙ has_number-own k gone
        ∙ ap (λ (n : ℕ). has_number n gone) (sym same) in
      let i' = record i { socket_alive = not (has_number i.full_socket gone) } in
      own_messages-tagged k i.full_socket (service i')
      ∙ rw own (
          ap (λ (b : Bool). tagged i.full_socket (service (record i { socket_alive = not b })))
            (sym lives))

  answer_other :
      (gone : List ℕ) (i : RpcInstance)
      → (i.full_socket == k) ≡ false
      → own_messages k (answer host service gone i) ≡ []
  unfolding answer
  answer_other gone i other =
      let i' = record i { socket_alive = not (has_number i.full_socket gone) } in
      own_messages-tagged k i.full_socket (service i') ∙ rw other refl

  pub finish_own :
      (n : ℕ) (srv : Server)
      → own_at k srv.taken n ≡ true
      → alone k (finish host service n srv)
        ≡ finish host service (own_index k srv.taken n) (alone k srv)
  unfolding finish
  finish_own n srv own = elim (Option-cases (get_elem? srv.taken n)) [
    | inl missing ↦ ground (arith, missing, own)
    | inr (i, found) ↦
        let (there, erased) = erase_own k srv.taken n own in
        let handed' =
          own_messages-append k srv.handed (answer host service srv.gone i)
          ∙ ap (λ (l : Outbox). own_messages k srv.handed ++ l)
              (answer_own srv.gone i (rw (found, own_at) at own)) in
        rw (found, there ∙ found, finish)
          (λ t. record {
            dispatcher = (alone k srv).dispatcher;
            taken = erased t;
            handed = handed' t;
            gone = own_numbers k srv.gone;
          })
  ]

  pub finish_other :
      (n : ℕ) (srv : Server)
      → own_at k srv.taken n ≡ false
      → alone k (finish host service n srv) ≡ alone k srv
  unfolding finish
  finish_other n srv other = elim (Option-cases (get_elem? srv.taken n)) [
    | inl missing ↦ rw (missing, finish) refl
    | inr (i, found) ↦
        let handed' =
          own_messages-append k srv.handed (answer host service srv.gone i)
          ∙ ap (λ (l : Outbox). own_messages k srv.handed ++ l)
              (answer_other srv.gone i (rw (found, own_at) at other))
          ∙ append-nil (own_messages k srv.handed) in
        rw (found, finish)
          (λ t. record {
            dispatcher = (alone k srv).dispatcher;
            taken = erase_other k srv.taken n other t;
            handed = handed' t;
            gone = own_numbers k srv.gone;
          })
  ]
