-- ===== src/Network/NetConf/Tokens.antt =====
-- The speed limit of source/Network/NetConf.h.
use tzrpc.Prelude.{ℕ, zero, suc, ◌<◌, ◌≡◌, ap, ◌∙◌, true, false, min, arith, if◌then◌else◌}
use tzrpc.Prelude.Int.{ℤ, pos, ◌+ℤ◌}
use tzrpc.Network.NetConf.{NetConf, get_service_token, feed_service_token}

-- How many of `n` requests for a token are granted, one after the other.
abbrev pub granted : ℕ → NetConf → ℕ
granted zero c = 0
granted (suc n) c =
    let rest = granted n (get_service_token c).1 in
    if (get_service_token c).0 then suc rest else rest

abbrev with_tokens : NetConf → ℕ → NetConf
with_tokens c t = record c { service_token = pos t }

module _ (c : NetConf) (v : ℕ) (on : c.service_enabled ≡ true)
    (limit : c.service_speed ≡ pos (suc v)) where
  token_left : (t : ℕ) → get_service_token (with_tokens c (suc t)) ≡ (true, with_tokens c t)
  unfolding get_service_token ◌+ℤ◌
  token_left t = rw (on, limit) (ground arith)

  no_token : get_service_token (with_tokens c 0) ≡ (false, with_tokens c 0)
  unfolding get_service_token
  no_token = rw (on, limit) (ground arith)

  granted_lem : (n t : ℕ) → granted n (with_tokens c t) ≡ min n t
  granted_lem zero t = omega arith
  granted_lem (suc n) zero = rw no_token (granted_lem n zero ∙ omega arith)
  granted_lem (suc n) (suc t) = rw (token_left t) (omega (arith, granted_lem n t))

-- On an enabled service with a speed limit, whatever tokens were left, exactly as many of the
-- requests between two feeds are granted as the limit allows: all of them, or as many as the speed.
pub granted-feed_service_token :
    (c : NetConf) (n v : ℕ)
    → c.service_enabled ≡ true
    → c.service_speed ≡ pos v
    → 0 < v
    → granted n (feed_service_token c) ≡ min n v
unfolding feed_service_token
granted-feed_service_token c n zero on limit some = absurd (omega arith)
granted-feed_service_token c n (suc v) on limit some =
    ap (λ (t : ℤ). granted n (record c { service_token = t })) limit
    ∙ granted_lem c v on limit n (suc v)
