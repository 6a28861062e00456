-- ===== src/Network/NetServer/Accepting.antt =====
-- Which clients source/Network/NetServer.cpp lets in, and how many.
use tzrpc.Prelude.{ℕ, suc, ◌≤◌, ◌<◌, ◌≡◌, Bool-cases, ◌∙◌, Option, none, some, inl, inr, arith}
use tzrpc.Prelude.Int.{pos}
use tzrpc.Core.Endian.{Bytes}
use tzrpc.Network.NetConn.{ErrorCode, Socket}
use tzrpc.Network.NetConf.{NetConf, check_safe_ip, get_service_token, feed_service_token}
use tzrpc.Network.NetServer.{
  NetServer, admit, check_client, accept_handler, do_accept, release, timed_feed_token_handler,
  run_ready,
}

-- A server whose settings let at most `limit` connections in, after any accepts, ends of connections and
-- feeds.
pub data Serving (limit : ℕ) : NetServer → Type 0 where
  started :
      (srv : NetServer)
      → srv.conf.service_concurrency ≡ pos limit
      → srv.current_concurrency ≡ 0
      → Serving limit srv
  accepted :
      {srv : NetServer} (ec : Option ErrorCode) (remote : Option Bytes) (sock : Socket)
      → Serving limit srv
      → Serving limit (accept_handler ec remote sock srv).1
  ended : {srv : NetServer} → Serving limit srv → Serving limit (release srv)
  fed : {srv : NetServer} → Serving limit srv → Serving limit (run_ready srv)

-- What the relation keeps.
record Bounded (limit : ℕ) (srv : NetServer) : Type 0 where
  pub told : srv.conf.service_concurrency ≡ pos limit
  pub within : srv.current_concurrency ≤ suc limit

get_service_token-concurrency :
    (c : NetConf) → (get_service_token c).1.service_concurrency ≡ c.service_concurrency
unfolding get_service_token
get_service_token-concurrency c = ground arith

module _ (limit : ℕ) (limited : 0 < limit) where
  admit-Bounded :
      (sock : Socket) (srv : NetServer) → Bounded limit srv → Bounded limit (admit sock srv).1
  unfolding admit
  admit-Bounded sock srv b = ground (arith, b.told, b.within)

  check_client-Bounded :
      (ip : Bytes) (sock : Socket) (srv : NetServer)
      → Bounded limit srv
      → Bounded limit (check_client ip sock srv).1
  unfolding check_client
  check_client-Bounded ip sock srv b =
      let taken : NetServer = record srv { conf = (get_service_token srv.conf).1 } in
      let kept : Bounded limit taken = record {
        told = get_service_token-concurrency srv.conf ∙ b.told;
        within = b.within;
      } in
      let let_in = admit-Bounded sock taken kept in
      elim (Bool-cases (check_safe_ip srv.conf ip)) [
        | inr e ↦ rw e b
        | inl e ↦ elim (Bool-cases (get_service_token srv.conf).0) [
          | inr f ↦ rw (e, f) kept
          | inl f ↦ rw (e, f) let_in
        ]
      ]

  accept_handler-Bounded :
      (ec : Option ErrorCode) (remote : Option Bytes) (sock : Socket) (srv : NetServer)
      → Bounded limit srv
      → Bounded limit (accept_handler ec remote sock srv).1
  unfolding accept_handler do_accept
  accept_handler-Bounded (some ec) remote sock srv b = record { told = b.told; within = b.within }
  accept_handler-Bounded none none sock srv b = record { told = b.told; within = b.within }
  accept_handler-Bounded none (some ip) sock srv b =
      let c = check_client-Bounded ip sock srv b in record { told = c.told; within = c.within }

  run_ready_keeps :
      (srv : NetServer)
      → ((run_ready srv).conf.service_concurrency ≡ srv.conf.service_concurrency)
        × ((run_ready srv).current_concurrency ≡ srv.current_concurrency)
  unfolding run_ready timed_feed_token_handler feed_service_token
  run_ready_keeps srv = ground arith

  run_ready-Bounded : (srv : NetServer) → Bounded limit srv → Bounded limit (run_ready srv)
  run_ready-Bounded srv b = record {
    told = (run_ready_keeps srv).0 ∙ b.told;
    within = rw (run_ready_keeps srv).1 b.within;
  }

  Serving-Bounded : {srv : NetServer} → Serving limit srv → Bounded limit srv
  unfolding release
  Serving-Bounded (started srv told none_yet) = record {
    told = told;
    within = omega (arith, none_yet);
  }
  Serving-Bounded (accepted ec remote sock s) =
      accept_handler-Bounded ec remote sock _ (Serving-Bounded s)
  Serving-Bounded (ended s) =
      let b = Serving-Bounded s in record { told = b.told; within = omega (arith, b.within) }
  Serving-Bounded (fed s) = run_ready-Bounded _ (Serving-Bounded s)

  -- However accepts, ends of connections and feeds of tokens follow each other on a server that
  -- starts with no connection, with a limit of at least one there are never more live connections
  -- than that limit and one.
  pub Serving-concurrency :
      {srv : NetServer} → Serving limit srv → srv.current_concurrency ≤ suc limit
  Serving-concurrency s = (Serving-Bounded s).within
