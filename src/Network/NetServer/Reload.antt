-- ===== src/Network/NetServer/Reload.antt =====
-- New settings for a running server, source/Network/NetServer.cpp.
use tzrpc.Prelude.{
  ℕ, zero, suc, ◌≡◌, ◌≢◌, refl, ap, ◌∙◌, subst, Bool, true, false, ◌⊎◌, inl, inr, arith, List,
  Bool-cases,
}
use tzrpc.Prelude.Int.{ℤ, pos, negsuc, eqb_ℤ}
use tzrpc.Core.Endian.{Bytes}
use tzrpc.Network.NetConf.{NetworkSetting, NetConf, default_conf, load_conf, feed_service_token}
use tzrpc.Network.NetConf.Loading.{IsConf, overlay, load_conf-IsConf, load_conf-overlay}
use tzrpc.Network.NetServer.{
  NetServer, FeedTimer, start_feed, timed_feed_token_handler, run_ready, update_speed, replace,
  with_times, take_over, module_runtime,
}

pub eqb-same : (a b : ℤ) → eqb_ℤ a b ≡ true → a ≡ b
eqb-same (pos m) (pos n) e = ap pos (ground arith)
eqb-same (pos m) (negsuc n) e = absurd (ground arith)
eqb-same (negsuc m) (pos n) e = absurd (ground arith)
eqb-same (negsuc m) (negsuc n) e = ap negsuc (ground arith)

replace_lem : (old new : ℤ) → replace old new ≡ new
replace_lem old new = elim (Bool-cases (eqb_ℤ old new)) [
  | inl e ↦ rw e (eqb-same old new e)
  | inr e ↦ rw e refl
]

update_speed-conf :
    (speed : ℤ) (srv : NetServer)
    → (update_speed speed srv).conf ≡ record (srv.conf) { service_speed = speed }
unfolding update_speed start_feed
update_speed-conf speed srv = elim (Bool-cases (eqb_ℤ srv.conf.service_speed speed)) [
  | inl e ↦
      rw e (λ i. record (srv.conf) { service_speed = eqb-same srv.conf.service_speed speed e i })
  | inr e ↦ ground arith
]

-- The settings that a running server takes over from new ones.
abbrev pub taken_over : NetConf → NetConf → NetConf
taken_over new old = record old {
  session_cancel_time_out = new.session_cancel_time_out;
  ops_cancel_time_out = new.ops_cancel_time_out;
  safe_ip = new.safe_ip;
  service_speed = new.service_speed;
  service_concurrency = new.service_concurrency;
}

take_over-conf : (d : NetConf) (srv : NetServer) → (take_over d srv).conf ≡ taken_over d srv.conf
unfolding take_over
take_over-conf d srv =
    rw
      (
        update_speed-conf d.service_speed (with_times d srv),
        replace_lem srv.conf.service_concurrency d.service_concurrency,
        replace_lem srv.conf.session_cancel_time_out d.session_cancel_time_out,
        replace_lem srv.conf.ops_cancel_time_out d.ops_cancel_time_out,
      )
      refl

module _ (split : Bytes → List Bytes) (trim_copy : Bytes → Bytes) where
  pub loaded :
      (setting : NetworkSetting) (srv : NetServer) (d : NetConf)
      → load_conf split trim_copy setting default_conf ≡ (true, d)
      → ((module_runtime split trim_copy setting srv).0 ≡ pos 0)
        × ((module_runtime split trim_copy setting srv).1.conf ≡ taken_over d srv.conf)
  unfolding module_runtime
  loaded setting srv d e = rw e (refl, take_over-conf d srv)

  refused :
      (setting : NetworkSetting) (srv : NetServer) (d : NetConf)
      → load_conf split trim_copy setting default_conf ≡ (false, d)
      → module_runtime split trim_copy setting srv ≡ (negsuc 0, srv)
  unfolding module_runtime
  refused setting srv d e = rw e refl

  by_result :
      (setting : NetworkSetting) (srv : NetServer) (ok : Bool) (d : NetConf)
      → load_conf split trim_copy setting default_conf ≡ (ok, d)
      → (module_runtime split trim_copy setting srv ≡ (negsuc 0, srv))
        ⊎ (IsConf (overlay split trim_copy setting default_conf)
            × ((module_runtime split trim_copy setting srv).0 ≡ pos 0)
            × ((module_runtime split trim_copy setting srv).1.conf
                ≡ taken_over (overlay split trim_copy setting default_conf) srv.conf))
  by_result setting srv false d e = inl (refused setting srv d e)
  by_result setting srv true d e =
      let (v, same) = load_conf-IsConf split trim_copy setting default_conf e in
      let (zero_result, conf) = loaded setting srv d e in
      inr
        (subst IsConf same v, zero_result, conf ∙ ap (λ (n : NetConf). taken_over n srv.conf) same)

  -- New settings are taken over whole or not at all: they are refused with -1, and then nothing of
  -- the server changes; or they may be taken, the result is 0, and the server has their two times,
  -- their safe addresses, their speed and their limit of connections, and its other settings as
  -- before.
  pub module_runtime_cases :
      (setting : NetworkSetting) (srv : NetServer)
      → (module_runtime split trim_copy setting srv ≡ (negsuc 0, srv))
        ⊎ (IsConf (overlay split trim_copy setting default_conf)
            × ((module_runtime split trim_copy setting srv).0 ≡ pos 0)
            × ((module_runtime split trim_copy setting srv).1.conf
                ≡ taken_over (overlay split trim_copy setting default_conf) srv.conf))
  module_runtime_cases setting srv =
      by_result setting srv (load_conf split trim_copy setting default_conf).0
        (load_conf split trim_copy setting default_conf).1 refl

eqb-differs : (a b : ℤ) → a ≢ b → eqb_ℤ a b ≡ false
eqb-differs a b differs = elim (Bool-cases (eqb_ℤ a b)) [
  | inl e ↦ absurd (differs (eqb-same a b e))
  | inr e ↦ e
]

-- One wait, and a handler that is ready or none.
abbrev pub one_wait : FeedTimer
one_wait = record { alive = true; waiting = 1; ready = 0 }

abbrev pub two_handlers : FeedTimer
two_handlers = record { alive = true; waiting = 1; ready = 1 }

abbrev pub run_times : ℕ → NetServer → NetServer
run_times zero srv = srv
run_times (suc n) srv = run_times n (run_ready srv)

run_ready_lem :
    (srv : NetServer)
    → srv.timed_feed_token ≡ two_handlers
    → eqb_ℤ srv.conf.service_speed (pos 0) ≡ false
    → ((run_ready srv).timed_feed_token ≡ two_handlers)
      × ((run_ready srv).conf.service_speed ≡ srv.conf.service_speed)
unfolding run_ready timed_feed_token_handler feed_service_token
run_ready_lem srv timer limited = rw (timer, limited) (refl, refl)

run_times_lem :
    (n : ℕ) (srv : NetServer)
    → srv.timed_feed_token ≡ two_handlers
    → eqb_ℤ srv.conf.service_speed (pos 0) ≡ false
    → (run_times n srv).timed_feed_token ≡ two_handlers
run_times_lem zero srv timer limited = timer
run_times_lem (suc n) srv timer limited =
    let (timer', speed) = run_ready_lem srv timer limited in
    run_times_lem n (run_ready srv) timer' (ap (λ (v : ℤ). eqb_ℤ v (pos 0)) speed ∙ limited)

take_over-timer :
    (d : NetConf) (srv : NetServer)
    → srv.timed_feed_token ≡ one_wait
    → eqb_ℤ srv.conf.service_speed d.service_speed ≡ false
    → eqb_ℤ d.service_speed (pos 0) ≡ false
    → (take_over d srv).timed_feed_token ≡ two_handlers
unfolding take_over update_speed start_feed
take_over-timer d srv timer differs limited = rw (timer, differs, limited) refl

-- Where the speed limit is changed to another one, two handlers of the feeding timer are left, of
-- which each cancels the wait of the other: after any number of runs of a handler that is ready,
-- there is again one that waits and one that is ready, so that they never rest. Before, the timer
-- had one wait and no handler was ready; the new settings may be taken, and the new speed is
-- neither 0 nor the old one.
pub module_runtime-two_handlers :
    (split : Bytes → List Bytes) (trim_copy : Bytes → Bytes) (setting : NetworkSetting)
    (srv : NetServer) (n : ℕ)
    → IsConf (overlay split trim_copy setting default_conf)
    → srv.timed_feed_token ≡ one_wait
    → srv.conf.service_speed ≢ (overlay split trim_copy setting default_conf).service_speed
    → (overlay split trim_copy setting default_conf).service_speed ≢ pos 0
    → (run_times n (module_runtime split trim_copy setting srv).1).timed_feed_token ≡ two_handlers
unfolding module_runtime
module_runtime-two_handlers split trim_copy setting srv n v timer differs limited =
    let new : NetConf = overlay split trim_copy setting default_conf in
    let some_limit = eqb-differs new.service_speed (pos 0) limited in
    rw (load_conf-overlay split trim_copy setting default_conf v) (
      run_times_lem n (take_over new srv)
        (take_over-timer new srv timer (eqb-differs _ new.service_speed differs) some_limit)
        (ap (λ (c : NetConf). eqb_ℤ c.service_speed (pos 0)) (take_over-conf new srv) ∙ some_limit))
