-- ===== src/Network/NetConf/Loading.antt =====
-- Which settings source/Network/NetServer.cpp takes.
use tzrpc.Prelude.{
  ◌≡◌, refl, sym, ap, ◌∙◌, subst, Bool, true, false, ◌||◌, ◌&&◌, not, List, [], ◌⊎◌, ◌↔◌, zero, suc,
  inl, inr, arith, is_empty, if◌then◌else◌,
}
use tzrpc.Prelude.Int.{ℤ, pos, negsuc, ◌≤ℤ◌, ltb_ℤ, leb_ℤ, eqb_ℤ}
use tzrpc.Core.Endian.{Bytes}
use tzrpc.Network.NetConf.{
  NetworkSetting, NetConf, found_or, and_then, collect, load_bind, load_safe_ip, load_backlog_size,
  load_io_thread_number, load_ops_cancel_time_out, load_session_cancel_time_out, load_service_speed,
  load_service_concurrency, load_max_msg_size, load_conf,
}

-- Settings that the server may run with.
pub record IsConf (c : NetConf) : Type 0 where
  pub addr : is_empty c.bind_addr ≡ false
  pub port : pos 1 ≤ℤ c.bind_port
  pub backlog : pos 0 ≤ℤ c.backlog_size
  pub threads : pos 0 ≤ℤ c.io_thread_number
  pub ops : pos 0 ≤ℤ c.ops_cancel_time_out
  pub session : pos 0 ≤ℤ c.session_cancel_time_out
  pub speed : pos 0 ≤ℤ c.service_speed
  pub concurrency : pos 0 ≤ℤ c.service_concurrency
  pub sends : (c.send_max_msg_size ≡ pos 0) ⊎ (pos 33 ≤ℤ c.send_max_msg_size)
  pub recvs : (c.recv_max_msg_size ≡ pos 0) ⊎ (pos 33 ≤ℤ c.recv_max_msg_size)

module _ (split : Bytes → List Bytes) (trim_copy : Bytes → Bytes) where
  -- The settings with what was found put over them.
  abbrev pub overlay : NetworkSetting → NetConf → NetConf
  overlay s c = record {
    service_enabled = found_or s.service_enable c.service_enabled;
    service_speed = found_or s.service_speed c.service_speed;
    service_token = c.service_token;
    service_concurrency = found_or s.service_concurrency c.service_concurrency;
    session_cancel_time_out = found_or s.session_cancel_time_out c.session_cancel_time_out;
    ops_cancel_time_out = found_or s.ops_cancel_time_out c.ops_cancel_time_out;
    send_max_msg_size = found_or s.send_max_msg_size c.send_max_msg_size;
    recv_max_msg_size = found_or s.recv_max_msg_size c.recv_max_msg_size;
    bind_addr = found_or s.bind_addr c.bind_addr;
    bind_port = found_or s.bind_port c.bind_port;
    safe_ip =
        if is_empty (found_or s.safe_ip [])
        then c.safe_ip
        else collect split trim_copy (split (found_or s.safe_ip [])) [];
    backlog_size = found_or s.backlog_size c.backlog_size;
    io_thread_number = found_or s.io_thread_pool_size c.io_thread_number;
  }

  nonneg_iff : (n : ℤ) → (not (ltb_ℤ n (pos 0)) ≡ true) ↔ (pos 0 ≤ℤ n)
  nonneg_iff n = (ground arith, ground arith)

  abbrev size_test : ℤ → Bool
  size_test n = not (eqb_ℤ n (pos 0)) && leb_ℤ n (pos 32)

  size_allowed : (n : ℤ) → size_test n ≡ false → (n ≡ pos 0) ⊎ (pos 33 ≤ℤ n)
  size_allowed (pos zero) e = inl refl
  size_allowed (pos (suc n)) e = inr (ground arith)
  size_allowed (negsuc n) e = absurd (ground arith)

  size_passes : (n : ℤ) → (n ≡ pos 0) ⊎ (pos 33 ≤ℤ n) → size_test n ≡ false
  size_passes n (inl e) = rw e refl
  size_passes n (inr le) = ground arith

  bind_iff : (b : Bool) (n : ℤ) → (not (b || leb_ℤ n (pos 0)) ≡ true) ↔ ((b ≡ false) × (pos 1 ≤ℤ n))
  bind_iff b n = (ground arith, ground arith)

  sizes_iff :
      (m n : ℤ)
      → (not (size_test m || size_test n) ≡ true)
        ↔ (((m ≡ pos 0) ⊎ (pos 33 ≤ℤ m)) × ((n ≡ pos 0) ⊎ (pos 33 ≤ℤ n)))
  sizes_iff m n = (
    λ e. (size_allowed m (ground arith), size_allowed n (ground arith)),
    λ (a, b). rw (size_passes m a, size_passes n b) refl,
  )

  goes_on :
      (r : Bool × NetConf) (next : NetConf → Bool × NetConf)
      → r.0 ≡ true
      → and_then r next ≡ next r.1
  goes_on (true, c) next e = refl
  goes_on (false, c) next e = ground arith

  went_on :
      (r : Bool × NetConf) (next : NetConf → Bool × NetConf) {d : NetConf}
      → and_then r next ≡ (true, d)
      → (r.0 ≡ true) × (next r.1 ≡ (true, d))
  went_on (true, c) next e = (refl, e)
  went_on (false, c) next e = ground arith

  -- The settings after each part.
  module _ (s : NetworkSetting) (c : NetConf) where
    abbrev c1 : NetConf
    c1 = (load_bind s c).1

    abbrev c2 : NetConf
    c2 = (load_safe_ip split trim_copy s c1).1

    abbrev c3 : NetConf
    c3 = (load_backlog_size s c2).1

    abbrev c4 : NetConf
    c4 = (load_io_thread_number s c3).1

    abbrev c5 : NetConf
    c5 = (load_ops_cancel_time_out s c4).1

    abbrev c6 : NetConf
    c6 = (load_session_cancel_time_out s c5).1

    abbrev c7 : NetConf
    c7 = (load_service_speed s c6).1

    abbrev c8 : NetConf
    c8 = (load_service_concurrency s c7).1

    abbrev c9 : NetConf
    c9 = (load_max_msg_size s c8).1

    c9-overlay : c9 ≡ overlay s c
    unfolding load_bind load_safe_ip load_backlog_size load_io_thread_number
        load_ops_cancel_time_out load_session_cancel_time_out load_service_speed
        load_service_concurrency load_max_msg_size
    c9-overlay = refl

    -- Every part lets its values pass.
    abbrev Passes : Type 0
    Passes =
        ((load_bind s c).0 ≡ true)
        × ((load_backlog_size s c2).0 ≡ true)
        × ((load_io_thread_number s c3).0 ≡ true)
        × ((load_ops_cancel_time_out s c4).0 ≡ true)
        × ((load_session_cancel_time_out s c5).0 ≡ true)
        × ((load_service_speed s c6).0 ≡ true)
        × ((load_service_concurrency s c7).0 ≡ true)
        × ((load_max_msg_size s c8).0 ≡ true)

    safe_ip_goes_on : (load_safe_ip split trim_copy s c1).0 ≡ true
    unfolding load_safe_ip
    safe_ip_goes_on = refl

    Passes-true : {d : NetConf} → load_conf split trim_copy s c ≡ (true, d) → Passes × (d ≡ c9)
    unfolding load_conf
    Passes-true e1 =
        let (p1, e2) = went_on (load_bind s c) _ e1 in
        let (p2, e3) = went_on (load_safe_ip split trim_copy s c1) _ e2 in
        let (p3, e4) = went_on (load_backlog_size s c2) _ e3 in
        let (p4, e5) = went_on (load_io_thread_number s c3) _ e4 in
        let (p5, e6) = went_on (load_ops_cancel_time_out s c4) _ e5 in
        let (p6, e7) = went_on (load_session_cancel_time_out s c5) _ e6 in
        let (p7, e8) = went_on (load_service_speed s c6) _ e7 in
        let (p8, e9) = went_on (load_service_concurrency s c7) _ e8 in
        (
          (p1, p3, p4, p5, p6, p7, p8, ap (λ (r : Bool × NetConf). r.0) e9),
          sym (ap (λ (r : Bool × NetConf). r.1) e9),
        )

    passes_true : Passes → load_conf split trim_copy s c ≡ (true, c9)
    unfolding load_conf
    passes_true (p1, p3, p4, p5, p6, p7, p8, p9) =
        goes_on (load_bind s c) _ p1
        ∙ goes_on (load_safe_ip split trim_copy s c1) _ safe_ip_goes_on
        ∙ goes_on (load_backlog_size s c2) _ p3
        ∙ goes_on (load_io_thread_number s c3) _ p4
        ∙ goes_on (load_ops_cancel_time_out s c4) _ p5
        ∙ goes_on (load_session_cancel_time_out s c5) _ p6
        ∙ goes_on (load_service_speed s c6) _ p7
        ∙ goes_on (load_service_concurrency s c7) _ p8
        ∙ ap (λ (b : Bool). (b, c9)) p9

    abbrev bound : ℤ
    bound = found_or s.bind_port c.bind_port

    abbrev sent : ℤ
    sent = found_or s.send_max_msg_size c.send_max_msg_size

    abbrev received : ℤ
    received = found_or s.recv_max_msg_size c.recv_max_msg_size

    Passes-IsConf : Passes ↔ IsConf (overlay s c)
    unfolding load_bind load_safe_ip load_backlog_size load_io_thread_number
        load_ops_cancel_time_out load_session_cancel_time_out load_service_speed
        load_service_concurrency load_max_msg_size
    Passes-IsConf = (
      λ (p1, p3, p4, p5, p6, p7, p8, p9). record {
        addr = ((bind_iff _ bound).0 p1).0;
        port = ((bind_iff _ bound).0 p1).1;
        backlog = (nonneg_iff _).0 p3;
        threads = (nonneg_iff _).0 p4;
        ops = (nonneg_iff _).0 p5;
        session = (nonneg_iff _).0 p6;
        speed = (nonneg_iff _).0 p7;
        concurrency = (nonneg_iff _).0 p8;
        sends = ((sizes_iff sent received).0 p9).0;
        recvs = ((sizes_iff sent received).0 p9).1;
      },
      λ v. (
        (bind_iff _ bound).1 (v.addr, v.port),
        (nonneg_iff _).1 v.backlog,
        (nonneg_iff _).1 v.threads,
        (nonneg_iff _).1 v.ops,
        (nonneg_iff _).1 v.session,
        (nonneg_iff _).1 v.speed,
        (nonneg_iff _).1 v.concurrency,
        (sizes_iff sent received).1 (v.sends, v.recvs),
      ),
    )

  -- Where the settings are taken, they are the old values with what was found put over them, and
  -- with these the address is not empty, the port is positive, no other number is negative, and
  -- each limit of a message is 0 or more than 32.
  pub load_conf-IsConf :
      (s : NetworkSetting) (c : NetConf) {d : NetConf}
      → load_conf split trim_copy s c ≡ (true, d)
      → IsConf d × (d ≡ overlay s c)
  load_conf-IsConf s c e =
      let (passes, same) = Passes-true s c e in
      let whole = same ∙ c9-overlay s c in
      (subst IsConf (sym whole) ((Passes-IsConf s c).0 passes), whole)

  -- Settings that are allowed in that sense, once put over the old values, are taken whole.
  pub load_conf-overlay :
      (s : NetworkSetting) (c : NetConf)
      → IsConf (overlay s c)
      → load_conf split trim_copy s c ≡ (true, overlay s c)
  load_conf-overlay s c v =
      passes_true s c ((Passes-IsConf s c).1 v) ∙ ap (λ (d : NetConf). (true, d)) (c9-overlay s c)
