-- ===== src/Network/NetConf.antt =====
-- source/Network/NetConf.h and its part of source/Network/NetServer.cpp: the server's settings and the
-- tokens that limit its speed. libconfig's lookups are a record of what they find, and boost's split and
-- trim are arguments. The timer that feeds the tokens is in NetServer.
pub mod Loading
pub mod Tokens
use tzrpc.Prelude.{
  ℕ, Bool, true, false, ◌||◌, ◌&&◌, not, Option, none, some, List, [], ◌∷◌, ◌++◌, ◌==◌,
  if◌then◌else◌, is_empty,
}
use tzrpc.Prelude.Int.{ℤ, pos, negsuc, ltb_ℤ, leb_ℤ, eqb_ℤ, ◌+ℤ◌}
use tzrpc.Core.Endian.{Bytes}

-- The values under `rpc.network` that `lookupValue` finds, each by the last part of its path.
pub record NetworkSetting : Type 0 where
  pub bind_addr : Option Bytes
  pub bind_port : Option ℤ
  pub safe_ip : Option Bytes
  pub backlog_size : Option ℤ
  pub io_thread_pool_size : Option ℤ
  pub ops_cancel_time_out : Option ℤ
  pub session_cancel_time_out : Option ℤ
  pub service_enable : Option Bool
  pub service_speed : Option ℤ
  pub service_concurrency : Option ℤ
  pub send_max_msg_size : Option ℤ
  pub recv_max_msg_size : Option ℤ

-- The integers are of type int32_t. The set is a list without repetition.
pub record NetConf : Type 0 where
  pub service_enabled : Bool
  pub service_speed : ℤ
  pub service_token : ℤ
  pub service_concurrency : ℤ
  pub session_cancel_time_out : ℤ
  pub ops_cancel_time_out : ℤ
  pub send_max_msg_size : ℤ
  pub recv_max_msg_size : ℤ
  pub bind_addr : Bytes
  pub bind_port : ℤ
  pub safe_ip : List Bytes
  pub backlog_size : ℤ
  pub io_thread_number : ℤ

abbrev pub default_conf : NetConf
default_conf = record {
  service_enabled = true;
  service_speed = pos 0;
  service_token = pos 0;
  service_concurrency = pos 0;
  session_cancel_time_out = pos 0;
  ops_cancel_time_out = pos 0;
  send_max_msg_size = pos 0;
  recv_max_msg_size = pos 0;
  bind_addr = [];
  bind_port = pos 0;
  safe_ip = [];
  backlog_size = pos 10;
  io_thread_number = pos 1;
}

abbrev pub same_bytes : Bytes → Bytes → Bool
same_bytes [] [] = true
same_bytes [] (y ∷ ys) = false
same_bytes (x ∷ xs) [] = false
same_bytes (x ∷ xs) (y ∷ ys) = (x == y) && same_bytes xs ys

abbrev pub contains : Bytes → List Bytes → Bool
contains ip [] = false
contains ip (x ∷ xs) = same_bytes x ip || contains ip xs

abbrev pub insert : Bytes → List Bytes → List Bytes
insert ip l = if contains ip l then l else ip ∷ l

-- `lookupValue` leaves the variable as it is where it finds nothing.
abbrev pub found_or {ℓ} : {A : Type ℓ} → Option A → A → A
found_or none old = old
found_or (some new) old = new

-- The next part of `load_conf`, where the part before it has not returned false.
abbrev pub and_then : Bool × NetConf → (NetConf → Bool × NetConf) → Bool × NetConf
and_then (true, c) next = next c
and_then (false, c) next = (false, c)

unfoldable pub load_bind : NetworkSetting → NetConf → Bool × NetConf
load_bind s c =
    let c' = record c {
      bind_addr = found_or s.bind_addr c.bind_addr;
      bind_port = found_or s.bind_port c.bind_port;
    } in
    (not (is_empty c'.bind_addr || leb_ℤ c'.bind_port (pos 0)), c')

unfoldable pub load_backlog_size : NetworkSetting → NetConf → Bool × NetConf
load_backlog_size s c =
    let c' = record c { backlog_size = found_or s.backlog_size c.backlog_size } in
    (not (ltb_ℤ c'.backlog_size (pos 0)), c')

unfoldable pub load_io_thread_number : NetworkSetting → NetConf → Bool × NetConf
load_io_thread_number s c =
    let c' = record c { io_thread_number = found_or s.io_thread_pool_size c.io_thread_number } in
    (not (ltb_ℤ c'.io_thread_number (pos 0)), c')

unfoldable pub load_ops_cancel_time_out : NetworkSetting → NetConf → Bool × NetConf
load_ops_cancel_time_out s c =
    let c' = record c {
      ops_cancel_time_out = found_or s.ops_cancel_time_out c.ops_cancel_time_out;
    } in
    (not (ltb_ℤ c'.ops_cancel_time_out (pos 0)), c')

unfoldable pub load_session_cancel_time_out : NetworkSetting → NetConf → Bool × NetConf
load_session_cancel_time_out s c =
    let c' = record c {
      session_cancel_time_out = found_or s.session_cancel_time_out c.session_cancel_time_out;
    } in
    (not (ltb_ℤ c'.session_cancel_time_out (pos 0)), c')

unfoldable pub load_service_speed : NetworkSetting → NetConf → Bool × NetConf
load_service_speed s c =
    let c' = record c {
      service_enabled = found_or s.service_enable c.service_enabled;
      service_speed = found_or s.service_speed c.service_speed;
    } in
    (not (ltb_ℤ c'.service_speed (pos 0)), c')

unfoldable pub load_service_concurrency : NetworkSetting → NetConf → Bool × NetConf
load_service_concurrency s c =
    let c' = record c {
      service_concurrency = found_or s.service_concurrency c.service_concurrency;
    } in
    (not (ltb_ℤ c'.service_concurrency (pos 0)), c')

unfoldable pub load_max_msg_size : NetworkSetting → NetConf → Bool × NetConf
load_max_msg_size s c =
    let c' = record c {
      send_max_msg_size = found_or s.send_max_msg_size c.send_max_msg_size;
      recv_max_msg_size = found_or s.recv_max_msg_size c.recv_max_msg_size;
    } in
    (
      not (
          not (eqb_ℤ c'.send_max_msg_size (pos 0)) && leb_ℤ c'.send_max_msg_size (pos 32)
          || not (eqb_ℤ c'.recv_max_msg_size (pos 0)) && leb_ℤ c'.recv_max_msg_size (pos 32)),
      c',
    )

module _ (split : Bytes → List Bytes) (trim_copy : Bytes → Bytes) where
  -- The loop that collects the addresses.
  unfoldable pub collect : List Bytes → List Bytes → List Bytes
  collect [] ip_set = ip_set
  collect (part ∷ parts) ip_set =
      collect parts (if is_empty (trim_copy part) then ip_set else insert (trim_copy part) ip_set)

  unfoldable pub load_safe_ip : NetworkSetting → NetConf → Bool × NetConf
  unfolding collect
  load_safe_ip s c =
      let ip_list : Bytes = found_or s.safe_ip [] in
      (
        true,
        record c { safe_ip = if is_empty ip_list then c.safe_ip else collect (split ip_list) [] },
      )

  -- The parts in the source's order; each returns false at once where its value is not allowed.
  unfoldable pub load_conf : NetworkSetting → NetConf → Bool × NetConf
  load_conf s c = and_then (load_bind s c) (λ c1. and_then (load_safe_ip s c1) (λ c2.
      and_then (load_backlog_size s c2) (λ c3. and_then (load_io_thread_number s c3) (λ c4.
        and_then (load_ops_cancel_time_out s c4) (λ c5.
          and_then (load_session_cancel_time_out s c5) (λ c6.
            and_then (load_service_speed s c6)
              (λ c7. and_then (load_service_concurrency s c7) (λ c8. load_max_msg_size s c8))))))))

unfoldable pub check_safe_ip : NetConf → Bytes → Bool
check_safe_ip c ip = is_empty c.safe_ip || contains ip c.safe_ip

unfoldable pub get_service_token : NetConf → Bool × NetConf
get_service_token c =
    if not c.service_enabled
    then (false, c)
    else if eqb_ℤ c.service_speed (pos 0)
    then (true, c)
    else if leb_ℤ c.service_token (pos 0)
    then (false, c)
    else (true, record c { service_token = c.service_token +ℤ negsuc 0 })

unfoldable pub withdraw_service_token : NetConf → NetConf
withdraw_service_token c = record c { service_token = c.service_token +ℤ pos 1 }

unfoldable pub feed_service_token : NetConf → NetConf
feed_service_token c = record c { service_token = c.service_speed }
