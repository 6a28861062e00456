-- ===== src/Network/NetServer.antt =====
-- source/Network/NetServer.{h,cpp}: accepting connections, feeding tokens and new settings.
-- The threads and the acceptor are other projects'; what an accept and a lookup give is an argument.
pub mod Accepting
pub mod Reload
pub mod Threads
use tzrpc.Prelude.{
  ℕ, zero, suc, ◌+◌, ◌-◌, Bool, true, false, not, ◌&&◌, Option, none, some, if◌then◌else◌, ◌∷◌, [],
  List,
}
use tzrpc.Prelude.Int.{ℤ, pos, negsuc, ltb_ℤ, eqb_ℤ}
use tzrpc.Core.Endian.{Bytes}
use tzrpc.Network.NetConn.{ErrorCode, Socket, call, shutdown, close, ShutdownType}
use tzrpc.Network.TcpConnAsync.{TcpConnAsync, new_connection}
use tzrpc.Network.NetConf.{
  NetworkSetting, NetConf, default_conf, load_conf, check_safe_ip, get_service_token,
  feed_service_token,
}

-- `timed_feed_token_`: whether it is there, how many waits it has, and how many handlers of waits that
-- were cancelled are ready to run. Setting a timer's time and destroying it cancel its waits.
pub record FeedTimer : Type 0 where
  pub alive : Bool
  pub waiting : ℕ
  pub ready : ℕ

abbrev pub no_timer : FeedTimer
no_timer = record { alive = false; waiting = 0; ready = 0 }

abbrev pub destroy : FeedTimer → FeedTimer
destroy t = record { alive = false; waiting = 0; ready = t.ready + t.waiting }

abbrev pub renew : FeedTimer → FeedTimer
renew t = record (destroy t) { alive = true }

abbrev pub expires_from_now : FeedTimer → FeedTimer
expires_from_now t = record t { waiting = 0; ready = t.ready + t.waiting }

abbrev pub async_wait : FeedTimer → FeedTimer
async_wait t = record t { waiting = suc t.waiting }

-- `current_concurrency` is the static count of the live connections of TcpConnAsync, which its
-- constructor and its destructor keep; `accepting` counts the accepts that wait for a client.
pub record NetServer : Type 0 where
  pub conf : NetConf
  pub timed_feed_token : FeedTimer
  pub current_concurrency : ℕ
  pub accepting : ℕ

abbrev pub new_server : NetServer
new_server = record {
  conf = default_conf;
  timed_feed_token = no_timer;
  current_concurrency = 0;
  accepting = 0;
}

-- A new timer that runs out after a second.
unfoldable pub start_feed : NetServer → NetServer
start_feed srv = record srv {
  timed_feed_token = async_wait (expires_from_now (renew srv.timed_feed_token));
}

-- The handler does not look at its error code, so a cancelled wait feeds as well.
unfoldable pub timed_feed_token_handler : NetServer → NetServer
unfolding feed_service_token
timed_feed_token_handler srv =
    if eqb_ℤ srv.conf.service_speed (pos 0)
    then record srv { timed_feed_token = destroy srv.timed_feed_token }
    else record srv {
      conf = feed_service_token srv.conf;
      timed_feed_token = async_wait (expires_from_now srv.timed_feed_token);
    }

-- A handler that is ready runs.
unfoldable pub run_ready : NetServer → NetServer
unfolding timed_feed_token_handler
run_ready srv = elim (srv.timed_feed_token.ready) [
  | zero ↦ srv
  | suc n ↦
      timed_feed_token_handler
        (record srv { timed_feed_token = record (srv.timed_feed_token) { ready = n } })
]

unfoldable pub do_accept : NetServer → NetServer
do_accept srv = record srv { accepting = suc srv.accepting }

-- Opening, binding and listening of the acceptor throw where they fail, which is the `none`.
unfoldable pub service : Bool → NetServer → Option NetServer
unfolding do_accept
service listens srv = if listens then some (do_accept srv) else none

-- What becomes of a socket: nothing is done with it, it is shut down and closed, or a connection is made
-- of it, which `start` sets to work.
pub data Admission : Type 0 where
  ignored : Admission
  refused : Socket → Admission
  admitted : TcpConnAsync → Admission

abbrev pub turn_away : Socket → Admission
turn_away sock = refused (call (call sock (shutdown ShutdownType.both)) close)

unfoldable pub admit : Socket → NetServer → Admission × NetServer
admit sock srv =
    if not (eqb_ℤ srv.conf.service_concurrency (pos 0))
      && ltb_ℤ srv.conf.service_concurrency (pos srv.current_concurrency)
    then (turn_away sock, srv)
    else (
      admitted (new_connection sock),
      record srv { current_concurrency = suc srv.current_concurrency },
    )

unfoldable pub check_client : Bytes → Socket → NetServer → Admission × NetServer
unfolding admit
check_client remote_ip sock srv =
    if not (check_safe_ip srv.conf remote_ip)
    then (turn_away sock, srv)
    else let (granted, conf) = get_service_token srv.conf in
      if not granted
      then (turn_away sock, record srv { conf = conf })
      else admit sock (record srv { conf = conf })

-- `remote` is the client's address, where it is known.
unfoldable pub accept_handler :
    Option ErrorCode → Option Bytes → Socket → NetServer → Admission × NetServer
unfolding check_client do_accept
accept_handler (some ec) remote sock srv = (ignored, do_accept srv)
accept_handler none none sock srv = (ignored, do_accept srv)
accept_handler none (some remote_ip) sock srv =
    let (admission, srv') = check_client remote_ip sock srv in (admission, do_accept srv')

-- The destructor of a connection.
unfoldable pub release : NetServer → NetServer
release srv = record srv { current_concurrency = srv.current_concurrency - 1 }

-- The new speed, and its timer: a new one, or none.
unfoldable pub update_speed : ℤ → NetServer → NetServer
unfolding start_feed
update_speed speed srv =
    if eqb_ℤ srv.conf.service_speed speed
    then srv
    else let updated = record srv { conf = record (srv.conf) { service_speed = speed } } in
      if not (eqb_ℤ speed (pos 0))
      then start_feed updated
      else if updated.timed_feed_token.alive
      then record updated { timed_feed_token = destroy updated.timed_feed_token }
      else updated

abbrev pub replace : ℤ → ℤ → ℤ
replace old new = if eqb_ℤ old new then old else new

-- The times and the addresses, as they are before the speed is looked at.
abbrev pub with_times : NetConf → NetServer → NetServer
with_times conf srv = record srv {
  conf = record (srv.conf) {
    session_cancel_time_out = replace srv.conf.session_cancel_time_out conf.session_cancel_time_out;
    ops_cancel_time_out = replace srv.conf.ops_cancel_time_out conf.ops_cancel_time_out;
    safe_ip = conf.safe_ip;
  };
}

-- `module_runtime` once the new settings are loaded.
unfoldable pub take_over : NetConf → NetServer → NetServer
unfolding update_speed
take_over conf srv =
    let fed = update_speed conf.service_speed (with_times conf srv) in
    record fed {
      conf = record (fed.conf) {
        service_concurrency = replace fed.conf.service_concurrency conf.service_concurrency;
      };
    }

module _ (split : Bytes → List Bytes) (trim_copy : Bytes → Bytes) where
  -- `is_address` tells which strings `address::from_string` takes, `threads` whether the pool of
  -- threads could be set up. Any other string makes it throw, which is the `none`.
  unfoldable pub init :
      (Bytes → Bool) → NetworkSetting → Bool → NetServer → Option (Bool × NetServer)
  unfolding start_feed
  init is_address setting threads srv =
      let (ok, conf) = load_conf split trim_copy setting srv.conf in
      let loaded = record srv { conf = conf } in
      if not ok
      then some (false, loaded)
      else if not (is_address conf.bind_addr)
      then none
      else some (threads, if eqb_ℤ conf.service_speed (pos 0) then loaded else start_feed loaded)

  unfoldable pub module_runtime : NetworkSetting → NetServer → ℤ × NetServer
  unfolding take_over
  module_runtime setting srv =
      let (ok, conf) = load_conf split trim_copy setting default_conf in
      if ok then (pos 0, take_over conf srv) else (negsuc 0, srv)
