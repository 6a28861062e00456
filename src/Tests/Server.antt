-- ===== src/Tests/Server.antt =====
-- The server's settings and its accepts, source/Network/NetServer.cpp, with a limit of one connection.
use tzrpc.Prelude.{
  ◌≤◌, ◌≡◌, ◌≢◌, refl, ap, true, min, none, some, List, [], ◌∷◌, arith, inl, inr, ◌⊎◌,
}
use tzrpc.Prelude.Int.{pos, negsuc, pos_part}
use tzrpc.Core.Endian.{Bytes}
use tzrpc.Network.NetConn.{fresh_socket}
use tzrpc.Network.NetConf.{
  NetworkSetting, NetConf, default_conf, load_conf, feed_service_token, get_service_token,
  check_safe_ip, load_bind, load_safe_ip, load_backlog_size, load_io_thread_number,
  load_ops_cancel_time_out, load_session_cancel_time_out, load_service_speed,
  load_service_concurrency, load_max_msg_size,
}
use tzrpc.Network.NetConf.Loading.{IsConf, overlay, load_conf-IsConf}
use tzrpc.Network.NetConf.Tokens.{granted, granted-feed_service_token}
use tzrpc.Network.NetServer.{
  NetServer, new_server, accept_handler, release, module_runtime, admit, check_client,
}
use tzrpc.Network.NetServer.Accepting.{Serving, started, accepted, ended, Serving-concurrency}
use tzrpc.Network.NetServer.Reload.{
  taken_over, one_wait, two_handlers, run_times, module_runtime_cases, module_runtime-two_handlers,
}

abbrev one_part : Bytes → List Bytes
one_part s = s ∷ []

abbrev as_is : Bytes → Bytes
as_is s = s

-- An address, a port, a speed of five and a limit of 100 bytes for what is sent.
abbrev setting : NetworkSetting
setting = record {
  bind_addr = some (49 ∷ []);
  bind_port = some (pos 8080);
  safe_ip = none;
  backlog_size = none;
  io_thread_pool_size = none;
  ops_cancel_time_out = some (pos 10);
  session_cancel_time_out = none;
  service_enable = none;
  service_speed = some (pos 5);
  service_concurrency = some (pos 1);
  send_max_msg_size = some (pos 100);
  recv_max_msg_size = none;
}

setting-IsConf : IsConf (overlay one_part as_is setting default_conf)
setting-IsConf = record {
  addr = refl;
  port = omega arith;
  backlog = omega arith;
  threads = omega arith;
  ops = omega arith;
  session = omega arith;
  speed = omega arith;
  concurrency = omega arith;
  sends = inr (omega arith);
  recvs = inl refl;
}

loads :
    load_conf one_part as_is setting default_conf
    ≡ (true, overlay one_part as_is setting default_conf)
unfolding load_conf load_bind load_safe_ip load_backlog_size load_io_thread_number
    load_ops_cancel_time_out load_session_cancel_time_out load_service_speed
    load_service_concurrency load_max_msg_size
loads = refl

load_conf-IsConf_example :
    IsConf (overlay one_part as_is setting default_conf)
    × (overlay one_part as_is setting default_conf ≡ overlay one_part as_is setting default_conf)
load_conf-IsConf_example = load_conf-IsConf one_part as_is setting default_conf loads

abbrev five : NetConf
five = overlay one_part as_is setting default_conf

granted-feed_service_token_example : granted 7 (feed_service_token five) ≡ min 7 5
granted-feed_service_token_example = granted-feed_service_token five 7 5 refl refl (omega arith)

abbrev open_server : NetServer
open_server = record new_server { conf = record default_conf { service_concurrency = pos 1 } }

-- Two clients are let in, one of them leaves, and another one comes.
abbrev busy : NetServer
busy =
    (accept_handler none (some (50 ∷ [])) fresh_socket (
      release
        (accept_handler none (some (50 ∷ [])) fresh_socket
          (accept_handler none (some (50 ∷ [])) fresh_socket open_server).1).1)).1

busy-Serving : Serving 1 busy
busy-Serving = accepted none (some (50 ∷ [])) fresh_socket (
    ended (
      accepted none (some (50 ∷ [])) fresh_socket
        (accepted none (some (50 ∷ [])) fresh_socket (started open_server refl refl))))

Serving-concurrency_example : busy.current_concurrency ≤ 2
Serving-concurrency_example = Serving-concurrency 1 (omega arith) busy-Serving

-- With a limit of one there are two connections.
busy_has_two : busy.current_concurrency ≡ 2
unfolding accept_handler release admit check_client check_safe_ip get_service_token
busy_has_two = refl

abbrev limited : NetServer
limited = record new_server {
  conf = record default_conf { service_speed = pos 3 };
  timed_feed_token = one_wait;
}

module_runtime_cases_example :
    (module_runtime one_part as_is setting limited ≡ (negsuc 0, limited))
    ⊎ (IsConf (overlay one_part as_is setting default_conf)
        × ((module_runtime one_part as_is setting limited).0 ≡ pos 0)
        × ((module_runtime one_part as_is setting limited).1.conf
            ≡ taken_over (overlay one_part as_is setting default_conf) limited.conf))
module_runtime_cases_example = module_runtime_cases one_part as_is setting limited

three_not_five : pos 3 ≢ pos 5
three_not_five e = absurd (omega (arith, ap pos_part e))

five_not_none : pos 5 ≢ pos 0
five_not_none e = absurd (omega (arith, ap pos_part e))

module_runtime-two_handlers_example :
    (run_times 4 (module_runtime one_part as_is setting limited).1).timed_feed_token ≡ two_handlers
module_runtime-two_handlers_example =
    module_runtime-two_handlers one_part as_is setting limited 4 setting-IsConf refl three_not_five
      five_not_none
