-- ===== src/Tests/Captain.antt =====
-- The start of the server of source/Captain.cpp and the signals of setup.cpp.
use tzrpc.Prelude.{
  ℕ, Bool, ◌≡◌, refl, true, false, ◌&&◌, ◌==◌, if◌then◌else◌, Option, none, some, List, [], ◌∷◌,
  arith, inl,
}
use tzrpc.Prelude.Int.{pos}
use tzrpc.Core.Endian.{Bytes}
use tzrpc.Network.NetConf.{NetworkSetting, found_or}
use tzrpc.Network.NetConf as NetConf
use tzrpc.Network.NetServer
use tzrpc.Network.NetServer.{do_accept, new_server}
use tzrpc.Rpc.Executor
use tzrpc.Rpc.Executor.{Executor, ExecutorConf, ServiceSetting, check_executor_conf}
use tzrpc.Rpc.Dispatcher.{new_dispatcher, find}
use tzrpc.Protocol.XtraTaskService
use tzrpc.Protocol.XtraTaskService.{XtraTaskService, zero_conf, get_executor_conf}
use tzrpc.Captain.{
  RuntimeCallback, of_net_server, of_dispatcher, World, Captain, new_captain, xtra_task_service,
  xtra_task_name, init,
}
use tzrpc.Captain.Startup.{
  can_start, names_address, server, service, executor, left_over, init-serves, init-refuses,
}
use tzrpc.Captain.Runtime.{
  RuntimeSetting, Signal, sighup, sigusr1, interrupted_callback, interrupted,
}
use tzrpc.Captain.Runtime.Reload.{IsSound, queues, connections}
use tzrpc.Captain.Runtime.Signals.{interrupted-IsSound}
use tzrpc.Captain.Runtime.Sighup.{sighup-init, CallsBoth}
use tzrpc.Network.NetConf.{NetConf, default_conf}
use tzrpc.Network.NetServer.{NetServer}
use tzrpc.Network.NetServer.Reload.{taken_over}
use tzrpc.Network.NetConf.Loading.{IsConf, overlay}

abbrev one_part : Bytes → List Bytes
one_part s = s ∷ []

abbrev as_is : Bytes → Bytes
as_is s = s

-- "::1".
abbrev localhost : Bytes
localhost = 58 ∷ 58 ∷ 49 ∷ []

-- Enough to tell that string from others that are no addresses.
abbrev is_address : Bytes → Bool
is_address [] = false
is_address (c ∷ cs) = c == 58

abbrev network : NetworkSetting
network = record {
  bind_addr = some localhost;
  bind_port = some (pos 8080);
  safe_ip = none;
  backlog_size = none;
  io_thread_pool_size = none;
  ops_cancel_time_out = none;
  session_cancel_time_out = none;
  service_enable = none;
  service_speed = none;
  service_concurrency = none;
  send_max_msg_size = none;
  recv_max_msg_size = none;
}

abbrev task_setting : ServiceSetting
task_setting = record {
  instance_name = some xtra_task_name;
  exec_thread_pool_size = some (pos 4);
  exec_thread_pool_size_hard = some (pos 10);
  exec_thread_pool_step_size = some (pos 5);
}

abbrev world : World
world = record {
  timer = true;
  setting = true;
  setting_found = true;
  log_level = none;
  log_path = none;
  network = network;
  is_address = is_address;
  rpc_services = some (task_setting ∷ []);
  io_threads = true;
  executor_threads = true;
  adjust_timer = true;
  listens = true;
}

-- Starting the threads does not change the executor.
abbrev started : Executor XtraTaskService → Executor XtraTaskService
started e = e

world-can_start : can_start one_part as_is zero_conf started world ≡ true
unfolding NetServer.init XtraTaskService.init XtraTaskService.init_from
    XtraTaskService.handle_rpc_service_conf NetConf.load_conf NetConf.load_bind NetConf.load_safe_ip
    NetConf.load_backlog_size NetConf.load_io_thread_number NetConf.load_ops_cancel_time_out
    NetConf.load_session_cancel_time_out NetConf.load_service_speed NetConf.load_service_concurrency
    NetConf.load_max_msg_size XtraTaskService.new_service Executor.handle_rpc_service_conf
    check_executor_conf
world-can_start = refl

init-serves_example :
    (c : Captain) × (init one_part as_is zero_conf started world new_captain ≡ some (true, c))
    × (c.initialized ≡ true)
    × (c.net_server ≡ some (do_accept (server one_part as_is zero_conf started world).1))
    × (c.dispatcher.initialized ≡ true)
    × (c.runtime_callbacks ≡ of_net_server ∷ of_dispatcher ∷ [])
    × ((conf : ExecutorConf) × (get_executor_conf (service one_part as_is zero_conf started world).1
          ≡ some conf)
        × ((executor one_part as_is zero_conf started world).1.conf ≡ conf))
    × ((j : ℕ)
        → find j c.dispatcher.services ≡ (
            if (executor one_part as_is zero_conf started world).0 && (xtra_task_service == j)
            then some (started (executor one_part as_is zero_conf started world).1)
            else none))
init-serves_example = init-serves one_part as_is zero_conf started world world-can_start refl

-- Without the settings of a service.
abbrev no_services : World
no_services = record world { rpc_services = none }

no_services-can_start : can_start one_part as_is zero_conf started no_services ≡ false
unfolding NetServer.init XtraTaskService.init NetConf.load_conf NetConf.load_bind
    NetConf.load_safe_ip NetConf.load_backlog_size NetConf.load_io_thread_number
    NetConf.load_ops_cancel_time_out NetConf.load_session_cancel_time_out NetConf.load_service_speed
    NetConf.load_service_concurrency NetConf.load_max_msg_size
no_services-can_start = refl

no_services-names_address : names_address one_part as_is zero_conf started no_services ≡ true
unfolding NetConf.load_conf NetConf.load_bind NetConf.load_safe_ip NetConf.load_backlog_size
    NetConf.load_io_thread_number NetConf.load_ops_cancel_time_out
    NetConf.load_session_cancel_time_out NetConf.load_service_speed NetConf.load_service_concurrency
    NetConf.load_max_msg_size
no_services-names_address = refl

init-refuses_example :
    (init one_part as_is zero_conf started no_services new_captain
      ≡ some (false, left_over one_part as_is zero_conf started no_services))
    × ((left_over one_part as_is zero_conf started no_services).initialized ≡ false)
    × ((left_over one_part as_is zero_conf started no_services).dispatcher ≡ new_dispatcher)
init-refuses_example =
    init-refuses one_part as_is zero_conf started no_services no_services-can_start
      no_services-names_address

-- Roo calls the callbacks in the order in which they were attached.
abbrev attached : List RuntimeCallback → List RuntimeCallback
attached l = l

attached-CallsBoth : CallsBoth attached
attached-CallsBoth a b = inl refl

-- The file has another limit of connections, and the services where the start reads them.
abbrev limited : RuntimeSetting
limited = record {
  network = record network { service_concurrency = some (pos 7) };
  rpc_services = none;
}

limited-IsConf : IsConf (overlay one_part as_is limited.network default_conf)
limited-IsConf = record {
  addr = refl;
  port = omega arith;
  backlog = omega arith;
  threads = omega arith;
  ops = omega arith;
  session = omega arith;
  speed = omega arith;
  concurrency = omega arith;
  sends = inl refl;
  recvs = inl refl;
}

sighup-init_example :
    (c : Captain) × (init one_part as_is zero_conf started world new_captain ≡ some (true, c))
    × ((srv : NetServer) × ((interrupted_callback one_part as_is zero_conf attached sighup
            (some limited)
            c).net_server
          ≡ some srv)
        × (srv.conf
            ≡ taken_over
                (overlay one_part as_is limited.network default_conf)
                (overlay one_part as_is network default_conf)))
sighup-init_example =
    sighup-init one_part as_is zero_conf started world attached attached-CallsBoth limited
      world-can_start refl limited-IsConf

-- A server that runs with these settings, with one service that has one thread and one queue.
abbrev running_conf : NetConf
running_conf = record default_conf { bind_addr = localhost; bind_port = pos 8080 }

abbrev one_thread : ExecutorConf
one_thread = record {
  exec_thread_number = pos 1;
  exec_thread_number_hard = pos 1;
  exec_thread_step_size = pos 0;
}

abbrev captain : Captain
captain = record {
  initialized = true;
  log = none;
  net_server = some (record new_server { conf = running_conf; current_concurrency = 3 });
  dispatcher = record {
    initialized = true;
    services =
        (
          1,
          record {
            service_impl = record { instance_name = xtra_task_name; conf_ptr = some one_thread };
            rpc_queue = [];
            conf = one_thread;
            threads = pos 1;
          },
        )
        ∷ [];
  };
  runtime_callbacks = of_net_server ∷ of_dispatcher ∷ [];
}

captain-IsSound : IsSound captain
captain-IsSound = record {
  network = record {
    addr = refl;
    port = omega arith;
    backlog = omega arith;
    threads = omega arith;
    ops = omega arith;
    session = omega arith;
    speed = omega arith;
    concurrency = omega arith;
    sends = inl refl;
    recvs = inl refl;
  };
  services = (
    record {
      some_thread = omega arith;
      ordered = omega arith;
      few = omega arith;
      step = omega arith;
    },
    tt,
  );
}

-- New numbers of threads too, under the name that a running server looks for.
abbrev both_parts : RuntimeSetting
both_parts = record limited { rpc_services = some (task_setting ∷ []) }

abbrev signals : List (Signal × Option RuntimeSetting)
signals = (sighup, some limited) ∷ (sigusr1, none) ∷ (sighup, some both_parts) ∷ []

interrupted-IsSound_example :
    IsSound (interrupted one_part as_is zero_conf attached signals captain)
    × (queues (interrupted one_part as_is zero_conf attached signals captain).dispatcher.services
        ≡ queues captain.dispatcher.services)
    × (connections (interrupted one_part as_is zero_conf attached signals captain).net_server
        ≡ connections captain.net_server)
interrupted-IsSound_example =
    interrupted-IsSound one_part as_is zero_conf attached signals captain captain-IsSound
