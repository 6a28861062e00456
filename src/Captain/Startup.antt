-- ===== src/Captain/Startup.antt =====
-- When the server of source/Captain.cpp comes up, and what it serves then.
use tzrpc.Prelude.{
  ℕ, ◌≡◌, refl, Bool, true, false, ◌&&◌, Option, none, some, List, [], ◌∷◌, ◌==◌, arith,
  if◌then◌else◌, Option-cases, inl, inr,
}
use tzrpc.Core.Endian.{Bytes}
use tzrpc.Network.NetConf.{found_or, default_conf, load_conf}
use tzrpc.Network.NetServer
use tzrpc.Network.NetServer.{NetServer, new_server, do_accept}
use tzrpc.Rpc.Executor
use tzrpc.Rpc.Executor.{Executor, ExecutorConf, ServiceSetting, new_executor}
use tzrpc.Rpc.Dispatcher
use tzrpc.Rpc.Dispatcher.{Dispatcher, new_dispatcher, register_service, find, start_all}
use tzrpc.Protocol.XtraTaskService
use tzrpc.Protocol.XtraTaskService.{
  XtraTaskService, new_service, init_from, handle_rpc_service_conf, zero_conf, get_executor_conf,
}
use tzrpc.Captain.{
  Captain, World, new_captain, xtra_task_service, xtra_task_name, executor_init, start_server,
  after_server, start_service, init, log_of, of_net_server, of_dispatcher,
}

module _ (split : Bytes → List Bytes) (trim_copy : Bytes → Bytes) (unset : ExecutorConf)
    (executor_start : Executor XtraTaskService → Executor XtraTaskService) (world : World) where
  abbrev started_server : Option (Bool × NetServer)
  started_server =
      NetServer.init split trim_copy world.is_address world.network world.io_threads new_server

  -- The server and the service as their own `init` leave them; where the first throws the server
  -- does not come up.
  abbrev pub server : Bool × NetServer
  server = found_or started_server (false, new_server)

  -- The address to listen at, once the settings are read, is one.
  abbrev pub names_address : Bool
  names_address =
      world.is_address (load_conf split trim_copy world.network default_conf).1.bind_addr

  found_true :
      (r : Option (Bool × NetServer))
      → (found_or r (false, new_server)).0 ≡ true
      → r ≡ some (found_or r (false, new_server))
  found_true (some r) e = refl
  found_true none e = ground (arith, e)

  server-some : names_address ≡ true → started_server ≡ some server
  unfolding NetServer.init
  server-some address = ground (arith, address)

  abbrev pub service : Bool × XtraTaskService
  service = XtraTaskService.init unset world.rpc_services (new_service xtra_task_name)

  abbrev pub executor : Bool × Executor XtraTaskService
  executor = executor_init world (new_executor service.1)

  -- What `init` checks.
  abbrev pub can_start : Bool
  can_start = world.timer && (world.setting && world.setting_found) && server.0 && service.0

  find-start_all :
      (j : ℕ) (l : List (ℕ × Executor XtraTaskService))
      → find j (start_all executor_start l)
        ≡ elim (find j l) [ none ↦ none | some e ↦ some (executor_start e) ]
  unfolding find start_all
  find-start_all j [] = refl
  find-start_all j ((k, e) ∷ rest) = ground (arith, find-start_all j rest)

  -- The dispatcher of a server that came up.
  abbrev dispatcher : Dispatcher (Executor XtraTaskService)
  dispatcher =
      (Dispatcher.init executor_start (
        register_service (executor_init world) new_dispatcher xtra_task_service
          (new_executor service.1))).1

  find-dispatcher :
      (j : ℕ)
      → find j dispatcher.services ≡ (
          if executor.0 && (xtra_task_service == j) then some (executor_start executor.1) else none)
  unfolding Dispatcher.init register_service new_dispatcher find start_all Dispatcher.assign
  find-dispatcher j = ground arith

  init_starts :
      (can_start ≡ true)
      → world.listens ≡ true
      → init split trim_copy unset executor_start world new_captain
        ≡ some (
          true,
          record {
            initialized = true;
            log = some (log_of world);
            net_server = some (do_accept server.1);
            dispatcher = dispatcher;
            runtime_callbacks = of_net_server ∷ of_dispatcher ∷ [];
          },
        )
  unfolding init start_server after_server start_service NetServer.service new_captain
      Dispatcher.init
  init_starts can listens =
      ground (arith, can, listens, found_true started_server (ground (arith, can)))

  init_from-no_conf :
      (services : List ServiceSetting) (s : XtraTaskService)
      → (init_from unset services s).1.conf_ptr ≡ none
      → (init_from unset services s).0 ≡ false
  unfolding init_from handle_rpc_service_conf
  init_from-no_conf [] s missing = refl
  init_from-no_conf (x ∷ rest) s missing = ground (arith, missing, init_from-no_conf rest s)

  init-no_conf :
      (services : Option (List ServiceSetting)) (s : XtraTaskService)
      → (XtraTaskService.init unset services s).1.conf_ptr ≡ none
      → (XtraTaskService.init unset services s).0 ≡ false
  unfolding XtraTaskService.init
  init-no_conf none s missing = refl
  init-no_conf (some l) s missing = init_from-no_conf l s missing

  -- A service that is set up has settings, and its executor takes them over.
  service_conf :
      service.0 ≡ true
      → (conf : ExecutorConf) × (get_executor_conf service.1 ≡ some conf) × (executor.1.conf ≡ conf)
  unfolding executor_init Executor.init new_executor get_executor_conf
  service_conf started = elim (Option-cases (get_executor_conf service.1)) [
    | inl missing ↦
        ground
          (arith, started, init-no_conf world.rpc_services (new_service xtra_task_name) missing)
    | inr (conf, found) ↦ (conf, found, ground (arith, found))
  ]

  -- The server comes up where the timer, the settings, the network and the service can be set up,
  -- the address to listen at is one that `address::from_string` takes, the acceptor listens, and
  -- nothing was initialized before. Then one accept waits for a client, nothing more can be
  -- registered, and the service, which has settings that its executor takes over, is found under
  -- its id, if its executor could be set up, and nothing under any other id. Where the executor
  -- could not be set up the server comes up as well. New settings reach the network and the
  -- dispatcher.
  pub init-serves :
      can_start ≡ true
      → world.listens ≡ true
      → (c : Captain) × (init split trim_copy unset executor_start world new_captain
          ≡ some (true, c))
        × (c.initialized ≡ true)
        × (c.net_server ≡ some (do_accept server.1))
        × (c.dispatcher.initialized ≡ true)
        × (c.runtime_callbacks ≡ of_net_server ∷ of_dispatcher ∷ [])
        × ((conf : ExecutorConf) × (get_executor_conf service.1 ≡ some conf)
            × (executor.1.conf ≡ conf))
        × ((j : ℕ)
            → find j c.dispatcher.services ≡ (
                if executor.0 && (xtra_task_service == j)
                then some (executor_start executor.1)
                else none))
  unfolding Dispatcher.init
  init-serves can listens = (
    _,
    init_starts can listens,
    refl,
    refl,
    refl,
    refl,
    service_conf (ground (arith, can)),
    find-dispatcher,
  )

  -- What is left where the server does not come up.
  abbrev pub left_over : Captain
  left_over =
      if world.timer && (world.setting && world.setting_found)
      then record new_captain {
        log = some (log_of world);
        net_server = some server.1;
        runtime_callbacks = if server.0 then of_net_server ∷ [] else [];
      }
      else new_captain

  -- Where the timer, the settings, the network or the service cannot be set up, and the address to
  -- listen at is one that `address::from_string` takes, `init` returns false, no service is
  -- registered, and the server is not initialized.
  pub init-refuses :
      can_start ≡ false
      → names_address ≡ true
      → (init split trim_copy unset executor_start world new_captain ≡ some (false, left_over))
        × (left_over.initialized ≡ false)
        × (left_over.dispatcher ≡ new_dispatcher)
  unfolding init start_server after_server new_captain
  init-refuses cannot address =
      (ground (arith, cannot, server-some address), ground arith, ground arith)
