-- ===== src/Captain.antt =====
-- source/Captain.{h,cpp}: how the server comes up. The timer, the settings and the threads are other
-- projects', so what their setting up gives is an argument; the log and the callbacks for the status are
-- left out. The singleton Dispatcher is a field.
pub mod Startup
pub mod Runtime
use tzrpc.Prelude.{
  ℕ, Bool, true, false, not, ◌||◌, Option, none, some, List, [], ◌∷◌, ◌++◌, is_empty, if◌then◌else◌,
}
use tzrpc.Prelude.Int.{ℤ, pos, leb_ℤ, ltb_ℤ}
use tzrpc.Core.Endian.{Bytes}
use tzrpc.Network.NetConf.{NetworkSetting, found_or}
use tzrpc.Network.NetServer
use tzrpc.Network.NetServer.{NetServer, new_server}
use tzrpc.Rpc.Executor
use tzrpc.Rpc.Executor.{Executor, ExecutorConf, ServiceSetting, new_executor}
use tzrpc.Rpc.Dispatcher
use tzrpc.Rpc.Dispatcher.{Dispatcher, new_dispatcher, register_service}
use tzrpc.Protocol.XtraTaskService
use tzrpc.Protocol.XtraTaskService.{XtraTaskService, new_service, zero_conf, get_executor_conf}

-- ServiceID::XTRA_TASK_SERVICE of source/Protocol/Common.h, and "XtraTaskService".
abbrev pub xtra_task_service : ℕ
xtra_task_service = 1

abbrev pub xtra_task_name : Bytes
xtra_task_name =
    88 ∷ 116 ∷ 114 ∷ 97 ∷ 84 ∷ 97 ∷ 115 ∷ 107 ∷ 83 ∷ 101 ∷ 114 ∷ 118 ∷ 105 ∷ 99 ∷ 101 ∷ []

-- What the rest of the world gives: whether the timer, the settings and the pools of threads are set
-- up, whether the settings are there, what is found in them, which strings `address::from_string`
-- takes, and whether the acceptor comes to listen.
pub record World : Type 0 where
  pub timer : Bool
  pub setting : Bool
  pub setting_found : Bool
  pub log_level : Option ℤ
  pub log_path : Option Bytes
  pub network : NetworkSetting
  pub is_address : Bytes → Bool
  pub rpc_services : Option (List ServiceSetting)
  pub io_threads : Bool
  pub executor_threads : Bool
  pub adjust_timer : Bool
  pub listens : Bool

-- The callbacks that are attached to the settings, each by the module that attaches it.
pub data RuntimeCallback : Type 0 where
  of_net_server of_dispatcher : RuntimeCallback

-- `log` is what the log was set up with, and `runtime_callbacks` what was attached to the settings. Every pointer but that to the server is set or not.
pub record Captain : Type 0 where
  pub initialized : Bool
  pub log : Option (ℤ × Bytes)
  pub net_server : Option NetServer
  pub dispatcher : Dispatcher (Executor XtraTaskService)
  pub runtime_callbacks : List RuntimeCallback

unfoldable pub new_captain : Captain
new_captain = record {
  initialized = false;
  log = none;
  net_server = none;
  dispatcher = new_dispatcher;
  runtime_callbacks = [];
}

-- "./log".
abbrev pub default_log_path : Bytes
default_log_path = 46 ∷ 47 ∷ 108 ∷ 111 ∷ 103 ∷ []

unfoldable pub log_of : World → ℤ × Bytes
log_of world =
    let level = found_or world.log_level (pos 0) in
    let path = found_or world.log_path [] in
    (
      if leb_ℤ level (pos 0) || ltb_ℤ (pos 7) level then pos 7 else level,
      if is_empty path then default_log_path else path,
    )

-- The settings of a service that has some; `unset` is not reached then.
abbrev pub conf_of : ExecutorConf → XtraTaskService → ExecutorConf
conf_of unset s = found_or (get_executor_conf s) unset

unfoldable pub executor_init : World → Executor XtraTaskService → Bool × Executor XtraTaskService
executor_init world e =
    Executor.init (conf_of zero_conf) world.executor_threads world.adjust_timer e

module _ (split : Bytes → List Bytes) (trim_copy : Bytes → Bytes) (unset : ExecutorConf)
    (executor_start : Executor XtraTaskService → Executor XtraTaskService) (world : World) where
  -- From the registration on. An exception, here of the acceptor, is the `none`.
  unfoldable pub start_service : XtraTaskService → NetServer → Captain → Option (Bool × Captain)
  unfolding executor_init
  start_service s srv c =
      let registered =
        register_service (executor_init world) c.dispatcher xtra_task_service (new_executor s) in
      let (ok, dispatcher) = Dispatcher.init executor_start registered in
      if not ok
      then some (false, record c { dispatcher = dispatcher })
      else elim (NetServer.service world.listens srv) [
        | none ↦ none
        | some listening ↦ some (
          true,
          record c {
            dispatcher = dispatcher;
            runtime_callbacks = c.runtime_callbacks ++ (of_dispatcher ∷ []);
            net_server = some listening;
            initialized = true;
          },
        )
      ]

  -- From the `init` of the NetServer on.
  unfoldable pub after_server : Captain → Bool × NetServer → Option (Bool × Captain)
  unfolding start_service
  after_server c (server_ok, srv) =
      let with_server = record c { net_server = some srv } in
      if not server_ok
      then some (false, with_server)
      else let attached = record with_server {
        runtime_callbacks = c.runtime_callbacks ++ (of_net_server ∷ []);
      } in
        let (service_ok, s) =
          XtraTaskService.init unset world.rpc_services (new_service xtra_task_name) in
        if not service_ok then some (false, attached) else start_service s srv attached

  -- From the NetServer on.
  unfoldable pub start_server : Captain → Option (Bool × Captain)
  unfolding after_server
  start_server c =
      elim (NetServer.init split trim_copy world.is_address world.network world.io_threads
        new_server) [ none ↦ none | some result ↦ after_server c result ]

  unfoldable pub init : Captain → Option (Bool × Captain)
  unfolding start_server log_of
  init c =
      if c.initialized
      then some (false, c)
      else if not world.timer
      then some (false, c)
      else if not world.setting || not world.setting_found
      then some (false, c)
      else start_server (record c { log = some (log_of world) })
