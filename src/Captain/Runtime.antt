-- ===== src/Captain/Runtime.antt =====
-- setup.cpp and the settings of the running server: what a signal makes of the parts of
-- source/Captain.cpp. Roo's Setting reads the file and calls the callbacks that are attached; what it
-- reads, and the order in which it calls them, are arguments. The status that SIGUSR1 prints is text.
pub mod Reload
pub mod Signals
pub mod Sighup
use tzrpc.Prelude.{ℕ, Option, none, some, List, [], ◌∷◌}
use tzrpc.Prelude.Int.{ℤ}
use tzrpc.Core.Endian.{Bytes}
use tzrpc.Network.NetConf.{NetworkSetting}
use tzrpc.Network.NetServer
use tzrpc.Rpc.Executor
use tzrpc.Rpc.Executor.{Executor, ExecutorConf, ServiceSetting}
use tzrpc.Rpc.Dispatcher
use tzrpc.Protocol.XtraTaskService
use tzrpc.Protocol.XtraTaskService.{XtraTaskService, zero_conf}
use tzrpc.Captain.{Captain, RuntimeCallback, of_net_server, of_dispatcher, conf_of}

-- What stands in the file under `rpc.network` and under `rpc_services`.
pub record RuntimeSetting : Type 0 where
  pub network : NetworkSetting
  pub rpc_services : Option (List ServiceSetting)

pub data Signal : Type 0 where
  sighup sigusr1 : Signal
  other : ℕ → Signal

module _ (split : Bytes → List Bytes) (trim_copy : Bytes → Bytes) (unset : ExecutorConf) where
  unfoldable pub executor_runtime :
      RuntimeSetting → Executor XtraTaskService → ℤ × Executor XtraTaskService
  executor_runtime setting =
      Executor.module_runtime (XtraTaskService.module_runtime unset setting.rpc_services)
        (conf_of zero_conf)

  unfoldable pub run_callback : RuntimeSetting → RuntimeCallback → Captain → Captain
  unfolding executor_runtime
  run_callback setting of_net_server c = elim (c.net_server) [
    | none ↦ c
    | some srv ↦ record c {
      net_server = some (NetServer.module_runtime split trim_copy setting.network srv).1;
    }
  ]
  run_callback setting of_dispatcher c = record c {
    dispatcher = (Dispatcher.module_runtime (executor_runtime setting) c.dispatcher).1;
  }

  unfoldable pub run_callbacks : RuntimeSetting → List RuntimeCallback → Captain → Captain
  unfolding run_callback
  run_callbacks setting [] c = c
  run_callbacks setting (callback ∷ rest) c =
      run_callbacks setting rest (run_callback setting callback c)

  module _ (called : List RuntimeCallback → List RuntimeCallback) where
    -- `none` where the file cannot be read, so that no callback is called.
    unfoldable pub interrupted_callback : Signal → Option RuntimeSetting → Captain → Captain
    unfolding run_callbacks
    interrupted_callback sighup none c = c
    interrupted_callback sighup (some setting) c =
        run_callbacks setting (called c.runtime_callbacks) c
    interrupted_callback sigusr1 file c = c
    interrupted_callback (other n) file c = c

    -- The signals that reach the program, each with what the file holds then.
    unfoldable pub interrupted : List (Signal × Option RuntimeSetting) → Captain → Captain
    unfolding interrupted_callback
    interrupted [] c = c
    interrupted ((signal, file) ∷ rest) c = interrupted rest (interrupted_callback signal file c)
