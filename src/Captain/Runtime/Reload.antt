-- ===== src/Captain/Runtime/Reload.antt =====
-- What new settings do to a running server, setup.cpp.
use tzrpc.Prelude.{
  ℕ, ◌≡◌, refl, sym, subst, true, false, ◌⊎◌, inl, inr, Option, none, some, List, [], ◌∷◌, arith,
  Bool-cases,
}
use tzrpc.Prelude.Int.{ℤ, pos, negsuc, eqb_ℤ}
use tzrpc.Core.Endian.{Bytes}
use tzrpc.Network.NetConf.{NetConf, found_or, same_bytes, default_conf}
use tzrpc.Network.NetConf.Loading.{IsConf, overlay}
use tzrpc.Network.NetServer
use tzrpc.Network.NetServer.{NetServer}
use tzrpc.Network.NetServer.Reload.{module_runtime_cases, taken_over, eqb-same}
use tzrpc.Rpc.RpcInstance.{RpcInstance}
use tzrpc.Rpc.Executor
use tzrpc.Rpc.Executor.{Executor, ExecutorConf, ServiceSetting}
use tzrpc.Rpc.Executor.Threads.{IsExecutorConf, handle_rpc_service_conf-IsExecutorConf}
use tzrpc.Rpc.Dispatcher.{runtime_all}
use tzrpc.Protocol.XtraTaskService
use tzrpc.Protocol.XtraTaskService.{
  XtraTaskService, zero_conf, runtime_from, handle_rpc_service_runtime_conf,
}
use tzrpc.Captain.{Captain}
use tzrpc.Captain.Runtime.{RuntimeSetting, executor_runtime}

-- Settings that may be taken, for the network and for every executor.
abbrev pub AreExecutorConfs : List (ℕ × Executor XtraTaskService) → Type 0
AreExecutorConfs [] = Unit
AreExecutorConfs ((id, e) ∷ rest) = IsExecutorConf e.conf × AreExecutorConfs rest

abbrev pub IsNetConf : Option NetServer → Type 0
IsNetConf none = Unit
IsNetConf (some srv) = IsConf srv.conf

pub record IsSound (c : Captain) : Type 0 where
  pub network : IsNetConf c.net_server
  pub services : AreExecutorConfs c.dispatcher.services

-- The requests that wait for each service, and the connections and accepts of the network.
abbrev pub queues : List (ℕ × Executor XtraTaskService) → List (ℕ × List RpcInstance)
queues [] = []
queues ((id, e) ∷ rest) = (id, e.rpc_queue) ∷ queues rest

abbrev pub connections : Option NetServer → Option (ℕ × ℕ)
connections none = none
connections (some srv) = some (srv.current_concurrency, srv.accepting)

taken_over-IsConf : (new old : NetConf) → IsConf new → IsConf old → IsConf (taken_over new old)
taken_over-IsConf new old v w = record {
  addr = w.addr;
  port = w.port;
  backlog = w.backlog;
  threads = w.threads;
  ops = v.ops;
  session = v.session;
  speed = v.speed;
  concurrency = v.concurrency;
  sends = w.sends;
  recvs = w.recvs;
}

-- A result of 0 comes with settings that may be taken.
abbrev Taken : ℤ × XtraTaskService → Type 0
Taken (ret, s) =
    (eqb_ℤ ret (pos 0) ≡ true)
    → (conf : ExecutorConf) × (s.conf_ptr ≡ some conf) × IsExecutorConf conf

module _ (unset : ExecutorConf) where
  service_runtime :
      (setting : ServiceSetting) (s : XtraTaskService)
      → (handle_rpc_service_runtime_conf unset setting s).0 ≡ false
      → (conf : ExecutorConf) × ((handle_rpc_service_runtime_conf unset setting s).1.conf_ptr
          ≡ some conf)
        × IsExecutorConf conf
  unfolding handle_rpc_service_runtime_conf
  service_runtime setting s taken =
      let (ret, conf) = Executor.handle_rpc_service_conf setting unset in
      elim (Bool-cases (eqb_ℤ ret (pos 0))) [
        | inl fine ↦ (
          conf,
          ground (arith, fine),
          handle_rpc_service_conf-IsExecutorConf setting unset (eqb-same ret (pos 0) fine),
        )
        | inr refused ↦ absurd (ground (arith, refused, taken))
      ]

  runtime_from-Taken :
      (services : List ServiceSetting) (s : XtraTaskService) → Taken (runtime_from unset services s)
  unfolding runtime_from
  runtime_from-Taken [] s e = absurd (ground arith)
  runtime_from-Taken (service ∷ rest) s e =
      let found = handle_rpc_service_runtime_conf unset service s in
      elim (Bool-cases (same_bytes (found_or service.instance_name []) s.instance_name)) [
        | inl same ↦ elim (Bool-cases found.0) [
          | inl failed ↦ absurd (ground (arith, same, failed, e))
          | inr taken ↦ rw same (service_runtime service s taken)
        ]
        | inr differs ↦ rw differs (runtime_from-Taken rest s (rw (differs, runtime_from) at e))
      ]

  module_runtime-Taken :
      (services : Option (List ServiceSetting)) (s : XtraTaskService)
      → Taken (XtraTaskService.module_runtime unset services s)
  unfolding XtraTaskService.module_runtime
  module_runtime-Taken none s e = absurd (ground arith)
  module_runtime-Taken (some services) s e = runtime_from-Taken services s e

module _ (split : Bytes → List Bytes) (trim_copy : Bytes → Bytes) (unset : ExecutorConf)
    (setting : RuntimeSetting) where
  abbrev pub runtime : Executor XtraTaskService → ℤ × Executor XtraTaskService
  runtime = executor_runtime split trim_copy unset setting

  executor_runtime-keeps :
      (e : Executor XtraTaskService)
      → ((runtime e).1.rpc_queue ≡ e.rpc_queue)
        × (IsExecutorConf e.conf → IsExecutorConf (runtime e).1.conf)
  unfolding executor_runtime Executor.module_runtime XtraTaskService.get_executor_conf
  executor_runtime-keeps e =
      let answer = XtraTaskService.module_runtime unset setting.rpc_services e.service_impl in
      elim (Bool-cases (eqb_ℤ answer.0 (pos 0))) [
        | inl fine ↦
            let (conf, there, v) =
              module_runtime-Taken unset setting.rpc_services e.service_impl fine in
            (ground (arith, fine), λ w. rw (fine, there) v)
        | inr refused ↦ (ground (arith, refused), λ w. rw refused w)
      ]

  pub runtime_all-keeps :
      (l : List (ℕ × Executor XtraTaskService))
      → (queues (runtime_all runtime l).1 ≡ queues l)
        × (AreExecutorConfs l → AreExecutorConfs (runtime_all runtime l).1)
  unfolding runtime_all
  runtime_all-keeps [] = (refl, λ v. v)
  runtime_all-keeps ((id, e) ∷ rest) =
      let (queue, sound) = executor_runtime-keeps e in
      let (later, all_sound) = runtime_all-keeps rest in
      (λ t. (id, queue t) ∷ later t, λ v. (sound v.0, all_sound v.1))

  pub module_runtime-IsConf :
      (srv : NetServer)
      → IsConf srv.conf
      → IsConf (NetServer.module_runtime split trim_copy setting.network srv).1.conf
  module_runtime-IsConf srv v = by_case (module_runtime_cases split trim_copy setting.network srv)
    where
      new : NetConf
      new = overlay split trim_copy setting.network default_conf

      after : ℤ × NetServer
      after = NetServer.module_runtime split trim_copy setting.network srv

      by_case :
          (after ≡ (negsuc 0, srv))
            ⊎ (IsConf new × (after.0 ≡ pos 0) × (after.1.conf ≡ taken_over new srv.conf))
          → IsConf after.1.conf
      by_case (inl same) = subst IsConf (λ t. (sym same t).1.conf) v
      by_case (inr (w, zero_result, conf)) =
          subst IsConf (sym conf) (taken_over-IsConf new srv.conf w v)

  pub module_runtime-counts :
      (srv : NetServer)
      → ((NetServer.module_runtime split trim_copy setting.network srv).1.current_concurrency
          ≡ srv.current_concurrency)
        × ((NetServer.module_runtime split trim_copy setting.network srv).1.accepting
            ≡ srv.accepting)
  unfolding NetServer.module_runtime NetServer.take_over NetServer.update_speed NetServer.start_feed
  module_runtime-counts srv = ground arith
