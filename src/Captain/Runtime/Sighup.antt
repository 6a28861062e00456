-- ===== src/Captain/Runtime/Sighup.antt =====
-- What SIGHUP makes of a server that has come up, setup.cpp.
use tzrpc.Prelude.{
  ◌≡◌, refl, ap, Bool, ◌∙◌, true, ◌⊎◌, inl, inr, some, List, [], ◌∷◌, arith, subst, sym,
}
use tzrpc.Core.Endian.{Bytes}
use tzrpc.Network.NetServer
use tzrpc.Network.NetServer.{NetServer, do_accept, start_feed}
use tzrpc.Network.NetServer.Reload.{taken_over, loaded}
use tzrpc.Network.NetConf.{NetworkSetting, NetConf, default_conf, load_conf}
use tzrpc.Network.NetConf.Loading.{IsConf, overlay, load_conf-IsConf, load_conf-overlay}
use tzrpc.Rpc.Executor.{Executor, ExecutorConf}
use tzrpc.Rpc.Dispatcher
use tzrpc.Rpc.Dispatcher.{runtime_all}
use tzrpc.Protocol.XtraTaskService.{XtraTaskService}
use tzrpc.Captain
use tzrpc.Captain.{Captain, World, new_captain, RuntimeCallback, of_net_server, of_dispatcher}
use tzrpc.Captain.Startup
use tzrpc.Captain.Startup.{can_start, init-serves}
use tzrpc.Captain.Runtime.{
  RuntimeSetting, sighup, executor_runtime, run_callback, run_callbacks, interrupted_callback,
}

-- Roo calls each of two callbacks once.
abbrev pub CallsBoth : (List RuntimeCallback → List RuntimeCallback) → Type 0
CallsBoth called =
    (a b : RuntimeCallback)
    → (called (a ∷ b ∷ []) ≡ a ∷ b ∷ []) ⊎ (called (a ∷ b ∷ []) ≡ b ∷ a ∷ [])

module _ (split : Bytes → List Bytes) (trim_copy : Bytes → Bytes) (unset : ExecutorConf)
    (executor_start : Executor XtraTaskService → Executor XtraTaskService) (world : World)
    (called : List RuntimeCallback → List RuntimeCallback) (both : CallsBoth called)
    (setting : RuntimeSetting) where
  abbrev pub reloaded : Captain → NetServer → Captain
  reloaded c srv = record c {
    net_server = some (NetServer.module_runtime split trim_copy setting.network srv).1;
    dispatcher =
        (Dispatcher.module_runtime (executor_runtime split trim_copy unset setting) c.dispatcher).1;
  }

  in_order :
      (c : Captain) (srv : NetServer) (callbacks : List RuntimeCallback)
      → c.net_server ≡ some srv
      → (callbacks ≡ of_net_server ∷ of_dispatcher ∷ [])
        ⊎ (callbacks ≡ of_dispatcher ∷ of_net_server ∷ [])
      → run_callbacks split trim_copy unset setting callbacks c ≡ reloaded c srv
  unfolding run_callbacks run_callback
  in_order c srv callbacks there (inl order) = ground (arith, there, order)
  in_order c srv callbacks there (inr order) = ground (arith, there, order)

  -- What the first settings made of the network.
  abbrev first : Bool × NetServer
  first = Startup.server split trim_copy unset executor_start world

  abbrev overlaid : NetworkSetting → NetConf
  overlaid new = overlay split trim_copy new default_conf

  init-conf :
      (ok : Bool) (d : NetConf)
      → load_conf split trim_copy world.network default_conf ≡ (ok, d)
      → first.0 ≡ true
      → (ok ≡ true) × (first.1.conf ≡ d)
  unfolding NetServer.init start_feed
  init-conf ok d e up = ground (arith, e, up)

  first-conf : first.0 ≡ true → first.1.conf ≡ overlaid world.network
  first-conf up =
      let r = load_conf split trim_copy world.network default_conf in
      let (ok, same) = init-conf r.0 r.1 refl up in
      same
      ∙ (load_conf-IsConf split trim_copy world.network default_conf
          (ap (λ (b : Bool). (b, r.1)) ok)).1

  -- The program has come up, and then it is told to read its settings again: where those under
  -- `rpc.network` may be taken, the network runs with the settings that it came up with, but with
  -- the two times, the safe addresses, the speed and the limit of connections of the new ones, in
  -- whichever order Roo calls the two callbacks. Both settings stand over the default ones.
  pub sighup-init :
      can_start split trim_copy unset executor_start world ≡ true
      → world.listens ≡ true
      → IsConf (overlaid setting.network)
      → (c : Captain) × (Captain.init split trim_copy unset executor_start world new_captain
          ≡ some (true, c))
        × ((srv : NetServer) × ((interrupted_callback split trim_copy unset called sighup
                (some setting)
                c).net_server
              ≡ some srv)
            × (srv.conf ≡ taken_over (overlaid setting.network) (overlaid world.network)))
  unfolding interrupted_callback do_accept
  sighup-init can listens v =
      let (c, started, _, there, _, callbacks, _, _) =
        init-serves split trim_copy unset executor_start world can listens in
      let order =
        subst
          (λ (l : List RuntimeCallback).
            (called l ≡ of_net_server ∷ of_dispatcher ∷ [])
            ⊎ (called l ≡ of_dispatcher ∷ of_net_server ∷ []))
          (sym callbacks) (both of_net_server of_dispatcher) in
      let taken =
        loaded split trim_copy setting.network (do_accept first.1) (overlaid setting.network)
          (load_conf-overlay split trim_copy setting.network default_conf v) in
      (
        c,
        started,
        (
          (NetServer.module_runtime split trim_copy setting.network (do_accept first.1)).1,
          ap (λ (d : Captain). d.net_server)
              (in_order c _ (called c.runtime_callbacks) there order),
          taken.1 ∙ ap (taken_over (overlaid setting.network)) (first-conf (ground (arith, can))),
        ),
      )
