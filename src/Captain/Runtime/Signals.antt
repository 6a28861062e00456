-- ===== src/Captain/Runtime/Signals.antt =====
-- What signals do to a running server, setup.cpp.
use tzrpc.Prelude.{◌≡◌, refl, ◌∙◌, inl, inr, Option, none, some, List, [], ◌∷◌, arith, Option-cases}
use tzrpc.Core.Endian.{Bytes}
use tzrpc.Network.NetServer
use tzrpc.Network.NetServer.{NetServer, do_accept}
use tzrpc.Rpc.Executor.{ExecutorConf}
use tzrpc.Rpc.Dispatcher
use tzrpc.Rpc.Dispatcher.{runtime_all}
use tzrpc.Captain.{Captain, RuntimeCallback, of_net_server, of_dispatcher}
use tzrpc.Captain.Runtime.{
  RuntimeSetting, Signal, sighup, sigusr1, other, run_callback, run_callbacks, interrupted_callback,
  interrupted,
}
use tzrpc.Captain.Runtime.Reload.{
  IsSound, queues, connections, runtime_all-keeps, module_runtime-IsConf, module_runtime-counts,
}

-- A step keeps the work of the server, and valid settings valid.
record Keeps (c d : Captain) : Type 0 where
  pub waiting : queues d.dispatcher.services ≡ queues c.dispatcher.services
  pub live : connections d.net_server ≡ connections c.net_server
  pub sound : IsSound c → IsSound d

Keeps-refl : (c : Captain) → Keeps c c
Keeps-refl c = record { waiting = refl; live = refl; sound = λ v. v }

Keeps-trans : (b c d : Captain) → Keeps b c → Keeps c d → Keeps b d
Keeps-trans b c d p q = record {
  waiting = q.waiting ∙ p.waiting;
  live = q.live ∙ p.live;
  sound = λ v. q.sound (p.sound v);
}

module _ (split : Bytes → List Bytes) (trim_copy : Bytes → Bytes) (unset : ExecutorConf) where
  run_callback_missing :
      (setting : RuntimeSetting) (c : Captain)
      → c.net_server ≡ none
      → run_callback split trim_copy unset setting of_net_server c ≡ c
  unfolding run_callback
  run_callback_missing setting c missing = ground (arith, missing)

  run_callback_there :
      (setting : RuntimeSetting) (c : Captain) (srv : NetServer)
      → c.net_server ≡ some srv
      → run_callback split trim_copy unset setting of_net_server c ≡ record c {
        net_server = some (NetServer.module_runtime split trim_copy setting.network srv).1;
      }
  unfolding run_callback
  run_callback_there setting c srv there = ground (arith, there)

  run_callback-Keeps :
      (setting : RuntimeSetting) (callback : RuntimeCallback) (c : Captain)
      → Keeps c (run_callback split trim_copy unset setting callback c)
  unfolding run_callback Dispatcher.module_runtime
  run_callback-Keeps setting of_dispatcher c =
      let (waiting, sound) =
        runtime_all-keeps split trim_copy unset setting c.dispatcher.services in
      record {
        waiting = waiting;
        live = refl;
        sound = λ v. record { network = v.network; services = sound v.services };
      }
  run_callback-Keeps setting of_net_server c = elim (Option-cases c.net_server) [
    | inl missing ↦ rw (run_callback_missing setting c missing) (Keeps-refl c)
    | inr (srv, there) ↦
        let (live, accepting) = module_runtime-counts split trim_copy unset setting srv in
        rw (run_callback_there setting c srv there) (record {
          waiting = refl;
          live = rw there (λ t. some (live t, accepting t));
          sound = λ v. record {
            network =
                module_runtime-IsConf split trim_copy unset setting srv (rw there at v.network);
            services = v.services;
          };
        })
  ]

  run_callbacks-Keeps :
      (setting : RuntimeSetting) (callbacks : List RuntimeCallback) (c : Captain)
      → Keeps c (run_callbacks split trim_copy unset setting callbacks c)
  unfolding run_callbacks
  run_callbacks-Keeps setting [] c = Keeps-refl c
  run_callbacks-Keeps setting (callback ∷ rest) c =
      let next = run_callback split trim_copy unset setting callback c in
      Keeps-trans c next (run_callbacks split trim_copy unset setting rest next)
        (run_callback-Keeps setting callback c) (run_callbacks-Keeps setting rest next)

  module _ (called : List RuntimeCallback → List RuntimeCallback) where
    interrupted_callback-Keeps :
        (signal : Signal) (file : Option RuntimeSetting) (c : Captain)
        → Keeps c (interrupted_callback split trim_copy unset called signal file c)
    unfolding interrupted_callback
    interrupted_callback-Keeps sighup none c = Keeps-refl c
    interrupted_callback-Keeps sighup (some setting) c =
        run_callbacks-Keeps setting (called c.runtime_callbacks) c
    interrupted_callback-Keeps sigusr1 file c = Keeps-refl c
    interrupted_callback-Keeps (other n) file c = Keeps-refl c

    interrupted-Keeps :
        (signals : List (Signal × Option RuntimeSetting)) (c : Captain)
        → Keeps c (interrupted split trim_copy unset called signals c)
    unfolding interrupted
    interrupted-Keeps [] c = Keeps-refl c
    interrupted-Keeps ((signal, file) ∷ rest) c =
        let next = interrupted_callback split trim_copy unset called signal file c in
        Keeps-trans c next (interrupted split trim_copy unset called rest next)
          (interrupted_callback-Keeps signal file c) (interrupted-Keeps rest next)

    -- Whatever signals reach the program and whatever its file holds then, settings that may be
    -- taken stay such, for the network and for every executor; no request that waits is lost or
    -- moved, and the counts of connections and of accepts stay as they were.
    pub interrupted-IsSound :
        (signals : List (Signal × Option RuntimeSetting)) (c : Captain)
        → IsSound c
        → IsSound (interrupted split trim_copy unset called signals c)
          × (queues (interrupted split trim_copy unset called signals c).dispatcher.services
              ≡ queues c.dispatcher.services)
          × (connections (interrupted split trim_copy unset called signals c).net_server
              ≡ connections c.net_server)
    interrupted-IsSound signals c v =
        let keeps = interrupted-Keeps signals c in (keeps.sound v, keeps.waiting, keeps.live)
