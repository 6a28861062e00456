-- ===== src/Rpc/Executor/Order.antt =====
-- The order in which source/RPC/Executor.cpp hands requests to its service.
use tzrpc.Prelude.{
  ℕ, zero, suc, ◌≡◌, refl, sym, ap, ◌∙◌, List, [], ◌∷◌, ◌++◌, length, foldl, append-nil,
  append_assoc, Bool, true, false, take, drop,
}
use tzrpc.Rpc.RpcInstance.{RpcInstance}
use tzrpc.Rpc.Executor.{
  Executor, ThreadStatus, terminating, suspend, running, handle_rpc, service_turn,
  executor_service_run,
}

-- How many turns a thread works before it is told to terminate, and whether it is.
abbrev pub working : List ThreadStatus → ℕ
working [] = 0
working (terminating ∷ rest) = 0
working (suspend ∷ rest) = working rest
working (running ∷ rest) = suc (working rest)

abbrev pub told : List ThreadStatus → Bool
told [] = false
told (terminating ∷ rest) = true
told (suspend ∷ rest) = told rest
told (running ∷ rest) = told rest

module _ {S : Type 0} (service_handle : S → RpcInstance → S) where
  abbrev pub turns : ℕ → Executor S → Executor S
  turns zero e = e
  turns (suc n) e = turns n (service_turn service_handle e)

  abbrev pub pushed : Executor S → List RpcInstance → Executor S
  pushed e [] = e
  pushed e (i ∷ rest) = pushed (handle_rpc e i) rest

  pushed_lem :
      (is : List RpcInstance) (e : Executor S)
      → pushed e is ≡ record e { rpc_queue = e.rpc_queue ++ is }
  unfolding handle_rpc
  pushed_lem [] e = λ k. record e { rpc_queue = sym (append-nil e.rpc_queue) k }
  pushed_lem (i ∷ rest) e =
      pushed_lem rest (handle_rpc e i)
      ∙ ap (λ (q : List RpcInstance). record e { rpc_queue = q })
          (append_assoc e.rpc_queue (i ∷ []) rest)

  turns_lem :
      (q : List RpcInstance) (e : Executor S)
      → turns (length q) (record e { rpc_queue = q })
        ≡ record e { service_impl = foldl service_handle e.service_impl q; rpc_queue = [] }
  unfolding service_turn
  turns_lem [] e = refl
  turns_lem (i ∷ rest) e =
      turns_lem rest (record e { service_impl = service_handle e.service_impl i })

  -- First come, first served: of an executor with an empty queue, the requests that the dispatcher
  -- hands over are each given to the service once and in their order, in as many turns of its
  -- thread, and the queue is empty again.
  pub turns-pushed :
      (is : List RpcInstance) (e : Executor S)
      → e.rpc_queue ≡ []
      → turns (length is) (pushed e is)
        ≡ record e { service_impl = foldl service_handle e.service_impl is; rpc_queue = [] }
  turns-pushed is e empty =
      ap (turns (length is))
        (pushed_lem is e ∙ ap (λ (q : List RpcInstance). record e { rpc_queue = q ++ is }) empty)
      ∙ turns_lem is e

  executor_service_run-turns :
      (statuses : List ThreadStatus) (e : Executor S)
      → executor_service_run service_handle statuses e ≡ (told statuses, turns (working statuses) e)
  unfolding executor_service_run
  executor_service_run-turns [] e = refl
  executor_service_run-turns (terminating ∷ rest) e = refl
  executor_service_run-turns (suspend ∷ rest) e = executor_service_run-turns rest e
  executor_service_run-turns (running ∷ rest) e =
      executor_service_run-turns rest (service_turn service_handle e)

  turns-take :
      (n : ℕ) (q : List RpcInstance) (e : Executor S)
      → turns n (record e { rpc_queue = q }) ≡ record e {
        service_impl = foldl service_handle e.service_impl (take n q);
        rpc_queue = drop n q;
      }
  unfolding service_turn
  turns-take zero q e = refl
  turns-take (suc zero) [] e = refl
  turns-take (suc (suc n)) [] e = turns-take (suc n) [] e
  turns-take (suc n) (i ∷ rest) e =
      turns-take n rest (record e { service_impl = service_handle e.service_impl i })

  -- A thread's loop hands the service exactly as many of the requests that wait as it finds itself
  -- running before it is told to terminate, each once and in the order in which the dispatcher
  -- handed them over. A suspended thread handles nothing. What waits then stays in the queue in
  -- order, and the thread is dead exactly if it was told to terminate. The queue was empty before.
  pub executor_service_run-pushed :
      (statuses : List ThreadStatus) (is : List RpcInstance) (e : Executor S)
      → e.rpc_queue ≡ []
      → executor_service_run service_handle statuses (pushed e is) ≡ (
        told statuses,
        record e {
          service_impl = foldl service_handle e.service_impl (take (working statuses) is);
          rpc_queue = drop (working statuses) is;
        },
      )
  executor_service_run-pushed statuses is e empty =
      executor_service_run-turns statuses (pushed e is)
      ∙ ap (λ (f : Executor S). (told statuses, turns (working statuses) f))
          (pushed_lem is e ∙ ap (λ (q : List RpcInstance). record e { rpc_queue = q ++ is }) empty)
      ∙ ap (λ (f : Executor S). (told statuses, f)) (turns-take (working statuses) is e)
