-- ===== src/Tests/Services.antt =====
-- An executor of source/RPC/Executor.cpp and the service of source/Protocol/ServiceImpl on small inputs.
use tzrpc.Prelude.{ℕ, ◌+◌, ◌≡◌, refl, some, List, [], ◌∷◌, arith, foldl, take, drop}
use tzrpc.Prelude.Int.{ℤ, pos, ◌≤ℤ◌}
use tzrpc.Rpc.RpcInstance.{RpcInstance, new_instance}
use tzrpc.Rpc.Executor.{
  ExecutorConf, ServiceSetting, Executor, ThreadStatus, terminating, suspend, running,
  executor_service_run, expect_thread,
}
use tzrpc.Rpc.Executor.Threads.{expect_thread-bounds}
use tzrpc.Rpc.Executor.Order.{pushed, working, told, executor_service_run-pushed}

-- Four threads, at most ten, one more for every five requests that wait.
abbrev setting : ServiceSetting
setting = record {
  instance_name = some (120 ∷ []);
  exec_thread_pool_size = some (pos 4);
  exec_thread_pool_size_hard = some (pos 10);
  exec_thread_pool_step_size = some (pos 5);
}

abbrev conf : ExecutorConf
conf = record {
  exec_thread_number = pos 4;
  exec_thread_number_hard = pos 10;
  exec_thread_step_size = pos 5;
}

expect_thread-bounds_example :
    (n : ℤ) × (expect_thread conf 17 ≡ some n)
    × (conf.exec_thread_number ≤ℤ n)
    × (n ≤ℤ conf.exec_thread_number_hard)
expect_thread-bounds_example =
    expect_thread-bounds conf 17
      (record {
        some_thread = omega arith;
        ordered = omega arith;
        few = omega arith;
        step = omega arith;
      })
      (omega arith) (omega arith)

-- A service that counts the requests.
abbrev idle : Executor ℕ
idle = record { service_impl = 0; rpc_queue = []; conf = conf; threads = pos 4 }

abbrev requests : List RpcInstance
requests = new_instance 5 (1 ∷ []) ∷ new_instance 5 (2 ∷ []) ∷ []

-- The thread is suspended, works once and is told to terminate: one of the two requests is handled.
abbrev statuses : List ThreadStatus
statuses = suspend ∷ running ∷ terminating ∷ running ∷ []

abbrev count : ℕ → RpcInstance → ℕ
count n i = n + 1

executor_service_run-pushed_example :
    executor_service_run count statuses (pushed count idle requests) ≡ (
      told statuses,
      record idle {
        service_impl = foldl count idle.service_impl (take (working statuses) requests);
        rpc_queue = drop (working statuses) requests;
      },
    )
executor_service_run-pushed_example = executor_service_run-pushed count statuses requests idle refl
