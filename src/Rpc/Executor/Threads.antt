-- ===== src/Rpc/Executor/Threads.antt =====
-- How many threads source/RPC/Executor.cpp asks for.
use tzrpc.Prelude.{
  ℕ, zero, suc, ◌+◌, ◌^◌, ◌/◌, ◌<◌, ◌≡◌, refl, Option, none, some, arith, length, ap, ◌∙◌,
  Bool-cases, inl, inr, ltb,
}
use tzrpc.Prelude.Int.{ℤ, pos, negsuc, ◌≤ℤ◌, ◌+ℤ◌, to_int, add_int, div_ℤ}
use tzrpc.Rpc.Executor.{
  check_executor_conf, ExecutorConf, ServiceSetting, Executor, handle_rpc_service_conf, grown,
  expect_thread, executor_threads_adjust, cap,
}

-- Numbers of threads that a service may have.
pub record IsExecutorConf (conf : ExecutorConf) : Type 0 where
  pub some_thread : pos 1 ≤ℤ conf.exec_thread_number
  pub ordered : conf.exec_thread_number ≤ℤ conf.exec_thread_number_hard
  pub few : conf.exec_thread_number_hard ≤ℤ pos 100
  pub step : pos 0 ≤ℤ conf.exec_thread_step_size

check_executor_conf-IsExecutorConf :
    (conf : ExecutorConf) → check_executor_conf conf ≡ pos 0 → IsExecutorConf conf
unfolding check_executor_conf
check_executor_conf-IsExecutorConf conf e = ground arith

-- Settings of a service that are taken, with the result 0, have at least one thread, at most a
-- hundred, no fewer as the hard limit than normally, and no negative step, whatever was in the
-- place before.
pub handle_rpc_service_conf-IsExecutorConf :
    (setting : ServiceSetting) (conf : ExecutorConf)
    → (handle_rpc_service_conf setting conf).0 ≡ pos 0
    → IsExecutorConf (handle_rpc_service_conf setting conf).1
unfolding handle_rpc_service_conf
handle_rpc_service_conf-IsExecutorConf setting conf e =
    check_executor_conf-IsExecutorConf (handle_rpc_service_conf setting conf).1 e

-- What the adjustment may ask for.
abbrev Fits : ExecutorConf → Option ℤ → Type 0
Fits conf r =
    (n : ℤ) × (r ≡ some n) × (conf.exec_thread_number ≤ℤ n) × (n ≤ℤ conf.exec_thread_number_hard)

cap-Fits :
    (conf : ExecutorConf) (m : ℤ)
    → IsExecutorConf conf
    → conf.exec_thread_number ≤ℤ m
    → Fits conf (some (cap conf.exec_thread_number_hard m))
cap-Fits conf m v more =
    (cap conf.exec_thread_number_hard m, refl, ground (arith, v.ordered), ground arith)

to_int_small : (n : ℕ) → n < 2 ^ 31 → to_int n ≡ pos n
unfolding to_int
to_int_small n small = ground arith

add_int_small :
    (a : ℤ) (k : ℕ)
    → pos 1 ≤ℤ a
    → a ≤ℤ pos 100
    → k + 100 < 2 ^ 31
    → (n : ℤ) × (add_int a (pos k) ≡ some n) × (a ≤ℤ n)
unfolding add_int ◌+ℤ◌
add_int_small (pos a) k some_thread few small = (pos (a + k), ground arith, omega arith)
add_int_small (negsuc a) k some_thread few small = absurd (omega arith)

grown_more :
    (conf : ExecutorConf) (queue_size : ℕ) (s : ℤ)
    → conf.exec_thread_step_size ≡ s
    → IsExecutorConf conf
    → pos 1 ≤ℤ s
    → queue_size + 100 < 2 ^ 31
    → (n : ℤ) × (grown conf (pos queue_size) ≡ some n) × (conf.exec_thread_number ≤ℤ n)
unfolding grown div_ℤ
grown_more conf queue_size (pos zero) e v positive small = absurd (omega arith)
grown_more conf queue_size (negsuc s) e v positive small = absurd (omega arith)
grown_more conf queue_size (pos (suc s)) e v positive small =
    let (n, sum, more) =
      add_int_small conf.exec_thread_number (queue_size / suc s) v.some_thread
        (omega (arith, v.ordered, v.few)) (omega arith) in
    elim (Bool-cases (ltb (suc s) queue_size)) [
      | inl long ↦ (n, ground (arith, e, long, sum), more)
      | inr short ↦ (conf.exec_thread_number, ground (arith, e, short), omega arith)
    ]

-- With settings that may be taken and a positive step, the adjustment neither divides by zero nor
-- overflows, and asks for at least the normal number of threads and at most the hard limit. The
-- queue and a hundred threads together are fewer than 2 ^ 31, so that an int holds its length.
pub expect_thread-bounds :
    (conf : ExecutorConf) (queue_size : ℕ)
    → IsExecutorConf conf
    → pos 1 ≤ℤ conf.exec_thread_step_size
    → queue_size + 100 < 2 ^ 31
    → (n : ℤ) × (expect_thread conf queue_size ≡ some n)
      × (conf.exec_thread_number ≤ℤ n)
      × (n ≤ℤ conf.exec_thread_number_hard)
unfolding expect_thread
expect_thread-bounds conf queue_size v step small =
    let (m, e, more) = grown_more conf queue_size conf.exec_thread_step_size refl v step small in
    let (n, capped, least, most) = cap-Fits conf m v more in
    let same : expect_thread conf queue_size ≡ elim (grown conf (pos queue_size)) [
      | none ↦ none
      | some x ↦ some (cap conf.exec_thread_number_hard x)
    ] =
      ap
        (λ (q : ℤ). elim (grown conf q) [
          | none ↦ none
          | some x ↦ some (cap conf.exec_thread_number_hard x)
        ])
        (to_int_small queue_size (omega arith)) in
    (n, same ∙ rw e capped, least, most)

-- A step of 0, which the settings allow, makes the adjustment divide by zero as soon as a request
-- waits.
pub executor_threads_adjust_zero :
    {S : Type 0} (e : Executor S)
    → e.conf.exec_thread_step_size ≡ pos 0
    → 0 < length e.rpc_queue
    → length e.rpc_queue < 2 ^ 31
    → executor_threads_adjust e ≡ none
unfolding executor_threads_adjust expect_thread grown div_ℤ
executor_threads_adjust_zero e step waiting small =
    ground (arith, to_int_small (length e.rpc_queue) small, step)
