-- ===== src/Rpc/Executor.antt =====
-- source/RPC/Service.h, source/RPC/Executor.{h,cpp} and source/Protocol/ServiceImpl/RpcServiceBase.h:
-- the queue of a service's requests, the number of its threads, and the settings for both.
-- `S` is the type of the service behind the executor, whose calls are arguments. The queue and the pool
-- of threads are Roo's: PUSH adds at the end and POP takes the front.
pub mod Threads
pub mod Order
use tzrpc.Prelude.{
  ℕ, zero, suc, Bool, true, false, ◌||◌, ◌&&◌, not, Option, none, some, List, [], ◌∷◌, ◌++◌, length,
  if◌then◌else◌,
}
use tzrpc.Prelude.Int.{ℤ, pos, negsuc, ltb_ℤ, leb_ℤ, eqb_ℤ, to_int, add_int, div_ℤ}
use tzrpc.Rpc.RpcInstance.{RpcInstance}
use tzrpc.Network.NetConf.{found_or}

-- The three numbers are of type int.
pub record ExecutorConf : Type 0 where
  pub exec_thread_number : ℤ
  pub exec_thread_number_hard : ℤ
  pub exec_thread_step_size : ℤ

-- What `lookupValue` finds in the settings of one service.
pub record ServiceSetting : Type 0 where
  pub instance_name : Option (List ℕ)
  pub exec_thread_pool_size : Option ℤ
  pub exec_thread_pool_size_hard : Option ℤ
  pub exec_thread_pool_step_size : Option ℤ

-- The checks of `handle_rpc_service_conf`, once the hard limit is raised.
unfoldable pub check_executor_conf : ExecutorConf → ℤ
check_executor_conf conf =
    if leb_ℤ conf.exec_thread_number (pos 0)
      || ltb_ℤ (pos 100) conf.exec_thread_number
      || ltb_ℤ (pos 100) conf.exec_thread_number_hard
      || ltb_ℤ conf.exec_thread_number_hard conf.exec_thread_number
    then negsuc 0
    else if ltb_ℤ conf.exec_thread_step_size (pos 0)
    then negsuc 0
    else pos 0

-- The result, and `conf` after the call. The callers pass a `conf` that was never set.
unfoldable pub handle_rpc_service_conf : ServiceSetting → ExecutorConf → ℤ × ExecutorConf
handle_rpc_service_conf setting conf =
    let number = found_or setting.exec_thread_pool_size conf.exec_thread_number in
    let hard = found_or setting.exec_thread_pool_size_hard conf.exec_thread_number_hard in
    let conf' : ExecutorConf = record {
      exec_thread_number = number;
      exec_thread_number_hard = if ltb_ℤ hard number then number else hard;
      exec_thread_step_size =
          found_or setting.exec_thread_pool_step_size conf.exec_thread_step_size;
    } in
    (check_executor_conf conf', conf')

-- What the loop of a thread tells apart of the statuses that Roo's pool sets.
pub data ThreadStatus : Type 0 where
  terminating suspend running : ThreadStatus

-- `threads` is the size that was last asked of the pool.
pub record Executor (S : Type 0) : Type 0 where
  pub service_impl : S
  pub rpc_queue : List RpcInstance
  pub conf : ExecutorConf
  pub threads : ℤ

abbrev pub cap : ℤ → ℤ → ℤ
cap hard n = if ltb_ℤ hard n then hard else n

-- The number of threads and what is added to it for the queue; `none` is the fault of a division by
-- zero, or of a sum that is no int.
unfoldable pub grown : ExecutorConf → ℤ → Option ℤ
grown conf queue_size =
    if ltb_ℤ conf.exec_thread_step_size queue_size
    then elim (div_ℤ queue_size conf.exec_thread_step_size) [
      | none ↦ none
      | some more ↦ add_int conf.exec_thread_number more
    ]
    else some conf.exec_thread_number

-- The size that `executor_threads_adjust` asks for, if there was no fault. The queue's length is a
-- size_t that an int takes over.
unfoldable pub expect_thread : ExecutorConf → ℕ → Option ℤ
unfolding grown
expect_thread conf size = elim (grown conf (to_int size)) [
  | none ↦ none
  | some n ↦ some (cap conf.exec_thread_number_hard n)
]

module _ {S : Type 0} where
  -- The constructor.
  unfoldable pub new_executor : S → Executor S
  new_executor service = record {
    service_impl = service;
    rpc_queue = [];
    conf = record {
      exec_thread_number = pos 0;
      exec_thread_number_hard = pos 0;
      exec_thread_step_size = pos 0;
    };
    threads = pos 0;
  }

  -- `pool` tells whether the threads, and `timer` whether the timer could be set up.
  unfoldable pub init : (S → ExecutorConf) → Bool → Bool → Executor S → Bool × Executor S
  init get_executor_conf pool timer e =
      let conf = get_executor_conf e.service_impl in
      let loaded = record e { conf = conf } in
      if not pool
      then (false, loaded)
      else let sized = record loaded { threads = conf.exec_thread_number } in
        if ltb_ℤ conf.exec_thread_number conf.exec_thread_number_hard
          && ltb_ℤ (pos 0) conf.exec_thread_step_size
        then (timer, sized)
        else (true, sized)

  unfoldable pub handle_rpc : Executor S → RpcInstance → Executor S
  handle_rpc e i = record e { rpc_queue = e.rpc_queue ++ (i ∷ []) }

  unfoldable pub executor_threads_adjust : Executor S → Option (Executor S)
  unfolding expect_thread
  executor_threads_adjust e = elim (expect_thread e.conf (length e.rpc_queue)) [
    | none ↦ none
    | some n ↦ some (record e { threads = n })
  ]

  -- One turn of the loop of `executor_service_run` in a thread that works: nothing, where POP finds no
  -- request in its time.
  unfoldable pub service_turn : (S → RpcInstance → S) → Executor S → Executor S
  service_turn service_handle e = elim (e.rpc_queue) [
    | [] ↦ e
    | i ∷ rest ↦ record e { service_impl = service_handle e.service_impl i; rpc_queue = rest }
  ]

  -- A thread's loop, over the status that it finds at the start of each turn. The bool tells whether the
  -- thread has left the loop and is dead.
  unfoldable pub executor_service_run :
      (S → RpcInstance → S) → List ThreadStatus → Executor S → Bool × Executor S
  unfolding service_turn
  executor_service_run service_handle [] e = (false, e)
  executor_service_run service_handle (terminating ∷ rest) e = (true, e)
  executor_service_run service_handle (suspend ∷ rest) e =
      executor_service_run service_handle rest e
  executor_service_run service_handle (running ∷ rest) e =
      executor_service_run service_handle rest (service_turn service_handle e)

  unfoldable pub module_runtime : (S → ℤ × S) → (S → ExecutorConf) → Executor S → ℤ × Executor S
  module_runtime service_runtime get_executor_conf e =
      let (ret, service) = service_runtime e.service_impl in
      if eqb_ℤ ret (pos 0)
      then (ret, record e { service_impl = service; conf = get_executor_conf service })
      else (ret, record e { service_impl = service })
