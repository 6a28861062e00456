-- ===== src/Rpc/Dispatcher.antt =====
-- source/RPC/Dispatcher.{h,cpp}: the registry of services and the way of a request to one of them.
-- `E` is the type of the services, which are shared objects; an operation on one of them in the map
-- changes it there. The calls of a service are arguments.
pub mod Routing
use tzrpc.Prelude.{
  ℕ, Bool, true, false, not, Option, none, some, List, [], ◌∷◌, ◌==◌, if◌then◌else◌,
}
use tzrpc.Prelude.Int.{ℤ, pos, ◌+ℤ◌}
use tzrpc.Core.Endian.{Endian, Bytes}
use tzrpc.Core.Message.{Message}
use tzrpc.Rpc.Response.{RpcResponseStatus}
use tzrpc.Rpc.RpcInstance.{RpcInstance, new_instance, validate_request, reject}

pub record Dispatcher (E : Type 0) : Type 0 where
  pub initialized : Bool
  pub services : List (ℕ × E)

module _ {E : Type 0} where
  unfoldable pub new_dispatcher : Dispatcher E
  new_dispatcher = record { initialized = false; services = [] }

  -- `services_.find(id)`, and `services_[id] = e`.
  unfoldable pub find : ℕ → List (ℕ × E) → Option E
  find id [] = none
  find id ((k, e) ∷ rest) = if k == id then some e else find id rest

  unfoldable pub assign : ℕ → E → List (ℕ × E) → List (ℕ × E)
  assign id e [] = (id, e) ∷ []
  assign id e ((k, x) ∷ rest) = if k == id then (id, e) ∷ rest else (k, x) ∷ assign id e rest

  -- Starts the executor of every service. What is in the map is an Executor, so the cast succeeds.
  unfoldable pub start_all : (E → E) → List (ℕ × E) → List (ℕ × E)
  start_all executor_start [] = []
  start_all executor_start ((k, e) ∷ rest) = (k, executor_start e) ∷ start_all executor_start rest

  unfoldable pub init : (E → E) → Dispatcher E → Bool × Dispatcher E
  unfolding start_all
  init executor_start d =
      (true, record { initialized = true; services = start_all executor_start d.services })

  -- `executor` is the new Executor around the service.
  unfoldable pub register_service : (E → Bool × E) → Dispatcher E → ℕ → E → Dispatcher E
  register_service executor_init d service_id executor =
      if d.initialized
      then d
      else let (ok, ready) = executor_init executor in
        if ok then record d { services = assign service_id ready d.services } else d

  -- The dispatcher after the call, and what the connection has to send at once.
  unfoldable pub handle_rpc :
      Endian → (E → RpcInstance → E) → Dispatcher E → RpcInstance → Dispatcher E × List Message
  handle_rpc host service_handle d instance_ =
      let (ok, i) = validate_request host instance_ in
      if not ok
      then (d, reject host i RpcResponseStatus.invalid_request)
      else elim (find i.service_id d.services) [
        | some e ↦ (record d { services = assign i.service_id (service_handle e i) d.services }, [])
        | none ↦ (d, reject host i RpcResponseStatus.invalid_service)
      ]

  -- The call that a connection makes for a payload; `full_socket` is its number.
  unfoldable pub handle_payload :
      Endian → (E → RpcInstance → E) → ℕ → Dispatcher E → Bytes → Dispatcher E × List Message
  unfolding handle_rpc
  handle_payload host service_handle full_socket d payload =
      handle_rpc host service_handle d (new_instance full_socket payload)

  -- The services that were asked, and the sum of what they returned.
  unfoldable pub runtime_all : (E → ℤ × E) → List (ℕ × E) → ℤ × List (ℕ × E)
  runtime_all module_runtime_of [] = (pos 0, [])
  runtime_all module_runtime_of ((k, e) ∷ rest) =
      let (ret, e') = module_runtime_of e in
      let (sum, rest') = runtime_all module_runtime_of rest in (ret +ℤ sum, (k, e') ∷ rest')

  unfoldable pub module_runtime : (E → ℤ × E) → Dispatcher E → ℤ × Dispatcher E
  unfolding runtime_all
  module_runtime module_runtime_of d =
      let (ret_sum, services) = runtime_all module_runtime_of d.services in
      (ret_sum, record d { services = services })
