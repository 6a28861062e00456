-- ===== src/Rpc/Dispatcher/Routing.antt =====
-- Where source/RPC/Dispatcher.cpp sends a request, and what it answers itself.
use tzrpc.Prelude.{
  ℕ, ◌≡◌, ◌≢◌, refl, Bool, true, false, none, some, List, [], ◌∷◌, arith, ◌⊎◌, inl, inr, ◌==◌,
  if◌then◌else◌, Option-cases,
}
use tzrpc.Core.Endian.{Endian, Bytes}
use tzrpc.Core.Message.{Message, of_data}
use tzrpc.Rpc.Request.{RpcRequestMessage}
use tzrpc.Rpc.Response.{RpcResponseStatus, of_status}
use tzrpc.Rpc.Request
use tzrpc.Rpc.Response
use tzrpc.Rpc.RpcInstance.{RpcInstance, new_instance, validate_request, reject}
use tzrpc.Rpc.RpcInstance.Validate.{IsRequest, holding, validate_request-net_str}
use tzrpc.Rpc.Dispatcher.{Dispatcher, find, assign, handle_payload, register_service, init}

-- The message by which a status alone is answered.
abbrev pub rejection : Endian → RpcResponseStatus → Message
rejection host status = of_data (Response.net_str host (of_status status))

module _ {E : Type 0} where
  -- The map after an assignment.
  pub find-assign :
      (id j : ℕ) (e : E) (l : List (ℕ × E))
      → find j (assign id e l) ≡ (if id == j then some e else find j l)
  unfolding find assign
  find-assign id j e [] = refl
  find-assign id j e ((k, x) ∷ rest) = ground (arith, find-assign id j e rest)

  module _ (host : Endian) (service_handle : E → RpcInstance → E) (full_socket : ℕ)
      (d : Dispatcher E) where
    -- The outcomes of a request, whatever its bytes: it was invalid, or no service has its id, and then
    -- nothing changes and the one rejection is sent; or it goes to the service of its id.
    abbrev pub Routed : Bytes → Type 0
    Routed payload =
        let (ok, i) = validate_request host (new_instance full_socket payload) in
        ((ok ≡ false)
          × (handle_payload host service_handle full_socket d payload
              ≡ (d, reject host i RpcResponseStatus.invalid_request)))
        ⊎ ((ok ≡ true)
            × (find i.service_id d.services ≡ none)
            × (handle_payload host service_handle full_socket d payload
                ≡ (d, reject host i RpcResponseStatus.invalid_service)))
        ⊎ ((e : E) × (ok ≡ true)
            × (find i.service_id d.services ≡ some e)
            × (handle_payload host service_handle full_socket d payload ≡ (
              record d { services = assign i.service_id (service_handle e i) d.services },
              [],
            )))

    pub route_valid :
        (payload : Bytes) (i : RpcInstance)
        → validate_request host (new_instance full_socket payload) ≡ (true, i)
        → (e : E) → find i.service_id d.services ≡ some e
        → handle_payload host service_handle full_socket d payload
          ≡ (record d { services = assign i.service_id (service_handle e i) d.services }, [])
    unfolding handle_payload
    route_valid payload i v e found = ground (arith, v, found)

    pub route_unknown :
        (payload : Bytes) (i : RpcInstance)
        → validate_request host (new_instance full_socket payload) ≡ (true, i)
        → find i.service_id d.services ≡ none
        → handle_payload host service_handle full_socket d payload
          ≡ (d, reject host i RpcResponseStatus.invalid_service)
    unfolding handle_payload
    route_unknown payload i v missing = ground (arith, v, missing)

    pub route_invalid :
        (payload : Bytes) (i : RpcInstance)
        → validate_request host (new_instance full_socket payload) ≡ (false, i)
        → handle_payload host service_handle full_socket d payload
          ≡ (d, reject host i RpcResponseStatus.invalid_request)
    unfolding handle_payload
    route_invalid payload i v = ground (arith, v)

    -- A request of a peer of either byte order that is well formed, less than 4 GiB long and has a
    -- payload, and whose service is registered, goes to that service, and to that alone, as it was
    -- sent; nothing is answered yet.
    pub handle_payload-net_str :
        (peer : Endian) (m : RpcRequestMessage) (e : E) (j : ℕ)
        → IsRequest m
        → m.payload ≢ []
        → find m.header.service_id d.services ≡ some e
        → (find j
              (handle_payload host service_handle full_socket d (Request.net_str peer m)).0.services
            ≡ (if m.header.service_id == j
                then some (service_handle e (holding full_socket m (Request.net_str peer m)))
                else find j d.services))
          × ((handle_payload host service_handle full_socket d (Request.net_str peer m)).1 ≡ [])
    handle_payload-net_str peer m e j v some_payload found =
        rw
          (route_valid (Request.net_str peer m) (holding full_socket m (Request.net_str peer m))
            valid e found)
          (
            find-assign m.header.service_id j
                (service_handle e (holding full_socket m (Request.net_str peer m))) d.services,
            refl,
          )
      where
        valid :
            validate_request host (new_instance full_socket (Request.net_str peer m))
            ≡ (true, holding full_socket m (Request.net_str peer m))
        valid = validate_request-net_str host peer full_socket m v some_payload

    validated :
        (payload : Bytes) (ok : Bool) (i : RpcInstance)
        → validate_request host (new_instance full_socket payload) ≡ (ok, i)
        → Routed payload
    validated payload false i e = inl (rw e, rw e (route_invalid payload i e))
    validated payload true i e = elim (Option-cases (find i.service_id d.services)) [
      | inl missing ↦ inr (inl (rw e, rw e missing, rw e (route_unknown payload i e missing)))
      | inr (s, found) ↦ inr (inr (s, rw e, rw e found, rw e (route_valid payload i e s found)))
    ]

    -- Whatever the bytes of a request, one of three things happens. It is not valid, and the one
    -- answer is INVALID_REQUEST; or no service has its id, and the one answer is INVALID_SERVICE;
    -- in both cases no service changes. Or the service of its id gets it, and nothing is answered
    -- yet.
    pub handle_payload_cases : (payload : Bytes) → Routed payload
    handle_payload_cases payload =
        validated payload (validate_request host (new_instance full_socket payload)).0
          (validate_request host (new_instance full_socket payload)).1 refl

module _ {E : Type 0} (executor_init : E → Bool × E) (d : Dispatcher E) (id : ℕ) (e : E) where
  -- A service registered before `init`, whose executor starts, is found under its id, and the other
  -- ids keep what they had.
  pub find-register_service :
      (j : ℕ)
      → d.initialized ≡ false
      → (executor_init e).0 ≡ true
      → find j (register_service executor_init d id e).services
        ≡ (if id == j then some (executor_init e).1 else find j d.services)
  unfolding register_service
  find-register_service j fresh started =
      rw (fresh, started) (find-assign id j (executor_init e).1 d.services)

  -- After `init` nothing can be registered any more.
  pub register_service-init :
      (executor_start : E → E)
      → register_service executor_init (init executor_start d).1 id e ≡ (init executor_start d).1
  unfolding register_service init
  register_service-init executor_start = refl
