-- ===== src/Tests/Rpc.antt =====
-- Requests, responses and the dispatcher of source/RPC on a small request to service 1, operation 2.
use tzrpc.Prelude.{
  ℕ, ◌+◌, ◌≡◌, ◌≢◌, refl, ap, Bool, true, false, some, [], ◌∷◌, arith, length, ◌==◌, if◌then◌else◌,
}
use tzrpc.Core.Endian.{little, big}
use tzrpc.Rpc.Request
use tzrpc.Rpc.Request.{RpcRequestMessage, of_call, empty_request}
use tzrpc.Rpc.Request.Codec
use tzrpc.Rpc.Request.Codec.{of_call-IsHeader}
use tzrpc.Rpc.Response
use tzrpc.Rpc.Response.{RpcResponseMessage, of_reply, empty_response}
use tzrpc.Rpc.Response.Codec.{of_reply-IsHeader, parse-net_str_response}
use tzrpc.Rpc.RpcInstance.{RpcInstance}
use tzrpc.Rpc.RpcInstance.Validate.{IsRequest, holding}
use tzrpc.Rpc.Dispatcher.{Dispatcher, find, handle_payload}
use tzrpc.Rpc.Dispatcher.Routing.{handle_payload-net_str}

abbrev request : RpcRequestMessage
request = of_call 1 2 (7 ∷ 8 ∷ [])

parse-net_str_example :
    Request.parse big (Request.net_str little request) empty_request ≡ (true, request)
parse-net_str_example =
    Request.Codec.parse-net_str little big request empty_request
      (of_call-IsHeader 1 2 (7 ∷ 8 ∷ []) (omega arith) (omega arith))

parse-net_str_response_example :
    Response.parse big (Response.net_str little (of_reply 1 2 (9 ∷ []))) empty_response
    ≡ (true, of_reply 1 2 (9 ∷ []))
parse-net_str_response_example =
    parse-net_str_response little big (of_reply 1 2 (9 ∷ [])) empty_response
      (of_reply-IsHeader 1 2 (9 ∷ []) (omega arith) (omega arith))

request-IsRequest : IsRequest request
unfolding of_call
request-IsRequest = record {
  header = of_call-IsHeader 1 2 (7 ∷ 8 ∷ []) (omega arith) (omega arith);
  magic = refl;
  version = refl;
  fits = omega arith;
}

some_payload : request.payload ≢ []
unfolding of_call
some_payload e = absurd (omega (arith, ap length e))

-- A service counts the bytes that it was given.
abbrev count : ℕ → RpcInstance → ℕ
count seen i = seen + length i.rpc_request_message.payload

abbrev two_services : Dispatcher ℕ
two_services = record { initialized = true; services = (1, 10) ∷ (2, 20) ∷ [] }

found : find request.header.service_id two_services.services ≡ some 10
unfolding find of_call
found = refl

handle_payload-net_str_example :
    (find 1 (handle_payload little count 5 two_services (Request.net_str big request)).0.services
      ≡ (if request.header.service_id == 1
          then some (count 10 (holding 5 request (Request.net_str big request)))
          else find 1 two_services.services))
    × ((handle_payload little count 5 two_services (Request.net_str big request)).1 ≡ [])
handle_payload-net_str_example =
    handle_payload-net_str little count 5 two_services big request 10 1 request-IsRequest
      some_payload found

-- An executor that always starts, and then has one thread.
abbrev started : ℕ → Bool × ℕ
started threads = (true, 1)

abbrev not_running : Dispatcher ℕ
not_running = record { initialized = false; services = (2, 20) ∷ [] }
