-- ===== src/Client/RpcClientImpl/Answer.antt =====
-- What the client of source/Client/RpcClientImpl.cpp makes of an answer of the server.
use tzrpc.Prelude.{ℕ, ◌<◌, ◌≡◌, ◌≢◌, refl, [], arith, ◌⊎◌}
use tzrpc.Core.Endian.{Endian, Bytes, IsU16}
use tzrpc.Core.Message.{Message}
use tzrpc.Rpc.Response
use tzrpc.Rpc.Response.{
  RpcResponseMessage, RpcResponseStatus, of_reply, of_status, status_code, empty_response,
}
use tzrpc.Rpc.Response.Codec.{parse-net_str_response, of_reply-IsHeader, of_status-IsHeader}
use tzrpc.Client.RpcClientStatus.{ok, recv_format_error}
use tzrpc.Client.RpcClientImpl.{check_response, async_recv_wrapper}

module _ (host peer : Endian) (service opcode : ℕ) where
  -- The reply of a server of either byte order to the same service and operation, both 16 bits
  -- wide, is taken: the status is OK, and the response is what the service replied.
  pub check_response-of_reply :
      (bytes respload : Bytes)
      → IsU16 service
      → IsU16 opcode
      → check_response host service opcode
          (Response.net_str peer (of_reply service opcode bytes))
          respload
        ≡ (ok, bytes)
  unfolding check_response of_reply
  check_response-of_reply bytes respload s o = ground (
    arith,
    parse-net_str_response peer host (of_reply service opcode bytes) empty_response
        (of_reply-IsHeader service opcode bytes s o),
  )

  -- Every rejection by the server, whatever its status, is reported to a synchronous caller as an
  -- answer of a wrong format, unless the caller asked for operation 0 of service 0: the server
  -- leaves both ids out of a rejection, and the client compares them before it looks at the status.
  pub check_response-of_status :
      (status : RpcResponseStatus) (respload : Bytes)
      → (service ≢ 0) ⊎ (opcode ≢ 0)
      → check_response host service opcode (Response.net_str peer (of_status status)) respload
        ≡ (recv_format_error, respload)
  unfolding check_response of_status
  check_response-of_status status respload asked = ground (
    arith,
    asked,
    parse-net_str_response peer host (of_status status) empty_response (of_status-IsHeader status),
  )

status_code_pos :
    (status : RpcResponseStatus) → status ≢ RpcResponseStatus.ok → 0 < status_code status
unfolding status_code
status_code_pos RpcResponseStatus.ok bad = absurd (bad refl)
status_code_pos RpcResponseStatus.service_specific_error bad = omega arith
status_code_pos RpcResponseStatus.invalid_version bad = omega arith
status_code_pos RpcResponseStatus.invalid_service bad = omega arith
status_code_pos RpcResponseStatus.invalid_request bad = omega arith
status_code_pos RpcResponseStatus.system_error bad = omega arith

-- The handler of an asynchronous call does learn the status of a rejection, for every status but
-- OK, though not the ids of its call: it gets the largest uint16_t for both, and an empty response.
pub async_recv_wrapper-of_status :
    (host peer : Endian) (status : RpcResponseStatus) (m : Message)
    → status ≢ RpcResponseStatus.ok
    → m.payload ≡ Response.net_str peer (of_status status)
    → async_recv_wrapper host m ≡ (status_code status, 65535, 65535, [])
unfolding async_recv_wrapper of_status status_code
async_recv_wrapper-of_status host peer status m bad carries = rw carries (
    ground (
      arith,
      status_code_pos status bad,
      parse-net_str_response peer host (of_status status) empty_response
          (of_status-IsHeader status),
    ))

-- And the ids and the response of a reply.
pub async_recv_wrapper-of_reply :
    (host peer : Endian) (service opcode : ℕ) (bytes : Bytes) (m : Message)
    → IsU16 service
    → IsU16 opcode
    → m.payload ≡ Response.net_str peer (of_reply service opcode bytes)
    → async_recv_wrapper host m ≡ (ok, service, opcode, bytes)
unfolding async_recv_wrapper of_reply
async_recv_wrapper-of_reply host peer service opcode bytes m s o carries = rw carries (
    ground (
      arith,
      parse-net_str_response peer host (of_reply service opcode bytes) empty_response
          (of_reply-IsHeader service opcode bytes s o),
    ))
