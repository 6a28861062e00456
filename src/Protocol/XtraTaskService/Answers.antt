-- ===== src/Protocol/XtraTaskService/Answers.antt =====
-- What source/Protocol/ServiceImpl/XtraTaskService.cpp answers.
use tzrpc.Prelude.{◌≡◌, true, Option, none, some, [], ◌∷◌, ◌++◌, arith, length, if◌then◌else◌}
use tzrpc.Core.Endian.{Endian, Bytes, IsU16}
use tzrpc.Core.Message.{Message, of_data}
use tzrpc.Rpc.Response
use tzrpc.Rpc.Response.{of_reply}
use tzrpc.Rpc.RpcInstance.{RpcInstance, reply_rpc_message, reject}
use tzrpc.Client.RpcClientStatus.{ok}
use tzrpc.Client.RpcClientImpl.{check_response}
use tzrpc.Client.RpcClientImpl.Answer.{check_response-of_reply}
use tzrpc.Protocol.XtraTaskService.{
  ReadRequest, ReadResponse, ok_response, respond, read_ops_impl, write_ops_impl, handle_rpc,
  cmd_read, echo_prefix,
}

module _ (host : Endian) (unmarshal : Bytes → Option ReadRequest)
    (marshal : ReadResponse → Bytes) where
  length-reply :
      (i : RpcInstance) (msg : Bytes)
      → length (reply_rpc_message host i msg) ≡ (if i.socket_alive then 1 else 0)
  unfolding reply_rpc_message
  length-reply i msg = ground arith

  -- Every request is answered by exactly one message, whatever its operation and its payload,
  -- unless its connection is gone: then by none.
  pub length-handle_rpc :
      (i : RpcInstance)
      → length (handle_rpc host unmarshal marshal i) ≡ (if i.socket_alive then 1 else 0)
  unfolding handle_rpc read_ops_impl write_ops_impl reject reply_rpc_message
  length-handle_rpc i = ground arith

  -- The response to an echo.
  abbrev pub echoed : Bytes → Bytes
  echoed text = marshal (record ok_response { echo = some (echo_prefix ++ text) })

  abbrev pub IsEcho : Bytes → Bytes → Type 0
  IsEcho payload text =
      unmarshal payload
      ≡ some (record { ping = none; gets = none; echo = some text; timeout = none })

  pub handle_rpc_echo :
      (i : RpcInstance) (text : Bytes)
      → i.socket_alive ≡ true
      → i.opcode ≡ cmd_read
      → i.rpc_request_message.header.opcode ≡ cmd_read
      → IsEcho i.rpc_request_message.payload text
      → handle_rpc host unmarshal marshal i
        ≡ of_data (Response.net_str host (of_reply i.service_id i.opcode (echoed text))) ∷ []
  unfolding handle_rpc read_ops_impl reply_rpc_message respond
  handle_rpc_echo i text alive op header_op decoded = ground (arith, op, header_op, decoded, alive)

  -- An echo comes back: where the payload of a read request decodes to an echo, the one answer is a
  -- response that a client of either byte order accepts for the same service and operation, with
  -- the status OK and, encoded, the text behind "echo:". The connection lives, and the id of the
  -- service is 16 bits wide.
  pub handle_rpc-echo :
      (client : Endian) (i : RpcInstance) (text respload : Bytes)
      → IsU16 i.service_id
      → i.socket_alive ≡ true
      → i.opcode ≡ cmd_read
      → i.rpc_request_message.header.opcode ≡ cmd_read
      → IsEcho i.rpc_request_message.payload text
      → (answer : Message) × (handle_rpc host unmarshal marshal i ≡ answer ∷ [])
        × (check_response client i.service_id i.opcode answer.payload respload ≡ (ok, echoed text))
  unfolding of_data
  handle_rpc-echo client i text respload fits alive op header_op decoded = (
    of_data (Response.net_str host (of_reply i.service_id i.opcode (echoed text))),
    handle_rpc_echo i text alive op header_op decoded,
    check_response-of_reply client host i.service_id i.opcode (echoed text) respload fits
        (omega (arith, op)),
  )
