-- ===== src/Rpc/RpcInstance.antt =====
-- source/RPC/RpcInstance.{h,cpp}: one request on its way through the server, and its reply.
-- The time of its creation, which nothing reads, and the unused response buffers are left out.
pub mod Validate
use tzrpc.Prelude.{
  ℕ, ◌+◌, ◌-◌, ◌%◌, ◌^◌, Bool, true, false, ◌||◌, not, List, [], ◌∷◌, ltb, ◌==◌, if◌then◌else◌,
  length, is_empty,
}
use tzrpc.Core.Endian.{Endian, Bytes}
use tzrpc.Core.Message.{Message, of_data}
use tzrpc.Core.Buffer.{Buffer, get_length, consume, of_string}
use tzrpc.Rpc.Request.{
  RpcRequestMessage, RpcRequestHeader, request_header_size, rpc_header_magic, rpc_header_version,
  empty_request, from_net_endian, load_header,
}
use tzrpc.Rpc.Response.{RpcResponseStatus, of_reply, of_status, net_str}

-- `msg_size_` is an int, given by the bits that it has as a uint32_t. The ids are uint16_t.
-- `full_socket` is the number of the connection that made it, and `socket_alive` tells whether
-- `full_socket_.lock()` finds that connection.
pub record RpcInstance : Type 0 where
  pub full_socket : ℕ
  pub socket_alive : Bool
  pub request : Buffer
  pub rpc_request_message : RpcRequestMessage
  pub msg_size : ℕ
  pub service_id : ℕ
  pub opcode : ℕ

-- The instance that a connection makes of a payload; -1 as a uint16_t is 65535.
unfoldable pub new_instance : ℕ → Bytes → RpcInstance
unfolding of_string
new_instance full_socket payload = record {
  full_socket = full_socket;
  socket_alive = true;
  request = of_string payload;
  rpc_request_message = empty_request;
  msg_size = length payload % 2 ^ 32;
  service_id = 65535;
  opcode = 65535;
}

-- The second half of `validate_request`: the payload. The size wraps as a uint32_t.
unfoldable pub validate_payload : RpcInstance → RpcRequestHeader → Bool × RpcInstance
validate_payload i header =
    let sz = (i.msg_size + 2 ^ 32 - request_header_size) % 2 ^ 32 in
    let (ok, msg_str, rest) = consume i.request [] sz in
    let i' = record i { request = rest } in
    if is_empty msg_str
    then (false, i')
    else (true, record i' { rpc_request_message = record { header = header; payload = msg_str } })

-- The result, and the instance after the call.
unfoldable pub validate_request : Endian → RpcInstance → Bool × RpcInstance
unfolding validate_payload
validate_request host i =
    if ltb (get_length i.request) request_header_size
    then (false, i)
    else let (ok, head_str, rest) = consume i.request [] request_header_size in
      let header = from_net_endian host (load_header host head_str) in
      if not (header.magic == rpc_header_magic) || not (header.version == rpc_header_version)
      then (false, record i { request = rest })
      else validate_payload
          (record i { request = rest; service_id = header.service_id; opcode = header.opcode })
          header

-- What goes to `async_send_message` of the connection, if that still lives.
abbrev pub to_socket : RpcInstance → Message → List Message
to_socket i m = if i.socket_alive then m ∷ [] else []

unfoldable pub reply_rpc_message : Endian → RpcInstance → Bytes → List Message
reply_rpc_message host i msg =
    to_socket i (of_data (net_str host (of_reply i.service_id i.opcode msg)))

unfoldable pub reject : Endian → RpcInstance → RpcResponseStatus → List Message
reject host i status = to_socket i (of_data (net_str host (of_status status)))
