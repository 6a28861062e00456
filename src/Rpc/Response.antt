-- ===== src/Rpc/Response.antt =====
-- source/RPC/RpcResponseMessage.h.
pub mod Codec
use tzrpc.Prelude.{ℕ, Bool, true, false, [], ◌∷◌, ◌++◌, ltb, if◌then◌else◌, length, drop, get_or}
use tzrpc.Core.Endian.{Endian, Bytes, htobe16, be16toh, mem16, mem32, load16, load32}
use tzrpc.Rpc.Request.{rpc_header_magic, rpc_header_version}

-- `enum class RpcResponseStatus : uint8_t`
pub data RpcResponseStatus : Type 0 where
  ok service_specific_error invalid_version invalid_service invalid_request : RpcResponseStatus
  system_error : RpcResponseStatus

-- The byte that stands for a status.
unfoldable pub status_code : RpcResponseStatus → ℕ
status_code ok = 0
status_code service_specific_error = 1
status_code invalid_version = 2
status_code invalid_service = 3
status_code invalid_request = 4
status_code system_error = 5

-- sizeof(RpcResponseHeader): the struct is packed, so the status takes one byte.
abbrev pub response_header_size : ℕ
response_header_size = 17

-- The status is a byte, of which the wire may bring any; then as in the request's header.
pub record RpcResponseHeader : Type 0 where
  pub status : ℕ
  pub magic : ℕ
  pub version : ℕ
  pub service_id : ℕ
  pub opcode : ℕ
  pub rev1 : ℕ
  pub rev2 : ℕ

abbrev pub empty_response_header : RpcResponseHeader
empty_response_header = record {
  status = 0;
  magic = 0;
  version = 0;
  service_id = 0;
  opcode = 0;
  rev1 = 0;
  rev2 = 0;
}

pub record RpcResponseMessage : Type 0 where
  pub header : RpcResponseHeader
  pub payload : Bytes

abbrev pub empty_response : RpcResponseMessage
empty_response = record { header = empty_response_header; payload = [] }

module _ (host : Endian) where
  unfoldable pub from_net_endian : RpcResponseHeader → RpcResponseHeader
  from_net_endian h = record h {
    magic = be16toh host h.magic;
    version = be16toh host h.version;
    service_id = be16toh host h.service_id;
    opcode = be16toh host h.opcode;
  }

  unfoldable pub to_net_endian : RpcResponseHeader → RpcResponseHeader
  to_net_endian h = record h {
    magic = htobe16 host h.magic;
    version = htobe16 host h.version;
    service_id = htobe16 host h.service_id;
    opcode = htobe16 host h.opcode;
  }

  -- The object representation of a header, and the header that `memcpy` makes of the bytes.
  unfoldable pub image : RpcResponseHeader → Bytes
  image h =
      h.status
      ∷ (mem16 host h.magic
          ++ (mem16 host h.version
              ++ (mem16 host h.service_id
                  ++ (mem16 host h.opcode ++ (mem32 host h.rev1 ++ mem32 host h.rev2)))))

  unfoldable pub load_header : Bytes → RpcResponseHeader
  load_header bs = record {
    status = get_or bs 0 0;
    magic = load16 host bs 1;
    version = load16 host bs 3;
    service_id = load16 host bs 5;
    opcode = load16 host bs 7;
    rev1 = load32 host bs 9;
    rev2 = load32 host bs 13;
  }

-- The constructor of a reply to a service's operation.
unfoldable pub of_reply : ℕ → ℕ → Bytes → RpcResponseMessage
unfolding status_code
of_reply serviceid opcd bytes = record {
  header = record empty_response_header {
    status = status_code ok;
    magic = rpc_header_magic;
    version = rpc_header_version;
    service_id = serviceid;
    opcode = opcd;
  };
  payload = bytes;
}

-- The constructor from a status alone.
unfoldable pub of_status : RpcResponseStatus → RpcResponseMessage
of_status status = record {
  header = record empty_response_header {
    status = status_code status;
    magic = rpc_header_magic;
    version = rpc_header_version;
  };
  payload = [];
}

unfoldable pub net_str : Endian → RpcResponseMessage → Bytes
unfolding to_net_endian image
net_str host m = image host (to_net_endian host m.header) ++ m.payload

-- `RpcResponseMessageParse`: its result, and the message that it was given after the call.
unfoldable pub parse : Endian → Bytes → RpcResponseMessage → Bool × RpcResponseMessage
unfolding from_net_endian load_header
parse host str m = if ltb (length str) response_header_size then (false, m) else (
  true,
  record {
    header = from_net_endian host (load_header host str);
    payload = drop response_header_size str;
  },
)
