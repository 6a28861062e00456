-- ===== src/Rpc/Request.antt =====
-- source/RPC/RpcRequestMessage.h.
pub mod Codec
use tzrpc.Prelude.{ℕ, Bool, true, false, [], ◌++◌, ltb, if◌then◌else◌, length, drop}
use tzrpc.Core.Endian.{Endian, Bytes, htobe16, be16toh, mem16, mem32, load16, load32}

abbrev pub rpc_header_magic : ℕ
rpc_header_magic = 0x7472

abbrev pub rpc_header_version : ℕ
rpc_header_version = 0x01

-- sizeof(RpcRequestHeader): the struct is packed.
abbrev pub request_header_size : ℕ
request_header_size = 16

-- Four uint16_t fields and two uint32_t ones.
pub record RpcRequestHeader : Type 0 where
  pub magic : ℕ
  pub version : ℕ
  pub service_id : ℕ
  pub opcode : ℕ
  pub rev1 : ℕ
  pub rev2 : ℕ

abbrev pub empty_request_header : RpcRequestHeader
empty_request_header = record {
  magic = 0;
  version = 0;
  service_id = 0;
  opcode = 0;
  rev1 = 0;
  rev2 = 0;
}

pub record RpcRequestMessage : Type 0 where
  pub header : RpcRequestHeader
  pub payload : Bytes

abbrev pub empty_request : RpcRequestMessage
empty_request = record { header = empty_request_header; payload = [] }

module _ (host : Endian) where
  unfoldable pub from_net_endian : RpcRequestHeader → RpcRequestHeader
  from_net_endian h = record h {
    magic = be16toh host h.magic;
    version = be16toh host h.version;
    service_id = be16toh host h.service_id;
    opcode = be16toh host h.opcode;
  }

  unfoldable pub to_net_endian : RpcRequestHeader → RpcRequestHeader
  to_net_endian h = record h {
    magic = htobe16 host h.magic;
    version = htobe16 host h.version;
    service_id = htobe16 host h.service_id;
    opcode = htobe16 host h.opcode;
  }

  -- The object representation of a header, and the header that `memcpy` makes of the bytes.
  unfoldable pub image : RpcRequestHeader → Bytes
  image h =
      mem16 host h.magic
      ++ (mem16 host h.version
          ++ (mem16 host h.service_id
              ++ (mem16 host h.opcode ++ (mem32 host h.rev1 ++ mem32 host h.rev2))))

  unfoldable pub load_header : Bytes → RpcRequestHeader
  load_header bs = record {
    magic = load16 host bs 0;
    version = load16 host bs 2;
    service_id = load16 host bs 4;
    opcode = load16 host bs 6;
    rev1 = load32 host bs 8;
    rev2 = load32 host bs 12;
  }

-- The constructor from a service, an operation and a payload.
unfoldable pub of_call : ℕ → ℕ → Bytes → RpcRequestMessage
of_call serviceid opcd bytes = record {
  header = record empty_request_header {
    magic = rpc_header_magic;
    version = rpc_header_version;
    service_id = serviceid;
    opcode = opcd;
  };
  payload = bytes;
}

unfoldable pub net_str : Endian → RpcRequestMessage → Bytes
unfolding to_net_endian image
net_str host m = image host (to_net_endian host m.header) ++ m.payload

-- `RpcRequestMessageParse`: its result, and the message that it was given after the call.
unfoldable pub parse : Endian → Bytes → RpcRequestMessage → Bool × RpcRequestMessage
unfolding from_net_endian load_header
parse host str m = if ltb (length str) request_header_size then (false, m) else (
  true,
  record {
    header = from_net_endian host (load_header host str);
    payload = drop request_header_size str;
  },
)
