-- ===== src/Core/Message.antt =====
-- source/Core/Message.h: the header and the message that travel on the wire.
pub mod Codec
use tzrpc.Prelude.{ℕ, ◌%◌, ◌^◌, [], ◌++◌, length}
use tzrpc.Core.Endian.{
  Endian, Bytes, htobe16, htobe32, be16toh, be32toh, mem16, mem32, load16, load32,
}

abbrev pub header_magic : ℕ
header_magic = 0x746b

abbrev pub header_version : ℕ
header_version = 0x01

-- sizeof(Header): the struct is packed.
abbrev pub header_size : ℕ
header_size = 16

-- Its first three fields are uint16_t, uint16_t and uint32_t, and the reserved ones are uint32_t.
pub record Header : Type 0 where
  pub magic : ℕ
  pub version : ℕ
  pub length : ℕ
  pub rev1 : ℕ
  pub rev2 : ℕ

-- `header_({ })`
abbrev pub empty_header : Header
empty_header = record { magic = 0; version = 0; length = 0; rev1 = 0; rev2 = 0 }

module _ (host : Endian) where
  -- The reserved fields stay in the host's order.
  unfoldable pub from_net_endian : Header → Header
  from_net_endian h = record h {
    magic = be16toh host h.magic;
    version = be16toh host h.version;
    length = be32toh host h.length;
  }

  unfoldable pub to_net_endian : Header → Header
  to_net_endian h = record h {
    magic = htobe16 host h.magic;
    version = htobe16 host h.version;
    length = htobe32 host h.length;
  }

  -- The object representation of a header, and the header that `memcpy` makes of the bytes.
  unfoldable pub image : Header → Bytes
  image h =
      mem16 host h.magic
      ++ (mem16 host h.version ++ (mem32 host h.length ++ (mem32 host h.rev1 ++ mem32 host h.rev2)))

  unfoldable pub load_header : Bytes → Header
  load_header bs = record {
    magic = load16 host bs 0;
    version = load16 host bs 2;
    length = load32 host bs 4;
    rev1 = load32 host bs 8;
    rev2 = load32 host bs 12;
  }

pub record Message : Type 0 where
  pub header : Header
  pub payload : Bytes

abbrev pub empty_message : Message
empty_message = record { header = empty_header; payload = [] }

-- `header_.length` is a uint32_t, so the size of the data wraps.
unfoldable pub of_data : Bytes → Message
of_data bytes = record {
  header = record empty_header {
    magic = header_magic;
    version = header_version;
    length = length bytes % 2 ^ 32;
  };
  payload = bytes;
}

unfoldable pub net_str : Endian → Message → Bytes
unfolding to_net_endian image
net_str host m = image host (to_net_endian host m.header) ++ m.payload
