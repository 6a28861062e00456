-- ===== src/Core/Message/Codec.antt =====
-- What the other end reads of a header that a host wrote: lemmas on the bytes of Core/Message.h.
use tzrpc.Prelude.{◌+◌, ◌≡◌, refl, sym, ◌∙◌, [], ◌∷◌, ◌++◌, arith, length}
use tzrpc.Core.Endian.{
  Endian, Bytes, IsU16, IsU32, be_bytes16, be_bytes32, be16toh, be32toh, mem32, load16, load32,
  mem16-htobe16, mem32-htobe32, be16toh-load16, be32toh-load32, be16_digits, be32_digits, little,
  big,
}
use tzrpc.Core.Message.{
  Header, Message, header_size, from_net_endian, to_net_endian, image, load_header, of_data,
  net_str,
}

-- Each field fits its type, and the reserved ones are 0, as every constructor leaves them.
pub record IsHeader (h : Header) : Type 0 where
  pub magic_fits : IsU16 h.magic
  pub version_fits : IsU16 h.version
  pub length_fits : IsU32 h.length
  pub rev1_zero : h.rev1 ≡ 0
  pub rev2_zero : h.rev2 ≡ 0

abbrev pub zeros8 : Bytes
zeros8 = 0 ∷ 0 ∷ 0 ∷ 0 ∷ 0 ∷ 0 ∷ 0 ∷ 0 ∷ []

pub mem32-zero : (host : Endian) → mem32 host 0 ≡ 0 ∷ 0 ∷ 0 ∷ 0 ∷ []
unfolding mem32
mem32-zero little = refl
mem32-zero big = refl

-- The sixteen bytes of a header on the wire, the same from every host.
abbrev pub wire_header : Header → Bytes
wire_header h = be_bytes16 h.magic ++ (be_bytes16 h.version ++ (be_bytes32 h.length ++ zeros8))

pub image-to_net_endian :
    (host : Endian) (h : Header) → IsHeader h → image host (to_net_endian host h) ≡ wire_header h
unfolding image to_net_endian
image-to_net_endian host h v = rw (
  mem16-htobe16 host h.magic v.magic_fits,
  mem16-htobe16 host h.version v.version_fits,
  mem32-htobe32 host h.length v.length_fits,
  v.rev1_zero,
  v.rev2_zero,
  mem32-zero host,
)

load32-zero :
    (host : Endian) (h : Header) (rest : Bytes)
    → (load32 host (wire_header h ++ rest) 8 ≡ 0) × (load32 host (wire_header h ++ rest) 12 ≡ 0)
unfolding load32
load32-zero little h rest = (refl, refl)
load32-zero big h rest = (refl, refl)

-- Any host reads the header back, whatever follows it.
pub load_header-wire :
    (host : Endian) (h : Header) (rest : Bytes)
    → IsHeader h
    → from_net_endian host (load_header host (wire_header h ++ rest)) ≡ h
unfolding from_net_endian load_header
load_header-wire host h rest v =
    λ i. record { magic = m i; version = n i; length = l i; rev1 = r i; rev2 = s i }
  where
    m : be16toh host (load16 host (wire_header h ++ rest) 0) ≡ h.magic
    m =
        be16toh-load16 host (wire_header h ++ rest) 0 (omega arith) (omega arith)
        ∙ be16_digits h.magic v.magic_fits

    n : be16toh host (load16 host (wire_header h ++ rest) 2) ≡ h.version
    n =
        be16toh-load16 host (wire_header h ++ rest) 2 (omega arith) (omega arith)
        ∙ be16_digits h.version v.version_fits

    l : be32toh host (load32 host (wire_header h ++ rest) 4) ≡ h.length
    l =
        be32toh-load32 host (wire_header h ++ rest) 4 (omega arith) (omega arith) (omega arith)
          (omega arith)
        ∙ be32_digits h.length v.length_fits

    r : load32 host (wire_header h ++ rest) 8 ≡ h.rev1
    r = (load32-zero host h rest).0 ∙ sym v.rev1_zero

    s : load32 host (wire_header h ++ rest) 12 ≡ h.rev2
    s = (load32-zero host h rest).1 ∙ sym v.rev2_zero

-- A message's bytes on the wire: its header's sixteen and its payload.
pub net_str-wire :
    (host : Endian) (m : Message)
    → IsHeader m.header
    → net_str host m ≡ wire_header m.header ++ m.payload
unfolding net_str
net_str-wire host m v = rw (image-to_net_endian host m.header v)

pub of_data-IsHeader : (bytes : Bytes) → IsHeader (of_data bytes).header
unfolding of_data
of_data-IsHeader bytes = record {
  magic_fits = omega arith;
  version_fits = omega arith;
  length_fits = omega arith;
  rev1_zero = refl;
  rev2_zero = refl;
}

-- The bytes on the wire of a message made of data do not depend on the byte order of the host that
-- sends it.
pub net_str-of_data_host :
    (a b : Endian) (bytes : Bytes) → net_str a (of_data bytes) ≡ net_str b (of_data bytes)
net_str-of_data_host a b bytes =
    net_str-wire a (of_data bytes) (of_data-IsHeader bytes)
    ∙ sym (net_str-wire b (of_data bytes) (of_data-IsHeader bytes))

pub length-net_str :
    (host : Endian) (m : Message)
    → IsHeader m.header
    → length (net_str host m) ≡ header_size + length m.payload
length-net_str host m v = rw (net_str-wire host m v) (omega arith)
