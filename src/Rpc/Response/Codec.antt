-- ===== src/Rpc/Response/Codec.antt =====
-- What the other end reads of a response that a host wrote: lemmas on RpcResponseMessage.h.
use tzrpc.Prelude.{
  ℕ, ◌+◌, ◌≤◌, ◌≡◌, refl, sym, ap, ◌∙◌, true, false, ◌∷◌, ◌++◌, arith, length, le→ltb,
}
use tzrpc.Core.Endian.{
  Endian, Bytes, IsU16, IsByte, be_bytes16, be16toh, load16, load32, mem16-htobe16, be16toh-load16,
  be16_digits, little, big,
}
use tzrpc.Core.Message.Codec.{zeros8, mem32-zero}
use tzrpc.Rpc.Response.{
  RpcResponseHeader, RpcResponseMessage, response_header_size, from_net_endian, to_net_endian,
  image, load_header, of_reply, of_status, net_str, parse, RpcResponseStatus, ok,
  service_specific_error, invalid_version, invalid_service, invalid_request, system_error,
  status_code,
}

-- Each field fits its type, and the reserved ones are 0, as every constructor leaves them.
pub record IsHeader (h : RpcResponseHeader) : Type 0 where
  pub status_fits : IsByte h.status
  pub magic_fits : IsU16 h.magic
  pub version_fits : IsU16 h.version
  pub service_fits : IsU16 h.service_id
  pub opcode_fits : IsU16 h.opcode
  pub rev1_zero : h.rev1 ≡ 0
  pub rev2_zero : h.rev2 ≡ 0

-- The seventeen bytes of a header on the wire, the same from every host.
abbrev pub wire_header : RpcResponseHeader → Bytes
wire_header h =
    h.status
    ∷ (be_bytes16 h.magic
        ++ (be_bytes16 h.version ++ (be_bytes16 h.service_id ++ (be_bytes16 h.opcode ++ zeros8))))

image-to_net_endian :
    (host : Endian) (h : RpcResponseHeader)
    → IsHeader h
    → image host (to_net_endian host h) ≡ wire_header h
unfolding image to_net_endian
image-to_net_endian host h v = rw (
  mem16-htobe16 host h.magic v.magic_fits,
  mem16-htobe16 host h.version v.version_fits,
  mem16-htobe16 host h.service_id v.service_fits,
  mem16-htobe16 host h.opcode v.opcode_fits,
  v.rev1_zero,
  v.rev2_zero,
  mem32-zero host,
)

load32-zero :
    (host : Endian) (h : RpcResponseHeader) (rest : Bytes)
    → (load32 host (wire_header h ++ rest) 9 ≡ 0) × (load32 host (wire_header h ++ rest) 13 ≡ 0)
unfolding load32
load32-zero little h rest = (refl, refl)
load32-zero big h rest = (refl, refl)

-- Any host reads the header back, whatever follows it.
pub load_header-wire :
    (host : Endian) (h : RpcResponseHeader) (rest : Bytes)
    → IsHeader h
    → from_net_endian host (load_header host (wire_header h ++ rest)) ≡ h
unfolding from_net_endian load_header
load_header-wire host h rest v = λ i. record {
  status = h.status;
  magic = m i;
  version = n i;
  service_id = s i;
  opcode = o i;
  rev1 = (r.0 ∙ sym v.rev1_zero) i;
  rev2 = (r.1 ∙ sym v.rev2_zero) i;
}
  where
    bs : Bytes
    bs = wire_header h ++ rest

    m : be16toh host (load16 host bs 1) ≡ h.magic
    m = be16toh-load16 host bs 1 (omega arith) (omega arith) ∙ be16_digits h.magic v.magic_fits

    n : be16toh host (load16 host bs 3) ≡ h.version
    n = be16toh-load16 host bs 3 (omega arith) (omega arith) ∙ be16_digits h.version v.version_fits

    s : be16toh host (load16 host bs 5) ≡ h.service_id
    s =
        be16toh-load16 host bs 5 (omega arith) (omega arith)
        ∙ be16_digits h.service_id v.service_fits

    o : be16toh host (load16 host bs 7) ≡ h.opcode
    o = be16toh-load16 host bs 7 (omega arith) (omega arith) ∙ be16_digits h.opcode v.opcode_fits

    r : (load32 host bs 9 ≡ 0) × (load32 host bs 13 ≡ 0)
    r = load32-zero host h rest

-- A response's bytes on the wire: its header's seventeen and its payload.
pub net_str-wire :
    (host : Endian) (m : RpcResponseMessage)
    → IsHeader m.header
    → net_str host m ≡ wire_header m.header ++ m.payload
unfolding net_str
net_str-wire host m v = ap (λ (bs : Bytes). bs ++ m.payload) (image-to_net_endian host m.header v)

pub of_reply-IsHeader :
    (service opcode : ℕ) (bytes : Bytes)
    → IsU16 service
    → IsU16 opcode
    → IsHeader (of_reply service opcode bytes).header
unfolding of_reply
of_reply-IsHeader service opcode bytes s o = record {
  status_fits = omega arith;
  magic_fits = omega arith;
  version_fits = omega arith;
  service_fits = s;
  opcode_fits = o;
  rev1_zero = refl;
  rev2_zero = refl;
}

status_code-IsByte : (s : RpcResponseStatus) → IsByte (status_code s)
unfolding status_code
status_code-IsByte ok = omega arith
status_code-IsByte service_specific_error = omega arith
status_code-IsByte invalid_version = omega arith
status_code-IsByte invalid_service = omega arith
status_code-IsByte invalid_request = omega arith
status_code-IsByte system_error = omega arith

pub of_status-IsHeader : (s : RpcResponseStatus) → IsHeader (of_status s).header
unfolding of_status
of_status-IsHeader s = record {
  status_fits = status_code-IsByte s;
  magic_fits = omega arith;
  version_fits = omega arith;
  service_fits = omega arith;
  opcode_fits = omega arith;
  rev1_zero = refl;
  rev2_zero = refl;
}

-- Whatever host wrote a response whose fields fit their types and whose reserved ones are 0, and
-- whatever host parses it, the parser returns true and the response itself, over anything that the
-- message held before.
pub parse-net_str_response :
    (writer reader : Endian) (m old : RpcResponseMessage)
    → IsHeader m.header
    → parse reader (net_str writer m) old ≡ (true, m)
unfolding parse
parse-net_str_response writer reader m old v =
    rw
      (
        net_str-wire writer m v,
        le→ltb (length (wire_header m.header ++ m.payload)) response_header_size (omega arith),
      )
      (ap (λ h. (true, record { header = h; payload = m.payload }))
        (load_header-wire reader m.header m.payload v))

-- A shorter string is refused, and the message stays as it was.
pub parse_short :
    (host : Endian) (str : Bytes) (old : RpcResponseMessage)
    → length str + 1 ≤ response_header_size
    → parse host str old ≡ (false, old)
unfolding parse
parse_short host str old h = ground arith
