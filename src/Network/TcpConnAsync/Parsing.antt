-- ===== src/Network/TcpConnAsync/Parsing.antt =====
-- What the parsers of source/Network/TcpConnAsync.cpp make of the bytes of an accepted message.
use tzrpc.Prelude.{
  ℕ, ◌+◌, ◌^◌, ◌≤◌, ◌<◌, ◌≡◌, sym, ap, ◌∙◌, true, false, List, [], ◌∷◌, ◌++◌, arith, length,
  length-drop, take, drop, take-append_le, drop-append_le, take-append_self, drop-append_self, ◌⊎◌,
}
use tzrpc.Core.Endian.{Endian, Bytes}
use tzrpc.Core.Message.{
  Message, header_magic, header_version, header_size, from_net_endian, load_header, net_str,
}
use tzrpc.Core.Message.Codec.{IsHeader, wire_header, load_header-wire, net_str-wire}
use tzrpc.Core.Buffer.{consume}
use tzrpc.Core.Buffer.Queue.{consume-take, consume-drop, get_length_small}
use tzrpc.Network.NetConn.{ConnStat}
use tzrpc.Network.TcpConnAsync.{ConnConf, TcpConnAsync, is_zero, to_u32}
use tzrpc.Network.TcpConnAsync.Read.{parsed, parse_header, parse_msg_body}

-- A message that the server takes: a header of this protocol that tells the payload's length, which is
-- within the limit and leaves room for one block under 2^32.
pub record IsAccepted (conf : ConnConf) (m : Message) : Type 0 where
  pub header : IsHeader m.header
  pub magic : m.header.magic ≡ header_magic
  pub version : m.header.version ≡ header_version
  pub measured : m.header.length ≡ length m.payload
  pub fits : length m.payload + 2064 ≤ 2 ^ 32
  pub within :
      (is_zero conf.recv_max_msg_size ≡ true) ⊎ (m.header.length ≤ to_u32 conf.recv_max_msg_size)

-- The bytes of messages one after the other.
abbrev pub stream : Endian → List Message → Bytes
stream host [] = []
stream host (m ∷ ms) = net_str host m ++ stream host ms

-- The connection reads: it is working and nothing was cancelled.
pub record IsReady (c : TcpConnAsync) : Type 0 where
  pub works : c.net.conn_stat ≡ ConnStat.working
  pub live : c.was_cancelled ≡ false

module _ (host peer : Endian) (conf : ConnConf) where
  -- A buffer that holds a whole header of an accepted message gives it to `parse_header`.
  pub parse_header_lem :
      (c : TcpConnAsync) (m : Message) (rest after : Bytes)
      → IsAccepted conf m
      → header_size ≤ length c.recv_bound.buffer.bytes
      → length c.recv_bound.buffer.bytes < 2 ^ 32
      → c.recv_bound.buffer.bytes ++ rest ≡ net_str peer m ++ after
      → (left : Bytes) × (parse_header host conf c ≡ (
        parsed,
        record c {
          recv_bound = record (c.recv_bound) {
            header = m.header;
            buffer = record { bytes = left };
          };
        },
      ))
        × (left ++ rest ≡ m.payload ++ after)
        × (length left + header_size ≡ length c.recv_bound.buffer.bytes)
  unfolding parse_header
  parse_header_lem c m rest after v enough small split =
      let b = c.recv_bound.buffer in
      let whole : b.bytes ++ rest ≡ wire_header m.header ++ (m.payload ++ after) =
        split ∙ rw (net_str-wire peer m v.header) in
      let taken : take header_size b.bytes ≡ wire_header m.header =
        sym (take-append_le header_size b.bytes rest enough)
        ∙ ap (λ (bs : Bytes). take header_size bs) whole in
      let kept : drop header_size b.bytes ++ rest ≡ m.payload ++ after =
        sym (drop-append_le header_size b.bytes rest enough)
        ∙ ap (λ (bs : Bytes). drop header_size bs) whole in
      let read : from_net_endian host (load_header host (consume b [] header_size).1) ≡ m.header =
        ap (λ (bs : Bytes). from_net_endian host (load_header host bs))
          (consume-take b header_size ∙ taken)
        ∙ load_header-wire host m.header [] v.header in
      let left : (consume b [] header_size).2 ≡ record { bytes = drop header_size b.bytes } =
        ap (λ (bs : Bytes). record { bytes = bs }) (consume-drop b header_size) in
      (
        drop header_size b.bytes,
        ground (arith, read, left, get_length_small b small, v.within),
        kept,
        omega (arith, length-drop header_size b.bytes),
      )

  -- A buffer that holds the whole payload of the message whose header was read gives the message.
  pub parse_msg_body_lem :
      (c : TcpConnAsync) (m old : Message) (rest after : Bytes)
      → IsAccepted conf m
      → c.recv_bound.header ≡ m.header
      → m.header.length ≤ length c.recv_bound.buffer.bytes
      → length c.recv_bound.buffer.bytes < 2 ^ 32
      → c.recv_bound.buffer.bytes ++ rest ≡ m.payload ++ after
      → (left : Bytes) × (parse_msg_body c old ≡ (
        parsed,
        m,
        record c { recv_bound = record (c.recv_bound) { buffer = record { bytes = left } } },
      ))
        × (left ++ rest ≡ after)
        × (length left + m.header.length ≡ length c.recv_bound.buffer.bytes)
  unfolding parse_msg_body
  parse_msg_body_lem c m old rest after v told enough small split =
      let b = c.recv_bound.buffer in
      let n : ℕ = m.header.length in
      let taken : take n b.bytes ≡ m.payload =
        sym (take-append_le n b.bytes rest enough)
        ∙ ap (λ (bs : Bytes). take n bs) split
        ∙ take-append_self n m.payload after v.measured in
      let kept : drop n b.bytes ++ rest ≡ after =
        sym (drop-append_le n b.bytes rest enough)
        ∙ ap (λ (bs : Bytes). drop n bs) split
        ∙ drop-append_self n m.payload after v.measured in
      let read : (consume b [] n).1 ≡ m.payload = consume-take b n ∙ taken in
      let left : (consume b [] n).2 ≡ record { bytes = drop n b.bytes } =
        ap (λ (bs : Bytes). record { bytes = bs }) (consume-drop b n) in
      (
        drop n b.bytes,
        rw told (ground (arith, read, left, get_length_small b small)),
        kept,
        omega (arith, length-drop n b.bytes),
      )
