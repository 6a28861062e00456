-- ===== src/Client/TcpConnSync/Delivery.antt =====
-- A blocking receive of source/Client/TcpConnSync.cpp takes a message that comes in any pieces.
use tzrpc.Prelude.{
  ℕ, ◌+◌, ◌^◌, ◌≤◌, ◌<◌, ◌≡◌, refl, sym, ap, ◌∙◌, true, List, [], ◌++◌, map, arith, length,
  length-append, take, drop, take-append_le, drop-append_le, take-append_self, take-all, drop-all,
}
use tzrpc.Core.Endian.{Endian, Bytes}
use tzrpc.Core.Message.{Message, Header, header_size, from_net_endian, load_header, net_str}
use tzrpc.Core.Message.Codec.{wire_header, load_header-wire, net_str-wire, length-net_str}
use tzrpc.Core.Buffer.{consume}
use tzrpc.Core.Buffer.Queue.{consume-take, consume-drop, get_length_small}
use tzrpc.Network.NetConn.{ConnStat, NetConn}
use tzrpc.Network.TcpConnAsync.Stream.{joined}
use tzrpc.Network.TcpConnAsync.Read.{parsed}
use tzrpc.Client.TcpConnSync.{
  ClientLimits, TcpConnSync, ReadResult, got, returned, filled, parse_header, parse_msg_body,
  fill_header, fill_body, take_body, after_body, do_read_msg, after_header, take_header, do_read,
  recv_net_message,
}
use tzrpc.Client.TcpConnSync.Receive.{
  IsAnswer, SameBut, fill_lem, fill_header_on, fill_header_stops, fill_body_on, fill_body_stops,
}

-- The ends of the two loops.
do_read_msg_fill :
    (c : TcpConnSync) (msg : Message) (script : List ReadResult)
    → c.net.conn_stat ≡ ConnStat.working
    → do_read_msg c msg script ≡ take_body msg (fill_body c script)
unfolding do_read_msg
do_read_msg_fill c msg script works = ground arith

take_body_filled :
    (c : TcpConnSync) (m msg : Message) (script : List ReadResult) {d : TcpConnSync}
    → parse_msg_body c msg ≡ (parsed, m, d)
    → take_body msg (filled c script) ≡ (returned true d, m)
unfolding take_body
take_body_filled c m msg script e = ap after_body e

do_read_fill :
    (host : Endian) (limits : ClientLimits) (c : TcpConnSync) (msg : Message)
    (script : List ReadResult)
    → c.net.conn_stat ≡ ConnStat.working
    → do_read host limits c msg script ≡ take_header host limits msg (fill_header c script)
unfolding do_read
do_read_fill host limits c msg script works = ground arith

take_header_filled :
    (host : Endian) (limits : ClientLimits) (c d : TcpConnSync) (msg : Message)
    (script : List ReadResult)
    → parse_header host limits c ≡ (parsed, d)
    → take_header host limits msg (filled c script) ≡ do_read_msg d msg script
unfolding take_header
take_header_filled host limits c d msg script e = ap (after_header msg script) e

-- A front that is as long as the whole is the whole.
all_of : (xs ys zs : Bytes) → xs ++ ys ≡ zs → length zs ≤ length xs → xs ≡ zs
all_of xs ys zs e le =
    sym (take-append_self (length xs) xs ys refl)
    ∙ ap (λ (bs : Bytes). take (length xs) bs) e
    ∙ take-all (length xs) zs le

module _ (host peer : Endian) (limits : ClientLimits) where
  -- A buffer that holds a whole header of a message gives it to `parse_header`.
  parse_header_lem :
      (c : TcpConnSync) (m : Message) (rest : Bytes)
      → IsAnswer limits m
      → header_size ≤ length c.recv_bound.buffer.bytes
      → length c.recv_bound.buffer.bytes < 2 ^ 32
      → c.recv_bound.buffer.bytes ++ rest ≡ net_str peer m
      → (left : Bytes) × (parse_header host limits c ≡ (
        parsed,
        record c {
          recv_bound = record (c.recv_bound) {
            header = m.header;
            buffer = record { bytes = left };
          };
        },
      ))
        × (left ++ rest ≡ m.payload)
  unfolding parse_header
  parse_header_lem c m rest v enough small split =
      let b = c.recv_bound.buffer in
      let whole : b.bytes ++ rest ≡ wire_header m.header ++ m.payload =
        split ∙ net_str-wire peer m v.header in
      let taken : take header_size b.bytes ≡ wire_header m.header =
        sym (take-append_le header_size b.bytes rest enough)
        ∙ ap (λ (bs : Bytes). take header_size bs) whole in
      let kept : drop header_size b.bytes ++ rest ≡ m.payload =
        sym (drop-append_le header_size b.bytes rest enough)
        ∙ ap (λ (bs : Bytes). drop header_size bs) whole in
      let read : from_net_endian host (load_header host (consume b [] header_size).1) ≡ m.header =
        ap (λ (bs : Bytes). from_net_endian host (load_header host bs))
          (consume-take b header_size ∙ taken)
        ∙ load_header-wire host m.header [] v.header in
      let left : (consume b [] header_size).2 ≡ record { bytes = drop header_size b.bytes } =
        ap (λ (bs : Bytes). record { bytes = bs }) (consume-drop b header_size) in
      (
        drop header_size b.bytes,
        ground (arith, read, left, get_length_small b small, v.within),
        kept,
      )

  -- A buffer that holds just the payload of the message whose header was read gives the message.
  parse_msg_body_lem :
      (c : TcpConnSync) (m old : Message)
      → IsAnswer limits m
      → c.recv_bound.header ≡ m.header
      → c.recv_bound.buffer.bytes ≡ m.payload
      → parse_msg_body c old ≡ (
        parsed,
        m,
        record c { recv_bound = record (c.recv_bound) { buffer = record { bytes = [] } } },
      )
  unfolding parse_msg_body
  parse_msg_body_lem c m old v told all =
      let b = c.recv_bound.buffer in
      let n : ℕ = m.header.length in
      let size : length b.bytes ≡ n = ap length all ∙ sym v.measured in
      let read : (consume b [] n).1 ≡ m.payload =
        consume-take b n ∙ take-all n b.bytes (omega arith) ∙ all in
      let left : (consume b [] n).2 ≡ record { bytes = [] } =
        ap (λ (bs : Bytes). record { bytes = bs })
          (consume-drop b n ∙ drop-all n b.bytes (omega arith)) in
      rw told (ground (arith, read, left, get_length_small b (omega (arith, v.fits, v.measured))))

  read_body :
      (chunks : List Bytes) (c : TcpConnSync) (m old : Message)
      → IsAnswer limits m
      → c.net.conn_stat ≡ ConnStat.working
      → c.recv_bound.header ≡ m.header
      → c.recv_bound.buffer.bytes ++ joined chunks ≡ m.payload
      → (d : TcpConnSync) × (do_read_msg c old (map got chunks) ≡ (returned true d, m))
        × (d.recv_bound.buffer.bytes ≡ [])
        × SameBut c d
  read_body chunks c m old v works told all =
      let size = ap (λ (h : Header). h.length) told in
      let sum : length (c.recv_bound.buffer.bytes ++ joined chunks) ≡ length m.payload =
        ap length all in
      let (d, rest, run, kept, full, same) =
        fill_lem fill_body (λ x. x.recv_bound.header.length) (λ x r. refl) fill_body_on
          fill_body_stops chunks c (omega (arith, v.measured)) (omega (arith, v.fits)) in
      let whole : d.recv_bound.buffer.bytes ≡ m.payload =
        all_of _ _ _ (kept ∙ all) (omega (arith, v.measured)) in
      (
        record d { recv_bound = record (d.recv_bound) { buffer = record { bytes = [] } } },
        do_read_msg_fill c old (map got chunks) works
            ∙ ap (take_body old) run
            ∙ take_body_filled d m old (map got rest)
                (parse_msg_body_lem d m old v (same.header ∙ told) whole),
        refl,
        record { net = same.net; header = same.header; sends = same.sends },
      )

  -- A blocking receive on a working connection with an empty buffer, of a message that the client
  -- takes and that a peer of either byte order sent, cut into any pieces, returns true and that
  -- message. The receiving buffer is empty again, and the rest of the connection but the header is
  -- as it was.
  pub recv_net_message-net_str :
      (chunks : List Bytes) (c : TcpConnSync) (m old : Message)
      → IsAnswer limits m
      → c.net.conn_stat ≡ ConnStat.working
      → c.recv_bound.buffer.bytes ≡ []
      → joined chunks ≡ net_str peer m
      → (d : TcpConnSync) × (recv_net_message host limits c old (map got chunks)
          ≡ (returned true d, m))
        × (d.recv_bound.buffer.bytes ≡ [])
        × (d.net ≡ c.net)
        × (d.send_bound ≡ c.send_bound)
  unfolding recv_net_message
  recv_net_message-net_str chunks c m old v works fresh sent =
      let whole : c.recv_bound.buffer.bytes ++ joined chunks ≡ net_str peer m = rw fresh sent in
      let sum : length (c.recv_bound.buffer.bytes ++ joined chunks)
          ≡ header_size + length m.payload =
        ap length whole ∙ length-net_str peer m v.header in
      let (d, rest, run, kept, full, same) =
        fill_lem fill_header (λ x. header_size) (λ x r. refl) fill_header_on fill_header_stops
          chunks c (omega arith) (omega (arith, v.fits)) in
      let split : d.recv_bound.buffer.bytes ++ joined rest ≡ net_str peer m = kept ∙ whole in
      let shorter : length d.recv_bound.buffer.bytes < 2 ^ 32 =
        omega
          (arith, v.fits, ap length kept, length-append d.recv_bound.buffer.bytes (joined rest)) in
      let (left, parse, more) = parse_header_lem d m (joined rest) v full shorter split in
      let headed : TcpConnSync = record d {
        recv_bound = record (d.recv_bound) { header = m.header; buffer = record { bytes = left } };
      } in
      let (e, got_it, empty, same') =
        read_body rest headed m old v (ap (λ (n : NetConn). n.conn_stat) same.net ∙ works) refl
          more in
      (
        e,
        do_read_fill host limits c old (map got chunks) works
            ∙ ap (take_header host limits old) run
            ∙ take_header_filled host limits d headed old (map got rest) parse
            ∙ got_it,
        empty,
        same'.net ∙ same.net,
        same'.sends ∙ same.sends,
      )
