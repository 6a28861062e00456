-- ===== src/Client/TcpConnSync/Receive.antt =====
-- What a blocking receive of source/Client/TcpConnSync.cpp makes of a message that comes in pieces.
use tzrpc.Prelude.{
  ℕ, ◌+◌, ◌^◌, ◌≤◌, ◌<◌, ◌≡◌, refl, ap, ◌∙◌, List, [], ◌∷◌, ◌++◌, map, arith, length, length-append,
  ltb, ltb→lt, ltb→le, inl, inr, ◌⊎◌, Bool-cases, append_assoc, append-nil,
}
use tzrpc.Core.Endian.{Bytes}
use tzrpc.Core.Message.{Message, header_magic, header_version, header_size}
use tzrpc.Core.Message.Codec.{IsHeader}
use tzrpc.Core.Buffer.{get_length}
use tzrpc.Core.Buffer.Queue.{get_length_small}
use tzrpc.Network.TcpConnAsync.Stream.{joined}
use tzrpc.Client.TcpConnSync.{
  ClientLimits, TcpConnSync, ReadResult, FillResult, got, broke, filled, store_received,
  fill_header, fill_body,
}

-- A message that the client takes: a header of this protocol that tells the payload's length, within
-- the limit, and less than 4 GiB in all.
pub record IsAnswer (limits : ClientLimits) (m : Message) : Type 0 where
  pub header : IsHeader m.header
  pub magic : m.header.magic ≡ header_magic
  pub version : m.header.version ≡ header_version
  pub measured : m.header.length ≡ length m.payload
  pub fits : header_size + length m.payload < 2 ^ 32
  pub within : (limits.recv_max_msg_size ≡ 0) ⊎ (m.header.length ≤ limits.recv_max_msg_size)

-- A connection that differs in the buffer of its receiving side alone.
pub record SameBut (c d : TcpConnSync) : Type 0 where
  pub net : d.net ≡ c.net
  pub header : d.recv_bound.header ≡ c.recv_bound.header
  pub sends : d.send_bound ≡ c.send_bound

-- A loop that reads until the buffer holds `want` bytes ends with them, if they come.
module _ (fill : TcpConnSync → List ReadResult → FillResult) (want : TcpConnSync → ℕ)
    (want-store : (c : TcpConnSync) (received : Bytes) → want (store_received c received) ≡ want c)
    (goes_on : (c : TcpConnSync) (received : Bytes) (more : List ReadResult)
      → get_length c.recv_bound.buffer < want c
      → fill c (got received ∷ more) ≡ fill (store_received c received) more)
    (stops : (c : TcpConnSync) (script : List ReadResult)
      → want c ≤ get_length c.recv_bound.buffer
      → fill c script ≡ filled c script) where
  abbrev pub Filled : TcpConnSync → List Bytes → Type 0
  Filled c chunks =
      (d : TcpConnSync) × (rest : List Bytes) × (fill c (map got chunks) ≡ filled d (map got rest))
      × (d.recv_bound.buffer.bytes ++ joined rest ≡ c.recv_bound.buffer.bytes ++ joined chunks)
      × (want c ≤ length d.recv_bound.buffer.bytes)
      × SameBut c d

  stop_with :
      (chunks : List Bytes) (c : TcpConnSync)
      → want c ≤ length c.recv_bound.buffer.bytes
      → length c.recv_bound.buffer.bytes < 2 ^ 32
      → Filled c chunks
  stop_with chunks c full small = (
    c,
    chunks,
    stops c (map got chunks) (omega (arith, get_length_small c.recv_bound.buffer small)),
    refl,
    full,
    record { net = refl; header = refl; sends = refl },
  )

  pub fill_lem :
      (chunks : List Bytes) (c : TcpConnSync)
      → want c ≤ length (c.recv_bound.buffer.bytes ++ joined chunks)
      → length (c.recv_bound.buffer.bytes ++ joined chunks) < 2 ^ 32
      → Filled c chunks
  fill_lem [] c enough small =
      let e = append-nil c.recv_bound.buffer.bytes in
      stop_with [] c (omega (arith, ap length e)) (omega (arith, ap length e))
  fill_lem (received ∷ more) c enough small =
      let b : Bytes = c.recv_bound.buffer.bytes in
      let below : length b < 2 ^ 32 = omega (arith, length-append b (received ++ joined more)) in
      elim (Bool-cases (ltb (length b) (want c))) [
        | inr full ↦ stop_with (received ∷ more) c (ltb→le _ _ full) below
        | inl short ↦
            let e = append_assoc b received (joined more) in
            let (d, rest, run, kept, full, same) =
              fill_lem more (store_received c received)
                (omega (arith, want-store c received, ap length e)) (omega (arith, ap length e)) in
            (
              d,
              rest,
              goes_on c received (map got more)
                    (omega (arith, get_length_small c.recv_bound.buffer below, ltb→lt _ _ short))
                  ∙ run,
              kept ∙ e,
              omega (arith, want-store c received),
              record { net = same.net; header = same.header; sends = same.sends },
            )
      ]

pub fill_header_on :
    (c : TcpConnSync) (received : Bytes) (more : List ReadResult)
    → get_length c.recv_bound.buffer < header_size
    → fill_header c (got received ∷ more) ≡ fill_header (store_received c received) more
unfolding fill_header
fill_header_on c received more short = ground arith

pub fill_header_stops :
    (c : TcpConnSync) (script : List ReadResult)
    → header_size ≤ get_length c.recv_bound.buffer
    → fill_header c script ≡ filled c script
unfolding fill_header
fill_header_stops c [] full = ground arith
fill_header_stops c (got received ∷ more) full = ground arith
fill_header_stops c (broke ec ∷ more) full = ground arith

pub fill_body_on :
    (c : TcpConnSync) (received : Bytes) (more : List ReadResult)
    → get_length c.recv_bound.buffer < c.recv_bound.header.length
    → fill_body c (got received ∷ more) ≡ fill_body (store_received c received) more
unfolding fill_body
fill_body_on c received more short = ground arith

pub fill_body_stops :
    (c : TcpConnSync) (script : List ReadResult)
    → c.recv_bound.header.length ≤ get_length c.recv_bound.buffer
    → fill_body c script ≡ filled c script
unfolding fill_body
fill_body_stops c [] full = ground arith
fill_body_stops c (got received ∷ more) full = ground arith
fill_body_stops c (broke ec ∷ more) full = ground arith
