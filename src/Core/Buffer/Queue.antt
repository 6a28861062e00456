-- ===== src/Core/Buffer/Queue.antt =====
-- source/Core/Buffer.h as a queue of bytes.
use tzrpc.Prelude.{
  ℕ, zero, suc, ◌+◌, ◌%◌, ◌^◌, ◌≤◌, ◌<◌, ◌≡◌, ◌≢◌, refl, ap, ◌∙◌, true, false, some, [], ◌++◌,
  arith, length, length-append, take, drop, take-append-drop, take-all, drop-all, length-take,
  take-append_self, drop-append_self, append_assoc, append-nil, min, ◌⊎◌,
}
use tzrpc.Core.Endian.{Endian, Bytes}
use tzrpc.Core.Message.{Message, net_str, image, to_net_endian}
use tzrpc.Core.Buffer.{
  Buffer, get_length, append_internal, append, of_message, consume, consume_raw,
}

-- Below 4 GiB the length is exact.
pub get_length_small : (b : Buffer) → length b.bytes < 2 ^ 32 → get_length b ≡ length b.bytes
unfolding get_length
get_length_small b h = omega arith

-- What `consume` takes into an empty string, and what it leaves, whatever the size asked for.
pub consume-take : (b : Buffer) (sz : ℕ) → (consume b [] sz).1 ≡ take sz b.bytes
unfolding consume
consume-take b zero = ground arith
consume-take b (suc n) = ground (arith, take-all (suc n) b.bytes)

pub consume-drop : (b : Buffer) (sz : ℕ) → (consume b [] sz).2.bytes ≡ drop sz b.bytes
unfolding consume
consume-drop b zero = ground arith
consume-drop b (suc n) = ground (arith, drop-all (suc n) b.bytes)

-- On every branch: `consume` with nothing to give changes neither the string nor the buffer and
-- says false. Otherwise it says true, hands over the first bytes, as many as asked for or all there
-- are, and keeps the rest in order.
pub consume_cases :
    (b : Buffer) (store : Bytes) (sz : ℕ)
    → ((min sz (length b.bytes) ≡ 0) × (consume b store sz ≡ (false, store, b)))
      ⊎ ((0 < min sz (length b.bytes))
          × ((consume b store sz).0 ≡ true)
          × ((consume b store sz).1 ++ (consume b store sz).2.bytes ≡ b.bytes)
          × (length (consume b store sz).1 ≡ min sz (length b.bytes)))
unfolding consume
consume_cases b store sz =
    ground (arith, append-nil b.bytes, take-append-drop sz b.bytes, length-take sz b.bytes)

-- First in, first out: of a buffer that is not empty, with a string that is not empty appended, a
-- `consume` of the old length takes the old bytes and leaves the string.
pub consume-append_internal :
    (b : Buffer) (s store : Bytes)
    → b.bytes ≢ []
    → s ≢ []
    → consume (append_internal b s).0 store (length b.bytes) ≡ (true, b.bytes, record { bytes = s })
unfolding consume append_internal
consume-append_internal b s store nb ns = ground (
  arith,
  take-append_self (length b.bytes) b.bytes s,
  drop-append_self (length b.bytes) b.bytes s,
  length-append b.bytes s,
)

-- The two overloads of `consume` agree: for a size that the buffer holds, the raw one writes to the
-- front of its block what the other returns, and both leave the same buffer.
pub consume_raw-consume :
    (b : Buffer) (block store : Bytes) (sz : ℕ)
    → 0 < sz
    → sz ≤ length b.bytes
    → consume_raw b (some block) sz
      ≡ some (
        (consume b store sz).0,
        some ((consume b store sz).1 ++ drop sz block),
        (consume b store sz).2,
      )
unfolding consume consume_raw
consume_raw-consume b block store sz pos le = ground (arith, take-all sz b.bytes)

-- `consume_raw` of at most what there is.
pub consume_raw-some :
    (b : Buffer) (block : Bytes) (n : ℕ)
    → 0 < n
    → n ≤ length b.bytes
    → consume_raw b (some block) n
      ≡ some (true, some (take n b.bytes ++ drop n block), record { bytes = drop n b.bytes })
unfolding consume_raw
consume_raw-some b block n some_left le = ground (arith, drop-all n b.bytes)

-- Appending a message adds its bytes on the wire behind what the buffer holds, and the value that
-- is returned is the new length modulo 2^32.
pub append-net_str :
    (host : Endian) (b : Buffer) (m : Message)
    → ((append host b m).0.bytes ≡ b.bytes ++ net_str host m)
      × ((append host b m).1 ≡ (length b.bytes + length (net_str host m)) % 2 ^ 32)
unfolding append net_str
append-net_str host b m =
    let bs = image host (to_net_endian host m.header) in
    let joined = append_assoc b.bytes bs m.payload in
    (
      joined,
      ap (λ (n : ℕ). n % 2 ^ 32) (ap length joined ∙ length-append b.bytes (bs ++ m.payload)),
    )

-- The constructor from a message holds that message's bytes on the wire.
pub of_message-net_str : (host : Endian) (m : Message) → (of_message host m).bytes ≡ net_str host m
unfolding of_message net_str
of_message-net_str host m = refl
