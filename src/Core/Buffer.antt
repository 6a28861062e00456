-- ===== src/Core/Buffer.antt =====
-- source/Core/Buffer.h: the byte queue of a connection's receiving and sending side.
pub mod Queue
use tzrpc.Prelude.{
  ℕ, ◌%◌, ◌^◌, Bool, true, false, ◌||◌, Option, none, some, [], ◌++◌, ltb, leb, ◌==◌, if◌then◌else◌,
  length, take, drop, is_empty,
}
use tzrpc.Core.Endian.{Endian, Bytes}
use tzrpc.Core.Message.{Message, to_net_endian, image}

-- `std::vector<char> data_`
pub record Buffer : Type 0 where
  pub bytes : Bytes

abbrev pub empty_buffer : Buffer
empty_buffer = record { bytes = [] }

unfoldable pub of_string : Bytes → Buffer
of_string s = record { bytes = s }

-- `static_cast<uint32_t>(data_.size())`
unfoldable pub get_length : Buffer → ℕ
get_length b = length b.bytes % 2 ^ 32

-- An append returns the buffer and the length that the source returns.
unfoldable pub append_internal : Buffer → Bytes → Buffer × ℕ
append_internal b s =
    let out : Bytes = b.bytes ++ s in (record { bytes = out }, length out % 2 ^ 32)

-- The header goes first, then the payload, each by `append_internal`.
unfoldable pub append : Endian → Buffer → Message → Buffer × ℕ
unfolding append_internal
append host b msg =
    let header_str = image host (to_net_endian host msg.header) in
    append_internal (append_internal b header_str).0 msg.payload

unfoldable pub of_message : Endian → Message → Buffer
unfolding append_internal
of_message host msg =
    let header_str = image host (to_net_endian host msg.header) in
    (append_internal (append_internal empty_buffer header_str).0 msg.payload).0

-- `consume(std::string& store, uint32_t sz)`: the result, `store` after the call, and the buffer.
unfoldable pub consume : Buffer → Bytes → ℕ → Bool × Bytes × Buffer
consume b store sz =
    if sz == 0 || is_empty b.bytes
    then (false, store, b)
    else if leb (length b.bytes) sz
    then (true, b.bytes, empty_buffer)
    else (true, take sz b.bytes, record { bytes = drop sz b.bytes })

unfoldable pub front_erase : Buffer → ℕ → Buffer
front_erase b sz =
    if leb (length b.bytes) sz then empty_buffer else record { bytes = drop sz b.bytes }

-- `consume(char* store, uint32_t sz)`: `none` as store is the null pointer. The outer `none` is the
-- read beyond the end that `memcpy` makes where the caller asks for more than the buffer holds.
unfoldable pub consume_raw : Buffer → Option Bytes → ℕ → Option (Bool × Option Bytes × Buffer)
unfolding front_erase
consume_raw b none sz = some (false, none, b)
consume_raw b (some block) sz =
    if sz == 0 || is_empty b.bytes
    then some (false, some block, b)
    else if ltb (length b.bytes) sz
    then none
    else some (true, some (take sz b.bytes ++ drop sz block), front_erase b sz)
