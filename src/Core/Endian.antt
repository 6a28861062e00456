-- ===== src/Core/Endian.antt =====
-- The calls of <endian.h> that the headers make, and the bytes of an integer in memory.
-- A byte is a number below 256, and the host's byte order is an argument.
use tzrpc.Prelude.{ℕ, ◌+◌, ◌*◌, ◌/◌, ◌%◌, ◌^◌, ◌<◌, ◌≡◌, refl, List, [], ◌∷◌, arith, get_or, length}

abbrev pub Bytes : Type 0
Bytes = List ℕ

abbrev pub IsByte : ℕ → Type 0
IsByte b = b < 256

abbrev pub IsU16 : ℕ → Type 0
IsU16 x = x < 2 ^ 16

abbrev pub IsU32 : ℕ → Type 0
IsU32 x = x < 2 ^ 32

pub data Endian : Type 0 where
  little big : Endian

-- The big-endian bytes of an integer, and the integer that four or two bytes spell so.
abbrev pub be_bytes16 : ℕ → Bytes
be_bytes16 x = x / 256 % 256 ∷ x % 256 ∷ []

abbrev pub be_bytes32 : ℕ → Bytes
be_bytes32 x = x / 16777216 % 256 ∷ x / 65536 % 256 ∷ x / 256 % 256 ∷ x % 256 ∷ []

abbrev pub bswap16 : ℕ → ℕ
bswap16 x = x % 256 * 256 + x / 256 % 256

abbrev pub bswap32 : ℕ → ℕ
bswap32 x = x % 256 * 16777216 + x / 256 % 256 * 65536 + x / 65536 % 256 * 256 + x / 16777216 % 256

-- `htobe16`, `be16toh`, `htobe32` and `be32toh`: a swap on a little-endian host, nothing on a big one.
unfoldable pub htobe16 : Endian → ℕ → ℕ
htobe16 little x = bswap16 x
htobe16 big x = x

unfoldable pub be16toh : Endian → ℕ → ℕ
be16toh little x = bswap16 x
be16toh big x = x

unfoldable pub htobe32 : Endian → ℕ → ℕ
htobe32 little x = bswap32 x
htobe32 big x = x

unfoldable pub be32toh : Endian → ℕ → ℕ
be32toh little x = bswap32 x
be32toh big x = x

-- The object representation of an integer: what `reinterpret_cast<char*>` shows of it.
unfoldable pub mem16 : Endian → ℕ → Bytes
mem16 little x = x % 256 ∷ x / 256 % 256 ∷ []
mem16 big x = be_bytes16 x

unfoldable pub mem32 : Endian → ℕ → Bytes
mem32 little x = x % 256 ∷ x / 256 % 256 ∷ x / 65536 % 256 ∷ x / 16777216 % 256 ∷ []
mem32 big x = be_bytes32 x

-- What `memcpy` from offset `i` of the bytes makes of an integer.
unfoldable pub load16 : Endian → Bytes → ℕ → ℕ
load16 little bs i = get_or bs i 0 + get_or bs (i + 1) 0 * 256
load16 big bs i = get_or bs i 0 * 256 + get_or bs (i + 1) 0

unfoldable pub load32 : Endian → Bytes → ℕ → ℕ
load32 little bs i =
    get_or bs i 0
    + get_or bs (i + 1) 0 * 256
    + get_or bs (i + 2) 0 * 65536
    + get_or bs (i + 3) 0 * 16777216
load32 big bs i =
    get_or bs i 0 * 16777216
    + get_or bs (i + 1) 0 * 65536
    + get_or bs (i + 2) 0 * 256
    + get_or bs (i + 3) 0

-- What a host writes of a swapped integer is its big-endian bytes, on either host.
pub mem16-htobe16 : (h : Endian) (x : ℕ) → IsU16 x → mem16 h (htobe16 h x) ≡ be_bytes16 x
unfolding mem16 htobe16
mem16-htobe16 little x lt = ground arith
mem16-htobe16 big x lt = refl

pub mem32-htobe32 : (h : Endian) (x : ℕ) → IsU32 x → mem32 h (htobe32 h x) ≡ be_bytes32 x
unfolding mem32 htobe32
mem32-htobe32 little x lt = ground arith
mem32-htobe32 big x lt = refl

pub length-mem32 : (h : Endian) (x : ℕ) → length (mem32 h x) ≡ 4
unfolding mem32
length-mem32 little x = refl
length-mem32 big x = refl

-- What a host makes of two or four bytes that it loads and swaps, on either host.
module _ (h : Endian) (bs : Bytes) (i : ℕ) where
  pub be16toh-load16 :
      IsByte (get_or bs i 0)
      → IsByte (get_or bs (i + 1) 0)
      → be16toh h (load16 h bs i) ≡ get_or bs i 0 * 256 + get_or bs (i + 1) 0
  unfolding be16toh load16
  be16toh-load16 p q = swap h
    where
      swap : (e : Endian) → be16toh e (load16 e bs i) ≡ get_or bs i 0 * 256 + get_or bs (i + 1) 0
      swap little = omega arith
      swap big = refl

  pub be32toh-load32 :
      IsByte (get_or bs i 0)
      → IsByte (get_or bs (i + 1) 0)
      → IsByte (get_or bs (i + 2) 0)
      → IsByte (get_or bs (i + 3) 0)
      → be32toh h (load32 h bs i)
        ≡ get_or bs i 0 * 16777216
          + get_or bs (i + 1) 0 * 65536
          + get_or bs (i + 2) 0 * 256
          + get_or bs (i + 3) 0
  unfolding be32toh load32
  be32toh-load32 p q r s = swap h
    where
      swap :
          (e : Endian)
          → be32toh e (load32 e bs i)
            ≡ get_or bs i 0 * 16777216
              + get_or bs (i + 1) 0 * 65536
              + get_or bs (i + 2) 0 * 256
              + get_or bs (i + 3) 0
      swap little = omega arith
      swap big = refl

-- The bytes of an integer spell it again.
pub be16_digits : (x : ℕ) → IsU16 x → x / 256 % 256 * 256 + x % 256 ≡ x
be16_digits x lt = omega arith

pub be32_digits :
    (x : ℕ)
    → IsU32 x
    → x / 16777216 % 256 * 16777216 + x / 65536 % 256 * 65536 + x / 256 % 256 * 256 + x % 256 ≡ x
be32_digits x lt = omega arith
