-- ===== src/Bytes.antt =====
-- The byte-level functions of Python that the host tools call: `struct.pack` and `struct.unpack` of
-- little-endian words ("<I"), `bytes.find`, and `zlib.crc32`. Bytes are numbers below 256 in a list.
pub mod Words
pub mod Find
pub mod Crc
use mps4_prototyping_board.Prelude.{
  ℕ, zero, suc, ◌+◌, ◌*◌, ◌/◌, ◌%◌, ◌^◌, ◌<◌, bit_xor, Bool, true, false, not, ◌&&◌, List, [], ◌∷◌,
  ◌++◌, Option, none, some, length, take, ltb, ◌==◌, if◌then◌else◌,
}
use mathlib.Core.Option

abbrev pub Bytes : Type 0
Bytes = List ℕ

abbrev pub IsByte : ℕ → Type 0
IsByte b = b < 256

abbrev pub IsU32 : ℕ → Type 0
IsU32 w = w < 2 ^ 32

-- The four bytes of a word, lowest first, and the word of four bytes.
abbrev pub le32 : ℕ → Bytes
le32 w = (w % 256) ∷ (w / 256 % 256) ∷ (w / 65536 % 256) ∷ (w / 16777216 % 256) ∷ []

abbrev pub word : ℕ → ℕ → ℕ → ℕ → ℕ
word a b c d = a + 256 * b + 65536 * c + 16777216 * d

-- The bytes of `struct.pack("<nI", ...)` when every value fits 32 bits.
unfoldable pub le32s : List ℕ → Bytes
le32s [] = []
le32s (w ∷ ws) = le32 w ++ le32s ws

all_u32 : List ℕ → Bool
all_u32 [] = true
all_u32 (w ∷ ws) = ltb w (2 ^ 32) && all_u32 ws

-- `struct.pack("<nI", *ws)`: `none` is `struct.error`, a value that does not fit.
unfoldable pub pack_words : List ℕ → Option Bytes
unfolding all_u32
pack_words ws = if all_u32 ws then some (le32s ws) else none

-- The words of a buffer, as far as four bytes are left.
unfoldable pub words : Bytes → List ℕ
words (a ∷ b ∷ c ∷ d ∷ rest) = word a b c d ∷ words rest
words _ = []

-- `struct.unpack_from("<nI", bs)`: `none` is `struct.error`, a buffer that is too short.
unfoldable pub unpack_words : ℕ → Bytes → Option (List ℕ)
unfolding words
unpack_words n bs = if ltb (length bs) (4 * n) then none else some (take n (words bs))

-- `bs.startswith(pat)`
unfoldable pub starts_with : Bytes → Bytes → Bool
starts_with [] bs = true
starts_with (p ∷ pat) [] = false
starts_with (p ∷ pat) (b ∷ bs) = p == b && starts_with pat bs

-- `bs.find(pat)` for a pattern that is not empty: `none` stands for -1.
unfoldable pub find : Bytes → Bytes → Option ℕ
unfolding starts_with
find pat [] = none
find pat (b ∷ bs) =
    let rest = find pat bs in if starts_with pat (b ∷ bs) then some 0 else Option.map suc rest

-- One bit of the reflected CRC-32, polynomial 0xEDB88320.
crc_bit : ℕ → ℕ
crc_bit c = if c % 2 == 1 then bit_xor (c / 2) 0xEDB8_8320 else c / 2

crc_bits : ℕ → ℕ → ℕ
crc_bits zero c = c
crc_bits (suc n) c = crc_bits n (crc_bit c)

crc_bytes : ℕ → Bytes → ℕ
unfolding crc_bit crc_bits
crc_bytes c [] = c
crc_bytes c (b ∷ bs) = crc_bytes (crc_bits 8 (bit_xor c b)) bs

-- `zlib.crc32(bs) & 0xFFFFFFFF`
unfoldable pub crc32 : Bytes → ℕ
unfolding crc_bytes
crc32 bs = bit_xor (crc_bytes 0xFFFF_FFFF bs) 0xFFFF_FFFF % 2 ^ 32
