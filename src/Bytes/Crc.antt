-- ===== src/Bytes/Crc.antt =====
-- The CRC-32 of `zlib` is a word, and its published check value.
use mps4_prototyping_board.Prelude.{◌≡◌, refl, arith, [], ◌∷◌}
use mps4_prototyping_board.Bytes.{Bytes, IsU32, crc32}

pub crc32-IsU32 : (bs : Bytes) → IsU32 (crc32 bs)
unfolding crc32
crc32-IsU32 bs = omega arith

-- The check value of CRC-32 is that of the text "123456789".
crc32_check :
    crc32 (0x31 ∷ 0x32 ∷ 0x33 ∷ 0x34 ∷ 0x35 ∷ 0x36 ∷ 0x37 ∷ 0x38 ∷ 0x39 ∷ []) ≡ 0xCBF4_3926
unfolding crc32
crc32_check = refl
