-- ===== src/Crc.antt =====
-- bm-wire/src/crc.rs: the CRC of a DFU image and the CRC of the configuration and of boot images.
pub mod Chaining
pub mod Xor
pub mod Reference
use Prim.Native.Nat.{bit_and, bit_xor}
use bristlemouth_rs.Common.{ℕ, ◌+◌, ◌-◌, ◌*◌, ◌/◌, ◌%◌, ◌^◌, List, [], ◌∷◌, get_or}

-- One byte: `e` and `f` of the source are the argument of the second function.
unfoldable pub crc16_low : ℕ → ℕ → ℕ
crc16_low crc byte = bit_xor crc byte % 256

unfoldable pub crc16_mix : ℕ → ℕ
crc16_mix e = bit_xor e (e * 16 % 256)

unfoldable pub crc16_byte : ℕ → ℕ → ℕ
unfolding crc16_low crc16_mix
crc16_byte crc byte =
    let f = crc16_mix (crc16_low crc byte) in
    bit_xor (bit_xor (bit_xor (crc / 256) (f * 256 % 65536)) (f * 8 % 65536)) (f / 16)

unfoldable pub crc16_ccitt : ℕ → List ℕ → ℕ
unfolding crc16_byte
crc16_ccitt seed [] = seed
crc16_ccitt seed (byte ∷ bytes) = crc16_ccitt (crc16_byte seed byte) bytes

-- `TABLE` of `crc32_ieee_update`.
abbrev pub crc32_table : List ℕ
crc32_table =
    0x00000000 ∷ 0x1db71064 ∷ 0x3b6e20c8 ∷ 0x26d930ac ∷ 0x76dc4190 ∷ 0x6b6b51f4 ∷ 0x4db26158
    ∷ 0x5005713c ∷ 0xedb88320 ∷ 0xf00f9344 ∷ 0xd6d6a3e8 ∷ 0xcb61b38c ∷ 0x9b64c2b0 ∷ 0x86d3d2d4
    ∷ 0xa00ae278 ∷ 0xbdbdf21c ∷ []

unfoldable pub crc32_nibble : ℕ → ℕ → ℕ
crc32_nibble crc nibble =
    bit_xor (crc / 16) (get_or crc32_table (bit_and (bit_xor crc nibble) 0x0f) 0)

unfoldable pub crc32_loop : ℕ → List ℕ → ℕ
unfolding crc32_nibble
crc32_loop crc [] = crc
crc32_loop crc (byte ∷ bytes) = crc32_loop (crc32_nibble (crc32_nibble crc byte) (byte / 16)) bytes

-- `!x` of a u32.
abbrev pub u32_not : ℕ → ℕ
u32_not x = 2 ^ 32 - 1 - x

unfoldable pub crc32_ieee_update : ℕ → List ℕ → ℕ
unfolding crc32_loop
crc32_ieee_update crc bytes = u32_not (crc32_loop (u32_not crc) bytes)

unfoldable pub crc32_ieee : List ℕ → ℕ
unfolding crc32_ieee_update
crc32_ieee bytes = crc32_ieee_update 0 bytes
