-- ===== src/Crc32.antt =====
-- components/robusto/proxy/src/robusto_proxy_crc32.c: the CRC that closes every frame.
pub mod Detects
use robusto.Prelude.{ℕ, zero, suc, ◌/◌, List, [], ◌∷◌, bit_and, bit_xor, ◌!=◌, if◌then◌else◌, take}

abbrev pub polynomial : ℕ
polynomial = 0xEDB8_8320

abbrev pub all_ones : ℕ
all_ones = 0xFFFF_FFFF

-- One pass of the inner loop: `crc >>= 1`, with the polynomial if the bit shifted out was set.
unfoldable pub crc_bit : ℕ → ℕ
crc_bit crc = if bit_and crc 1 != 0 then bit_xor (crc / 2) polynomial else crc / 2

-- The inner loop over `bit`, by the rounds left.
unfoldable pub crc_bits : ℕ → ℕ → ℕ
crc_bits zero crc = crc
crc_bits (suc rounds) crc = crc_bits rounds (crc_bit crc)

-- One pass of the outer loop.
unfoldable pub crc_byte : ℕ → ℕ → ℕ
crc_byte crc byte = crc_bits 8 (bit_xor crc byte)

-- The outer loop over `data`.
unfoldable pub crc_bytes : ℕ → List ℕ → ℕ
crc_bytes crc [] = crc
crc_bytes crc (byte ∷ bytes) = crc_bytes (crc_byte crc byte) bytes

-- `robusto_proxy_crc32_iso_hdlc`: the first `size` bytes of `bytes`.
unfoldable pub crc32_iso_hdlc : List ℕ → ℕ → ℕ
crc32_iso_hdlc bytes size = bit_xor (crc_bytes all_ones (take size bytes)) all_ones
