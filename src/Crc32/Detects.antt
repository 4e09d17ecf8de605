-- ===== src/Crc32/Detects.antt =====
-- What the CRC detects: every step of the division is injective on 32-bit states.
use robusto.Prelude.{
  ℕ, zero, suc, ◌/◌, ◌%◌, ◌^◌, ◌≤◌, ◌<◌, ◌≡◌, ◌≢◌, sym, ap, ◌∙◌, List, [], ◌∷◌, arith, bit_xor,
  bit_and-one, bit_xor_undo, bit_xor_undo_left, bit_xor-lt, le-bit_xor, AreBytes, IsByte, length,
  get_or, set, take, length-take, take-set_lt, take-set_ge, get_or-take, take-append, take_self,
  ◌++◌, ◌⊎◌, inl, inr,
}
use robusto.Crc32.{polynomial, all_ones, crc_bit, crc_bits, crc_byte, crc_bytes, crc32_iso_hdlc}

crc_bit_even : (s : ℕ) → s % 2 ≡ 0 → crc_bit s ≡ s / 2
unfolding crc_bit
crc_bit_even s h = ground (arith, bit_and-one s)

crc_bit_odd : (s : ℕ) → s % 2 ≡ 1 → crc_bit s ≡ bit_xor (s / 2) polynomial
unfolding crc_bit
crc_bit_odd s h = ground (arith, bit_and-one s)

crc_bit-lt : (s : ℕ) → s < 2 ^ 32 → crc_bit s < 2 ^ 32
unfolding crc_bit
crc_bit-lt s h = ground (arith, bit_xor-lt 32 (s / 2) polynomial (omega arith) (omega arith))

crc_bit_odd_high : (s : ℕ) → s < 2 ^ 32 → s % 2 ≡ 1 → 2 ^ 31 ≤ crc_bit s
crc_bit_odd_high s h odd =
    omega (arith, crc_bit_odd s odd, le-bit_xor 31 (s / 2) polynomial (omega arith) (omega arith))

bit_cases : (s : ℕ) → (s % 2 ≡ 0) ⊎ (s % 2 ≡ 1)
bit_cases s = omega arith

-- The polynomial's top bit tells whether a bit was shifted out.
crc_bit_injective : (s t : ℕ) → s < 2 ^ 32 → t < 2 ^ 32 → crc_bit s ≡ crc_bit t → s ≡ t
crc_bit_injective s t hs ht e = elim (bit_cases s) [
  | inl p ↦ elim (bit_cases t) [
    | inl q ↦ omega (arith, crc_bit_even s p, crc_bit_even t q)
    | inr q ↦ absurd (omega (arith, crc_bit_even s p, crc_bit_odd_high t ht q))
  ]
  | inr p ↦ elim (bit_cases t) [
    | inl q ↦ absurd (omega (arith, crc_bit_even t q, crc_bit_odd_high s hs p))
    | inr q ↦ omega (arith, halves p q)
  ]
]
  where
    halves : s % 2 ≡ 1 → t % 2 ≡ 1 → s / 2 ≡ t / 2
    halves p q =
        sym (bit_xor_undo (s / 2) polynomial)
        ∙ ap (λ (x : ℕ). bit_xor x polynomial) (sym (crc_bit_odd s p) ∙ e ∙ crc_bit_odd t q)
        ∙ bit_xor_undo (t / 2) polynomial

crc_bits-lt : (n s : ℕ) → s < 2 ^ 32 → crc_bits n s < 2 ^ 32
unfolding crc_bits
crc_bits-lt zero s h = h
crc_bits-lt (suc n) s h = crc_bits-lt n (crc_bit s) (crc_bit-lt s h)

crc_bits_injective : (n s t : ℕ) → s < 2 ^ 32 → t < 2 ^ 32 → crc_bits n s ≡ crc_bits n t → s ≡ t
unfolding crc_bits
crc_bits_injective zero s t hs ht e = e
crc_bits_injective (suc n) s t hs ht e =
    crc_bit_injective s t hs ht
      (crc_bits_injective n (crc_bit s) (crc_bit t) (crc_bit-lt s hs) (crc_bit-lt t ht) e)

xor_byte-lt : (s b : ℕ) → s < 2 ^ 32 → IsByte b → bit_xor s b < 2 ^ 32
xor_byte-lt s b hs hb = bit_xor-lt 32 s b hs (omega arith)

pub crc_byte-lt : (s b : ℕ) → s < 2 ^ 32 → IsByte b → crc_byte s b < 2 ^ 32
unfolding crc_byte
crc_byte-lt s b hs hb = crc_bits-lt 8 (bit_xor s b) (xor_byte-lt s b hs hb)

crc_byte_state :
    (s t b : ℕ) → s < 2 ^ 32 → t < 2 ^ 32 → IsByte b → crc_byte s b ≡ crc_byte t b → s ≡ t
unfolding crc_byte
crc_byte_state s t b hs ht hb e =
    sym (bit_xor_undo s b)
    ∙ ap (λ (x : ℕ). bit_xor x b)
        (crc_bits_injective 8 (bit_xor s b) (bit_xor t b) (xor_byte-lt s b hs hb)
          (xor_byte-lt t b ht hb) e)
    ∙ bit_xor_undo t b

crc_byte_input :
    (s b c : ℕ) → s < 2 ^ 32 → IsByte b → IsByte c → crc_byte s b ≡ crc_byte s c → b ≡ c
unfolding crc_byte
crc_byte_input s b c hs hb hc e =
    sym (bit_xor_undo_left s b)
    ∙ ap (bit_xor s) (
        crc_bits_injective 8 (bit_xor s b) (bit_xor s c) (xor_byte-lt s b hs hb)
          (xor_byte-lt s c hs hc) e)
    ∙ bit_xor_undo_left s c

pub crc_bytes-lt :
    (s : ℕ) (bytes : List ℕ) → s < 2 ^ 32 → AreBytes bytes → crc_bytes s bytes < 2 ^ 32
unfolding crc_bytes
crc_bytes-lt s [] h bs = h
crc_bytes-lt s (b ∷ bytes) h bs = crc_bytes-lt (crc_byte s b) bytes (crc_byte-lt s b h bs.0) bs.1

crc_bytes_state :
    (s t : ℕ) (bytes : List ℕ)
    → s < 2 ^ 32
    → t < 2 ^ 32
    → AreBytes bytes
    → crc_bytes s bytes ≡ crc_bytes t bytes
    → s ≡ t
unfolding crc_bytes
crc_bytes_state s t [] hs ht bs e = e
crc_bytes_state s t (b ∷ bytes) hs ht bs e = crc_byte_state s t b hs ht bs.0 (
    crc_bytes_state (crc_byte s b) (crc_byte t b) bytes (crc_byte-lt s b hs bs.0)
      (crc_byte-lt t b ht bs.0) bs.1 e)

crc_bytes_detects :
    (s : ℕ) (bytes : List ℕ) (i v : ℕ)
    → s < 2 ^ 32
    → AreBytes bytes
    → IsByte v
    → i < length bytes
    → crc_bytes s (set bytes i v) ≡ crc_bytes s bytes
    → get_or bytes i 0 ≡ v
unfolding crc_bytes
crc_bytes_detects s [] i v hs bs hv hi e = absurd (omega arith)
crc_bytes_detects s (b ∷ bytes) zero v hs bs hv hi e = sym (
    crc_byte_input s v b hs hv bs.0 (
      crc_bytes_state (crc_byte s v) (crc_byte s b) bytes (crc_byte-lt s v hs hv)
        (crc_byte-lt s b hs bs.0) bs.1 e))
crc_bytes_detects s (b ∷ bytes) (suc i) v hs bs hv hi e =
    crc_bytes_detects (crc_byte s b) bytes i v (crc_byte-lt s b hs bs.0) bs.1 hv (omega arith) e

pub AreBytes-take : (n : ℕ) (bytes : List ℕ) → AreBytes bytes → AreBytes (take n bytes)
AreBytes-take zero bytes bs = tt
AreBytes-take (suc n) [] bs = tt
AreBytes-take (suc n) (b ∷ bytes) bs = (bs.0, AreBytes-take n bytes bs.1)

-- Changing any one of the bytes that the CRC covers, to any other byte, changes the CRC.
pub crc32-set :
    (bytes : List ℕ) (size i v : ℕ)
    → AreBytes bytes
    → IsByte v
    → i < size
    → size ≤ length bytes
    → get_or bytes i 0 ≢ v
    → crc32_iso_hdlc (set bytes i v) size ≢ crc32_iso_hdlc bytes size
unfolding crc32_iso_hdlc
crc32-set bytes size i v bs hv hi hs changed e = changed (
    sym (get_or-take bytes size i 0 hi)
    ∙ crc_bytes_detects all_ones (take size bytes) i v (omega arith) (AreBytes-take size bytes bs)
        hv (omega (arith, length-take size bytes))
        (rw (take-set_lt bytes i size v hi) at (
          undo (crc_bytes all_ones (take size (set bytes i v)))
            (crc_bytes all_ones (take size bytes)) e)))
  where
    undo : (a b : ℕ) → bit_xor a all_ones ≡ bit_xor b all_ones → a ≡ b
    undo a b h =
        sym (bit_xor_undo a all_ones)
        ∙ ap (λ (x : ℕ). bit_xor x all_ones) h
        ∙ bit_xor_undo b all_ones

-- The CRC of bytes fits in 32 bits.
pub crc32-lt : (bytes : List ℕ) (size : ℕ) → AreBytes bytes → crc32_iso_hdlc bytes size < 2 ^ 32
unfolding crc32_iso_hdlc
crc32-lt bytes size bs =
    bit_xor-lt 32 (crc_bytes all_ones (take size bytes)) all_ones
      (crc_bytes-lt all_ones (take size bytes) (omega arith) (AreBytes-take size bytes bs))
      (omega arith)

-- Bytes behind the covered ones do not matter.
pub crc32-append :
    (bytes tail : List ℕ) (size : ℕ)
    → size ≡ length bytes
    → crc32_iso_hdlc (bytes ++ tail) size ≡ crc32_iso_hdlc bytes size
unfolding crc32_iso_hdlc
crc32-append bytes tail size h = rw (take-append bytes tail size h, take_self bytes size h)

pub crc32-set_behind :
    (bytes : List ℕ) (size i v : ℕ)
    → size ≤ i
    → crc32_iso_hdlc (set bytes i v) size ≡ crc32_iso_hdlc bytes size
unfolding crc32_iso_hdlc
crc32-set_behind bytes size i v h = rw (take-set_ge bytes i size v h)
