-- ===== src/Prelude/Bytes.antt =====
-- Little-endian words in byte buffers. A buffer is a list of bytes, a pointer into it the rest of
-- the list from there.
use Prim.Native.Nat.{ℕ, ◌+◌, ◌*◌, ◌/◌, ◌%◌, ◌^◌, ◌≤◌, ◌<◌, zero, suc}
use mathlib.Core.Path.{◌≡◌}
use mathlib.Core.List.{List, [], ◌∷◌, ◌++◌}
use native.Mathlib.Omega.{arith}
use robusto.Prelude.Lists.{All, length, get_or, set, drop, get_or-drop, get_or-set_ne}
use mathlib.Core.Logic.{◌⊎◌, inl, inr}

abbrev pub IsByte : ℕ → Type 0
IsByte b = b < 2 ^ 8

abbrev pub AreBytes : List ℕ → Type 0
AreBytes = All IsByte

-- A read outside the buffer yields 0; the callers check the length first.
abbrev pub byte_at : List ℕ → ℕ → ℕ
byte_at buffer i = get_or buffer i 0

-- The bytes that `write_le16`, `write_le32` and `write_le64` store, in order.
abbrev pub le16 : ℕ → List ℕ
le16 value = value % 2 ^ 8 ∷ value / 2 ^ 8 % 2 ^ 8 ∷ []

abbrev pub le32 : ℕ → List ℕ
le32 value =
    value % 2 ^ 8 ∷ value / 2 ^ 8 % 2 ^ 8 ∷ value / 2 ^ 16 % 2 ^ 8 ∷ value / 2 ^ 24 % 2 ^ 8 ∷ []

abbrev pub le64 : ℕ → List ℕ
le64 value = le32 (value % 2 ^ 32) ++ le32 (value / 2 ^ 32 % 2 ^ 32)

-- `read_le16`, `read_le32`, `read_le64`: the shifted bytes do not overlap, so `|` is a sum.
abbrev pub read_le16 : List ℕ → ℕ
read_le16 bytes = byte_at bytes 0 + byte_at bytes 1 * 2 ^ 8

abbrev pub read_le32 : List ℕ → ℕ
read_le32 bytes =
    byte_at bytes 0 + byte_at bytes 1 * 2 ^ 8 + byte_at bytes 2 * 2 ^ 16 + byte_at bytes 3 * 2 ^ 24

abbrev pub read_le64 : List ℕ → ℕ
read_le64 bytes = read_le32 bytes + read_le32 (drop 4 bytes) * 2 ^ 32

-- Storing bytes at the start of a buffer.
abbrev pub overwrite : List ℕ → List ℕ → List ℕ
overwrite bytes buffer = bytes ++ drop (length bytes) buffer

pub read_le16-le16 : (v : ℕ) (rest : List ℕ) → v < 2 ^ 16 → read_le16 (le16 v ++ rest) ≡ v
read_le16-le16 v rest h = omega arith

pub read_le32-le32 : (v : ℕ) (rest : List ℕ) → v < 2 ^ 32 → read_le32 (le32 v ++ rest) ≡ v
read_le32-le32 v rest h = omega arith

pub read_le64-le64 : (v : ℕ) (rest : List ℕ) → v < 2 ^ 64 → read_le64 (le64 v ++ rest) ≡ v
read_le64-le64 v rest h = omega arith

pub AreBytes-append : (xs ys : List ℕ) → AreBytes xs → AreBytes ys → AreBytes (xs ++ ys)
AreBytes-append [] ys hx hy = hy
AreBytes-append (x ∷ xs) ys hx hy = (hx.0, AreBytes-append xs ys hx.1 hy)

pub IsByte-byte_at : (xs : List ℕ) (i : ℕ) → AreBytes xs → IsByte (byte_at xs i)
IsByte-byte_at [] i h = omega arith
IsByte-byte_at (x ∷ xs) zero h = h.0
IsByte-byte_at (x ∷ xs) (suc i) h = IsByte-byte_at xs i h.1

pub AreBytes-set : (xs : List ℕ) (i v : ℕ) → AreBytes xs → IsByte v → AreBytes (set xs i v)
AreBytes-set [] i v h hv = tt
AreBytes-set (x ∷ xs) zero v h hv = (hv, h.1)
AreBytes-set (x ∷ xs) (suc i) v h hv = (h.0, AreBytes-set xs i v h.1 hv)

-- The word at offset `n`, by the bytes of the whole buffer.
pub read_le32-drop :
    (n : ℕ) (xs : List ℕ)
    → read_le32 (drop n xs)
      ≡ byte_at xs n
        + byte_at xs (n + 1) * 2 ^ 8
        + byte_at xs (n + 2) * 2 ^ 16
        + byte_at xs (n + 3) * 2 ^ 24
read_le32-drop n xs = omega (
  arith,
  get_or-drop n xs 0 n 0 (omega arith),
  get_or-drop n xs 1 (n + 1) 0 (omega arith),
  get_or-drop n xs 2 (n + 2) 0 (omega arith),
  get_or-drop n xs 3 (n + 3) 0 (omega arith),
)

-- A write outside the word leaves it.
pub read_le32-set_outside :
    (n : ℕ) (xs : List ℕ) (i v : ℕ)
    → (i < n) ⊎ (n + 4 ≤ i)
    → read_le32 (drop n (set xs i v)) ≡ read_le32 (drop n xs)
read_le32-set_outside n xs i v h = omega (
  arith,
  read_le32-drop n xs,
  read_le32-drop n (set xs i v),
  get_or-set_ne xs {i = i} {j = n} v 0 (λ e. omega arith),
  get_or-set_ne xs {i = i} {j = n + 1} v 0 (λ e. omega arith),
  get_or-set_ne xs {i = i} {j = n + 2} v 0 (λ e. omega arith),
  get_or-set_ne xs {i = i} {j = n + 3} v 0 (λ e. omega arith),
)

word_offset : (n i : ℕ) → n ≤ i → i < n + 4 → (i ≡ n) ⊎ ((i ≡ n + 1) ⊎ ((i ≡ n + 2) ⊎ (i ≡ n + 3)))
word_offset n i lo hi = omega arith

-- Different bytes make different words.
pub read_le32_injective :
    (n : ℕ) (xs ys : List ℕ) (i : ℕ)
    → AreBytes xs
    → AreBytes ys
    → read_le32 (drop n xs) ≡ read_le32 (drop n ys)
    → n ≤ i
    → i < n + 4
    → byte_at xs i ≡ byte_at ys i
read_le32_injective n xs ys i hx hy e lo hi =
    let bytes : (byte_at xs n ≡ byte_at ys n)
        × (byte_at xs (n + 1) ≡ byte_at ys (n + 1))
        × (byte_at xs (n + 2) ≡ byte_at ys (n + 2))
        × (byte_at xs (n + 3) ≡ byte_at ys (n + 3)) =
      omega (
        arith,
        read_le32-drop n xs,
        read_le32-drop n ys,
        IsByte-byte_at xs n hx,
        IsByte-byte_at xs (n + 1) hx,
        IsByte-byte_at xs (n + 2) hx,
        IsByte-byte_at xs (n + 3) hx,
        IsByte-byte_at ys n hy,
        IsByte-byte_at ys (n + 1) hy,
        IsByte-byte_at ys (n + 2) hy,
        IsByte-byte_at ys (n + 3) hy,
      ) in
    elim (word_offset n i lo hi) [
      | inl p ↦ rw p bytes.0
      | inr (inl p) ↦ rw p bytes.1
      | inr (inr (inl p)) ↦ rw p bytes.2
      | inr (inr (inr p)) ↦ rw p bytes.3
    ]

pub AreBytes-drop : (n : ℕ) (xs : List ℕ) → AreBytes xs → AreBytes (drop n xs)
AreBytes-drop zero xs h = h
AreBytes-drop (suc n) [] h = tt
AreBytes-drop (suc n) (x ∷ xs) h = AreBytes-drop n xs h.1
