-- ===== src/Prelude/Xor.antt =====
-- Laws of `bit_xor`, and of `bit_and` with one bit, at variables.
use Prim.Native.Nat.{ℕ, zero, suc, ◌+◌, ◌-◌, ◌*◌, ◌/◌, ◌%◌, ◌^◌, ◌≤◌, ◌<◌, min, digits, differ}
use Prim.Native.Nat.{bit_xor, bit_xor-bitwise, bit_and, bit_and-bitwise}
use mathlib.Core.Path.{◌≡◌, ◌∙◌, refl, ap}
use native.Mathlib.Omega.{arith}
use native.Mathlib.Nat.{pow-suc, one-le-pow}
use native.Mathlib.Decide.{dec_lt}

-- The digit count of the native recursion does not matter once it covers the first number.
module _ (rest : ℕ → ℕ) (digit : ℕ → ℕ → ℕ) where
  any_count : (a b i j : ℕ) → a ≤ i → a ≤ j → digits rest digit i a b ≡ digits rest digit j a b
  any_count zero b zero zero hi hj = refl
  any_count zero b zero (suc j) hi hj = refl
  any_count zero b (suc i) zero hi hj = refl
  any_count zero b (suc i) (suc j) hi hj = refl
  any_count (suc a) b zero j hi hj = absurd (omega arith)
  any_count (suc a) b (suc i) zero hi hj = absurd (omega arith)
  any_count (suc a) b (suc i) (suc j) hi hj =
      rw (any_count (suc a / 2) (b / 2) i j (omega arith) (omega arith))

differ_bits : (x y : ℕ) → x < 2 → y < 2 → differ x y ≡ (x + y) % 2
differ_bits zero y hx hy = omega arith
differ_bits (suc zero) zero hx hy = refl
differ_bits (suc zero) (suc zero) hx hy = refl
differ_bits (suc zero) (suc (suc y)) hx hy = absurd (omega arith)
differ_bits (suc (suc x)) y hx hy = absurd (omega arith)

pub bit_xor_step : (a b : ℕ) → bit_xor a b ≡ bit_xor (a / 2) (b / 2) * 2 + (a + b) % 2
bit_xor_step zero b = simp bit_xor-bitwise (omega arith)
bit_xor_step (suc a) b = omega (
  arith,
  bit_xor-bitwise (suc a) b,
  bit_xor-bitwise (suc a / 2) (b / 2),
  any_count (λ y. y) differ (suc a / 2) (b / 2) a (suc a / 2) (omega arith) (omega arith),
  differ_bits (suc a % 2) (b % 2) (omega arith) (omega arith),
)

-- The same law for `bit_and`, with the lowest digit in front.
bit_and_split : (x y : ℕ) → bit_and x y ≡ min (x % 2) (y % 2) + 2 * bit_and (x / 2) (y / 2)
bit_and_split zero y = simp bit_and-bitwise (omega arith)
bit_and_split (suc x) y =
    let whole : bit_and (suc x) y ≡ digits (λ d. 0) min (suc x) (suc x) y =
      bit_and-bitwise (suc x) y in
    let half : bit_and (suc x / 2) (y / 2) ≡ digits (λ d. 0) min x (suc x / 2) (y / 2) =
      bit_and-bitwise (suc x / 2) (y / 2)
      ∙ any_count (λ d. 0) min (suc x / 2) (y / 2) (suc x / 2) x (omega arith) (omega arith) in
    omega (arith, whole, half)

no_bits : (bound x : ℕ) → x < bound → bit_and x 0 ≡ 0
no_bits zero x h = absurd (omega arith)
no_bits (suc bound) x h = elim (dec_lt 0 x) [
  | yes some_bits ↦ omega (arith, no_bits bound (x / 2) (omega arith), bit_and_split x 0)
  | no none_left ↦ let empty : x ≡ 0 = omega arith in rw empty refl
]

and_le_below : (bound x y : ℕ) → y < bound → bit_and x y ≤ y
and_le_below zero x y h = absurd (omega arith)
and_le_below (suc bound) x y h = elim (dec_lt 0 y) [
  | yes some_bits ↦
      omega (arith, and_le_below bound (x / 2) (y / 2) (omega arith), bit_and_split x y)
  | no none_left ↦
      let empty : y ≡ 0 = omega arith in rw empty (omega (arith, no_bits (suc x) x (omega arith)))
]

-- A mask bounds what it leaves.
pub bit_and_le : (x y : ℕ) → bit_and x y ≤ y
bit_and_le x y = and_le_below (suc y) x y (omega arith)

-- Testing the lowest bit.
pub bit_and-one : (x : ℕ) → bit_and x 1 ≡ x % 2
bit_and-one x =
    let rest : bit_and (x / 2) 0 ≡ 0 = no_bits (suc x) (x / 2) (omega arith) in
    omega (arith, rest, bit_and_split x 1)

xor_undo_below : (n a b : ℕ) → a ≤ n → b ≤ n → bit_xor (bit_xor a b) b ≡ a
xor_undo_below zero zero zero ha hb = refl
xor_undo_below zero (suc a) b ha hb = absurd (omega arith)
xor_undo_below zero zero (suc b) ha hb = absurd (omega arith)
xor_undo_below (suc n) a b ha hb =
    let half : bit_xor a b / 2 ≡ bit_xor (a / 2) (b / 2) = omega (arith, bit_xor_step a b) in
    let undone : bit_xor (bit_xor a b / 2) (b / 2) ≡ a / 2 =
      rw half (xor_undo_below n (a / 2) (b / 2) (omega arith) (omega arith)) in
    omega (arith, bit_xor_step a b, bit_xor_step (bit_xor a b) b, undone)

-- Applying the same mask twice gives the number back, from either side.
pub bit_xor_undo : (a b : ℕ) → bit_xor (bit_xor a b) b ≡ a
bit_xor_undo a b = xor_undo_below (a + b) a b (omega arith) (omega arith)

xor_undo_left_below : (n a b : ℕ) → a ≤ n → b ≤ n → bit_xor a (bit_xor a b) ≡ b
xor_undo_left_below zero zero zero ha hb = refl
xor_undo_left_below zero (suc a) b ha hb = absurd (omega arith)
xor_undo_left_below zero zero (suc b) ha hb = absurd (omega arith)
xor_undo_left_below (suc n) a b ha hb =
    let half : bit_xor a b / 2 ≡ bit_xor (a / 2) (b / 2) = omega (arith, bit_xor_step a b) in
    let undone : bit_xor (a / 2) (bit_xor a b / 2) ≡ b / 2 =
      rw half (xor_undo_left_below n (a / 2) (b / 2) (omega arith) (omega arith)) in
    omega (arith, bit_xor_step a b, bit_xor_step a (bit_xor a b), undone)

pub bit_xor_undo_left : (a b : ℕ) → bit_xor a (bit_xor a b) ≡ b
bit_xor_undo_left a b = xor_undo_left_below (a + b) a b (omega arith) (omega arith)

-- No bit appears above those of the arguments.
pub bit_xor-lt : (k a b : ℕ) → a < 2 ^ k → b < 2 ^ k → bit_xor a b < 2 ^ k
bit_xor-lt zero a b ha hb = omega (arith, bit_xor_zeros a b (omega arith) (omega arith))
  where
    bit_xor_zeros : (a b : ℕ) → a ≡ 0 → b ≡ 0 → bit_xor a b ≡ 0
    bit_xor_zeros a b p q = rw (p, q)
bit_xor-lt (suc k) a b ha hb = omega (
  arith,
  pow-suc 2 k,
  bit_xor_step a b,
  bit_xor-lt k (a / 2) (b / 2) (omega (arith, pow-suc 2 k)) (omega (arith, pow-suc 2 k)),
)

-- A bit of the mask above all bits of the number stays set.
pub le-bit_xor : (k a b : ℕ) → a < 2 ^ k → 2 ^ k ≤ b → 2 ^ k ≤ bit_xor a b
le-bit_xor k a b ha hb = elim (dec_lt (bit_xor a b) (2 ^ k)) [
  | yes low ↦ absurd (omega (arith, bit_xor_undo_left a b, bit_xor-lt k a (bit_xor a b) ha low))
  | no high ↦ omega arith
]

mask_half : (k a : ℕ) → bit_and (a / 2) ((2 ^ suc k - 1) / 2) ≡ bit_and (a / 2) (2 ^ k - 1)
mask_half k a = ap (bit_and (a / 2)) (omega (arith, pow-suc 2 k, one-le-pow k 2))

-- A mask of `k` ones keeps a number of at most `k` bits.
bit_and_ones : (k a : ℕ) → a < 2 ^ k → bit_and a (2 ^ k - 1) ≡ a
bit_and_ones zero a h = omega (arith, no_bits (suc a) a (omega arith))
bit_and_ones (suc k) a h = omega (
  arith,
  pow-suc 2 k,
  one-le-pow k 2,
  bit_and_split a (2 ^ suc k - 1),
  mask_half k a,
  bit_and_ones k (a / 2) (omega (arith, pow-suc 2 k)),
)

-- A 32-bit number with no bit set above the lowest is 0 or 1.
pub bit_and_upper : (a : ℕ) → a < 2 ^ 32 → bit_and a 0xFFFF_FFFE ≡ 0 → a < 2
bit_and_upper a h e =
    omega (arith, bit_and_split a 0xFFFF_FFFE, bit_and_ones 31 (a / 2) (omega arith))
