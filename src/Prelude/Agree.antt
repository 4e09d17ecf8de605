-- ===== src/Prelude/Agree.antt =====
-- Two tests on numbers, compared at every number below a bound by evaluation.
use Prim.Native.Nat.{ℕ, zero, suc, ◌<◌}
use mathlib.Core.Path.{◌≡◌}
use mathlib.Core.Bool.{Bool, true, false, ◌&&◌}
use native.Mathlib.Omega.{arith}

-- Both tests give the same answer.
abbrev same : Bool → Bool → Bool
same true b = b
same false true = false
same false false = true

same_eq : (a b : Bool) → same a b ≡ true → a ≡ b
same_eq true b h = ground arith
same_eq false b h = ground arith

-- They do at every number below the bound.
unfoldable pub agree : (f g : ℕ → Bool) → ℕ → Bool
agree f g zero = true
agree f g (suc bound) = same (f bound) (g bound) && agree f g bound

pub agree_at : (f g : ℕ → Bool) (bound x : ℕ) → x < bound → agree f g bound ≡ true → f x ≡ g x
unfolding agree
agree_at f g zero x below h = absurd (omega arith)
agree_at f g (suc bound) x below h =
    ground (arith, same_eq (f bound) (g bound), agree_at f g bound x)
