-- ===== src/Pubsub/Pointed.antt =====
-- The bytes behind a pointer: what a codec copies from it, and reads back.
use robusto.Prelude.{
  ℕ, ◌≤◌, ◌≡◌, sym, true, Option, none, some, List, ◌++◌, arith, take, drop, length, length-take,
  take-append, drop-append,
}
use robusto.Pubsub.{pointed, topic_is_valid}

-- The pointer leads to at least `size` bytes; only for the size 0 may it be NULL.
abbrev pub Holds : ℕ → Option (List ℕ) → Type 0
Holds size none = size ≡ 0
Holds size (some bytes) = size ≤ length bytes

pub length-pointed :
    (size : ℕ) (p : Option (List ℕ)) → Holds size p → length (pointed size p) ≡ size
length-pointed size none h = omega arith
length-pointed size (some bytes) h = omega (arith, length-take size bytes)

module _ (size : ℕ) (p : Option (List ℕ)) (holds : Holds size p) (rest : List ℕ) where
  pub take-pointed : take size (pointed size p ++ rest) ≡ pointed size p
  take-pointed = take-append (pointed size p) rest size (sym (length-pointed size p holds))

  pub drop-pointed : drop size (pointed size p ++ rest) ≡ rest
  drop-pointed = drop-append (pointed size p) rest size (sym (length-pointed size p holds))

-- The check of a topic sees no more than its length.
pub topic_is_valid-pointed :
    (size : ℕ) (p : Option (List ℕ)) (bytes : List ℕ)
    → take size bytes ≡ pointed size p
    → topic_is_valid p size ≡ true
    → topic_is_valid (some bytes) size ≡ true
unfolding topic_is_valid
topic_is_valid-pointed size none bytes same valid = cc
topic_is_valid-pointed size (some topic) bytes same valid = rw same valid
