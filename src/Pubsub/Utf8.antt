-- ===== src/Pubsub/Utf8.antt =====
-- Text in UTF-8: what the check of a topic accepts is text.
use robusto.Prelude.{
  ℕ, zero, suc, ◌+◌, ◌-◌, ◌*◌, ◌/◌, ◌%◌, ◌≤◌, ◌<◌, ◌≡◌, ◌≢◌, ◌⊎◌, inl, inr, refl, ap, sym, subst,
  Bool-cases, ◌∙◌, Bool, true, ◌&&◌, some, List, [], ◌∷◌, ◌++◌, arith, ltb, leb, if◌then◌else◌, All,
  AreBytes, IsByte, agree, agree_at, Option-cases,
}
use robusto.Pubsub.{continuation, after_two, after_three, after_four, after_first, scan}

-- A Unicode scalar value that is neither below U+0020 nor U+007F. The control characters from U+0080
-- to U+009F are among these.
abbrev pub IsText : ℕ → Type 0
IsText point =
    (0x20 ≤ point) × (point ≢ 0x7F) × (point ≤ 0x10FFFF) × ((point < 0xD800) ⊎ (0xDFFF < point))

-- The bytes of a scalar value in UTF-8.
abbrev pub utf8_bytes : ℕ → List ℕ
utf8_bytes point =
    if ltb point 0x80
    then point ∷ []
    else if ltb point 0x800
    then (0xC0 + point / 64) ∷ (0x80 + point % 64) ∷ []
    else if ltb point 0x10000
    then (0xE0 + point / 4096) ∷ (0x80 + point / 64 % 64) ∷ (0x80 + point % 64) ∷ []
    else (0xF0 + point / 262144)
      ∷ (0x80 + point / 4096 % 64)
      ∷ (0x80 + point / 64 % 64)
      ∷ (0x80 + point % 64)
      ∷ []

unfoldable pub utf8 : List ℕ → List ℕ
utf8 [] = []
utf8 (point ∷ points) = utf8_bytes point ++ utf8 points

abbrev pub in_range : ℕ → Bool
in_range byte = leb 0x80 byte && ltb byte 0xC0

continuations : agree continuation in_range 256 ≡ true
unfolding agree continuation
continuations = refl

pub continuation_range : (byte : ℕ) → IsByte byte → continuation byte ≡ in_range byte
continuation_range byte h = agree_at continuation in_range 256 byte h continuations

-- The bytes, from the bits that they carry.
one_bytes : (point : ℕ) → point < 0x80 → utf8_bytes point ≡ point ∷ []
one_bytes point h = ground arith

two_bytes :
    (u v : ℕ) → 2 ≤ u → u < 32 → v < 64 → utf8_bytes (u * 64 + v) ≡ (0xC0 + u) ∷ (0x80 + v) ∷ []
two_bytes u v h1 h2 h3 = ground arith

three_bytes :
    (u v w : ℕ)
    → u < 16
    → v < 64
    → w < 64
    → 0x800 ≤ u * 4096 + v * 64 + w
    → utf8_bytes (u * 4096 + v * 64 + w) ≡ (0xE0 + u) ∷ (0x80 + v) ∷ (0x80 + w) ∷ []
three_bytes u v w h1 h2 h3 h4 = ground arith

four_bytes :
    (u v w x : ℕ)
    → u < 8
    → v < 64
    → w < 64
    → x < 64
    → 0x10000 ≤ u * 262144 + v * 4096 + w * 64 + x
    → utf8_bytes (u * 262144 + v * 4096 + w * 64 + x)
      ≡ (0xF0 + u) ∷ (0x80 + v) ∷ (0x80 + w) ∷ (0x80 + x) ∷ []
four_bytes u v w x h1 h2 h3 h4 h5 = ground arith

-- The start of a list is one character, and the rest is behind it.
abbrev StartsWithText : List ℕ → List ℕ → Type 0
StartsWithText bytes behind = (point : ℕ) × IsText point × (bytes ≡ utf8_bytes point ++ behind)

module _ (first : ℕ) where
  two_text :
      (rest behind : List ℕ)
      → 0xC2 ≤ first
      → first ≤ 0xDF
      → AreBytes rest
      → after_two rest ≡ some behind
      → StartsWithText (first ∷ rest) behind
  unfolding after_two
  two_text [] behind low high h e = cc
  two_text (b ∷ rest) behind low high h e =
      let rb : continuation b ≡ in_range b = continuation_range b h.0 in
      (
        (first - 0xC0) * 64 + (b - 0x80),
        (ground arith, ground arith, ground arith, ground arith),
        ground (arith, two_bytes (first - 0xC0) (b - 0x80)),
      )

  three_text :
      (rest behind : List ℕ)
      → 0xE0 ≤ first
      → first ≤ 0xEF
      → AreBytes rest
      → after_three first rest ≡ some behind
      → StartsWithText (first ∷ rest) behind
  unfolding after_three
  three_text [] behind low high h e = cc
  three_text (b ∷ []) behind low high h e = cc
  three_text (b ∷ c ∷ rest) behind low high h e =
      let rb : continuation b ≡ in_range b = continuation_range b h.0 in
      let rc : continuation c ≡ in_range c = continuation_range c h.1.0 in
      (
        (first - 0xE0) * 4096 + (b - 0x80) * 64 + (c - 0x80),
        (ground arith, ground arith, ground arith, ground arith),
        ground (arith, three_bytes (first - 0xE0) (b - 0x80) (c - 0x80)),
      )

  four_text :
      (rest behind : List ℕ)
      → 0xF0 ≤ first
      → first ≤ 0xF4
      → AreBytes rest
      → after_four first rest ≡ some behind
      → StartsWithText (first ∷ rest) behind
  unfolding after_four
  four_text [] behind low high h e = cc
  four_text (b ∷ []) behind low high h e = cc
  four_text (b ∷ c ∷ []) behind low high h e = cc
  four_text (b ∷ c ∷ d ∷ rest) behind low high h e =
      let rb : continuation b ≡ in_range b = continuation_range b h.0 in
      let rc : continuation c ≡ in_range c = continuation_range c h.1.0 in
      let rd : continuation d ≡ in_range d = continuation_range d h.1.1.0 in
      (
        (first - 0xF0) * 262144 + (b - 0x80) * 4096 + (c - 0x80) * 64 + (d - 0x80),
        (ground arith, ground arith, ground arith, ground arith),
        ground (arith, four_bytes (first - 0xF0) (b - 0x80) (c - 0x80) (d - 0x80)),
      )

first_text :
    (first : ℕ) (rest behind : List ℕ)
    → AreBytes rest
    → after_first first rest ≡ some behind
    → StartsWithText (first ∷ rest) behind
unfolding after_first
first_text first rest behind h e = elim (Bool-cases (leb first 0x7F)) [
  | inl one ↦ (
    first,
    (ground arith, ground arith, ground arith, ground arith),
    ground (arith, one_bytes first),
  )
  | inr more ↦ elim (Bool-cases (leb 0xC2 first && leb first 0xDF)) [
    | inl two ↦ two_text first rest behind (ground arith) (ground arith) h (ground arith)
    | inr not_two ↦ elim (Bool-cases (leb 0xE0 first && leb first 0xEF)) [
      | inl three ↦ three_text first rest behind (ground arith) (ground arith) h (ground arith)
      | inr not_three ↦ elim (Bool-cases (leb 0xF0 first && leb first 0xF4)) [
        | inl four ↦ four_text first rest behind (ground arith) (ground arith) h (ground arith)
        | inr none_of ↦ absurd (ground arith)
      ]
    ]
  ]
]

AreBytes-behind : (xs ys : List ℕ) → AreBytes (xs ++ ys) → AreBytes ys
AreBytes-behind [] ys h = h
AreBytes-behind (x ∷ xs) ys h = AreBytes-behind xs ys h.1

-- What the loop accepts is text.
pub scan_sound :
    (rounds : ℕ) (bytes : List ℕ)
    → AreBytes bytes
    → scan rounds bytes ≡ true
    → (points : List ℕ) × All IsText points × (utf8 points ≡ bytes)
unfolding scan utf8
scan_sound rounds [] h e = ([], tt, refl)
scan_sound zero (first ∷ rest) h e = cc
scan_sound (suc rounds) (first ∷ rest) h e = elim (Option-cases (after_first first rest)) [
  | inl n ↦ absurd (ground arith)
  | inr (behind, s) ↦
      let (point, text, split) = first_text first rest behind h.1 s in
      let (points, texts, joined) =
        scan_sound rounds behind
          (AreBytes-behind (utf8_bytes point) behind (subst AreBytes split h)) (ground arith) in
      (point ∷ points, (text, texts), ap (λ (r : List ℕ). utf8_bytes point ++ r) joined ∙ sym split)
]
