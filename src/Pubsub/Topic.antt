-- ===== src/Pubsub/Topic.antt =====
-- A topic is valid exactly if it is text in UTF-8.
use robusto.Prelude.{
  ℕ, zero, suc, ◌+◌, ◌*◌, ◌/◌, ◌%◌, ◌≤◌, ◌<◌, ◌≡◌, ◌↔◌, ◌⊎◌, inl, inr, refl, ap, subst, Bool-cases,
  true, some, List, [], ◌∷◌, ◌++◌, arith, ltb, take, length, length-take, All, AreBytes,
}
use robusto.Crc32.Detects.{AreBytes-take}
use robusto.Pubsub.{
  after_two, after_three, after_four, after_first, scan, topic_is_valid, max_topic,
}
use robusto.Pubsub.Utf8.{IsText, utf8_bytes, utf8, continuation_range, scan_sound}

module _ (behind : List ℕ) where
  two_accepted :
      (u v : ℕ)
      → 2 ≤ u
      → u < 32
      → v < 64
      → after_first (0xC0 + u) ((0x80 + v) ∷ behind) ≡ some behind
  unfolding after_first after_two
  two_accepted u v h1 h2 h3 = ground (arith, continuation_range (0x80 + v))

  three_accepted :
      (u v w : ℕ)
      → u < 16
      → v < 64
      → w < 64
      → 0x800 ≤ u * 4096 + v * 64 + w
      → (u * 4096 + v * 64 + w < 0xD800) ⊎ (0xDFFF < u * 4096 + v * 64 + w)
      → after_first (0xE0 + u) ((0x80 + v) ∷ (0x80 + w) ∷ behind) ≡ some behind
  unfolding after_first after_three
  three_accepted u v w h1 h2 h3 h4 h5 =
      ground (arith, continuation_range (0x80 + v), continuation_range (0x80 + w))

  four_accepted :
      (u v w x : ℕ)
      → u < 8
      → v < 64
      → w < 64
      → x < 64
      → 0x10000 ≤ u * 262144 + v * 4096 + w * 64 + x
      → u * 262144 + v * 4096 + w * 64 + x ≤ 0x10FFFF
      → after_first (0xF0 + u) ((0x80 + v) ∷ (0x80 + w) ∷ (0x80 + x) ∷ behind) ≡ some behind
  unfolding after_first after_four
  four_accepted u v w x h1 h2 h3 h4 h5 h6 = ground (
    arith,
    continuation_range (0x80 + v),
    continuation_range (0x80 + w),
    continuation_range (0x80 + x),
  )

-- The loop takes the bytes of a character in one round.
abbrev IsTaken : ℕ → List ℕ → Type 0
IsTaken point behind =
    (first : ℕ) × (rest : List ℕ) × (utf8_bytes point ++ behind ≡ first ∷ rest)
    × (after_first first rest ≡ some behind)
    × (length behind ≤ length rest)

IsTaken-IsText : (point : ℕ) (behind : List ℕ) → IsText point → IsTaken point behind
IsTaken-IsText point behind (low, del, high, surrogate) = elim (Bool-cases (ltb point 0x80)) [
  | inl one ↦ (point, behind, ground arith, unfold after_first in ground arith, omega arith)
  | inr more ↦ elim (Bool-cases (ltb point 0x800)) [
    | inl two ↦
        let u : ℕ = point / 64 in
        let v : ℕ = point % 64 in
        (
          0xC0 + u,
          (0x80 + v) ∷ behind,
          ground arith,
          two_accepted behind u v (ground arith) (ground arith) (ground arith),
          omega arith,
        )
    | inr not_two ↦ elim (Bool-cases (ltb point 0x10000)) [
      | inl three ↦
          let u : ℕ = point / 4096 in
          let v : ℕ = point / 64 % 64 in
          let w : ℕ = point % 64 in
          let same : u * 4096 + v * 64 + w ≡ point = omega arith in
          (
            0xE0 + u,
            (0x80 + v) ∷ (0x80 + w) ∷ behind,
            ground arith,
            three_accepted behind u v w (ground arith) (ground arith) (ground arith) (ground arith)
                (rw same surrogate),
            omega arith,
          )
      | inr not_three ↦
          let u : ℕ = point / 262144 in
          let v : ℕ = point / 4096 % 64 in
          let w : ℕ = point / 64 % 64 in
          let x : ℕ = point % 64 in
          let same : u * 262144 + v * 4096 + w * 64 + x ≡ point = omega arith in
          (
            0xF0 + u,
            (0x80 + v) ∷ (0x80 + w) ∷ (0x80 + x) ∷ behind,
            ground arith,
            four_accepted behind u v w x (ground arith) (ground arith) (ground arith) (ground arith)
                (ground arith) (ground arith),
            omega arith,
          )
    ]
  ]
]

scan_step :
    (rounds first : ℕ) (rest behind : List ℕ)
    → after_first first rest ≡ some behind
    → scan rounds behind ≡ true
    → scan (suc rounds) (first ∷ rest) ≡ true
unfolding scan
scan_step rounds first rest behind s e = ground arith

-- Text is accepted within as many rounds as it has bytes.
scan_complete :
    (points : List ℕ) (rounds : ℕ)
    → All IsText points
    → length (utf8 points) ≤ rounds
    → scan rounds (utf8 points) ≡ true
unfolding utf8
scan_complete [] rounds texts enough = unfold scan in refl
scan_complete (point ∷ points) zero texts enough =
    let (first, rest, split, taken, shorter) = IsTaken-IsText point (utf8 points) texts.0 in
    absurd (omega (arith, ap length split))
scan_complete (point ∷ points) (suc rounds) texts enough =
    let (first, rest, split, taken, shorter) = IsTaken-IsText point (utf8 points) texts.0 in
    rw split (
      scan_step rounds first rest (utf8 points) taken
        (scan_complete points rounds texts.1 (omega (arith, ap length split))))

-- Within its length, at most that of the bytes, a topic is valid exactly if it is not empty, has at
-- most 255 bytes, and those are the UTF-8 encoding of a list of code points: no surrogate, none above
-- U+10FFFF, none below U+0020, not U+007F, and none encoded in more bytes than it needs. The control
-- characters from U+0080 to U+009F are accepted.
pub topic_is_valid_iff :
    (topic : List ℕ) (size : ℕ)
    → AreBytes topic
    → size ≤ length topic
    → (topic_is_valid (some topic) size ≡ true) ↔ (
        (1 ≤ size)
        × (size ≤ max_topic)
        × ((points : List ℕ) × All IsText points × (utf8 points ≡ take size topic)))
unfolding topic_is_valid
topic_is_valid_iff topic size bytes inside = (
  (λ e. (
    ground arith,
    ground arith,
    scan_sound size (take size topic) (AreBytes-take size topic bytes) (ground arith),
  )),
  (λ (some_bytes, few, (points, texts, joined)).
      let accepted : scan size (take size topic) ≡ true =
        subst (λ (l : List ℕ). scan size l ≡ true) joined
          (scan_complete points size texts
            (omega (arith, ap length joined, length-take size topic))) in
      ground arith),
)
