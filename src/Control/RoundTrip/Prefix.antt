-- ===== src/Control/RoundTrip/Prefix.antt =====
-- The prefix of a response.
use robusto.Prelude.{
  ℕ, ◌+◌, ◌≤◌, ◌<◌, ◌^◌, ◌≡◌, refl, some, List, ◌++◌, arith, drop, AreBytes, AreBytes-drop, ◌↔◌,
  bit_and_upper, IsByte-byte_at, bit_and, ◌⊎◌, inl, inr,
}
use robusto.Protocol.{ok}
use robusto.Protocol.Messages.{ResponsePrefix, FitsResponsePrefix}
use robusto.Control.{
  returns, prefix_size, prefix_bytes, read_prefix, check_prefix, encode_response_prefix,
  decode_response_prefix,
}
use robusto.Control.RoundTrip.{Recovers}

-- The prefixes that the decoder admits in a message of `size` bytes.
pub record IsAdmitted (size : ℕ) (p : ResponsePrefix) : Type 0 where
  pub flags : p.result_flags < 2
  pub detail : p.detail_length ≤ 128
  pub reserved : p.reserved ≡ 0
  pub room : prefix_size + p.detail_length ≤ size

pub read_prefix-bytes :
    (p : ResponsePrefix) (rest : List ℕ)
    → FitsResponsePrefix p
    → read_prefix (prefix_bytes p ++ rest) ≡ p
read_prefix-bytes p rest fits = ground arith

low_flags : (flags : ℕ) → flags < 2 → bit_and flags 0xFFFF_FFFE ≡ 0
low_flags flags h = elim (split flags h) [ inl e ↦ rw e | inr e ↦ rw e ]
  where
    split : (n : ℕ) → n < 2 → (n ≡ 0) ⊎ (n ≡ 1)
    split n h = omega arith

check_prefix-admitted :
    (size : ℕ) (p : ResponsePrefix) → IsAdmitted size p → check_prefix size p ≡ ok
unfolding check_prefix
check_prefix-admitted size p a = ground (arith, low_flags p.result_flags a.flags)

check_prefix-ok :
    (size : ℕ) (p : ResponsePrefix)
    → p.result_flags < 2 ^ 32
    → check_prefix size p ≡ ok
    → IsAdmitted size p
unfolding check_prefix
check_prefix-ok size p fits e = ground (arith, bit_and_upper p.result_flags fits)

pub decode_response_prefix_admitted :
    (p : ResponsePrefix) (rest : List ℕ) (size : ℕ) (old : ResponsePrefix)
    → FitsResponsePrefix p
    → IsAdmitted size p
    → decode_response_prefix (some (prefix_bytes p ++ rest)) size (some old) ≡ returns (ok, some p)
unfolding decode_response_prefix
decode_response_prefix_admitted p rest size old fits admitted =
    ground
      (arith, admitted.room, read_prefix-bytes p rest fits, check_prefix-admitted size p admitted)

-- An admitted prefix comes back from `robusto_proxy_encode_response_prefix` through
-- `robusto_proxy_decode_response_prefix`.
pub decode_response_prefix-encode :
    (p : ResponsePrefix) (buffer : List ℕ) (buffer_size : ℕ) (old : ResponsePrefix) (received : ℕ)
    → FitsResponsePrefix p
    → IsAdmitted received p
    → prefix_size ≤ buffer_size
    → Recovers encode_response_prefix decode_response_prefix prefix_size p buffer buffer_size old
        received
unfolding encode_response_prefix decode_response_prefix
decode_response_prefix-encode p buffer buffer_size old received fits admitted room = (
  prefix_bytes p ++ drop prefix_size buffer,
  ground arith,
  ground (
    arith,
    admitted.room,
    read_prefix-bytes p (drop prefix_size buffer) fits,
    check_prefix-admitted received p admitted,
  ),
  refl,
)

-- `robusto_proxy_decode_response_prefix` accepts exactly the buffers that hold a whole prefix, with
-- no flag but RETRYABLE, at most 128 bytes of detail, all of them inside the buffer, and the
-- reserved field 0.
pub decode_response_prefix_iff :
    (buffer : List ℕ) (size : ℕ) (old : ResponsePrefix)
    → AreBytes buffer
    → (decode_response_prefix (some buffer) size (some old)
        ≡ returns (ok, some (read_prefix buffer)))
      ↔ IsAdmitted size (read_prefix buffer)
unfolding decode_response_prefix
decode_response_prefix_iff buffer size old bytes =
    let flags : (read_prefix buffer).result_flags < 2 ^ 32 = omega (
      arith,
      IsByte-byte_at (drop 2 buffer) 0 (AreBytes-drop 2 buffer bytes),
      IsByte-byte_at (drop 2 buffer) 1 (AreBytes-drop 2 buffer bytes),
    ) in
    (
      (λ e. ground (arith, check_prefix-ok size (read_prefix buffer) flags)),
      (λ a. ground (arith, a.room, check_prefix-admitted size (read_prefix buffer) a)),
    )
