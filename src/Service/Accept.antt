-- ===== src/Service/Accept.antt =====
-- A response frame, as the client judges it.
use robusto.Prelude.{
  ℕ, zero, suc, ◌%◌, ◌≤◌, ◌<◌, ◌^◌, ◌≡◌, refl, ap, ◌∙◌, ◌&&◌, none, some, List, [], ◌∷◌, ◌++◌,
  arith, get_or, take, drop, length, if◌then◌else◌,
}
use robusto.Protocol.{
  ok, FrameHeader, FitsHeader, header_size, max_payload, flag_is_valid, frame_size_bytes,
}
use robusto.Protocol.Flag
use robusto.Frame.{header_init, validate_buffer, read_header}
use robusto.Frame.Validate.{IsValidHeader}
use robusto.Control.{returns, prefix_size, prefix_bytes, decode_response_prefix}
use robusto.Control.RoundTrip.Prefix.{decode_response_prefix_admitted}
use robusto.Client.Judge.{Call, valid_answer, blank_prefix, is_result_ok, is_response_to, decoded}
use robusto.Service.{status_prefix}
use robusto.Service.Frame.{Transaction}

-- A list that begins like another one.
starts :
    (front ys xs : List ℕ) (n : ℕ)
    → take n xs ≡ take n (front ++ ys)
    → length front ≤ n
    → xs ≡ front ++ drop (length front) xs
starts [] ys xs n e h = refl
starts (f ∷ front) ys xs zero e h = absurd (omega arith)
starts (f ∷ front) ys [] (suc n) e h = absurd (omega (arith, ap length e))
starts (f ∷ front) ys (x ∷ xs) (suc n) e h =
    let head : x ≡ f = ap (λ (l : List ℕ). get_or l 0 0) e in
    rw head (ap (◌∷◌ f) (starts front ys xs n (ap (drop 1) e) (omega arith)))

-- The header of the response is valid, and fits.
module _ (domain opcode id sequence used : ℕ) where
  abbrev pub response_header : FrameHeader
  response_header = header_init Flag.response domain opcode id sequence (used % 2 ^ 32)

  pub response_header_valid : used ≤ max_payload → IsValidHeader response_header
  unfolding header_init
  response_header_valid small = record {
    magic_0 = refl;
    magic_1 = refl;
    version = refl;
    length = refl;
    flags = unfold flag_is_valid in refl;
    reserved = refl;
    payload = omega arith;
  }

  pub response_header_fits :
      domain < 2 ^ 8 → opcode < 2 ^ 8 → id < 2 ^ 32 → sequence < 2 ^ 32 → FitsHeader response_header
  unfolding header_init
  response_header_fits d o i q = record {
    magic_0 = omega arith;
    magic_1 = omega arith;
    protocol_major = omega arith;
    header_length = omega arith;
    flags = omega arith;
    domain = d;
    opcode = o;
    reserved = omega arith;
    correlation_id = i;
    sequence = q;
    payload_length = omega arith;
  }

-- A response frame that the client accepts for its call: it reads the status that is sent.
abbrev pub IsMatched : {A : Type 0} → Call → ℕ → Transaction A → Type 0
IsMatched call id t =
    (out : List ℕ) × (size : ℕ) × (status : ℕ) × (t.result ≡ ok)
    × (t.frame ≡ some out)
    × (t.size ≡ some size)
    × (valid_answer call id out size ≡ some (status_prefix status))

-- The payload that starts with a prefix decodes to it.
pub decode_status :
    (status : ℕ) (payload rest : List ℕ) (used : ℕ)
    → status < 2 ^ 16
    → prefix_size ≤ used
    → take used payload ≡ take used (prefix_bytes (status_prefix status) ++ rest)
    → decode_response_prefix (some payload) used (some blank_prefix)
      ≡ returns (ok, some (status_prefix status))
decode_status status payload rest used width lower e =
    rw (starts (prefix_bytes (status_prefix status)) rest payload used e lower) (
      decode_response_prefix_admitted (status_prefix status) _ used blank_prefix
        (record {
          status = width;
          result_flags = omega arith;
          retry_after_ms = omega arith;
          detail_length = omega arith;
          reserved = omega arith;
        })
        (record { flags = omega arith; detail = omega arith; reserved = refl; room = omega arith }))

-- A frame that is valid, and whose header and prefix are known, is accepted.
pub accept :
    (call : Call) (h : FrameHeader) (out : List ℕ) (status : ℕ)
    → (validate_buffer (some out) (frame_size_bytes h.payload_length) none).0 ≡ ok
    → read_header out ≡ h
    → h.flags ≡ Flag.response
    → h.domain ≡ call.domain
    → h.opcode ≡ call.opcode
    → decode_response_prefix (some (drop header_size out)) h.payload_length (some blank_prefix)
      ≡ returns (ok, some (status_prefix status))
    → valid_answer call h.correlation_id out (frame_size_bytes h.payload_length)
      ≡ some (status_prefix status)
unfolding valid_answer
accept call h out status valid same flags domain opcode prefix =
    let size : ℕ = frame_size_bytes h.payload_length in
    ap
      (λ (x : FrameHeader).
        if is_result_ok (validate_buffer (some out) size none).0
          && is_response_to call h.correlation_id x size
        then decoded (
            decode_response_prefix (some (drop header_size out)) x.payload_length
              (some blank_prefix))
        else none)
      same
    ∙ rw (valid, prefix) (ground (arith, flags, domain, opcode))
