-- ===== src/Client/Replies.antt =====
-- What a reply to an exchange is taken for.
use robusto.Prelude.{
  ℕ, ◌+◌, ◌≤◌, ◌≡◌, ◌≢◌, ◌⊎◌, inl, inr, refl, sym, subst, Bool, true, none, some, List, arith,
  Option-cases, Bool-cases, drop,
}
use robusto.Protocol.{ProxyResult, ok, frame_size_bytes, header_size, crc_size}
use robusto.Protocol.Status
use robusto.Protocol.Flag
use robusto.Protocol.Messages.{ResponsePrefix}
use robusto.RetVal.{RetVal, is_ok}
use robusto.Control.{prefix_size, decode_response_prefix, read_prefix, is_success}
use robusto.Frame.{validate_buffer, read_header}
use robusto.Frame.Validate.{IsValidFrame, validate_buffer-ok}
use robusto.Client.{Acceptance, not_accepted, accepted, Reply, Client, status_to_robusto}
use robusto.Client.Judge.{
  Call, answered, failed, judge, valid_answer, decoded, is_response_to, is_result_ok, blank_prefix,
  is_accepted, is_not_accepted,
}

-- A status of the peer is reported as a success only if it is one.
pub status_to_robusto-ok : (status : ℕ) → status_to_robusto status ≡ RetVal.ok → status ≡ Status.ok
unfolding status_to_robusto
status_to_robusto-ok status e = ground arith

is_result_ok-ok : (r : ProxyResult) → is_result_ok r ≡ true → r ≡ ok
is_result_ok-ok ok e = refl
is_result_ok-ok _ e = cc

-- A frame that answers the request `call` with the id `id`, and its prefix.
pub record IsAnswer (call : Call) (id : ℕ) (frame : List ℕ) (size : ℕ) (p : ResponsePrefix)
    : Type 0 where
  pub intact : IsValidFrame frame size
  pub whole : size ≡ frame_size_bytes (read_header frame).payload_length
  pub flags : (read_header frame).flags ≡ Flag.response
  pub domain : (read_header frame).domain ≡ call.domain
  pub opcode : (read_header frame).opcode ≡ call.opcode
  pub answers : (read_header frame).correlation_id ≡ id
  pub prefix : p ≡ read_prefix (drop header_size frame)
  pub room : prefix_size + p.detail_length ≤ (read_header frame).payload_length

decoded_prefix :
    (buffer : List ℕ) (size : ℕ) (old p : ResponsePrefix)
    → decoded (decode_response_prefix (some buffer) size (some old)) ≡ some p
    → (p ≡ read_prefix buffer) × (prefix_size + p.detail_length ≤ size)
unfolding decode_response_prefix
decoded_prefix buffer size old p e = ground arith

pub valid_answer-IsAnswer :
    (call : Call) (id : ℕ) (frame : List ℕ) (size : ℕ) (p : ResponsePrefix)
    → valid_answer call id frame size ≡ some p
    → IsAnswer call id frame size p
unfolding valid_answer
valid_answer-IsAnswer call id frame size p e =
    elim (Bool-cases (is_result_ok (validate_buffer (some frame) size none).0)) [
      | inl good ↦ elim (Bool-cases (is_response_to call id (read_header frame) size)) [
        | inl match ↦
            let (prefix, room) =
              decoded_prefix (drop header_size frame) (read_header frame).payload_length
                blank_prefix p (ground arith) in
            record {
              intact = validate_buffer-ok frame size none (is_result_ok-ok _ good);
              whole = ground arith;
              flags = ground arith;
              domain = ground arith;
              opcode = ground arith;
              answers = ground arith;
              prefix = prefix;
              room = room;
            }
        | inr miss ↦ absurd (ground arith)
      ]
      | inr bad ↦ absurd (ground arith)
    ]

is_ok-ok : (r : RetVal) → is_ok r ≡ true → r ≡ RetVal.ok
is_ok-ok RetVal.ok e = refl
is_ok-ok _ e = cc

is_not_accepted-not_accepted : (a : Acceptance) → is_not_accepted a ≡ true → a ≡ not_accepted
is_not_accepted-not_accepted not_accepted e = refl
is_not_accepted-not_accepted _ e = cc

is_accepted-accepted : (a : Acceptance) → is_accepted a ≡ true → a ≡ accepted
is_accepted-accepted accepted e = refl
is_accepted-accepted _ e = cc

-- A frame that answers the request with a payload: it lies behind the prefix and its detail, and
-- ends where the CRC of the frame begins.
abbrev pub IsSuccess : Call → ℕ → List ℕ → (offset size : ℕ) → Type 0
IsSuccess call id frame offset size =
    (frame_size : ℕ) × (p : ResponsePrefix) × IsAnswer call id frame frame_size p
    × (p.status ≡ Status.ok)
    × (offset ≡ header_size + prefix_size + p.detail_length)
    × (offset + size + crc_size ≡ frame_size)

module _ (call : Call) (id : ℕ) (c : Client) (reply : Reply) where
  pub judge-response_frame : (judge call id c reply).1.response_frame ≡ reply.frame
  unfolding judge
  judge-response_frame = ground arith

  pub judge-inflight : (judge call id c reply).1.inflight ≡ c.inflight
  unfolding judge
  judge-inflight = ground arith

  pub judge-answered :
      (offset size : ℕ)
      → (judge call id c reply).0 ≡ answered offset size
      → IsSuccess call id (judge call id c reply).1.response_frame offset size
  unfolding judge is_success
  judge-answered offset size e = elim (Option-cases (valid_answer call id reply.frame reply.size)) [
    | inl n ↦ absurd (ground arith)
    | inr (p, v) ↦
        let a : IsAnswer call id reply.frame reply.size p =
          valid_answer-IsAnswer call id reply.frame reply.size p v in
        let room = a.room in
        (
          reply.size,
          p,
          subst (λ (f : List ℕ). IsAnswer call id f reply.size p) (sym judge-response_frame) a,
          ground arith,
          ground arith,
          ground (arith, a.whole),
        )
  ]

  pub judge-failed :
      (r : RetVal) (again : Bool) (after : ℕ)
      → (judge call id c reply).0 ≡ failed r again after
      → r ≢ RetVal.ok
  unfolding judge is_success
  judge-failed r again after e o =
      elim (Option-cases (valid_answer call id reply.frame reply.size)) [
        | inl n ↦ ground arith
        | inr (p, v) ↦ ground (arith, status_to_robusto-ok p.status)
      ]

  -- A mutation that the transport may have accepted is reported as one of unknown outcome, unless
  -- the transport accepted it, reports no error, and a valid answer of the peer says how it went.
  pub judge_mutation :
      call.mutation ≡ true
      → reply.acceptance ≢ not_accepted
      → ((judge call id c reply).0 ≡ failed RetVal.outcome_unknown true 0)
        ⊎ ((reply.result ≡ RetVal.ok)
            × (reply.acceptance ≡ accepted)
            × ((p : ResponsePrefix) × IsAnswer call id reply.frame reply.size p))
  unfolding judge
  judge_mutation m maybe = elim (Bool-cases (is_ok reply.result)) [
    | inr bad ↦ inl (ground (arith, is_not_accepted-not_accepted reply.acceptance))
    | inl good ↦ elim (Bool-cases (is_accepted reply.acceptance)) [
      | inr unsure ↦ inl (ground arith)
      | inl sure ↦ elim (Option-cases (valid_answer call id reply.frame reply.size)) [
        | inl n ↦ inl (ground arith)
        | inr (p, v) ↦ inr (
          is_ok-ok reply.result good,
          is_accepted-accepted reply.acceptance sure,
          (p, valid_answer-IsAnswer call id reply.frame reply.size p v),
        )
      ]
    ]
  ]
