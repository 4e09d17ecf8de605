-- ===== src/Client/Judge.antt =====
-- components/robusto/proxy/src/robusto_proxy_client.c: what `robusto_proxy_client_request` makes of
-- the reply to one exchange.
use robusto.Prelude.{
  ℕ, ◌+◌, ◌-◌, Bool, true, false, not, ◌&&◌, Option, none, some, List, ◌==◌, ◌!=◌, if◌then◌else◌,
  bit_and, drop,
}
use robusto.Protocol.{ProxyResult, ok, FrameHeader, header_size, frame_size_bytes}
use robusto.Protocol.Flag
use robusto.Protocol.Messages.{ResponsePrefix}
use robusto.RetVal.{RetVal, is_ok}
use robusto.Frame.{validate_buffer, read_header}
use robusto.Control.{Run, returns, prefix_size, decode_response_prefix, is_success}
use robusto.Client.{Acceptance, not_accepted, accepted, Reply, Client, status_to_robusto}

-- The `payload` argument. `robusto_proxy_client_connect` passes the client's own response frame,
-- which each exchange overwrites.
pub data Payload : Type 0 where
  null own_response : Payload
  bytes : List ℕ → Payload

abbrev pub payload_at : Client → Payload → Option (List ℕ)
payload_at c null = none
payload_at c own_response = some c.response_frame
payload_at c (bytes bs) = some bs

abbrev pub is_null : Payload → Bool
is_null null = true
is_null own_response = false
is_null (bytes bs) = false

-- The arguments of `robusto_proxy_client_request`.
pub record Call : Type 0 where
  pub domain : ℕ
  pub opcode : ℕ
  pub payload : Payload
  pub payload_size : ℕ
  pub mutation : Bool

-- How a round of the loop ends: with the offset and size of the success payload, or with a result,
-- whether the cause lets it retry, and the delay that the peer asks for.
pub data Verdict : Type 0 where
  answered : (offset size : ℕ) → Verdict
  failed : (result : RetVal) (retryable : Bool) (retry_after_ms : ℕ) → Verdict

abbrev pub is_accepted : Acceptance → Bool
is_accepted accepted = true
is_accepted _ = false

abbrev pub is_not_accepted : Acceptance → Bool
is_not_accepted not_accepted = true
is_not_accepted _ = false

abbrev pub is_result_ok : ProxyResult → Bool
is_result_ok ok = true
is_result_ok _ = false

abbrev pub blank_prefix : ResponsePrefix
blank_prefix = record {
  status = 0;
  result_flags = 0;
  retry_after_ms = 0;
  detail_length = 0;
  reserved = 0;
}

-- The prefix, where it was decoded.
abbrev pub decoded : Run (ProxyResult × Option ResponsePrefix) → Option ResponsePrefix
decoded (returns (ok, p)) = p
decoded _ = none

-- The tests on the header of a response.
abbrev pub is_response_to : Call → ℕ → FrameHeader → ℕ → Bool
is_response_to call id h size =
    size == frame_size_bytes h.payload_length
    && (h.flags == Flag.response
        && (h.domain == call.domain && (h.opcode == call.opcode && h.correlation_id == id)))

-- The prefix of a frame that is a valid response to the request.
unfoldable pub valid_answer : Call → ℕ → List ℕ → ℕ → Option ResponsePrefix
valid_answer call id frame size =
    if is_result_ok (validate_buffer (some frame) size none).0
      && is_response_to call id (read_header frame) size
    then decoded (
        decode_response_prefix (some (drop header_size frame)) (read_header frame).payload_length
          (some blank_prefix))
    else none

-- The result of a request that the peer may have carried out.
abbrev pub unless_mutation : Call → RetVal → RetVal
unless_mutation call r = if call.mutation then RetVal.outcome_unknown else r

abbrev pub judge_prefix : Client → ResponsePrefix → Verdict × Client
judge_prefix c p =
    let c' = record c {
      last_status = p.status;
      last_result_flags = p.result_flags;
      last_retry_after_ms = p.retry_after_ms;
    } in
    (
      (if is_success (some p)
          then answered (header_size + prefix_size + p.detail_length)
              ((read_header c.response_frame).payload_length - prefix_size - p.detail_length)
          else failed (status_to_robusto p.status) (bit_and p.result_flags 1 != 0)
              p.retry_after_ms),
      c',
    )

abbrev pub judge_answer : Call → Client → Option ResponsePrefix → Verdict × Client
judge_answer call c none = (failed (unless_mutation call RetVal.parsing_failed) true 0, c)
judge_answer call c (some p) = judge_prefix c p

-- What the loop makes of the reply to an exchange.
unfoldable pub judge : Call → ℕ → Client → Reply → Verdict × Client
judge call id c reply =
    let c' = record c { response_frame = reply.frame } in
    if not (is_ok reply.result)
    then (
      failed
          (if is_not_accepted reply.acceptance
            then reply.result
            else unless_mutation call reply.result)
          true 0,
      c',
    )
    else if not (is_accepted reply.acceptance)
    then (failed (unless_mutation call RetVal.parsing_failed) true 0, c')
    else judge_answer call c' (valid_answer call id reply.frame reply.size)
