-- ===== src/Service/FrameReply.antt =====
-- The response frames of the service, against what the client accepts.
use robusto.Prelude.{
  ℕ, ◌%◌, ◌≤◌, ◌<◌, ◌^◌, ◌≡◌, ◌≢◌, refl, ap, ◌∙◌, Bool, true, false, ◌&&◌, none, some, List, arith,
  AreBytes, IsByte-byte_at, AreBytes-drop, take, drop, length, bit_and, ◌==◌, ◌!=◌, Bool-cases, inl,
  inr, AreBytes-append, read_le32, ==_false,
}
use robusto.Protocol.{ok, FrameHeader, header_size, max_payload, slot_size, frame_size_bytes}
use robusto.Protocol.Domain
use robusto.Protocol.Flag
use robusto.Protocol.Status
use robusto.Frame.{header_init, validate_buffer, read_header}
use robusto.Frame.RoundTrip.{validate_buffer-encode}
use robusto.Control.{prefix_bytes}
use robusto.Session.{take_sequence}
use robusto.Client.Judge.{Call}
use robusto.Service.{Service, Answer, erred, refused, status_prefix}
use robusto.Service.Query.{Platform}
use robusto.Service.Frame.{payload_output, carry_out, respond, transact, handle_frame}
use robusto.Service.Replies.{IsBuffer, IsReply, reply_status-Replies}
use robusto.Service.Sound.{IsSound, IsSoundPlatform, Outcome, Replies-Outcome}
use robusto.Service.ControlReply.{is_query, query_with_payload, handle_control_request-Outcome}
use robusto.Service.PubsubAnswers.{handle_pubsub_request-Replies}
use robusto.Service.Accept.{
  response_header_valid, response_header_fits, IsMatched, decode_status, accept,
}

-- A valid frame of a request that can be matched with its response.
pub record IsRequest (request : List ℕ) (size : ℕ) : Type 0 where
  pub valid : (validate_buffer (some request) size none).0 ≡ ok
  pub flagged : bit_and (read_header request).flags Flag.request ≢ 0
  pub correlated : (read_header request).correlation_id ≢ 0
  pub bytes : AreBytes request

-- The requests that are dropped: queries of the control domain that come with a payload.
abbrev pub is_dropped : FrameHeader → Bool
is_dropped h = h.domain == Domain.control && (is_query h.opcode && h.payload_length != 0)

read_le32_bound : (xs : List ℕ) → AreBytes xs → read_le32 xs < 2 ^ 32
read_le32_bound xs h = omega (
  arith,
  IsByte-byte_at xs 0 h,
  IsByte-byte_at xs 1 h,
  IsByte-byte_at xs 2 h,
  IsByte-byte_at xs 3 h,
)

module _ {A : Type 0} (h : FrameHeader) (frame : List ℕ) (frame_size old : ℕ) (answer : Answer A)
    (reply : IsReply answer) (sound : IsSound answer.service) where
  output-AreBytes : AreBytes answer.output.bytes
  output-AreBytes = rw reply.bytes (
      AreBytes-append (prefix_bytes (status_prefix reply.status)) reply.rest (omega arith)
        reply.rest_bytes)

  respond-IsMatched :
      (call : Call)
      → slot_size ≤ frame_size
      → h.domain < 2 ^ 8
      → h.opcode < 2 ^ 8
      → h.correlation_id < 2 ^ 32
      → h.domain ≡ call.domain
      → h.opcode ≡ call.opcode
      → IsMatched call h.correlation_id (respond h frame frame_size old answer)
  unfolding respond take_sequence header_init
  respond-IsMatched call room domain opcode id same_domain same_opcode =
      let used : ℕ = answer.output.used in
      let h' : FrameHeader =
        header_init Flag.response h.domain h.opcode h.correlation_id
          answer.service.session.next_sequence (used % 2 ^ 32) in
      let small : used % 2 ^ 32 ≡ used = omega (arith, reply.upper) in
      let long : used % 2 ^ 32 ≤ length answer.output.bytes =
        omega (arith, ap length reply.bytes, reply.rest_length, reply.upper) in
      let (out, encoded, valid, header, payload, behind) =
        validate_buffer-encode h' (some answer.output.bytes) frame frame_size old
          (frame_size_bytes h'.payload_length)
          (response_header_fits h.domain h.opcode h.correlation_id _ used domain opcode id
            sound.session.sequence)
          (long, output-AreBytes)
          (response_header_valid h.domain h.opcode h.correlation_id _ used reply.upper)
          (omega arith) (omega arith) in
      rw (reply.handled, encoded)
        ((
          out,
          frame_size_bytes (used % 2 ^ 32),
          reply.status,
          refl,
          refl,
          refl,
          accept call h' out reply.status valid header refl same_domain same_opcode (
              decode_status reply.status (drop header_size out) reply.rest (used % 2 ^ 32)
                reply.status_width (omega (arith, small, reply.lower))
                (payload ∙ ap (take (used % 2 ^ 32)) reply.bytes)),
        ))

-- A request that is dropped changes nothing.
pub carry_out_dropped :
    {A : Type 0} (p : Platform A) (s : Service A) (now_ms : ℕ) (scratch : List ℕ) (world : A)
    (h : FrameHeader) (payload : List ℕ)
    → is_dropped h ≡ true
    → carry_out p s h payload now_ms scratch world ≡ refused s (payload_output scratch) world
unfolding carry_out
carry_out_dropped p s now_ms scratch world h payload dropped =
    let control : (h.domain == Domain.control) ≡ true = ground arith in
    rw control (
      query_with_payload p s h.opcode (some payload) now_ms (payload_output scratch) world
        h.payload_length (ground arith))

module _ {A : Type 0} (p : Platform A) (s : Service A) (sound : IsSound s)
    (platform : IsSoundPlatform p) (now_ms : ℕ) (scratch : List ℕ)
    (long : length scratch ≡ max_payload) (are : AreBytes scratch) (world : A) where
  payload_output-IsBuffer : IsBuffer (payload_output scratch)
  payload_output-IsBuffer = record { room = refl; length = long; bytes = are }

  pub carry_out-Outcome :
      (h : FrameHeader) (payload : List ℕ)
      → is_dropped h ≡ false
      → Outcome (carry_out p s h payload now_ms scratch world)
  unfolding carry_out
  carry_out-Outcome h payload kept = elim (Bool-cases (h.domain == Domain.control)) [
    | inl control ↦ rw control (
        handle_control_request-Outcome p s h.opcode (some payload) now_ms (payload_output scratch)
          world h.payload_length payload_output-IsBuffer platform sound (ground arith))
    | inr other ↦ rw other (elim (Bool-cases (h.domain == Domain.pubsub)) [
      | inl pubsub ↦ rw pubsub (
          Replies-Outcome s _ sound (
            handle_pubsub_request-Replies s (payload_output scratch) world payload_output-IsBuffer
              h.opcode (some payload) h.payload_length sound.callbacks))
      | inr unknown ↦ rw unknown (
          Replies-Outcome s _ sound (
            reply_status-Replies s (erred s) (erred s) Status.unsupported_domain
              (payload_output scratch) world payload_output-IsBuffer (omega arith)
              (refl, refl, refl)))
    ])
  ]

  pub handle_frame_lem :
      (request : List ℕ) (size : ℕ) (frame : List ℕ) (frame_size old : ℕ)
      → IsRequest request size
      → handle_frame p s (some request) size now_ms (some frame) frame_size (some old) scratch world
        ≡ respond
            (read_header request)
            frame
            frame_size
            old
            (carry_out p s (read_header request) (drop header_size request) now_ms scratch world)
  unfolding handle_frame transact
  handle_frame_lem request size frame frame_size old r =
      rw (r.valid, ==_false _ _ r.flagged, ==_false _ _ r.correlated) refl

  -- A valid request frame that is not dropped is answered with ROBUSTO_PROXY_RESULT_OK, provided that the
  -- service is sound and the response buffer holds a transport slot: the client reads the response as a
  -- valid answer to its call.
  pub handle_frame-IsMatched :
      (request : List ℕ) (size : ℕ) (frame : List ℕ) (frame_size old : ℕ) (call : Call)
      → IsRequest request size
      → is_dropped (read_header request) ≡ false
      → slot_size ≤ frame_size
      → (read_header request).domain ≡ call.domain
      → (read_header request).opcode ≡ call.opcode
      → IsMatched call (read_header request).correlation_id (
          handle_frame p s
            (some request)
            size
            now_ms
            (some frame)
            frame_size
            (some old)
            scratch
            world)
  handle_frame-IsMatched request size frame frame_size old call r kept room domain opcode =
      let (reply, after) =
        carry_out-Outcome (read_header request) (drop header_size request) kept in
      rw (handle_frame_lem request size frame frame_size old r) (
        respond-IsMatched (read_header request) frame frame_size old
          (carry_out p s (read_header request) (drop header_size request) now_ms scratch world)
          reply after call room (IsByte-byte_at request 5 r.bytes)
          (IsByte-byte_at request 6 r.bytes)
          (omega (arith, read_le32_bound (drop 8 request) (AreBytes-drop 8 request r.bytes))) domain
          opcode)
