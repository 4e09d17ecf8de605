-- ===== src/Service/EventFrame.antt =====
-- The frames of the events.
use robusto.Prelude.{
  ℕ, ◌+◌, ◌≡◌, ◌≤◌, ◌<◌, ◌^◌, ◌%◌, refl, none, some, List, AreBytes, arith, true, take, drop,
  length,
}
use robusto.Protocol.{ok, FrameHeader, FitsHeader, header_size, frame_size_bytes}
use robusto.Protocol.Flag
use robusto.Protocol.Domain
use robusto.Frame.{header_init, validate_buffer, read_header}
use robusto.Frame.RoundTrip.{validate_buffer-encode, encode_iff}
use robusto.Session.{take_sequence}
use robusto.Service.{Service}
use robusto.Service.Event.{Built, build_pubsub_event, frame_event, check_event, carries_events}

module _ {A : Type 0} where
  -- An event that is built passed its checks.
  built_checked :
      (s : Service A) (opcode : ℕ) (payload : List ℕ) (size : ℕ) (frame : List ℕ)
      (frame_size old : ℕ)
      → (build_pubsub_event s opcode (some payload) size (some frame) frame_size (some old)).0 ≡ ok
      → (carries_events s ≡ true) × (check_event s opcode payload size ≡ ok)
  unfolding build_pubsub_event frame_event
  built_checked s opcode payload size frame frame_size old e = ground arith

  module _ (s : Service A) (opcode : ℕ) (payload : List ℕ) (size : ℕ) (frame : List ℕ)
      (frame_size old : ℕ) where
    abbrev pub event_header : FrameHeader
    event_header =
        header_init Flag.event Domain.pubsub opcode 0 s.session.next_sequence (size % 2 ^ 32)

    abbrev pub built : Built A
    built = build_pubsub_event s opcode (some payload) size (some frame) frame_size (some old)

    -- The frame of the event, and what is counted.
    pub record IsEventFrame (out : List ℕ) : Type 0 where
      pub stored : built.1.0 ≡ some out
      pub valid : (validate_buffer (some out) (frame_size_bytes size) none).0 ≡ ok
      pub header : read_header out ≡ event_header
      pub content : take size (drop header_size out) ≡ take size payload
      pub events : built.1.1.1.events ≡ (s.events + 1) % 2 ^ 32

    event_fits : opcode < 2 ^ 8 → s.session.next_sequence < 2 ^ 32 → FitsHeader event_header
    unfolding header_init
    event_fits o q = record {
      magic_0 = omega arith;
      magic_1 = omega arith;
      protocol_major = omega arith;
      header_length = omega arith;
      flags = omega arith;
      domain = omega arith;
      opcode = o;
      reserved = omega arith;
      correlation_id = omega arith;
      sequence = q;
      payload_length = omega arith;
    }

    -- What is left where the checks pass.
    built_lem :
        carries_events s ≡ true
        → check_event s opcode payload size ≡ ok
        → built ≡ frame_event ok s opcode payload size frame frame_size old
    unfolding build_pubsub_event
    built_lem carries fine = rw (carries, fine) refl

    -- An event that `robusto_proxy_service_build_pubsub_event` builds has passed the check of its payload. The
    -- frame is valid, with the flag EVENT, no correlation id and the session's next sequence number; it carries the
    -- payload, and it is counted. The payload has the size that is stated, the numbers are as wide as their types.
    pub build_pubsub_event-frame :
        built.0 ≡ ok
        → opcode < 2 ^ 8
        → s.session.next_sequence < 2 ^ 32
        → size < 2 ^ 32
        → size ≤ length payload
        → AreBytes payload
        → (check_event s opcode payload size ≡ ok) × ((out : List ℕ) × IsEventFrame out)
    unfolding frame_event take_sequence header_init
    build_pubsub_event-frame e o q narrow supplied are =
        let (carries, fine) = built_checked s opcode payload size frame frame_size old e in
        let whole : size % 2 ^ 32 ≡ size = omega arith in
        let e' = rw (built_lem carries fine) at e in
        let (valid, room, given) =
          (encode_iff event_header (some payload) frame frame_size old).0 e' in
        let (out, encoded, intact, header, behind, rest) =
          validate_buffer-encode event_header (some payload) frame frame_size old
            (frame_size_bytes event_header.payload_length) (event_fits o q) (omega arith, are) valid
            room (omega arith) in
        (
          fine,
          (
            out,
            record {
              stored = rw (built_lem carries fine, encoded) refl;
              valid = rw whole at intact;
              header = header;
              content = rw whole at behind;
              events = rw (built_lem carries fine, encoded) refl;
            },
          ),
        )
