-- ===== src/Service/Steps.antt =====
-- Every operation of the service keeps it sound.
use robusto.Prelude.{
  ℕ, ◌<◌, ◌^◌, ◌≡◌, ◌≢◌, refl, true, false, ◌||◌, Option, none, some, List, arith, AreBytes, length,
  ltb, bit_and, ◌==◌, drop, Bool-cases, inl, inr, ==_false, sym, ◌∙◌,
}
use robusto.Protocol.{
  ProxyResult, ok, invalid_argument, bad_magic, bad_version, bad_header_length, bad_flags,
  bad_reserved, bad_length, bad_crc, SessionState, reset, negotiating, established, degraded,
  incompatible, Profile, max_payload, FrameHeader, header_size,
}
use robusto.Protocol.Flag
use robusto.Session
use robusto.Session.{nonzero_u32, next_id, take_sequence, note_expired_requests}
use robusto.Inflight
use robusto.Inflight.{expire}
use robusto.Inflight.Invariant.{init-IsValid, expire_lem}
use robusto.Frame.{validate_buffer, read_header}
use robusto.Service.{Service, Answer, init, tick, is_established}
use robusto.Service.Query.{Platform}
use robusto.Service.Event.{build_pubsub_event, frame_event, count_event, carries_events}
use robusto.Service.Frame.{respond, transact, handle_frame, carry_out}
use robusto.Service.Sound.{IsSound, IsSoundSession, IsSoundPlatform, kept-IsSound}
use robusto.Service.FrameReply.{is_dropped, carry_out_dropped, carry_out-Outcome}

degrade_closed : (x : SessionState) → is_established (Session.degrade x) ≡ false
degrade_closed reset = refl
degrade_closed negotiating = refl
degrade_closed established = refl
degrade_closed degraded = refl
degrade_closed incompatible = refl

true_is_not_false : true ≢ false
true_is_not_false e = cc

expire-capacity : (t : Inflight.Table) (now_ms : ℕ) → (expire t now_ms).1.capacity ≡ t.capacity
unfolding expire
expire-capacity t now_ms = refl

noted-IsSoundSession :
    (x : Session.Session) (n : ℕ)
    → n ≢ 0
    → IsSoundSession x
    → IsSoundSession (note_expired_requests x n).1
      × (is_established (note_expired_requests x n).1.state ≡ false)
unfolding note_expired_requests
noted-IsSoundSession x n some_expired sound =
    let closed : is_established (Session.degrade x.state) ≡ false = degrade_closed x.state in
    rw (==_false n 0 some_expired) (
      record {
        local = sound.local;
        major = sound.major;
        minor = sound.minor;
        sequence = sound.sequence;
        some_requests = λ e. absurd (true_is_not_false (sym e ∙ closed));
        few_requests = λ e. absurd (true_is_not_false (sym e ∙ closed));
        some_payload = λ e. absurd (true_is_not_false (sym e ∙ closed));
        small_payload = λ e. absurd (true_is_not_false (sym e ∙ closed));
      },
      closed,
    )

module _ {A : Type 0} where
  pub init-IsSound :
      (profile : Profile) (boot correlation_seed sequence_seed negotiated now_ms : ℕ)
      → sequence_seed < 2 ^ 32
      → IsSound {A = A} (init profile boot correlation_seed sequence_seed negotiated now_ms)
  unfolding init Session.init nonzero_u32
  init-IsSound profile boot correlation_seed sequence_seed negotiated now_ms seed = record {
    session = record {
      local = refl;
      major = omega arith;
      minor = omega arith;
      sequence = ground arith;
      some_requests = λ e. cc;
      few_requests = λ e. cc;
      some_payload = λ e. cc;
      small_payload = λ e. cc;
    };
    inflight = (init-IsValid negotiated).0;
    callbacks = tt;
    capacity = λ e. cc;
  }

  -- Taking a sequence number.
  sequence-IsSound :
      (s : Service A) → IsSound s → IsSound (record s { session = (take_sequence s.session).1 })
  unfolding take_sequence next_id nonzero_u32
  sequence-IsSound s sound = record {
    session = record {
      local = sound.session.local;
      major = sound.session.major;
      minor = sound.session.minor;
      sequence = ground arith;
      some_requests = sound.session.some_requests;
      few_requests = sound.session.few_requests;
      some_payload = sound.session.some_payload;
      small_payload = sound.session.small_payload;
    };
    inflight = sound.inflight;
    callbacks = sound.callbacks;
    capacity = sound.capacity;
  }

  respond-IsSound :
      (h : FrameHeader) (frame : List ℕ) (frame_size old : ℕ) (answer : Answer A)
      → IsSound answer.service
      → IsSound (respond h frame frame_size old answer).service
  unfolding respond
  respond-IsSound h frame frame_size old answer sound = elim (Bool-cases answer.handled) [
    | inl replied ↦ rw replied (sequence-IsSound answer.service sound)
    | inr not_replied ↦ rw not_replied sound
  ]

  module _ (p : Platform A) (platform : IsSoundPlatform p) (s : Service A) (sound : IsSound s)
      (now_ms : ℕ) (scratch : List ℕ) (long : length scratch ≡ max_payload) (are : AreBytes scratch)
      (world : A) where
    pub carry_out-IsSound :
        (h : FrameHeader) (payload : List ℕ)
        → IsSound (carry_out p s h payload now_ms scratch world).service
    carry_out-IsSound h payload = elim (Bool-cases (is_dropped h)) [
      | inl dropped ↦ rw (carry_out_dropped p s now_ms scratch world h payload dropped) sound
      | inr kept ↦
          (carry_out-Outcome p s sound platform now_ms scratch long are world h payload kept).1
    ]

    transact-IsSound :
        (e : ProxyResult) (request : List ℕ) (frame : List ℕ) (frame_size old : ℕ)
        → IsSound (transact e p s request now_ms frame frame_size old scratch world).service
    unfolding transact
    transact-IsSound ok request frame frame_size old =
        let h : FrameHeader = read_header request in
        elim (Bool-cases (bit_and h.flags Flag.request == 0 || h.correlation_id == 0)) [
          | inl bad ↦ rw bad sound
          | inr good ↦ rw good (
              respond-IsSound h frame frame_size old
                (carry_out p s h (drop header_size request) now_ms scratch world)
                (carry_out-IsSound h (drop header_size request)))
        ]
    transact-IsSound invalid_argument request frame frame_size old = sound
    transact-IsSound bad_magic request frame frame_size old = sound
    transact-IsSound bad_version request frame frame_size old = sound
    transact-IsSound bad_header_length request frame frame_size old = sound
    transact-IsSound bad_flags request frame frame_size old = sound
    transact-IsSound bad_reserved request frame frame_size old = sound
    transact-IsSound bad_length request frame frame_size old = sound
    transact-IsSound bad_crc request frame frame_size old = sound

    pub handle_frame-IsSound :
        (request : Option (List ℕ)) (size : ℕ) (frame : Option (List ℕ)) (frame_size : ℕ)
        (old : Option ℕ)
        → IsSound (handle_frame p s request size now_ms frame frame_size old scratch world).service
    unfolding handle_frame
    handle_frame-IsSound (some request) size (some frame) frame_size (some old) =
        transact-IsSound (validate_buffer (some request) size none).0 request frame frame_size old
    handle_frame-IsSound (some request) size (some frame) frame_size none = sound
    handle_frame-IsSound (some request) size none frame_size old = sound
    handle_frame-IsSound none size frame frame_size old = sound

  count_event-IsSound : (e : ProxyResult) (s : Service A) → IsSound s → IsSound (count_event e s)
  count_event-IsSound ok s sound = kept-IsSound s _ (refl, refl, refl) sound
  count_event-IsSound invalid_argument s sound = sound
  count_event-IsSound bad_magic s sound = sound
  count_event-IsSound bad_version s sound = sound
  count_event-IsSound bad_header_length s sound = sound
  count_event-IsSound bad_flags s sound = sound
  count_event-IsSound bad_reserved s sound = sound
  count_event-IsSound bad_length s sound = sound
  count_event-IsSound bad_crc s sound = sound

  frame_event-IsSound :
      (e : ProxyResult) (s : Service A) (opcode : ℕ) (payload : List ℕ) (size : ℕ) (frame : List ℕ)
      (frame_size old : ℕ)
      → IsSound s
      → IsSound (frame_event e s opcode payload size frame frame_size old).1.1.1
  unfolding frame_event
  frame_event-IsSound ok s opcode payload size frame frame_size old sound =
      count_event-IsSound _ _ (sequence-IsSound s sound)
  frame_event-IsSound invalid_argument s opcode payload size frame frame_size old sound = sound
  frame_event-IsSound bad_magic s opcode payload size frame frame_size old sound = sound
  frame_event-IsSound bad_version s opcode payload size frame frame_size old sound = sound
  frame_event-IsSound bad_header_length s opcode payload size frame frame_size old sound = sound
  frame_event-IsSound bad_flags s opcode payload size frame frame_size old sound = sound
  frame_event-IsSound bad_reserved s opcode payload size frame frame_size old sound = sound
  frame_event-IsSound bad_length s opcode payload size frame frame_size old sound = sound
  frame_event-IsSound bad_crc s opcode payload size frame frame_size old sound = sound

  pub event-IsSound :
      (s : Service A) (opcode : ℕ) (payload : Option (List ℕ)) (size : ℕ) (frame : Option (List ℕ))
      (frame_size : ℕ) (old : Option ℕ)
      → IsSound s
      → IsSound (build_pubsub_event s opcode payload size frame frame_size old).1.1.1
  unfolding build_pubsub_event
  event-IsSound s opcode (some payload) size (some frame) frame_size (some old) sound =
      elim (Bool-cases (carries_events s)) [
        | inl carries ↦
            rw carries (frame_event-IsSound _ s opcode payload size frame frame_size old sound)
        | inr silent ↦ rw silent sound
      ]
  event-IsSound s opcode (some payload) size (some frame) frame_size none sound = sound
  event-IsSound s opcode (some payload) size none frame_size old sound = sound
  event-IsSound s opcode none size frame frame_size old sound = sound

  pub tick-IsSound : (s : Service A) (now_ms : ℕ) → IsSound s → IsSound (tick s now_ms).1
  unfolding tick
  tick-IsSound s now_ms sound =
      let valid = (expire_lem s.inflight now_ms 0 sound.inflight).2 in
      elim (Bool-cases (ltb 0 (expire s.inflight now_ms).0)) [
        | inl late ↦
            let (session, closed) =
              noted-IsSoundSession s.session (expire s.inflight now_ms).0 (ground arith)
                sound.session in
            rw late (record {
              session = session;
              inflight = valid;
              callbacks = sound.callbacks;
              capacity = λ e. absurd (true_is_not_false (sym e ∙ closed));
            })
        | inr in_time ↦ rw in_time (record {
          session = sound.session;
          inflight = valid;
          callbacks = sound.callbacks;
          capacity = λ e. expire-capacity s.inflight now_ms ∙ sound.capacity e;
        })
      ]
