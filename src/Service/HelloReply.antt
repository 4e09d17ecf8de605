-- ===== src/Service/HelloReply.antt =====
-- Every HELLO gets a reply.
use robusto.Prelude.{
  ℕ, ◌+◌, ◌<◌, ◌^◌, ◌≡◌, refl, Option, none, some, List, arith, AreBytes, overwrite, drop,
  Bool-cases, inl, inr, ◌!=◌, ltb, false,
}
use robusto.Protocol.Status
use robusto.Protocol.Messages.{HelloRequest, HelloResponse}
use robusto.Control.{prefix_size}
use robusto.Control.Hello.{hello_response_bytes, hello_response_size, encode_hello_response}
use robusto.Service.{Adapter, Service, Output, reply_status, counted, uncounted, erred, answered}
use robusto.Service.Hello.{
  handle_hello, greet, request_status, reset_adapter, after_reset, welcome, welcomed,
  hello_response, open_response, negotiated_response, read_request, is_malformed,
}
use robusto.Service.Negotiation.{welcomed-IsSound}
use robusto.Service.Replies.{
  IsBuffer, reply_status-Replies, with_reply, Stores, reply_payload_lem, answered-IsReply,
}
use robusto.Service.Sound.{
  AreSoundCallbacks, ResetsWithStatus, IsSoundSession, IsSound, Outcome, Replies-Outcome,
  kept-IsSound,
}

hello-Stores :
    (m : HelloResponse)
    → Stores (λ buffer size. encode_hello_response buffer size (some m)) (hello_response_bytes m)
unfolding encode_hello_response
hello-Stores m buffer size room = ground arith

module _ {A : Type 0} where
  -- The version numbers of a response are bytes.
  hello_response-AreBytes :
      (s : Service A) (r : HelloRequest) (now_ms : ℕ)
      → IsSoundSession s.session
      → AreBytes (hello_response_bytes (hello_response s r now_ms))
  unfolding hello_response open_response negotiated_response
  hello_response-AreBytes s r now_ms sound = ground (arith, sound.major, sound.minor)

  pub welcome_lem :
      (s : Service A) (r : HelloRequest) (now_ms : ℕ) (out : Output) (world : A)
      → IsBuffer out
      → welcome s r now_ms out world
        ≡ answered
            (welcomed s r now_ms)
            (with_reply out 0
              (overwrite
                (hello_response_bytes (hello_response s r now_ms))
                (drop prefix_size out.bytes))
              (prefix_size + hello_response_size))
            world
  unfolding welcome
  welcome_lem s r now_ms out world buffer =
      reply_payload_lem (uncounted s) (welcomed s r now_ms) _ hello_response_size out world
        (hello_response_bytes (hello_response s r now_ms))
        (hello-Stores (hello_response s r now_ms)) refl (omega (arith, buffer.room))

  -- The refusals of HELLO.
  status-Outcome :
      (s : Service A)
      → IsSound s
      → (failed : Service A) (status : ℕ) (out : Output) (world : A) → IsBuffer out
      → status < 2 ^ 16
      → Outcome (reply_status failed (erred s) status out world)
  status-Outcome s sound failed status out world buffer width =
      Replies-Outcome s _ sound
        (reply_status-Replies s failed (erred s) status out world buffer width (refl, refl, refl))

  module _ (s : Service A) (r : HelloRequest) (now_ms : ℕ) (out : Output) (buffer : IsBuffer out)
      (sound : IsSound s) (fine : is_malformed r ≡ false) where
    welcome-Outcome : (world : A) → Outcome (welcome s r now_ms out world)
    welcome-Outcome world = rw (welcome_lem s r now_ms out world buffer) (
      answered-IsReply (welcomed s r now_ms) out 0
          (hello_response_bytes (hello_response s r now_ms)) (prefix_size + hello_response_size)
          world buffer (omega arith) (hello_response-AreBytes s r now_ms sound.session)
          (omega arith) (omega arith) (omega arith),
      welcomed-IsSound s r now_ms sound fine,
    )

    after_reset-Outcome :
        (reset : ℕ × A) → reset.0 < 2 ^ 16 → Outcome (after_reset s r now_ms out reset)
    unfolding after_reset
    after_reset-Outcome (status, world) width = elim (Bool-cases (status != Status.ok)) [
      | inl refused ↦
          rw refused (status-Outcome s sound (uncounted s) status out world buffer width)
      | inr done ↦ rw done (welcome-Outcome world)
    ]

    reset_adapter-Outcome :
        (world : A) (adapter : Option (Adapter A))
        → AreSoundCallbacks adapter
        → Outcome (reset_adapter s r now_ms out world adapter)
    unfolding reset_adapter
    reset_adapter-Outcome world none callbacks = welcome-Outcome world
    reset_adapter-Outcome world (some adapter) callbacks =
        through adapter.session_reset callbacks.session_reset
      where
        through :
            (callback : Option (A → ℕ × A))
            → ResetsWithStatus callback
            → Outcome (elim callback [
              | none ↦ welcome s r now_ms out world
              | some session_reset ↦ after_reset s r now_ms out (session_reset world)
            ])
        through none width = welcome-Outcome world
        through (some session_reset) width = after_reset-Outcome (session_reset world) (width world)

  pub is_malformed-status :
      (s : Service A) (r : HelloRequest)
      → request_status s r != Status.ok ≡ false
      → is_malformed r ≡ false
  unfolding request_status
  is_malformed-status s r good = ground arith

  request_status_width : (s : Service A) (r : HelloRequest) → request_status s r < 2 ^ 16
  unfolding request_status
  request_status_width s r = ground arith

  greet-Outcome :
      (s : Service A) (r : Option HelloRequest) (now_ms : ℕ) (out : Output) (world : A)
      → IsBuffer out
      → IsSound s
      → Outcome (greet s r now_ms out world)
  unfolding greet
  greet-Outcome s none now_ms out world buffer sound =
      status-Outcome s sound (uncounted s) Status.malformed_payload out world buffer (omega arith)
  greet-Outcome s (some r) now_ms out world buffer sound =
      let roomy : ltb out.room (prefix_size + hello_response_size) ≡ false =
        ground (arith, buffer.room) in
      elim (Bool-cases (request_status s r != Status.ok)) [
        | inl bad ↦ rw bad (
            status-Outcome s sound (uncounted s) (request_status s r) out world buffer
              (request_status_width s r))
        | inr good ↦
            rw (good, roomy)
              (reset_adapter-Outcome s r now_ms out buffer sound (is_malformed-status s r good)
                world s.pubsub_adapter sound.callbacks)
      ]

  pub handle_hello-Outcome :
      (s : Service A) (payload : Option (List ℕ)) (size now_ms : ℕ) (out : Output) (world : A)
      → IsBuffer out
      → IsSound s
      → Outcome (handle_hello s payload size now_ms out world)
  unfolding handle_hello
  handle_hello-Outcome s payload size now_ms out world buffer sound =
      let roomy : ltb out.room prefix_size ≡ false = ground (arith, buffer.room) in
      rw roomy (
        greet-Outcome (counted s) (read_request payload size) now_ms out world buffer
          (kept-IsSound s (counted s) (refl, refl, refl) sound))
