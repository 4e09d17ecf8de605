-- ===== src/Service/Greeting.antt =====
-- What a HELLO leaves: the session that the service opens is the one that the controller reads.
use robusto.Prelude.{
  ℕ, ◌+◌, ◌≤◌, ◌<◌, ◌^◌, ◌≡◌, refl, false, Option, none, some, List, bit_or, bit_and_le, arith,
  drop, overwrite, ltb, Bool-cases, inl, inr,
}
use robusto.Protocol.{ok, established, profile_limits}
use robusto.Protocol.Status
use robusto.Protocol.Messages.{HelloRequest, HelloResponse, FitsHelloResponse}
use robusto.Control.{returns, prefix_size}
use robusto.Control.Hello.{hello_response_size, hello_response_bytes, decode_hello_response}
use robusto.Control.Whole.{decode_payload}
use robusto.Inflight
use robusto.Inflight.{clamp_capacity}
use robusto.Service.{Adapter, Service, Output, counted, answered}
use robusto.Service.Features.{offered, takes_chunks}
use robusto.Service.Hello.{
  read_request, request_status, is_malformed, is_open_with, negotiated_response, opened, welcomed,
  welcome, after_reset, reset_adapter, greet, handle_hello,
}
use robusto.Service.Replies.{IsBuffer, with_reply}
use robusto.Service.Sound.{IsSoundSession, IsSound}
use robusto.Service.Negotiation.{IsNegotiated, negotiated_response-IsNegotiated, hello_response_new}
use robusto.Service.HelloReply.{welcome_lem, is_malformed-status}

module _ {A : Type 0} where
  -- The adapter has no `session_reset`, or it reports ROBUSTO_PROXY_STATUS_OK.
  abbrev pub ResetSucceeds : Option (A → ℕ × A) → A → Type 0
  ResetSucceeds none world = Unit
  ResetSucceeds (some session_reset) world = (session_reset world).0 ≡ Status.ok

  abbrev pub AdapterResets : Option (Adapter A) → A → Type 0
  AdapterResets none world = Unit
  AdapterResets (some a) world = ResetSucceeds a.session_reset world

  pub offered_few : (adapter : Option (Adapter A)) → offered adapter ≤ 7
  offered_few none = omega arith
  offered_few (some a) = elim (Bool-cases (takes_chunks a)) [
    | inl yes_chunks ↦ rw yes_chunks (omega arith)
    | inr no_chunks ↦ rw no_chunks (omega arith)
  ]

  pub negotiated_fits :
      (s : Service A) (r : HelloRequest) (now_ms : ℕ)
      → IsSoundSession s.session
      → s.session.local_boot_id < 2 ^ 64
      → is_malformed r ≡ false
      → FitsHelloResponse (negotiated_response s r now_ms)
  unfolding negotiated_response is_malformed profile_limits
  negotiated_fits s r now_ms sound boot fine =
      let n = negotiated_response-IsNegotiated s r now_ms sound fine in
      record {
        proxy_boot_id = boot;
        selected_protocol_major = omega arith;
        selected_protocol_minor = omega arith;
        reserved = omega arith;
        selected_max_payload = ground arith;
        selected_max_in_flight = ground arith;
        dedupe_entries = rw sound.local (ground arith);
        dedupe_window_ms = rw sound.local (ground arith);
        enabled_features = omega (
          arith,
          bit_and_le (bit_or r.required_features r.optional_features) (offered s.pubsub_adapter),
          offered_few s.pubsub_adapter,
        );
        proxy_uptime_ms = omega arith;
        reserved2 = omega arith;
      }

  -- With a reset that succeeds, the HELLO goes through.
  resets :
      (s : Service A) (r : HelloRequest) (now_ms : ℕ) (out : Output) (world : A)
      (adapter : Option (Adapter A))
      → AdapterResets adapter world
      → (world' : A) × (reset_adapter s r now_ms out world adapter ≡ welcome s r now_ms out world')
  unfolding reset_adapter after_reset
  resets s r now_ms out world none good = (world, refl)
  resets s r now_ms out world (some a) good = through a.session_reset good
    where
      through :
          (callback : Option (A → ℕ × A))
          → ResetSucceeds callback world
          → (world' : A) × (elim callback [
            | none ↦ welcome s r now_ms out world
            | some session_reset ↦ after_reset s r now_ms out (session_reset world)
          ]
              ≡ welcome s r now_ms out world')
      through none good = (world, refl)
      through (some session_reset) good = ((session_reset world).1, rw good refl)

  module _ (s : Service A) (r : HelloRequest) (payload : Option (List ℕ)) (size now_ms : ℕ)
      (out : Output) (world : A) (buffer : IsBuffer out)
      (read : read_request payload size ≡ some r) where
    pub accepted_hello :
        request_status s r ≡ Status.ok
        → AdapterResets s.pubsub_adapter world
        → (world' : A) × (handle_hello s payload size now_ms out world
            ≡ welcome (counted s) r now_ms out world')
    unfolding handle_hello greet
    accepted_hello good reset =
        let (world', e) = resets (counted s) r now_ms out world s.pubsub_adapter reset in
        let roomy : ltb out.room prefix_size ≡ false = ground (arith, buffer.room) in
        let roomy' : ltb out.room (prefix_size + hello_response_size) ≡ false =
          ground (arith, buffer.room) in
        let good' : request_status (counted s) r ≡ Status.ok = unfold request_status in good in
        (world', rw (roomy, read, good', roomy') e)

    pub fine_request : request_status s r ≡ Status.ok → is_malformed r ≡ false
    fine_request good = is_malformed-status s r (ground arith)

    abbrev negotiated : HelloResponse
    negotiated = negotiated_response s r now_ms

    welcome_new :
        (world' : A)
        → is_open_with s r ≡ false
        → welcome (counted s) r now_ms out world'
          ≡ answered
              (opened (counted s) r negotiated)
              (with_reply out 0
                (overwrite (hello_response_bytes negotiated) (drop prefix_size out.bytes))
                (prefix_size + hello_response_size))
              world'
    unfolding negotiated_response is_open_with welcomed
    welcome_new world' new =
        rw
          (
            welcome_lem (counted s) r now_ms out world' buffer,
            new,
            hello_response_new (counted s) r now_ms new,
          )
          refl

    -- A HELLO with status OK from a controller whose session is not open opens one: the response in the
    -- buffer decodes to limits within those of both ends, and they are the limits of the session. The
    -- service must be sound, its boot id a 64-bit number, and the adapter's reset must succeed.
    pub handle_hello_opens :
        IsSound s
        → s.session.local_boot_id < 2 ^ 64
        → request_status s r ≡ Status.ok
        → AdapterResets s.pubsub_adapter world
        → is_open_with s r ≡ false
        → (old : HelloResponse)
        → (m : HelloResponse) × (let a = handle_hello s payload size now_ms out world in
            (decode_hello_response
                (some (drop prefix_size a.output.bytes))
                hello_response_size
                (some old)
              ≡ returns (ok, some m))
            × IsNegotiated s r m
            × (a.service.session.state ≡ established)
            × (a.service.session.peer_boot_id ≡ r.controller_boot_id)
            × (a.service.session.enabled_features ≡ m.enabled_features)
            × (a.service.session.negotiated_limits.max_in_flight ≡ m.selected_max_in_flight)
            × (a.service.session.negotiated_limits.request_pool_bytes ≡ m.selected_max_payload)
            × (a.service.inflight.capacity ≡ m.selected_max_in_flight))
    unfolding opened Inflight.init clamp_capacity
    handle_hello_opens sound boot good reset new old =
        let (world', e) = accepted_hello good reset in
        let n : IsNegotiated s r negotiated =
          negotiated_response-IsNegotiated s r now_ms sound.session (fine_request good) in
        let back =
          decode_payload negotiated (drop hello_response_size (drop prefix_size out.bytes))
            hello_response_size old
            (negotiated_fits s r now_ms sound.session boot (fine_request good)) (omega arith) in
        (
          negotiated,
          rw (e, welcome_new world' new)
              ((
                back,
                n,
                refl,
                refl,
                refl,
                refl,
                refl,
                unfold is_malformed request_status in
                    ground (arith, n.some_requests, n.within_request, good),
              )),
        )
