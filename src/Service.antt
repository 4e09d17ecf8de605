-- ===== src/Service.antt =====
-- components/robusto/proxy/src/robusto_proxy_service.c: the end of the proxy link that carries out
-- requests. Here is its state, with the calls that set it up, and the replies that the handlers share.
-- A callback's context and the rest of what the callbacks see is a state of some type `A`.
pub mod Features
pub mod Hello
pub mod Query
pub mod Control
pub mod Branch
pub mod Pubsub
pub mod Event
pub mod Frame
pub mod Replies
pub mod Sound
pub mod Negotiation
pub mod Greeting
pub mod Repeated
pub mod HelloReply
pub mod Texts
pub mod QueryReply
pub mod ControlReply
pub mod PubsubReply
pub mod PubsubAnswers
pub mod Accept
pub mod FrameReply
pub mod Refused
pub mod EventFrame
pub mod Steps
pub mod History
pub mod Gate
mod Tests
use robusto.Prelude.{
  ℕ, ◌+◌, ◌-◌, ◌%◌, ◌^◌, Bool, true, false, ◌&&◌, Option, none, some, List, ◌++◌, bit_or, bit_and,
  ltb, ◌==◌, ◌!=◌, if◌then◌else◌, take, drop,
}
use robusto.Protocol.{
  ProxyResult, ok, Profile, SessionState, reset, negotiating, established, degraded, incompatible,
}
use robusto.Protocol.Messages.{HealthResponse, ResponsePrefix}
use robusto.Session
use robusto.Session.{Session, note_expired_requests, apply_health_metrics}
use robusto.Inflight
use robusto.Inflight.{expire}
use robusto.Control.{Run, returns, prefix_size, encode_response_prefix}
use robusto.Pubsub.Messages.{
  PublishRequest, PublishBeginRequest, PublishChunkRequest, PublishTransferRequest, PublishResponse,
  SubscribeRequest, SubscribeResponse, UnsubscribeRequest, UnsubscribeResponse, StatusResponse,
}

-- `robusto_proxy_pubsub_adapter_t`: the callbacks, `none` where the pointer is NULL.
pub record Adapter (A : Type 0) : Type 0 where
  pub publish : Option (PublishRequest → A → ℕ × (PublishResponse × A))
  pub publish_begin : Option (PublishBeginRequest → A → ℕ × A)
  pub publish_chunk : Option (PublishChunkRequest → A → ℕ × A)
  pub publish_commit : Option (PublishTransferRequest → A → ℕ × (PublishResponse × A))
  pub publish_abort : Option (PublishTransferRequest → A → ℕ × A)
  pub session_reset : Option (A → ℕ × A)
  pub subscribe : Option (SubscribeRequest → A → ℕ × (SubscribeResponse × A))
  pub unsubscribe : Option (UnsubscribeRequest → A → ℕ × (UnsubscribeResponse × A))
  pub status : Option (A → ℕ × (StatusResponse × A))

-- `robusto_proxy_service_t`
pub record Service (A : Type 0) : Type 0 where
  pub session : Session
  pub inflight : Inflight.Table
  pub started_at_ms : ℕ
  pub requests : ℕ
  pub events : ℕ
  pub errors : ℕ
  pub rx_crc_errors : ℕ
  pub queue_high_water : ℕ
  pub pubsub_adapter : Option (Adapter A)
  pub reboot_request : Option (A → Bool × A)

-- The output arguments of a handler: the buffer, its size, and `*response_size`.
pub record Output : Type 0 where
  pub bytes : List ℕ
  pub room : ℕ
  pub used : ℕ

-- What a handler returns, with what it leaves.
pub record Answer (A : Type 0) : Type 0 where
  pub handled : Bool
  pub service : Service A
  pub output : Output
  pub world : A

abbrev pub is_established : SessionState → Bool
is_established established = true
is_established reset = false
is_established negotiating = false
is_established degraded = false
is_established incompatible = false

-- What an encoder leaves in the buffer, where it succeeds.
abbrev pub encoded : Run (ProxyResult × Option (List ℕ)) → Option (List ℕ)
encoded (returns (ok, buffer)) = buffer
encoded _ = none

-- The prefix that every reply begins with: all but the status stays cleared.
abbrev pub status_prefix : ℕ → ResponsePrefix
status_prefix status = record {
  status = status;
  result_flags = 0;
  retry_after_ms = 0;
  detail_length = 0;
  reserved = 0;
}

module _ {A : Type 0} where
  -- `robusto_proxy_service_init`
  unfoldable pub init : Profile → ℕ → ℕ → ℕ → ℕ → ℕ → Service A
  init profile local_boot_id correlation_seed sequence_seed negotiated_inflight now_ms = record {
    session = Session.init profile local_boot_id correlation_seed sequence_seed;
    inflight = Inflight.init negotiated_inflight;
    started_at_ms = now_ms;
    requests = 0;
    events = 0;
    errors = 0;
    rx_crc_errors = 0;
    queue_high_water = 0;
    pubsub_adapter = none;
    reboot_request = none;
  }

  -- `robusto_proxy_service_set_pubsub_adapter`
  abbrev pub set_pubsub_adapter : Service A → Option (Adapter A) → Service A
  set_pubsub_adapter s adapter = record s { pubsub_adapter = adapter }

  -- `robusto_proxy_service_set_reboot_handler`
  abbrev pub set_reboot_handler : Service A → Option (A → Bool × A) → Service A
  set_reboot_handler s reboot = record s { reboot_request = reboot }

  -- `robusto_proxy_service_tick`: the number of expired requests.
  unfoldable pub tick : Service A → ℕ → ℕ × Service A
  tick s now_ms =
      let (expired, inflight') = expire s.inflight now_ms in
      let s' : Service A = record s { inflight = inflight' } in
      if ltb 0 expired
      then (expired, record s' { session = (note_expired_requests s.session expired).1 })
      else (expired, s')

  -- `now_ms - service->started_at_ms`, in 32 bits.
  abbrev pub uptime : Service A → ℕ → ℕ
  uptime s now_ms = (now_ms + 2 ^ 32 - s.started_at_ms) % 2 ^ 32

  -- `robusto_proxy_service_build_health_response`, which succeeds when its pointers are given.
  unfoldable pub build_health_response : Service A → ℕ → HealthResponse
  build_health_response s now_ms = apply_health_metrics s.session (record {
    proxy_boot_id = s.session.local_boot_id;
    uptime_ms = uptime s now_ms;
    service_state = 0;
    reserved_0 = 0;
    reserved_1 = 0;
    reserved_2 = 0;
    requests = s.requests;
    events = s.events;
    errors = s.errors;
    timeouts = 0;
    rx_crc_errors = s.rx_crc_errors;
    queue_high_water = s.queue_high_water;
  })

  -- `requests += 1U`, `requests -= 1U` and `errors += 1U`, in 32 bits.
  abbrev pub counted : Service A → Service A
  counted s = record s { requests = (s.requests + 1) % 2 ^ 32 }

  abbrev pub uncounted : Service A → Service A
  uncounted s = record s { requests = (s.requests + 2 ^ 32 - 1) % 2 ^ 32 }

  abbrev pub erred : Service A → Service A
  erred s = record s { errors = (s.errors + 1) % 2 ^ 32 }

  -- `return false`
  abbrev pub refused : Service A → Output → A → Answer A
  refused s out world = record { handled = false; service = s; output = out; world = world }

  -- `return true`
  abbrev pub answered : Service A → Output → A → Answer A
  answered s out world = record { handled = true; service = s; output = out; world = world }

  -- A reply that is only a prefix: the service is left as `failed` where the encoder fails, and as
  -- `done` behind it.
  unfoldable pub reply_status : Service A → Service A → ℕ → Output → A → Answer A
  reply_status failed done status out world =
      elim (encoded
        (encode_response_prefix (some out.bytes) out.room (some (status_prefix status)))) [
          | none ↦ refused failed out world
          | some bytes ↦ answered done (record out { bytes = bytes; used = prefix_size }) world
        ]

  -- A reply with status OK whose payload of `size` bytes the encoder stores behind the prefix.
  unfoldable pub reply_payload :
      Service A
      → Service A
      → (Option (List ℕ) → ℕ → Run (ProxyResult × Option (List ℕ)))
      → ℕ
      → Output
      → A
      → Answer A
  reply_payload failed done encode size out world =
      elim (encoded (encode_response_prefix (some out.bytes) out.room (some (status_prefix 0)))) [
        | none ↦ refused failed out world
        | some bytes ↦
            elim (encoded (encode (some (drop prefix_size bytes)) (out.room - prefix_size))) [
              | none ↦ refused failed (record out { bytes = bytes }) world
              | some payload ↦
                  answered done
                    (record out {
                      bytes = take prefix_size bytes ++ payload;
                      used = prefix_size + size;
                    })
                    world
            ]
      ]
