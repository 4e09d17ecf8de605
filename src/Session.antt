-- ===== src/Session.antt =====
-- components/robusto/proxy/src/robusto_proxy_session.c: the session that the two ends negotiate.
pub mod Ids
pub mod States
mod Tests
use robusto.Prelude.{
  ℕ, ◌+◌, ◌%◌, ◌^◌, Bool, true, false, Option, none, some, ltb, ◌==◌, ◌!=◌, if◌then◌else◌,
}
use robusto.Protocol.{
  SessionState, reset, negotiating, established, degraded, incompatible, Profile, ProfileLimits,
  profile_limits, protocol_major,
}
use robusto.Protocol.Messages.{HelloResponse, HealthResponse}

-- `robusto_proxy_session_t`
pub record Session : Type 0 where
  pub state : SessionState
  pub local_profile : Profile
  pub local_limits : ProfileLimits
  pub negotiated_limits : ProfileLimits
  pub local_boot_id : ℕ
  pub peer_boot_id : ℕ
  pub enabled_features : ℕ
  pub selected_protocol_major : ℕ
  pub selected_protocol_minor : ℕ
  pub timeout_events : ℕ
  pub next_correlation_id : ℕ
  pub next_sequence : ℕ

-- `nonzero_u32`
unfoldable pub nonzero_u32 : ℕ → ℕ
nonzero_u32 value = if value == 0 then 1 else value

-- `robusto_proxy_session_init`
unfoldable pub init : Profile → ℕ → ℕ → ℕ → Session
init profile local_boot_id correlation_seed sequence_seed = record {
  state = reset;
  local_profile = profile;
  local_limits = profile_limits profile;
  negotiated_limits = profile_limits profile;
  local_boot_id = local_boot_id;
  peer_boot_id = 0;
  enabled_features = 0;
  selected_protocol_major = 0;
  selected_protocol_minor = 0;
  timeout_events = 0;
  next_correlation_id = nonzero_u32 correlation_seed;
  next_sequence = nonzero_u32 sequence_seed;
}

-- `robusto_proxy_session_reset`
unfoldable pub restart : Session → ℕ → ℕ → ℕ → Session
unfolding init
restart s new_local_boot_id correlation_seed sequence_seed =
    init s.local_profile new_local_boot_id correlation_seed sequence_seed

-- `nonzero_u32(value + 1U)`, a 32-bit sum.
unfoldable pub next_id : ℕ → ℕ
unfolding nonzero_u32
next_id value = nonzero_u32 ((value + 1) % 2 ^ 32)

-- `robusto_proxy_session_take_correlation_id`
unfoldable pub take_correlation_id : Session → ℕ × Session
take_correlation_id s =
    (s.next_correlation_id, record s { next_correlation_id = next_id s.next_correlation_id })

-- `robusto_proxy_session_take_sequence`
unfoldable pub take_sequence : Session → ℕ × Session
take_sequence s = (s.next_sequence, record s { next_sequence = next_id s.next_sequence })

-- `robusto_proxy_session_apply_hello_response` at a response that is there.
unfoldable pub apply_hello : Session → HelloResponse → Bool × Session
apply_hello s r =
    if r.selected_protocol_major != protocol_major
    then (false, record s { state = incompatible })
    else if ltb s.local_limits.request_pool_bytes r.selected_max_payload
    then (false, record s { state = incompatible })
    else (
      true,
      record s {
        peer_boot_id = r.proxy_boot_id;
        enabled_features = r.enabled_features;
        selected_protocol_major = r.selected_protocol_major;
        selected_protocol_minor = r.selected_protocol_minor;
        negotiated_limits = record {
          max_in_flight = r.selected_max_in_flight;
          max_subscriptions = s.local_limits.max_subscriptions;
          dedupe_entries = r.dedupe_entries;
          dedupe_window_ms = r.dedupe_window_ms;
          request_pool_bytes = r.selected_max_payload;
          response_pool_bytes = r.selected_max_payload;
        };
        state = established;
      },
    )

-- `robusto_proxy_session_apply_hello_response`
unfoldable pub apply_hello_response : Session → Option HelloResponse → Bool × Session
unfolding apply_hello
apply_hello_response s none = (false, s)
apply_hello_response s (some r) = apply_hello s r

-- An established session that saw a timeout is degraded; the other states stay.
abbrev pub degrade : SessionState → SessionState
degrade established = degraded
degrade reset = reset
degrade negotiating = negotiating
degrade degraded = degraded
degrade incompatible = incompatible

-- `robusto_proxy_session_note_expired_requests`
unfoldable pub note_expired_requests : Session → ℕ → Bool × Session
note_expired_requests s expired_count = if expired_count == 0 then (false, s) else (
  true,
  record s {
    timeout_events = (s.timeout_events + expired_count) % 2 ^ 32;
    state = degrade s.state;
  },
)

abbrev pub service_state : SessionState → ℕ
service_state established = 1
service_state degraded = 2
service_state reset = 0
service_state negotiating = 0
service_state incompatible = 0

-- `robusto_proxy_session_apply_health_metrics`: the response as it leaves it.
unfoldable pub apply_health_metrics : Session → HealthResponse → HealthResponse
apply_health_metrics s response = record response {
  service_state = service_state s.state;
  timeouts = s.timeout_events;
}
