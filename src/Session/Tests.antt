-- ===== src/Session/Tests.antt =====
-- Sessions at concrete values, and the theorems applied to them.
use robusto.Prelude.{◌+◌, ◌-◌, ◌%◌, ◌^◌, ◌≡◌, ◌≢◌, ◌↔◌, ◌⊎◌, refl, true, false, some, arith}
use robusto.Protocol.{low_memory, profile_limits, established, degraded, incompatible}
use robusto.Protocol.Messages.{HelloResponse, HealthResponse}
use robusto.Session.{
  Session, init, next_id, nonzero_u32, take_correlation_id, apply_hello_response,
  note_expired_requests, apply_health_metrics,
}
use robusto.Session.Ids.{
  HasIds, init-HasIds, after_takes, after_takes-id, take_correlation_id_distinct,
}
use robusto.Session.States.{
  IsCompatible, Negotiated, Degraded, apply_hello_response_cases,
  apply_health_metrics-note_expired_requests,
}

-- The last id before the wrap.
abbrev late : Session
late = init low_memory 9 0xFFFF_FFFF 0

late_wraps : (take_correlation_id (take_correlation_id late).1).0 ≡ 1
unfolding take_correlation_id next_id nonzero_u32 init
late_wraps = refl

abbrev answer : HelloResponse
answer = record {
  proxy_boot_id = 77;
  selected_protocol_major = 1;
  selected_protocol_minor = 0;
  reserved = 0;
  selected_max_payload = 4096;
  selected_max_in_flight = 2;
  dedupe_entries = 32;
  dedupe_window_ms = 10000;
  enabled_features = 1;
  proxy_uptime_ms = 5;
  reserved2 = 0;
}

answer_establishes : (apply_hello_response late (some answer)).1.state ≡ established
unfolding apply_hello_response init profile_limits
answer_establishes = refl

late-HasIds : HasIds late
late-HasIds = init-HasIds low_memory 9 0xFFFF_FFFF 0 (omega arith) (omega arith)

after_takes-id_example :
    (after_takes 3 late).next_correlation_id ≡ (late.next_correlation_id - 1 + 3) % (2 ^ 32 - 1) + 1
after_takes-id_example = after_takes-id 3 late late-HasIds

take_correlation_id_distinct_example :
    (take_correlation_id (after_takes 0 late)).0 ≢ (take_correlation_id (after_takes 5 late)).0
take_correlation_id_distinct_example =
    take_correlation_id_distinct late 0 5 late-HasIds (omega arith) (omega arith)

apply_hello_response_cases_example :
    let (done, t) = apply_hello_response late (some answer) in
    ((done ≡ true) ↔ IsCompatible late answer)
    × (((done ≡ true) × Negotiated late answer t)
        ⊎ ((done ≡ false)
            × (t.state ≡ incompatible)
            × (t.peer_boot_id ≡ late.peer_boot_id)
            × (t.enabled_features ≡ late.enabled_features)
            × (t.negotiated_limits ≡ late.negotiated_limits)))
    × (t.local_boot_id ≡ late.local_boot_id)
    × (t.local_limits ≡ late.local_limits)
    × (t.next_correlation_id ≡ late.next_correlation_id)
    × (t.next_sequence ≡ late.next_sequence)
apply_hello_response_cases_example = apply_hello_response_cases late answer

abbrev no_metrics : HealthResponse
no_metrics = record {
  proxy_boot_id = 0;
  uptime_ms = 0;
  service_state = 0;
  reserved_0 = 0;
  reserved_1 = 0;
  reserved_2 = 0;
  requests = 0;
  events = 0;
  errors = 0;
  timeouts = 0;
  rx_crc_errors = 0;
  queue_high_water = 0;
}

apply_health_metrics-note_expired_requests_example :
    let (noted, t) = note_expired_requests late 3 in
    (noted ≡ true)
    × Degraded late.state t.state
    × (((apply_health_metrics t no_metrics).service_state ≡ 2) ↔ (t.state ≡ degraded))
    × ((apply_health_metrics t no_metrics).timeouts ≡ (late.timeout_events + 3) % 2 ^ 32)
    × ((apply_health_metrics t no_metrics).requests ≡ 0)
apply_health_metrics-note_expired_requests_example =
    apply_health_metrics-note_expired_requests late no_metrics 3 (omega arith)
