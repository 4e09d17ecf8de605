-- ===== src/Session/States.antt =====
-- How a session changes state.
use robusto.Prelude.{
  ℕ, ◌+◌, ◌%◌, ◌^◌, ◌≤◌, ◌<◌, ◌≡◌, ◌≢◌, ◌↔◌, ◌⊎◌, inl, inr, refl, arith, true, false, some,
}
use robusto.Protocol.{SessionState, established, degraded, incompatible, protocol_major}
use robusto.Protocol.Messages.{HelloResponse, HealthResponse}
use robusto.Session.{
  Session, apply_hello_response, note_expired_requests, apply_health_metrics, degrade,
  service_state,
}

-- What a session needs from a HELLO response.
abbrev pub IsCompatible : Session → HelloResponse → Type 0
IsCompatible s r =
    (r.selected_protocol_major ≡ protocol_major)
    × (r.selected_max_payload ≤ s.local_limits.request_pool_bytes)

-- What the session takes over from a compatible response.
abbrev pub Negotiated : Session → HelloResponse → Session → Type 0
Negotiated s r t =
    (t.state ≡ established)
    × (t.peer_boot_id ≡ r.proxy_boot_id)
    × (t.enabled_features ≡ r.enabled_features)
    × (t.selected_protocol_major ≡ r.selected_protocol_major)
    × (t.selected_protocol_minor ≡ r.selected_protocol_minor)
    × (t.negotiated_limits.max_in_flight ≡ r.selected_max_in_flight)
    × (t.negotiated_limits.dedupe_entries ≡ r.dedupe_entries)
    × (t.negotiated_limits.dedupe_window_ms ≡ r.dedupe_window_ms)
    × (t.negotiated_limits.request_pool_bytes ≡ r.selected_max_payload)
    × (t.negotiated_limits.response_pool_bytes ≡ r.selected_max_payload)
    × (t.negotiated_limits.request_pool_bytes ≤ s.local_limits.request_pool_bytes)
    × (t.negotiated_limits.max_subscriptions ≡ s.local_limits.max_subscriptions)

-- A HELLO response establishes the session exactly when it has the protocol's major version and a
-- payload within the local pool. The session then has the peer, the features, the versions, the
-- requests in flight and the deduplication limits of the response, its payload as the size of both
-- pools, and the local number of subscriptions. Any other response leaves the state `incompatible`
-- and the peer, the features and the limits that were negotiated before. The boot id, the limits and
-- the ids of the local side are never changed.
pub apply_hello_response_cases :
    (s : Session) (r : HelloResponse)
    → let (done, t) = apply_hello_response s (some r) in
      ((done ≡ true) ↔ IsCompatible s r)
      × (((done ≡ true) × Negotiated s r t)
          ⊎ ((done ≡ false)
              × (t.state ≡ incompatible)
              × (t.peer_boot_id ≡ s.peer_boot_id)
              × (t.enabled_features ≡ s.enabled_features)
              × (t.negotiated_limits ≡ s.negotiated_limits)))
      × (t.local_boot_id ≡ s.local_boot_id)
      × (t.local_limits ≡ s.local_limits)
      × (t.next_correlation_id ≡ s.next_correlation_id)
      × (t.next_sequence ≡ s.next_sequence)
unfolding apply_hello_response
apply_hello_response_cases s r = (
  (ground arith, ground arith),
  ground arith,
  ground arith,
  ground arith,
  ground arith,
  ground arith,
)

-- Where a session in state `s` is after requests have timed out.
abbrev pub Degraded : SessionState → SessionState → Type 0
Degraded s t = ((s ≡ established) × (t ≡ degraded)) ⊎ ((s ≢ established) × (t ≡ s))

degrade_cases : (s : SessionState) → Degraded s (degrade s)
degrade_cases established = inl (refl, refl)
degrade_cases _ = inr ((λ e. cc), refl)

service_state_degraded : (s : SessionState) → (service_state s ≡ 2) ↔ (s ≡ degraded)
service_state_degraded degraded = ((λ e. refl), (λ e. refl))
service_state_degraded _ = ((λ e. absurd (omega arith)), (λ e. cc))

-- Requests that time out degrade an established session, and no other one. The health metrics then
-- report the timeouts, counted modulo 2 ^ 32, and service state 2 exactly if the session is degraded.
pub apply_health_metrics-note_expired_requests :
    (s : Session) (m : HealthResponse) (expired : ℕ)
    → 0 < expired
    → let (noted, t) = note_expired_requests s expired in
      (noted ≡ true)
      × Degraded s.state t.state
      × (((apply_health_metrics t m).service_state ≡ 2) ↔ (t.state ≡ degraded))
      × ((apply_health_metrics t m).timeouts ≡ (s.timeout_events + expired) % 2 ^ 32)
      × ((apply_health_metrics t m).requests ≡ m.requests)
unfolding note_expired_requests apply_health_metrics
apply_health_metrics-note_expired_requests s m expired h = (
  ground arith,
  ground (arith, degrade_cases s.state),
  service_state_degraded (note_expired_requests s expired).1.state,
  ground arith,
  ground arith,
)
