-- ===== src/Service/Negotiation.antt =====
-- What HELLO negotiates.
use robusto.Prelude.{ℕ, ◌≤◌, ◌≡◌, refl, false, arith, IsByte, Bool-cases, inl, inr}
use robusto.Protocol.{profile_limits}
use robusto.Protocol.Messages.{HelloRequest, HelloResponse}
use robusto.Inflight
use robusto.Inflight.{clamp_capacity}
use robusto.Inflight.Invariant.{init-IsValid}
use robusto.Service.{Service}
use robusto.Service.Hello.{
  welcomed, opened, hello_response, negotiated_response, is_open_with, is_malformed,
}
use robusto.Service.Sound.{IsSoundSession, IsSound}

-- What HELLO negotiates stays within the limits of both ends.
pub record IsNegotiated {A : Type 0} (s : Service A) (r : HelloRequest) (m : HelloResponse)
    : Type 0 where
  pub some_requests : 1 ≤ m.selected_max_in_flight
  pub within_request : m.selected_max_in_flight ≤ r.max_in_flight
  pub within_local : m.selected_max_in_flight ≤ s.session.local_limits.max_in_flight
  pub some_payload : 1 ≤ m.selected_max_payload
  pub payload_request : m.selected_max_payload ≤ r.max_payload
  pub payload_local : m.selected_max_payload ≤ s.session.local_limits.request_pool_bytes

module _ {A : Type 0} where
  limits-positive :
      (s : Service A)
      → IsSoundSession s.session
      → (1 ≤ s.session.local_limits.max_in_flight) × (1 ≤ s.session.local_limits.request_pool_bytes)
  unfolding profile_limits
  limits-positive s sound = rw sound.local (ground arith)

  pub negotiated_response-IsNegotiated :
      (s : Service A) (r : HelloRequest) (now_ms : ℕ)
      → IsSoundSession s.session
      → is_malformed r ≡ false
      → IsNegotiated s r (negotiated_response s r now_ms)
  unfolding negotiated_response is_malformed
  negotiated_response-IsNegotiated s r now_ms sound fine =
      let limits = limits-positive s sound in
      record {
        some_requests = ground (arith, limits.0);
        within_request = ground arith;
        within_local = ground arith;
        some_payload = ground (arith, limits.1);
        payload_request = ground arith;
        payload_local = ground arith;
      }

  pub hello_response_new :
      (s : Service A) (r : HelloRequest) (now_ms : ℕ)
      → is_open_with s r ≡ false
      → hello_response s r now_ms ≡ negotiated_response s r now_ms
  unfolding hello_response
  hello_response_new s r now_ms other = rw other refl

  opened-IsSound :
      (s : Service A) (r : HelloRequest) (m : HelloResponse)
      → IsSound s
      → is_malformed r ≡ false
      → IsByte m.selected_protocol_major
      → IsByte m.selected_protocol_minor
      → IsNegotiated s r m
      → IsSound (opened s r m)
  unfolding opened is_malformed Inflight.init clamp_capacity
  opened-IsSound s r m sound fine major minor n = record {
    session = record {
      local = sound.session.local;
      major = major;
      minor = minor;
      sequence = sound.session.sequence;
      some_requests = λ open_now. n.some_requests;
      few_requests = λ open_now. ground (arith, n.within_request);
      some_payload = λ open_now. n.some_payload;
      small_payload = λ open_now. ground (arith, n.payload_request);
    };
    inflight = (init-IsValid m.selected_max_in_flight).0;
    callbacks = sound.callbacks;
    capacity = λ open_now. ground (arith, n.some_requests, n.within_request);
  }

  pub welcomed-IsSound :
      (s : Service A) (r : HelloRequest) (now_ms : ℕ)
      → IsSound s
      → is_malformed r ≡ false
      → IsSound (welcomed s r now_ms)
  unfolding welcomed
  welcomed-IsSound s r now_ms sound fine = elim (Bool-cases (is_open_with s r)) [
    | inl same ↦ rw same sound
    | inr other ↦
        rw (other, hello_response_new s r now_ms other)
          (opened-IsSound s r (negotiated_response s r now_ms) sound fine
            (unfold negotiated_response in omega arith) (unfold negotiated_response in omega arith)
            (negotiated_response-IsNegotiated s r now_ms sound.session fine))
  ]
