-- ===== src/Client/Connected.antt =====
-- The session behind a connect.
use robusto.Prelude.{
  overwrite, ℕ, ◌≡◌, ◌≤◌, ◌⊎◌, inl, inr, refl, ◌∙◌, Bool, true, false, ◌&&◌, Option, none, some,
  arith, bit_and, ◌==◌, ◌!=◌, Bool-cases,
}
use robusto.Protocol.{ok, reset, established, degraded, incompatible}
use robusto.Protocol.Messages.{HelloResponse}
use robusto.RetVal.{is_ok}
use robusto.Session.{Session, apply_hello_response, apply_hello}
use robusto.Inflight
use robusto.Control.Hello.{hello_request_size, hello_request_bytes, encode_hello_request}
use robusto.Control.{returns}
use robusto.Client.{Env, Client}
use robusto.Client.Request.{Done}
use robusto.Client.Connect.{
  PubsubClient, Returned, hello_payload, reconciled, renew, applied, judge_hello, after_hello,
  send_hello, connect, hello_request,
}

-- A pubsub client that succeeds leaves the state of the session as it was.
pub record LeavesState {W : Type 0} (pubsub : PubsubClient W) : Type 0 where
  pub session_reset :
      (c : Client) (w : W) → (pubsub.session_reset c w).0.session.state ≡ c.session.state
  pub reconcile :
      (c : Client) (w : W)
      → is_ok (pubsub.reconcile c w).0 ≡ true
      → (pubsub.reconcile c w).1.0.session.state ≡ c.session.state

-- Success with an open session, or a failure with one that is not open.
abbrev pub IsSettled : {W : Type 0} → Returned W → Type 0
IsSettled r =
    ((is_ok r.0 ≡ true) × (r.1.0.session.state ≡ established))
    ⊎ ((is_ok r.0 ≡ false)
        × ((r.1.0.session.state ≡ reset)
            ⊎ ((r.1.0.session.state ≡ incompatible) ⊎ (r.1.0.session.state ≡ degraded))))

encode-hello_request :
    (c : Client)
    → hello_request_size ≤ c.response_frame_size
    → encode_hello_request (some c.response_frame) c.response_frame_size (some (hello_request c))
      ≡ returns (ok, some (overwrite (hello_request_bytes (hello_request c)) c.response_frame))
unfolding encode_hello_request
encode-hello_request c room = ground arith

module _ {W : Type 0} (pubsub : PubsubClient W) (leaves : LeavesState pubsub) where
  reconciled-IsSettled :
      (r : Returned W)
      → (is_ok r.0 ≡ true → r.1.0.session.state ≡ established)
      → IsSettled (reconciled pubsub r)
  unfolding reconciled
  reconciled-IsSettled (result, (c, w)) opened = elim (Bool-cases (is_ok result)) [
    | inl fine ↦ rw fine (inl (fine, opened fine))
    | inr bad ↦ rw bad (inr (bad, inr (inr refl)))
  ]

  renew_state :
      (previous : ℕ) (c : Client) (w : W)
      → (renew pubsub previous c w).0.session.state ≡ c.session.state
  unfolding renew
  renew_state previous c w =
      elim (Bool-cases (previous != 0 && previous != c.session.peer_boot_id)) [
        | inl other ↦ rw other (leaves.session_reset c w)
        | inr same ↦ rw same refl
      ]

  applied-IsSettled :
      (previous : ℕ) (c : Client) (w : W) (outcome : Bool × Session)
      → (outcome.0 ≡ true → outcome.1.state ≡ established)
      → IsSettled (applied pubsub previous c w outcome)
  unfolding applied
  applied-IsSettled previous c w (false, s) opened = inr (refl, inr (inl refl))
  applied-IsSettled previous c w (true, s) opened =
      let c' : Client = record c {
        session = s;
        inflight = Inflight.init s.negotiated_limits.max_in_flight;
        consecutive_health_timeouts = 0;
      } in
      reconciled-IsSettled _ (λ fine.
        leaves.reconcile (renew pubsub previous c' w).0 (renew pubsub previous c' w).1 fine
        ∙ renew_state previous c' w
        ∙ opened refl)

  judge_hello-IsSettled :
      (previous : ℕ) (c : Client) (w : W) (r : Option HelloResponse)
      → IsSettled (judge_hello pubsub previous c w r)
  unfolding judge_hello
  judge_hello-IsSettled previous c w none = inr (refl, inr (inl refl))
  judge_hello-IsSettled previous c w (some r) =
      elim (Bool-cases (bit_and r.enabled_features 1 == 0)) [
        | inl lacking ↦ rw lacking (inr (refl, inr (inl refl)))
        | inr able ↦ rw able (
            applied-IsSettled previous c w (apply_hello_response c.session (some r))
              (unfold apply_hello_response apply_hello in ground arith))
      ]

  after_hello-IsSettled : (previous : ℕ) (d : Done W) → IsSettled (after_hello pubsub previous d)
  unfolding after_hello
  after_hello-IsSettled previous d = elim (Bool-cases (is_ok d.result)) [
    | inl fine ↦
        rw fine (judge_hello-IsSettled previous d.client d.world (hello_payload d.client d.payload))
    | inr bad ↦ rw bad (inr (bad, inl refl))
  ]

  -- With room for HELLO in the response frame, and a pubsub client that leaves the session's state where it succeeds,
  -- `robusto_proxy_client_connect` opens the session if it succeeds; if it fails, the session is reset,
  -- incompatible or degraded, and never still negotiating.
  pub connect-IsSettled :
      (env : Env W) (c : Client) (w : W)
      → hello_request_size ≤ c.response_frame_size
      → IsSettled (connect pubsub env c w)
  unfolding connect send_hello
  connect-IsSettled env c w room =
      rw (encode-hello_request c room) (after_hello-IsSettled c.session.peer_boot_id _)
