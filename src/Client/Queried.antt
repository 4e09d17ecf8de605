-- ===== src/Client/Queried.antt =====
-- The queries of the client, and the boot of the peer.
use robusto.Prelude.{
  ℕ, ◌≡◌, inl, inr, refl, Bool-cases, true, Option, some, none, List, arith, ◌!=◌,
}
use robusto.Protocol.{ProxyResult, ok}
use robusto.Protocol.Messages.{HealthResponse}
use robusto.RetVal.{is_ok}
use robusto.Control.{Run, returns, fault}
use robusto.Control.Reports.{decode_health_response}
use robusto.Client.{Env, Client}
use robusto.Client.Request.{Done}
use robusto.Client.Connect.{
  PubsubClient, Returned, lose_session, take_response, read_response, after_query, query_health,
  after_health,
}

-- Where it succeeds, a message is there, and its boot is the boot that the session knows.
pub record IsCurrent {R W : Type 0} (boot_id : R → ℕ) (q : Returned W × Option R) : Type 0 where
  pub message : R
  pub stored : q.1 ≡ some message
  pub boot : boot_id message ≡ q.0.1.0.session.peer_boot_id

module _ {W : Type 0} (pubsub : PubsubClient W) {R : Type 0}
    (decode : Option (List ℕ) → ℕ → Option R → Run (ProxyResult × Option R)) (boot_id : R → ℕ) where
  take_response-IsCurrent :
      (c : Client) (w : W) (run : Run (ProxyResult × Option R)) (old : Option R)
      → is_ok (take_response pubsub decode boot_id c w run old).0.0 ≡ true
      → IsCurrent boot_id (take_response pubsub decode boot_id c w run old)
  unfolding take_response lose_session
  take_response-IsCurrent c w fault old h = cc
  take_response-IsCurrent c w (returns (ok, none)) old h = cc
  take_response-IsCurrent c w (returns (ok, some m)) old h =
      elim (Bool-cases (boot_id m != c.session.peer_boot_id)) [
        | inl other ↦ let h' = rw other at h in cc
        | inr same ↦ rw same (record { message = m; stored = refl; boot = ground arith })
      ]
  take_response-IsCurrent c w (returns (_, m)) old h = cc

  read_response-IsCurrent :
      (c : Client) (w : W) (payload : Option (ℕ × ℕ)) (old : Option R)
      → is_ok (read_response pubsub decode boot_id c w payload old).0.0 ≡ true
      → IsCurrent boot_id (read_response pubsub decode boot_id c w payload old)
  unfolding read_response
  read_response-IsCurrent c w none old h = cc
  read_response-IsCurrent c w (some (offset, size)) old h = take_response-IsCurrent c w _ old h

  after_query-IsCurrent :
      (d : Done W) (old : Option R)
      → is_ok (after_query pubsub decode boot_id d old).0.0 ≡ true
      → IsCurrent boot_id (after_query pubsub decode boot_id d old)
  unfolding after_query
  after_query-IsCurrent d old h = elim (Bool-cases (is_ok d.result)) [
    | inl fine ↦
        let h' = rw fine at h in rw fine (read_response-IsCurrent d.client d.world d.payload old h')
    | inr bad ↦ let h' = rw bad at h in cc
  ]

module _ {W : Type 0} (pubsub : PubsubClient W) where
  after_health-IsCurrent :
      (d : Done W) (old : Option HealthResponse)
      → is_ok (after_health pubsub d old).0.0 ≡ true
      → IsCurrent (λ (m : HealthResponse). m.proxy_boot_id) (after_health pubsub d old)
  unfolding after_health
  after_health-IsCurrent d old h = elim (Bool-cases (is_ok d.result)) [
    | inl fine ↦
        let h' = rw fine at h in
        rw fine (
          (read_response-IsCurrent pubsub decode_health_response
            (λ (m : HealthResponse). m.proxy_boot_id)
            (record d.client { consecutive_health_timeouts = 0 }) d.world d.payload old h'))
    | inr bad ↦ let h' = rw bad at h in cc
  ]

  -- Where `robusto_proxy_client_query_health` succeeds, it stores a message, and the boot in it is the
  -- boot of the peer that the session has then.
  pub query_health-IsCurrent :
      (env : Env W) (c : Client) (w : W) (old : HealthResponse)
      → is_ok (query_health pubsub env c w old).0.0 ≡ true
      → IsCurrent (λ (m : HealthResponse). m.proxy_boot_id) (query_health pubsub env c w old)
  unfolding query_health
  query_health-IsCurrent env c w old h = after_health-IsCurrent _ (some old) h
