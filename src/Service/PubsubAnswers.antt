-- ===== src/Service/PubsubAnswers.antt =====
-- The branches of `robusto_proxy_service_handle_pubsub_request`: each gets a reply.
use robusto.Prelude.{
  ℕ, ◌+◌, ◌≤◌, ◌<◌, ◌^◌, ◌≡◌, false, Option, none, some, List, arith, Bool-cases, inl, inr, ◌!=◌,
  ◌==◌, ltb, bit_and, ◌||◌, ◌&&◌,
}
use robusto.Protocol.{ProxyResult, max_payload}
use robusto.Protocol.Status
use robusto.Control.{prefix_size}
use robusto.Pubsub.Messages.{PublishRequest, PublishBeginRequest, SubscribeRequest, StatusResponse}
use robusto.Pubsub.Subscribe.{status_response_size, encode_status_response}
use robusto.Service.{Adapter, Service, Output, is_established, counted}
use robusto.Service.Features.{pubsub, chunked_publish}
use robusto.Service.Branch.{
  encode_pubsub_result, conclude, conclude_with, refusal, topic_refusal, publish_refusal,
}
use robusto.Service.Pubsub.{
  handle_publish, handle_publish_begin, handle_publish_chunk, handle_publish_commit,
  handle_publish_abort, handle_subscribe, handle_unsubscribe, handle_status, dispatch, admit,
  is_chunked, handle_pubsub_request,
}
use robusto.Service.Replies.{IsBuffer, Replies}
use robusto.Service.Sound.{
  GivesStatus, GivesResponse, ReportsStatus, IsSoundAdapter, AreSoundCallbacks,
}
use robusto.Service.PubsubReply.{
  Encodes, Calls, publish-Encodes, subscribe-Encodes, unsubscribe-Encodes, status-Encodes,
  encode_pubsub_result-Replies, conclude-Replies, conclude_with-Replies, attempt-Replies,
}

refusal_width : (e : ProxyResult) → refusal e < 2 ^ 16
refusal_width e = ground arith

topic_refusal_width :
    (e : ProxyResult) (id : ℕ) (topic : Option (List ℕ)) (size : ℕ)
    → topic_refusal e id topic size < 2 ^ 16
topic_refusal_width e id topic size = ground arith

publish_refusal_width :
    (size : ℕ) (e : ProxyResult) (r : PublishRequest) → publish_refusal size e r < 2 ^ 16
publish_refusal_width size e r = ground arith

module _ {A : Type 0} (s : Service A) (out : Output) (world : A) (buffer : IsBuffer out) where
  status-Calls :
      {Q : Type 0} (callback : Option (Q → A → ℕ × A))
      → GivesStatus callback
      → Calls s (λ f r. conclude s out (f r world)) callback
  status-Calls none gives = tt
  status-Calls (some f) gives = λ r. conclude-Replies s out (f r world) buffer (gives r world)

  response-Calls :
      {Q R : Type 0} (Good : R → Type 0)
      (encode : Option (List ℕ) → ℕ → Option R → ProxyResult × Option (List ℕ)) (size : ℕ)
      (bytes : R → List ℕ) (callback : Option (Q → A → ℕ × (R × A)))
      → Encodes encode size bytes Good
      → prefix_size + size ≤ max_payload
      → GivesResponse Good callback
      → Calls s (λ f r. conclude_with encode size s out (f r world)) callback
  response-Calls Good encode size bytes none encodes small gives = tt
  response-Calls Good encode size bytes (some f) encodes small gives = λ r.
      conclude_with-Replies Good encode size bytes s out (f r world) encodes small buffer
        (gives r world)

  module _ (a : Adapter A) (sound : IsSoundAdapter a) (payload : Option (List ℕ)) (size : ℕ) where
    publish-Replies : Replies s (handle_publish s a payload size out world)
    unfolding handle_publish
    publish-Replies =
        attempt-Replies s out world _ _ _ a.publish _ buffer (publish_refusal_width size)
          (response-Calls _ _ _ _ a.publish publish-Encodes (omega arith) sound.publish)

    publish_begin-Replies : Replies s (handle_publish_begin s a payload size out world)
    unfolding handle_publish_begin
    publish_begin-Replies =
        attempt-Replies s out world _ _ _ a.publish_begin _ buffer
          (λ e (r : PublishBeginRequest).
            topic_refusal_width e r.operation_id r.topic r.topic_length)
          (status-Calls a.publish_begin sound.publish_begin)

    publish_chunk-Replies : Replies s (handle_publish_chunk s a payload size out world)
    unfolding handle_publish_chunk
    publish_chunk-Replies =
        attempt-Replies s out world _ _ _ a.publish_chunk _ buffer (λ e r. refusal_width e)
          (status-Calls a.publish_chunk sound.publish_chunk)

    publish_commit-Replies : Replies s (handle_publish_commit s a payload size out world)
    unfolding handle_publish_commit
    publish_commit-Replies =
        attempt-Replies s out world _ _ _ a.publish_commit _ buffer (λ e r. refusal_width e)
          (response-Calls _ _ _ _ a.publish_commit publish-Encodes (omega arith)
            sound.publish_commit)

    publish_abort-Replies : Replies s (handle_publish_abort s a payload size out world)
    unfolding handle_publish_abort
    publish_abort-Replies =
        attempt-Replies s out world _ _ _ a.publish_abort _ buffer (λ e r. refusal_width e)
          (status-Calls a.publish_abort sound.publish_abort)

    subscribe-Replies : Replies s (handle_subscribe s a payload size out world)
    unfolding handle_subscribe
    subscribe-Replies =
        attempt-Replies s out world _ _ _ a.subscribe _ buffer
          (λ e (r : SubscribeRequest). topic_refusal_width e r.operation_id r.topic r.topic_length)
          (response-Calls _ _ _ _ a.subscribe subscribe-Encodes (omega arith) sound.subscribe)

    unsubscribe-Replies : Replies s (handle_unsubscribe s a payload size out world)
    unfolding handle_unsubscribe
    unsubscribe-Replies =
        attempt-Replies s out world _ _ _ a.unsubscribe _ buffer (λ e r. refusal_width e)
          (response-Calls _ _ _ _ a.unsubscribe unsubscribe-Encodes (omega arith) sound.unsubscribe)

    status-Replies : Replies s (handle_status s a size out world)
    unfolding handle_status
    status-Replies = elim (Bool-cases (size != 0)) [
      | inl full ↦ rw full (
          encode_pubsub_result-Replies s Status.malformed_payload 0 out world buffer (omega arith)
            (omega arith))
      | inr empty ↦ rw empty (reported a.status sound.status)
    ]
      where
        reported :
            (callback : Option (A → ℕ × (StatusResponse × A)))
            → ReportsStatus callback
            → Replies s (elim callback [
              | none ↦ encode_pubsub_result s Status.capability_unavailable 0 out world
              | some status ↦
                  conclude_with encode_status_response status_response_size s out (status world)
            ])
        reported none gives =
            encode_pubsub_result-Replies s Status.capability_unavailable 0 out world buffer
              (omega arith) (omega arith)
        reported (some status) gives =
            conclude_with-Replies _ encode_status_response status_response_size _ s out
              (status world) status-Encodes (omega arith) buffer (gives world)

    dispatch-Replies : (opcode : ℕ) → Replies s (dispatch s a opcode payload size out world)
    unfolding dispatch
    dispatch-Replies opcode = ground (
      arith,
      publish-Replies,
      publish_begin-Replies,
      publish_chunk-Replies,
      publish_commit-Replies,
      publish_abort-Replies,
      subscribe-Replies,
      unsubscribe-Replies,
      status-Replies,
      encode_pubsub_result-Replies s Status.unsupported_opcode 0 out world buffer (omega arith)
          (omega arith),
    )

  admit-Replies :
      (adapter : Option (Adapter A)) (opcode : ℕ) (payload : Option (List ℕ)) (size : ℕ)
      → AreSoundCallbacks adapter
      → Replies s (admit s adapter opcode payload size out world)
  unfolding admit
  admit-Replies none opcode payload size callbacks =
      encode_pubsub_result-Replies s Status.capability_unavailable 0 out world buffer (omega arith)
        (omega arith)
  admit-Replies (some a) opcode payload size callbacks =
      let roomy : ltb out.room prefix_size ≡ false = ground (arith, buffer.room) in
      elim (Bool-cases (
        bit_and s.session.enabled_features pubsub == 0
        || (is_chunked opcode && bit_and s.session.enabled_features chunked_publish == 0))) [
          | inl lacking ↦ rw lacking (
              encode_pubsub_result-Replies s Status.capability_unavailable 0 out world buffer
                (omega arith) (omega arith))
          | inr able ↦ rw (able, roomy) (dispatch-Replies a callbacks payload size opcode)
        ]

module _ {A : Type 0} (s : Service A) (out : Output) (world : A) (buffer : IsBuffer out) where
  pub handle_pubsub_request-Replies :
      (opcode : ℕ) (payload : Option (List ℕ)) (size : ℕ)
      → AreSoundCallbacks s.pubsub_adapter
      → Replies s (handle_pubsub_request s opcode payload size out world)
  unfolding handle_pubsub_request
  handle_pubsub_request-Replies opcode payload size callbacks =
      elim (Bool-cases (is_established s.session.state)) [
        | inl opened ↦ rw opened (
            admit-Replies (counted s) out world buffer s.pubsub_adapter opcode payload size
              callbacks)
        | inr closed ↦ rw closed (
            encode_pubsub_result-Replies (counted s) Status.handshake_required 0 out world buffer
              (omega arith) (omega arith))
      ]
