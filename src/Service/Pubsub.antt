-- ===== src/Service/Pubsub.antt =====
-- proxy/src/robusto_proxy_service.c: `robusto_proxy_service_handle_pubsub_request`.
use robusto.Prelude.{
  ℕ, Bool, not, ◌&&◌, ◌||◌, Option, none, some, List, bit_and, ltb, leb, ◌==◌, ◌!=◌, if◌then◌else◌,
}
use robusto.Protocol.Status
use robusto.Protocol.PubsubOpcode
use robusto.Control.{prefix_size}
use robusto.Pubsub.Messages.{
  PublishRequest, PublishBeginRequest, PublishChunkRequest, PublishTransferRequest,
  SubscribeRequest, UnsubscribeRequest,
}
use robusto.Pubsub.Publish.{
  publish_response_size, decode_publish_request, decode_publish_begin_request,
  decode_publish_chunk_request, decode_publish_transfer_request, encode_publish_response,
}
use robusto.Pubsub.Subscribe.{
  subscribe_response_size, unsubscribe_response_size, status_response_size,
  decode_subscribe_request, decode_unsubscribe_request, encode_subscribe_response,
  encode_unsubscribe_response, encode_status_response,
}
use robusto.Service.{Adapter, Service, Output, Answer, is_established, counted, uncounted, refused}
use robusto.Service.Features.{pubsub, chunked_publish}
use robusto.Service.Branch.{
  refusal, topic_refusal, publish_refusal, encode_pubsub_result, conclude, conclude_with, attempt,
}

abbrev blank_publish : PublishRequest
blank_publish = record {
  operation_id = 0;
  topic = none;
  topic_length = 0;
  content = none;
  data_length = 0;
}

abbrev blank_begin : PublishBeginRequest
blank_begin = record { operation_id = 0; topic = none; topic_length = 0; data_length = 0 }

abbrev blank_chunk : PublishChunkRequest
blank_chunk = record { operation_id = 0; offset = 0; content = none; data_length = 0 }

abbrev blank_transfer : PublishTransferRequest
blank_transfer = record { operation_id = 0 }

abbrev blank_subscribe : SubscribeRequest
blank_subscribe = record { operation_id = 0; topic = none; topic_length = 0; options = 0 }

abbrev blank_unsubscribe : UnsubscribeRequest
blank_unsubscribe = record { operation_id = 0; subscription_id = 0 }

-- The requests that need the feature of chunks.
abbrev pub is_chunked : ℕ → Bool
is_chunked opcode = leb PubsubOpcode.publish_begin opcode && leb opcode PubsubOpcode.publish_abort

module _ {A : Type 0} where
  unfoldable pub handle_publish :
      Service A → Adapter A → Option (List ℕ) → ℕ → Output → A → Answer A
  handle_publish s a payload payload_size out world =
      attempt s out world blank_publish (publish_refusal payload_size) a.publish
        (λ publish r.
          conclude_with encode_publish_response publish_response_size s out (publish r world))
        (decode_publish_request payload payload_size (some blank_publish))

  unfoldable pub handle_publish_begin :
      Service A → Adapter A → Option (List ℕ) → ℕ → Output → A → Answer A
  handle_publish_begin s a payload payload_size out world =
      attempt s out world blank_begin
        (λ result (r : PublishBeginRequest).
          topic_refusal result r.operation_id r.topic r.topic_length)
        a.publish_begin (λ publish_begin r. conclude s out (publish_begin r world))
        (decode_publish_begin_request payload payload_size (some blank_begin))

  unfoldable pub handle_publish_chunk :
      Service A → Adapter A → Option (List ℕ) → ℕ → Output → A → Answer A
  handle_publish_chunk s a payload payload_size out world =
      attempt s out world blank_chunk (λ result r. refusal result) a.publish_chunk
        (λ publish_chunk r. conclude s out (publish_chunk r world))
        (decode_publish_chunk_request payload payload_size (some blank_chunk))

  unfoldable pub handle_publish_commit :
      Service A → Adapter A → Option (List ℕ) → ℕ → Output → A → Answer A
  handle_publish_commit s a payload payload_size out world =
      attempt s out world blank_transfer (λ result r. refusal result) a.publish_commit
        (λ publish_commit r.
          conclude_with encode_publish_response publish_response_size s out
            (publish_commit r world))
        (decode_publish_transfer_request payload payload_size (some blank_transfer))

  unfoldable pub handle_publish_abort :
      Service A → Adapter A → Option (List ℕ) → ℕ → Output → A → Answer A
  handle_publish_abort s a payload payload_size out world =
      attempt s out world blank_transfer (λ result r. refusal result) a.publish_abort
        (λ publish_abort r. conclude s out (publish_abort r world))
        (decode_publish_transfer_request payload payload_size (some blank_transfer))

  unfoldable pub handle_subscribe :
      Service A → Adapter A → Option (List ℕ) → ℕ → Output → A → Answer A
  handle_subscribe s a payload payload_size out world =
      attempt s out world blank_subscribe
        (λ result (r : SubscribeRequest).
          topic_refusal result r.operation_id r.topic r.topic_length)
        a.subscribe
        (λ subscribe r.
          conclude_with encode_subscribe_response subscribe_response_size s out (subscribe r world))
        (decode_subscribe_request payload payload_size (some blank_subscribe))

  unfoldable pub handle_unsubscribe :
      Service A → Adapter A → Option (List ℕ) → ℕ → Output → A → Answer A
  handle_unsubscribe s a payload payload_size out world =
      attempt s out world blank_unsubscribe (λ result r. refusal result) a.unsubscribe
        (λ unsubscribe r.
          conclude_with encode_unsubscribe_response unsubscribe_response_size s out
            (unsubscribe r world))
        (decode_unsubscribe_request payload payload_size (some blank_unsubscribe))

  unfoldable pub handle_status : Service A → Adapter A → ℕ → Output → A → Answer A
  handle_status s a payload_size out world =
      if payload_size != 0
      then encode_pubsub_result s Status.malformed_payload 0 out world
      else elim a.status [
        | none ↦ encode_pubsub_result s Status.capability_unavailable 0 out world
        | some status ↦
            conclude_with encode_status_response status_response_size s out (status world)
      ]

  -- The branches by opcode.
  unfoldable pub dispatch : Service A → Adapter A → ℕ → Option (List ℕ) → ℕ → Output → A → Answer A
  dispatch s a opcode payload size out world =
      if opcode == PubsubOpcode.publish
      then handle_publish s a payload size out world
      else if opcode == PubsubOpcode.publish_begin
      then handle_publish_begin s a payload size out world
      else if opcode == PubsubOpcode.publish_chunk
      then handle_publish_chunk s a payload size out world
      else if opcode == PubsubOpcode.publish_commit
      then handle_publish_commit s a payload size out world
      else if opcode == PubsubOpcode.publish_abort
      then handle_publish_abort s a payload size out world
      else if opcode == PubsubOpcode.subscribe
      then handle_subscribe s a payload size out world
      else if opcode == PubsubOpcode.unsubscribe
      then handle_unsubscribe s a payload size out world
      else if opcode == PubsubOpcode.status
      then handle_status s a size out world
      else encode_pubsub_result s Status.unsupported_opcode 0 out world

  -- From the test of the features on.
  unfoldable pub admit :
      Service A → Option (Adapter A) → ℕ → Option (List ℕ) → ℕ → Output → A → Answer A
  admit s none opcode payload size out world =
      encode_pubsub_result s Status.capability_unavailable 0 out world
  admit s (some a) opcode payload size out world =
      if bit_and s.session.enabled_features pubsub == 0
        || (is_chunked opcode && bit_and s.session.enabled_features chunked_publish == 0)
      then encode_pubsub_result s Status.capability_unavailable 0 out world
      else if ltb out.room prefix_size
      then refused (uncounted s) out world
      else dispatch s a opcode payload size out world

  -- `robusto_proxy_service_handle_pubsub_request`, its pointers given, but for the request's payload.
  unfoldable pub handle_pubsub_request : Service A → ℕ → Option (List ℕ) → ℕ → Output → A → Answer A
  handle_pubsub_request s opcode payload size out world =
      let s' : Service A = counted s in
      if not (is_established s.session.state)
      then encode_pubsub_result s' Status.handshake_required 0 out world
      else admit s' s.pubsub_adapter opcode payload size out world
