-- ===== src/Pubsub/SubscribeTrip.antt =====
-- The request of a subscriber, and the status, come back from their encoders through their decoders.
use robusto.Prelude.{
  ℕ, ◌+◌, ◌≤◌, ◌<◌, ◌^◌, ◌≡◌, some, List, ◌++◌, arith, take, drop, length, read_le64, read_le16,
}
use robusto.Protocol.{ok}
use robusto.Pubsub.Pointed.{Holds, take-pointed, topic_is_valid-pointed}
use robusto.Pubsub.{pointed}
use robusto.Pubsub.Messages.{SubscribeRequest, StatusResponse}
use robusto.Pubsub.Subscribe.{
  subscribe_header_size, encode_subscribe_request, decode_subscribe_request,
  subscribe_request_bytes, check_subscribe_request, status_response_size, encode_status_response,
  decode_status_response, status_response_bytes, read_status_response,
}

pub record FitsSubscribeRequest (r : SubscribeRequest) : Type 0 where
  pub operation_id : r.operation_id < 2 ^ 64
  pub topic_length : r.topic_length < 2 ^ 16
  pub topic : Holds r.topic_length r.topic

module _ (r : SubscribeRequest) (fits : FitsSubscribeRequest r) (rest : List ℕ) where
  abbrev sent : List ℕ
  sent = subscribe_request_bytes r ++ rest

  id-sent : read_le64 sent ≡ r.operation_id
  id-sent = omega (arith, fits.operation_id)

  topic_length-sent : read_le16 (drop 8 sent) ≡ r.topic_length
  topic_length-sent = omega (arith, fits.topic_length)

  topic-sent : take r.topic_length (drop 12 sent) ≡ pointed r.topic_length r.topic
  topic-sent = take-pointed r.topic_length r.topic fits.topic rest

  decode-sent :
      (old : SubscribeRequest)
      → (encode_subscribe_request
          (some rest)
          (subscribe_header_size + r.topic_length)
          (some r)
          (some 0)).0
        ≡ ok
      → decode_subscribe_request (some sent) (subscribe_header_size + r.topic_length) (some old)
        ≡ (ok, some (record r { topic = some (drop 12 sent) }))
  unfolding decode_subscribe_request check_subscribe_request encode_subscribe_request
  decode-sent old e = ground (
    arith,
    id-sent,
    topic_length-sent,
    topic_is_valid-pointed r.topic_length r.topic (drop 12 sent) topic-sent,
  )

-- A subscribe request that `robusto_proxy_pubsub_encode_subscribe_request` takes, with the bytes that
-- it announces, comes back from its bytes through the decoder.
pub decode_subscribe_request-encode :
    (r : SubscribeRequest) (buffer : List ℕ) (buffer_size old_size : ℕ) (old : SubscribeRequest)
    → FitsSubscribeRequest r
    → (encode_subscribe_request (some buffer) buffer_size (some r) (some old_size)).0 ≡ ok
    → (out : List ℕ) × (topic : List ℕ) × (encode_subscribe_request
          (some buffer)
          buffer_size
          (some r)
          (some old_size)
        ≡ (ok, some out, some (subscribe_header_size + r.topic_length)))
      × (decode_subscribe_request (some out) (subscribe_header_size + r.topic_length) (some old)
          ≡ (ok, some (record r { topic = some topic })))
      × (take r.topic_length topic ≡ pointed r.topic_length r.topic)
unfolding encode_subscribe_request
decode_subscribe_request-encode r buffer buffer_size old_size old fits e =
    let rest : List ℕ = drop (length (subscribe_request_bytes r)) buffer in
    (
      sent r fits rest,
      drop 12 (sent r fits rest),
      ground arith,
      decode-sent r fits rest old (ground arith),
      topic-sent r fits rest,
    )

pub record FitsStatusResponse (r : StatusResponse) : Type 0 where
  pub state : r.state ≤ 3
  pub active_subscriptions : r.active_subscriptions < 2 ^ 32
  pub publish_requests : r.publish_requests < 2 ^ 32
  pub subscribe_requests : r.subscribe_requests < 2 ^ 32
  pub unsubscribe_requests : r.unsubscribe_requests < 2 ^ 32
  pub delivery_events : r.delivery_events < 2 ^ 32
  pub delivery_drops : r.delivery_drops < 2 ^ 32
  pub duplicate_operations : r.duplicate_operations < 2 ^ 32
  pub pubsub_errors : r.pubsub_errors < 2 ^ 32
  pub last_publish_status : r.last_publish_status < 2 ^ 16
  pub reserved : r.reserved ≡ 0
  pub last_publish_topic_hash : r.last_publish_topic_hash < 2 ^ 32
  pub last_publish_delivery_count : r.last_publish_delivery_count < 2 ^ 32
  pub last_publish_bytes : r.last_publish_bytes < 2 ^ 32

read_status-sent :
    (r : StatusResponse) (rest : List ℕ)
    → FitsStatusResponse r
    → read_status_response (status_response_bytes r ++ rest) ≡ r
read_status-sent r rest fits = ground arith

-- A status whose fields fit their widths, with a known state and the reserved field 0, comes back
-- from `robusto_proxy_pubsub_encode_status_response` through the decoder.
pub decode_status_response-encode :
    (r : StatusResponse) (buffer : List ℕ) (buffer_size : ℕ) (old : StatusResponse)
    → FitsStatusResponse r
    → status_response_size ≤ buffer_size
    → (out : List ℕ) × (encode_status_response (some buffer) buffer_size (some r) ≡ (ok, some out))
      × (decode_status_response (some out) status_response_size (some old) ≡ (ok, some r))
unfolding encode_status_response decode_status_response
decode_status_response-encode r buffer buffer_size old fits room =
    let rest : List ℕ = drop status_response_size buffer in
    (
      status_response_bytes r ++ rest,
      ground (arith, fits.state),
      ground (arith, fits.state, fits.reserved, read_status-sent r rest fits),
    )
