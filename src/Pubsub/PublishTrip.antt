-- ===== src/Pubsub/PublishTrip.antt =====
-- The requests of a publisher come back from their encoders through their decoders.
use robusto.Prelude.{
  ℕ, ◌+◌, ◌≤◌, ◌<◌, ◌^◌, ◌≡◌, ◌≢◌, refl, ap, ◌∙◌, true, some, List, ◌++◌, arith, take, drop, length,
  append_assoc, drop-drop, read_le64, read_le32, read_le16,
}
use robusto.Protocol.{ok}
use robusto.Pubsub.{pointed, topic_is_valid, max_inline_data}
use robusto.Pubsub.Pointed.{Holds, take-pointed, drop-pointed, topic_is_valid-pointed}
use robusto.Pubsub.Messages.{PublishRequest}
use robusto.Pubsub.Publish.{
  publish_header_size, encode_publish_request, decode_publish_request, publish_request_bytes,
  check_publish_request,
}

-- The widths of the fields, and the bytes behind the pointers.
pub record FitsPublishRequest (r : PublishRequest) : Type 0 where
  pub operation_id : r.operation_id < 2 ^ 64
  pub topic_length : r.topic_length < 2 ^ 16
  pub data_length : r.data_length < 2 ^ 32
  pub topic : Holds r.topic_length r.topic
  pub content : Holds r.data_length r.content

module _ (r : PublishRequest) (fits : FitsPublishRequest r) (rest : List ℕ) where
  abbrev sent : List ℕ
  sent = publish_request_bytes r ++ rest

  abbrev back : PublishRequest
  back = record {
    operation_id = r.operation_id;
    topic = some (drop 16 sent);
    topic_length = r.topic_length;
    content = some (drop (16 + r.topic_length) sent);
    data_length = r.data_length;
  }

  id-sent : read_le64 sent ≡ r.operation_id
  id-sent = omega (arith, fits.operation_id)

  topic_length-sent : read_le16 (drop 8 sent) ≡ r.topic_length
  topic_length-sent = omega (arith, fits.topic_length)

  data_length-sent : read_le32 (drop 12 sent) ≡ r.data_length
  data_length-sent = omega (arith, fits.data_length)

  body-sent :
      drop 16 sent ≡ pointed r.topic_length r.topic ++ (pointed r.data_length r.content ++ rest)
  body-sent = append_assoc (pointed r.topic_length r.topic) (pointed r.data_length r.content) rest

  topic-sent : take r.topic_length (drop 16 sent) ≡ pointed r.topic_length r.topic
  topic-sent = rw body-sent (take-pointed r.topic_length r.topic fits.topic _)

  content-sent :
      take r.data_length (drop (16 + r.topic_length) sent) ≡ pointed r.data_length r.content
  content-sent =
      ap (take r.data_length) (
        drop-drop 16 r.topic_length (16 + r.topic_length) sent refl
        ∙ ap (drop r.topic_length) body-sent
        ∙ drop-pointed r.topic_length r.topic fits.topic (pointed r.data_length r.content ++ rest))
      ∙ take-pointed r.data_length r.content fits.content rest

  decode-sent :
      (old : PublishRequest)
      → r.operation_id ≢ 0
      → topic_is_valid r.topic r.topic_length ≡ true
      → r.data_length ≤ max_inline_data
      → decode_publish_request
          (some sent)
          (publish_header_size + r.topic_length + r.data_length)
          (some old)
        ≡ (ok, some back)
  unfolding decode_publish_request check_publish_request
  decode-sent old nonzero valid short =
      let valid' : topic_is_valid (some (drop 16 sent)) r.topic_length ≡ true =
        topic_is_valid-pointed r.topic_length r.topic (drop 16 sent) topic-sent valid in
      ground (arith, id-sent, topic_length-sent, data_length-sent)

-- A publish request that `robusto_proxy_pubsub_encode_publish_request` takes, with the bytes that it
-- announces, comes back from its bytes through the decoder: the identifier, the topic and the data.
pub decode_publish_request-encode :
    (r : PublishRequest) (buffer : List ℕ) (buffer_size old_size : ℕ) (old : PublishRequest)
    → FitsPublishRequest r
    → (encode_publish_request (some buffer) buffer_size (some r) (some old_size)).0 ≡ ok
    → (out : List ℕ) × (topic : List ℕ) × (content : List ℕ) × (encode_publish_request
          (some buffer)
          buffer_size
          (some r)
          (some old_size)
        ≡ (ok, some out, some (publish_header_size + r.topic_length + r.data_length)))
      × (decode_publish_request
            (some out)
            (publish_header_size + r.topic_length + r.data_length)
            (some old)
          ≡ (ok, some (record r { topic = some topic; content = some content })))
      × (take r.topic_length topic ≡ pointed r.topic_length r.topic)
      × (take r.data_length content ≡ pointed r.data_length r.content)
unfolding encode_publish_request
decode_publish_request-encode r buffer buffer_size old_size old fits e =
    let rest : List ℕ = drop (length (publish_request_bytes r)) buffer in
    (
      sent r fits rest,
      drop 16 (sent r fits rest),
      drop (16 + r.topic_length) (sent r fits rest),
      ground arith,
      decode-sent r fits rest old (ground arith) (ground arith) (ground arith),
      topic-sent r fits rest,
      content-sent r fits rest,
    )
