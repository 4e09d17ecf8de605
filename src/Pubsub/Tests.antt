-- ===== src/Pubsub/Tests.antt =====
-- Topics and messages at concrete values, and the theorems applied to them.
use robusto.Prelude.{
  ℕ, ◌+◌, ◌≡◌, ◌≤◌, ◌↔◌, refl, true, false, some, none, List, [], ◌∷◌, All, arith, replicate, take,
}
use robusto.Protocol.{ok}
use robusto.Pubsub.{
  topic_is_valid, max_topic, scan, after_first, after_two, after_three, continuation, pointed,
}
use robusto.Pubsub.Utf8.{IsText, utf8}
use robusto.Pubsub.Topic.{topic_is_valid_iff}
use robusto.Pubsub.Messages.{PublishRequest, SubscribeRequest, DeliveryChunk}
use robusto.Pubsub.Publish.{publish_header_size, encode_publish_request, decode_publish_request}
use robusto.Pubsub.PublishTrip.{decode_publish_request-encode}
use robusto.Pubsub.Subscribe.{
  subscribe_header_size, encode_subscribe_request, decode_subscribe_request,
}
use robusto.Pubsub.SubscribeTrip.{decode_subscribe_request-encode}
use robusto.Pubsub.Delivery.{
  delivery_chunk_header_size, encode_delivery_chunk, decode_delivery_chunk,
}
use robusto.Pubsub.DeliveryTrip.{decode_delivery_chunk-encode}

-- "t", then the euro sign, and one byte behind the topic.
abbrev topic : List ℕ
topic = 116 ∷ 0xE2 ∷ 0x82 ∷ 0xAC ∷ 0 ∷ []

euro_is_valid : topic_is_valid (some topic) 4 ≡ true
unfolding topic_is_valid scan after_first after_three continuation
euro_is_valid = refl

-- The same with its last byte cut off.
cut_is_refused : topic_is_valid (some topic) 3 ≡ false
unfolding topic_is_valid scan after_first after_three continuation
cut_is_refused = refl

-- The control character U+0085.
next_line_is_valid : topic_is_valid (some (0xC2 ∷ 0x85 ∷ [])) 2 ≡ true
unfolding topic_is_valid scan after_first after_two continuation
next_line_is_valid = refl

topic_is_valid_iff_example : (topic_is_valid (some topic) 4 ≡ true) ↔ (
    (1 ≤ 4)
    × (4 ≤ max_topic)
    × ((points : List ℕ) × All IsText points × (utf8 points ≡ take 4 topic)))
topic_is_valid_iff_example = topic_is_valid_iff topic 4 (omega arith) (omega arith)

abbrev a_publish : PublishRequest
a_publish = record {
  operation_id = 9;
  topic = some topic;
  topic_length = 4;
  content = some (1 ∷ 2 ∷ 3 ∷ []);
  data_length = 3;
}

abbrev room : List ℕ
room = replicate 64 0xEE

abbrev old_publish : PublishRequest
old_publish = record {
  operation_id = 0;
  topic = none;
  topic_length = 0;
  content = none;
  data_length = 0;
}

decode_publish_request-encode_example :
    (out : List ℕ) × (topic' : List ℕ) × (content' : List ℕ) × (encode_publish_request
        (some room)
        64
        (some a_publish)
        (some 0)
      ≡ (ok, some out, some (publish_header_size + 4 + 3)))
    × (decode_publish_request (some out) (publish_header_size + 4 + 3) (some old_publish)
        ≡ (ok, some (record a_publish { topic = some topic'; content = some content' })))
    × (take 4 topic' ≡ pointed 4 (some topic))
    × (take 3 content' ≡ pointed 3 a_publish.content)
unfolding encode_publish_request topic_is_valid scan after_first after_three continuation
decode_publish_request-encode_example =
    decode_publish_request-encode a_publish room 64 0 old_publish
      (record {
        operation_id = omega arith;
        topic_length = omega arith;
        data_length = omega arith;
        topic = omega arith;
        content = omega arith;
      })
      refl

abbrev a_subscribe : SubscribeRequest
a_subscribe = record { operation_id = 10; topic = some topic; topic_length = 4; options = 1 }

abbrev old_subscribe : SubscribeRequest
old_subscribe = record { operation_id = 0; topic = none; topic_length = 0; options = 0 }

decode_subscribe_request-encode_example :
    (out : List ℕ) × (topic' : List ℕ) × (encode_subscribe_request
        (some room)
        64
        (some a_subscribe)
        (some 0)
      ≡ (ok, some out, some (subscribe_header_size + 4)))
    × (decode_subscribe_request (some out) (subscribe_header_size + 4) (some old_subscribe)
        ≡ (ok, some (record a_subscribe { topic = some topic' })))
    × (take 4 topic' ≡ pointed 4 (some topic))
unfolding encode_subscribe_request topic_is_valid scan after_first after_three continuation
decode_subscribe_request-encode_example =
    decode_subscribe_request-encode a_subscribe room 64 0 old_subscribe
      (record { operation_id = omega arith; topic_length = omega arith; topic = omega arith }) refl

abbrev a_chunk : DeliveryChunk
a_chunk = record {
  subscription_id = 3;
  delivery_sequence = 4;
  offset = 4080;
  content = some (5 ∷ 6 ∷ []);
  data_length = 2;
}

decode_delivery_chunk-encode_example :
    (out : List ℕ) × (content' : List ℕ) × (encode_delivery_chunk
        (some room)
        64
        (some a_chunk)
        (some 0)
      ≡ (ok, some out, some (delivery_chunk_header_size + 2)))
    × (decode_delivery_chunk (some out) (delivery_chunk_header_size + 2) (some a_chunk)
        ≡ (ok, some (record a_chunk { content = some content' })))
    × (take 2 content' ≡ pointed 2 a_chunk.content)
unfolding encode_delivery_chunk
decode_delivery_chunk-encode_example =
    decode_delivery_chunk-encode a_chunk room 64 0 a_chunk
      (record {
        subscription_id = omega arith;
        delivery_sequence = omega arith;
        offset = omega arith;
        data_length = omega arith;
        content = omega arith;
      })
      refl
