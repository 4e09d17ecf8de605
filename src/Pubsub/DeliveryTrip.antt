-- ===== src/Pubsub/DeliveryTrip.antt =====
-- Chunks of a publication, and deliveries, come back from their encoders through their decoders.
use robusto.Prelude.{
  ℕ, ◌+◌, ◌<◌, ◌^◌, ◌≡◌, some, List, ◌++◌, arith, take, drop, length, read_le64, read_le32,
}
use robusto.Protocol.{ok}
use robusto.Pubsub.Pointed.{Holds, take-pointed}
use robusto.Pubsub.{pointed}
use robusto.Pubsub.Messages.{PublishChunkRequest, Delivery, DeliveryChunk}
use robusto.Pubsub.Publish.{
  publish_chunk_header_size, encode_publish_chunk_request, decode_publish_chunk_request,
  publish_chunk_request_bytes, check_publish_chunk_request,
}
use robusto.Pubsub.Delivery.{
  delivery_header_size, encode_delivery, decode_delivery, delivery_bytes, check_delivery,
  delivery_chunk_header_size, encode_delivery_chunk, decode_delivery_chunk, delivery_chunk_bytes,
  check_delivery_chunk,
}

pub record FitsPublishChunkRequest (r : PublishChunkRequest) : Type 0 where
  pub operation_id : r.operation_id < 2 ^ 64
  pub offset : r.offset < 2 ^ 32
  pub data_length : r.data_length < 2 ^ 32
  pub content : Holds r.data_length r.content

module _ (r : PublishChunkRequest) (fits : FitsPublishChunkRequest r) (rest : List ℕ) where
  abbrev sent_publish_chunk_request : List ℕ
  sent_publish_chunk_request = publish_chunk_request_bytes r ++ rest

  operation_id-sent_publish_chunk_request : read_le64 sent_publish_chunk_request ≡ r.operation_id
  operation_id-sent_publish_chunk_request = omega (arith, fits.operation_id)

  offset-sent_publish_chunk_request : read_le32 (drop 8 sent_publish_chunk_request) ≡ r.offset
  offset-sent_publish_chunk_request = omega (arith, fits.offset)

  data_length-sent_publish_chunk_request :
      read_le32 (drop 12 sent_publish_chunk_request) ≡ r.data_length
  data_length-sent_publish_chunk_request = omega (arith, fits.data_length)

  content-sent_publish_chunk_request :
      take r.data_length (drop 16 sent_publish_chunk_request) ≡ pointed r.data_length r.content
  content-sent_publish_chunk_request = take-pointed r.data_length r.content fits.content rest

  decode-sent_publish_chunk_request :
      (old : PublishChunkRequest)
      → (encode_publish_chunk_request
          (some rest)
          (publish_chunk_header_size + r.data_length)
          (some r)
          (some 0)).0
        ≡ ok
      → decode_publish_chunk_request
          (some sent_publish_chunk_request)
          (publish_chunk_header_size + r.data_length)
          (some old)
        ≡ (ok, some (record r { content = some (drop 16 sent_publish_chunk_request) }))
  unfolding decode_publish_chunk_request check_publish_chunk_request encode_publish_chunk_request
  decode-sent_publish_chunk_request old e = ground (
    arith, operation_id-sent_publish_chunk_request, offset-sent_publish_chunk_request,
    data_length-sent_publish_chunk_request,
  )

-- A chunk that `robusto_proxy_pubsub_encode_publish_chunk_request` takes, with the bytes that it announces,
-- comes back from its bytes through the decoder.
pub decode_publish_chunk_request-encode :
    (r : PublishChunkRequest) (buffer : List ℕ) (buffer_size old_size : ℕ)
    (old : PublishChunkRequest)
    → FitsPublishChunkRequest r
    → (encode_publish_chunk_request (some buffer) buffer_size (some r) (some old_size)).0 ≡ ok
    → (out : List ℕ) × (content : List ℕ) × (encode_publish_chunk_request
          (some buffer)
          buffer_size
          (some r)
          (some old_size)
        ≡ (ok, some out, some (publish_chunk_header_size + r.data_length)))
      × (decode_publish_chunk_request
            (some out)
            (publish_chunk_header_size + r.data_length)
            (some old)
          ≡ (ok, some (record r { content = some content })))
      × (take r.data_length content ≡ pointed r.data_length r.content)
unfolding encode_publish_chunk_request
decode_publish_chunk_request-encode r buffer buffer_size old_size old fits e =
    let rest : List ℕ = drop (length (publish_chunk_request_bytes r)) buffer in
    (
      sent_publish_chunk_request r fits rest,
      drop 16 (sent_publish_chunk_request r fits rest),
      ground arith,
      decode-sent_publish_chunk_request r fits rest old (ground arith),
      content-sent_publish_chunk_request r fits rest,
    )

pub record FitsDelivery (r : Delivery) : Type 0 where
  pub subscription_id : r.subscription_id < 2 ^ 32
  pub delivery_sequence : r.delivery_sequence < 2 ^ 32
  pub data_length : r.data_length < 2 ^ 32
  pub content : Holds r.data_length r.content

module _ (r : Delivery) (fits : FitsDelivery r) (rest : List ℕ) where
  abbrev sent_delivery : List ℕ
  sent_delivery = delivery_bytes r ++ rest

  subscription_id-sent_delivery : read_le32 sent_delivery ≡ r.subscription_id
  subscription_id-sent_delivery = omega (arith, fits.subscription_id)

  delivery_sequence-sent_delivery : read_le32 (drop 4 sent_delivery) ≡ r.delivery_sequence
  delivery_sequence-sent_delivery = omega (arith, fits.delivery_sequence)

  data_length-sent_delivery : read_le32 (drop 8 sent_delivery) ≡ r.data_length
  data_length-sent_delivery = omega (arith, fits.data_length)

  content-sent_delivery :
      take r.data_length (drop 12 sent_delivery) ≡ pointed r.data_length r.content
  content-sent_delivery = take-pointed r.data_length r.content fits.content rest

  decode-sent_delivery :
      (old : Delivery)
      → (encode_delivery (some rest) (delivery_header_size + r.data_length) (some r) (some 0)).0
        ≡ ok
      → decode_delivery (some sent_delivery) (delivery_header_size + r.data_length) (some old)
        ≡ (ok, some (record r { content = some (drop 12 sent_delivery) }))
  unfolding decode_delivery check_delivery encode_delivery
  decode-sent_delivery old e = ground (
    arith, subscription_id-sent_delivery, delivery_sequence-sent_delivery,
    data_length-sent_delivery,
  )

-- A delivery that `robusto_proxy_pubsub_encode_delivery` takes, with the bytes that it announces,
-- comes back from its bytes through the decoder.
pub decode_delivery-encode :
    (r : Delivery) (buffer : List ℕ) (buffer_size old_size : ℕ) (old : Delivery)
    → FitsDelivery r
    → (encode_delivery (some buffer) buffer_size (some r) (some old_size)).0 ≡ ok
    → (out : List ℕ) × (content : List ℕ) × (encode_delivery
          (some buffer)
          buffer_size
          (some r)
          (some old_size)
        ≡ (ok, some out, some (delivery_header_size + r.data_length)))
      × (decode_delivery (some out) (delivery_header_size + r.data_length) (some old)
          ≡ (ok, some (record r { content = some content })))
      × (take r.data_length content ≡ pointed r.data_length r.content)
unfolding encode_delivery
decode_delivery-encode r buffer buffer_size old_size old fits e =
    let rest : List ℕ = drop (length (delivery_bytes r)) buffer in
    (
      sent_delivery r fits rest,
      drop 12 (sent_delivery r fits rest),
      ground arith,
      decode-sent_delivery r fits rest old (ground arith),
      content-sent_delivery r fits rest,
    )

pub record FitsDeliveryChunk (r : DeliveryChunk) : Type 0 where
  pub subscription_id : r.subscription_id < 2 ^ 32
  pub delivery_sequence : r.delivery_sequence < 2 ^ 32
  pub offset : r.offset < 2 ^ 32
  pub data_length : r.data_length < 2 ^ 32
  pub content : Holds r.data_length r.content

module _ (r : DeliveryChunk) (fits : FitsDeliveryChunk r) (rest : List ℕ) where
  abbrev sent_delivery_chunk : List ℕ
  sent_delivery_chunk = delivery_chunk_bytes r ++ rest

  subscription_id-sent_delivery_chunk : read_le32 sent_delivery_chunk ≡ r.subscription_id
  subscription_id-sent_delivery_chunk = omega (arith, fits.subscription_id)

  delivery_sequence-sent_delivery_chunk :
      read_le32 (drop 4 sent_delivery_chunk) ≡ r.delivery_sequence
  delivery_sequence-sent_delivery_chunk = omega (arith, fits.delivery_sequence)

  offset-sent_delivery_chunk : read_le32 (drop 8 sent_delivery_chunk) ≡ r.offset
  offset-sent_delivery_chunk = omega (arith, fits.offset)

  data_length-sent_delivery_chunk : read_le32 (drop 12 sent_delivery_chunk) ≡ r.data_length
  data_length-sent_delivery_chunk = omega (arith, fits.data_length)

  content-sent_delivery_chunk :
      take r.data_length (drop 16 sent_delivery_chunk) ≡ pointed r.data_length r.content
  content-sent_delivery_chunk = take-pointed r.data_length r.content fits.content rest

  decode-sent_delivery_chunk :
      (old : DeliveryChunk)
      → (encode_delivery_chunk
          (some rest)
          (delivery_chunk_header_size + r.data_length)
          (some r)
          (some 0)).0
        ≡ ok
      → decode_delivery_chunk
          (some sent_delivery_chunk)
          (delivery_chunk_header_size + r.data_length)
          (some old)
        ≡ (ok, some (record r { content = some (drop 16 sent_delivery_chunk) }))
  unfolding decode_delivery_chunk check_delivery_chunk encode_delivery_chunk
  decode-sent_delivery_chunk old e = ground (
    arith, subscription_id-sent_delivery_chunk, delivery_sequence-sent_delivery_chunk,
    offset-sent_delivery_chunk, data_length-sent_delivery_chunk,
  )

-- A chunk of a delivery that `robusto_proxy_pubsub_encode_delivery_chunk` takes, with the bytes that it announces,
-- comes back from its bytes through the decoder.
pub decode_delivery_chunk-encode :
    (r : DeliveryChunk) (buffer : List ℕ) (buffer_size old_size : ℕ) (old : DeliveryChunk)
    → FitsDeliveryChunk r
    → (encode_delivery_chunk (some buffer) buffer_size (some r) (some old_size)).0 ≡ ok
    → (out : List ℕ) × (content : List ℕ) × (encode_delivery_chunk
          (some buffer)
          buffer_size
          (some r)
          (some old_size)
        ≡ (ok, some out, some (delivery_chunk_header_size + r.data_length)))
      × (decode_delivery_chunk (some out) (delivery_chunk_header_size + r.data_length) (some old)
          ≡ (ok, some (record r { content = some content })))
      × (take r.data_length content ≡ pointed r.data_length r.content)
unfolding encode_delivery_chunk
decode_delivery_chunk-encode r buffer buffer_size old_size old fits e =
    let rest : List ℕ = drop (length (delivery_chunk_bytes r)) buffer in
    (
      sent_delivery_chunk r fits rest,
      drop 16 (sent_delivery_chunk r fits rest),
      ground arith,
      decode-sent_delivery_chunk r fits rest old (ground arith),
      content-sent_delivery_chunk r fits rest,
    )
