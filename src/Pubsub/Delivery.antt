-- ===== src/Pubsub/Delivery.antt =====
-- components/robusto/proxy/src/robusto_proxy_pubsub.c: deliveries to a subscriber, whole or in chunks.
-- The sums of lengths do not wrap: where one could in 32 bits, the test behind it fails too.
use robusto.Prelude.{
  ℕ, ◌+◌, ◌&&◌, ◌||◌, Option, some, List, ◌++◌, ltb, leb, ◌==◌, ◌!=◌, if◌then◌else◌, is_none, le32,
  read_le32, overwrite, drop,
}
use robusto.Protocol.{ProxyResult, ok, invalid_argument, bad_length}
use robusto.Pubsub.{max_delivery_data, max_delivery_chunk_data, pointed}
use robusto.Pubsub.Messages.{Delivery, DeliveryBegin, DeliveryChunk, DeliveryCommit}

abbrev pub delivery_header_size : ℕ
delivery_header_size = 12

abbrev pub delivery_begin_size : ℕ
delivery_begin_size = 12

abbrev pub delivery_chunk_header_size : ℕ
delivery_chunk_header_size = 16

abbrev pub delivery_commit_size : ℕ
delivery_commit_size = 8

abbrev pub delivery_bytes : Delivery → List ℕ
delivery_bytes r =
    le32 r.subscription_id
    ++ (le32 r.delivery_sequence ++ (le32 r.data_length ++ pointed r.data_length r.content))

-- `robusto_proxy_pubsub_encode_delivery`: the result, with the buffer and `*encoded_size`.
unfoldable pub encode_delivery :
    Option (List ℕ) → ℕ → Option Delivery → Option ℕ → ProxyResult × Option (List ℕ) × Option ℕ
encode_delivery (some buffer) buffer_size (some r) (some old) =
    if r.subscription_id == 0
      || (r.delivery_sequence == 0
          || (ltb max_delivery_data r.data_length || (ltb 0 r.data_length && is_none r.content)))
    then (invalid_argument, some buffer, some old)
    else if ltb buffer_size (delivery_header_size + r.data_length)
    then (bad_length, some buffer, some old)
    else (
      ok,
      some (overwrite (delivery_bytes r) buffer),
      some (delivery_header_size + r.data_length),
    )
encode_delivery buffer buffer_size r encoded_size = (invalid_argument, buffer, encoded_size)

abbrev pub delivery_header : List ℕ → Delivery → Delivery
delivery_header buffer old = record old {
  subscription_id = read_le32 buffer;
  delivery_sequence = read_le32 (drop 4 buffer);
  data_length = read_le32 (drop 8 buffer);
}

unfoldable pub check_delivery : List ℕ → ℕ → Delivery → ProxyResult × Option Delivery
check_delivery buffer buffer_size r =
    let r' : Delivery = record r { content = some (drop 12 buffer) } in
    if delivery_header_size + r.data_length != buffer_size || ltb max_delivery_data r.data_length
    then (bad_length, some r)
    else (
      (if r.subscription_id != 0 && r.delivery_sequence != 0 then ok else invalid_argument),
      some r',
    )

-- `robusto_proxy_pubsub_decode_delivery`: the result, with `*delivery` as it leaves it.
unfoldable pub decode_delivery :
    Option (List ℕ) → ℕ → Option Delivery → ProxyResult × Option Delivery
decode_delivery (some buffer) buffer_size (some old) =
    if ltb buffer_size delivery_header_size
    then (bad_length, some old)
    else check_delivery buffer buffer_size (delivery_header buffer old)
decode_delivery buffer buffer_size r = (bad_length, r)

abbrev pub delivery_begin_bytes : DeliveryBegin → List ℕ
delivery_begin_bytes r = le32 r.subscription_id ++ (le32 r.delivery_sequence ++ le32 r.data_length)

-- `robusto_proxy_pubsub_encode_delivery_begin`
unfoldable pub encode_delivery_begin :
    Option (List ℕ) → ℕ → Option DeliveryBegin → ProxyResult × Option (List ℕ)
encode_delivery_begin (some buffer) buffer_size (some r) =
    if ltb buffer_size delivery_begin_size
      || (r.subscription_id == 0
          || (r.delivery_sequence == 0 || leb r.data_length max_delivery_data))
    then (invalid_argument, some buffer)
    else (ok, some (overwrite (delivery_begin_bytes r) buffer))
encode_delivery_begin buffer buffer_size r = (invalid_argument, buffer)

abbrev pub read_delivery_begin : List ℕ → DeliveryBegin
read_delivery_begin buffer = record {
  subscription_id = read_le32 buffer;
  delivery_sequence = read_le32 (drop 4 buffer);
  data_length = read_le32 (drop 8 buffer);
}

-- `robusto_proxy_pubsub_decode_delivery_begin`: the result, with `*begin` as it leaves it.
unfoldable pub decode_delivery_begin :
    Option (List ℕ) → ℕ → Option DeliveryBegin → ProxyResult × Option DeliveryBegin
decode_delivery_begin (some buffer) buffer_size (some old) =
    if buffer_size != delivery_begin_size then (bad_length, some old) else (
      (if read_le32 buffer != 0
            && (read_le32 (drop 4 buffer) != 0 && ltb max_delivery_data (read_le32 (drop 8 buffer)))
          then ok
          else invalid_argument),
      some (read_delivery_begin buffer),
    )
decode_delivery_begin buffer buffer_size r = (bad_length, r)

abbrev pub delivery_chunk_bytes : DeliveryChunk → List ℕ
delivery_chunk_bytes r =
    le32 r.subscription_id
    ++ (le32 r.delivery_sequence
        ++ (le32 r.offset ++ (le32 r.data_length ++ pointed r.data_length r.content)))

-- `robusto_proxy_pubsub_encode_delivery_chunk`: the result, with the buffer and `*encoded_size`.
unfoldable pub encode_delivery_chunk :
    Option (List ℕ) → ℕ → Option DeliveryChunk → Option ℕ → ProxyResult × Option (List ℕ) × Option ℕ
encode_delivery_chunk (some buffer) buffer_size (some r) (some old) =
    if r.subscription_id == 0
      || (r.delivery_sequence == 0
          || (is_none r.content
              || (r.data_length == 0 || ltb max_delivery_chunk_data r.data_length)))
    then (invalid_argument, some buffer, some old)
    else if ltb buffer_size (delivery_chunk_header_size + r.data_length)
    then (bad_length, some buffer, some old)
    else (
      ok,
      some (overwrite (delivery_chunk_bytes r) buffer),
      some (delivery_chunk_header_size + r.data_length),
    )
encode_delivery_chunk buffer buffer_size r encoded_size = (invalid_argument, buffer, encoded_size)

abbrev pub delivery_chunk_header : List ℕ → DeliveryChunk → DeliveryChunk
delivery_chunk_header buffer old = record old {
  subscription_id = read_le32 buffer;
  delivery_sequence = read_le32 (drop 4 buffer);
  offset = read_le32 (drop 8 buffer);
  data_length = read_le32 (drop 12 buffer);
}

unfoldable pub check_delivery_chunk :
    List ℕ → ℕ → DeliveryChunk → ProxyResult × Option DeliveryChunk
check_delivery_chunk buffer buffer_size r =
    let r' : DeliveryChunk = record r { content = some (drop 16 buffer) } in
    if delivery_chunk_header_size + r.data_length != buffer_size
      || (r.data_length == 0 || ltb max_delivery_chunk_data r.data_length)
    then (bad_length, some r)
    else (
      (if r.subscription_id != 0 && r.delivery_sequence != 0 then ok else invalid_argument),
      some r',
    )

-- `robusto_proxy_pubsub_decode_delivery_chunk`: the result, with `*chunk` as it leaves it.
unfoldable pub decode_delivery_chunk :
    Option (List ℕ) → ℕ → Option DeliveryChunk → ProxyResult × Option DeliveryChunk
decode_delivery_chunk (some buffer) buffer_size (some old) =
    if ltb buffer_size delivery_chunk_header_size
    then (bad_length, some old)
    else check_delivery_chunk buffer buffer_size (delivery_chunk_header buffer old)
decode_delivery_chunk buffer buffer_size r = (bad_length, r)

abbrev pub delivery_commit_bytes : DeliveryCommit → List ℕ
delivery_commit_bytes r = le32 r.subscription_id ++ le32 r.delivery_sequence

-- `robusto_proxy_pubsub_encode_delivery_commit`
unfoldable pub encode_delivery_commit :
    Option (List ℕ) → ℕ → Option DeliveryCommit → ProxyResult × Option (List ℕ)
encode_delivery_commit (some buffer) buffer_size (some r) =
    if ltb buffer_size delivery_commit_size || (r.subscription_id == 0 || r.delivery_sequence == 0)
    then (invalid_argument, some buffer)
    else (ok, some (overwrite (delivery_commit_bytes r) buffer))
encode_delivery_commit buffer buffer_size r = (invalid_argument, buffer)

-- `robusto_proxy_pubsub_decode_delivery_commit`: the result, with `*commit` as it leaves it.
unfoldable pub decode_delivery_commit :
    Option (List ℕ) → ℕ → Option DeliveryCommit → ProxyResult × Option DeliveryCommit
decode_delivery_commit (some buffer) buffer_size (some old) =
    if buffer_size != delivery_commit_size then (bad_length, some old) else (
      (if read_le32 buffer != 0 && read_le32 (drop 4 buffer) != 0 then ok else invalid_argument),
      some (record {
        subscription_id = read_le32 buffer;
        delivery_sequence = read_le32 (drop 4 buffer);
      }),
    )
decode_delivery_commit buffer buffer_size r = (bad_length, r)
