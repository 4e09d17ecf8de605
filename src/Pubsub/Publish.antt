-- ===== src/Pubsub/Publish.antt =====
-- components/robusto/proxy/src/robusto_proxy_pubsub.c: publishing, in one request or in chunks. The
-- sums of lengths do not wrap: where one could in 32 bits, the test of the length behind it fails too.
use robusto.Prelude.{
  ℕ, ◌+◌, not, ◌&&◌, ◌||◌, Option, some, List, ◌++◌, ltb, ◌==◌, ◌!=◌, if◌then◌else◌, is_none, le16,
  le32, le64, read_le16, read_le32, read_le64, overwrite, drop,
}
use robusto.Protocol.{ProxyResult, ok, invalid_argument, bad_reserved, bad_length}
use robusto.Pubsub.{topic_is_valid, max_inline_data, max_chunk_data, pointed}
use robusto.Pubsub.Messages.{
  PublishRequest, PublishBeginRequest, PublishChunkRequest, PublishTransferRequest, PublishResponse,
}

abbrev pub publish_header_size : ℕ
publish_header_size = 16

abbrev pub publish_begin_header_size : ℕ
publish_begin_header_size = 16

abbrev pub publish_chunk_header_size : ℕ
publish_chunk_header_size = 16

abbrev pub publish_transfer_request_size : ℕ
publish_transfer_request_size = 8

abbrev pub publish_response_size : ℕ
publish_response_size = 8

abbrev pub publish_request_bytes : PublishRequest → List ℕ
publish_request_bytes r =
    le64 r.operation_id
    ++ (le16 r.topic_length
        ++ (le16 0
            ++ (le32 r.data_length
                ++ (pointed r.topic_length r.topic ++ pointed r.data_length r.content))))

-- `robusto_proxy_pubsub_encode_publish_request`: the result, with the buffer and `*encoded_size`.
unfoldable pub encode_publish_request :
    Option (List ℕ)
    → ℕ
    → Option PublishRequest
    → Option ℕ
    → ProxyResult × Option (List ℕ) × Option ℕ
encode_publish_request (some buffer) buffer_size (some r) (some old) =
    if r.operation_id == 0
      || (not (topic_is_valid r.topic r.topic_length)
          || (ltb max_inline_data r.data_length || (ltb 0 r.data_length && is_none r.content)))
    then (invalid_argument, some buffer, some old)
    else if ltb buffer_size (publish_header_size + r.topic_length + r.data_length)
    then (bad_length, some buffer, some old)
    else (
      ok,
      some (overwrite (publish_request_bytes r) buffer),
      some (publish_header_size + r.topic_length + r.data_length),
    )
encode_publish_request buffer buffer_size r encoded_size = (invalid_argument, buffer, encoded_size)

-- The loads of the header, and those of the pointers.
abbrev pub publish_header : List ℕ → PublishRequest → PublishRequest
publish_header buffer old = record old {
  operation_id = read_le64 buffer;
  topic_length = read_le16 (drop 8 buffer);
  data_length = read_le32 (drop 12 buffer);
}

abbrev pub publish_pointers : List ℕ → PublishRequest → PublishRequest
publish_pointers buffer r = record r {
  topic = some (drop 16 buffer);
  content = some (drop (16 + r.topic_length) buffer);
}

-- The checks behind the loads of the header.
unfoldable pub check_publish_request :
    List ℕ → ℕ → PublishRequest → ProxyResult × Option PublishRequest
check_publish_request buffer buffer_size r =
    let r' : PublishRequest = publish_pointers buffer r in
    if publish_header_size + r.topic_length + r.data_length != buffer_size
      || ltb max_inline_data r.data_length
    then (bad_length, some r)
    else if read_le16 (drop 10 buffer) != 0
    then (bad_reserved, some r)
    else if r.operation_id == 0 || not (topic_is_valid r'.topic r.topic_length)
    then (invalid_argument, some r')
    else (ok, some r')

-- `robusto_proxy_pubsub_decode_publish_request`: the result, with `*request` as it leaves it.
unfoldable pub decode_publish_request :
    Option (List ℕ) → ℕ → Option PublishRequest → ProxyResult × Option PublishRequest
decode_publish_request (some buffer) buffer_size (some old) =
    if ltb buffer_size publish_header_size
    then (bad_length, some old)
    else check_publish_request buffer buffer_size (publish_header buffer old)
decode_publish_request buffer buffer_size r = (bad_length, r)

abbrev pub publish_begin_request_bytes : PublishBeginRequest → List ℕ
publish_begin_request_bytes r =
    le64 r.operation_id
    ++ (le16 r.topic_length ++ (le16 0 ++ (le32 r.data_length ++ pointed r.topic_length r.topic)))

-- `robusto_proxy_pubsub_encode_publish_begin_request`: the result, with the buffer and `*encoded_size`.
unfoldable pub encode_publish_begin_request :
    Option (List ℕ)
    → ℕ
    → Option PublishBeginRequest
    → Option ℕ
    → ProxyResult × Option (List ℕ) × Option ℕ
encode_publish_begin_request (some buffer) buffer_size (some r) (some old) =
    if r.operation_id == 0 || (r.data_length == 0 || not (topic_is_valid r.topic r.topic_length))
    then (invalid_argument, some buffer, some old)
    else if ltb buffer_size (publish_begin_header_size + r.topic_length)
    then (bad_length, some buffer, some old)
    else (
      ok,
      some (overwrite (publish_begin_request_bytes r) buffer),
      some (publish_begin_header_size + r.topic_length),
    )
encode_publish_begin_request buffer buffer_size r encoded_size =
    (invalid_argument, buffer, encoded_size)

abbrev pub publish_begin_header : List ℕ → PublishBeginRequest → PublishBeginRequest
publish_begin_header buffer old = record old {
  operation_id = read_le64 buffer;
  topic_length = read_le16 (drop 8 buffer);
  data_length = read_le32 (drop 12 buffer);
}

unfoldable pub check_publish_begin_request :
    List ℕ → ℕ → PublishBeginRequest → ProxyResult × Option PublishBeginRequest
check_publish_begin_request buffer buffer_size r =
    let r' : PublishBeginRequest = record r { topic = some (drop 16 buffer) } in
    if publish_begin_header_size + r.topic_length != buffer_size
    then (bad_length, some r)
    else if read_le16 (drop 10 buffer) != 0
    then (bad_reserved, some r)
    else if r.operation_id == 0
        || (r.data_length == 0 || not (topic_is_valid r'.topic r.topic_length))
    then (invalid_argument, some r')
    else (ok, some r')

-- `robusto_proxy_pubsub_decode_publish_begin_request`: the result, with `*request` as it leaves it.
unfoldable pub decode_publish_begin_request :
    Option (List ℕ) → ℕ → Option PublishBeginRequest → ProxyResult × Option PublishBeginRequest
decode_publish_begin_request (some buffer) buffer_size (some old) =
    if ltb buffer_size publish_begin_header_size
    then (bad_length, some old)
    else check_publish_begin_request buffer buffer_size (publish_begin_header buffer old)
decode_publish_begin_request buffer buffer_size r = (bad_length, r)

abbrev pub publish_chunk_request_bytes : PublishChunkRequest → List ℕ
publish_chunk_request_bytes r =
    le64 r.operation_id
    ++ (le32 r.offset ++ (le32 r.data_length ++ pointed r.data_length r.content))

-- `robusto_proxy_pubsub_encode_publish_chunk_request`: the result, with the buffer and `*encoded_size`.
unfoldable pub encode_publish_chunk_request :
    Option (List ℕ)
    → ℕ
    → Option PublishChunkRequest
    → Option ℕ
    → ProxyResult × Option (List ℕ) × Option ℕ
encode_publish_chunk_request (some buffer) buffer_size (some r) (some old) =
    if r.operation_id == 0
      || (is_none r.content || (r.data_length == 0 || ltb max_chunk_data r.data_length))
    then (invalid_argument, some buffer, some old)
    else if ltb buffer_size (publish_chunk_header_size + r.data_length)
    then (bad_length, some buffer, some old)
    else (
      ok,
      some (overwrite (publish_chunk_request_bytes r) buffer),
      some (publish_chunk_header_size + r.data_length),
    )
encode_publish_chunk_request buffer buffer_size r encoded_size =
    (invalid_argument, buffer, encoded_size)

abbrev pub publish_chunk_header : List ℕ → PublishChunkRequest → PublishChunkRequest
publish_chunk_header buffer old = record old {
  operation_id = read_le64 buffer;
  offset = read_le32 (drop 8 buffer);
  data_length = read_le32 (drop 12 buffer);
}

unfoldable pub check_publish_chunk_request :
    List ℕ → ℕ → PublishChunkRequest → ProxyResult × Option PublishChunkRequest
check_publish_chunk_request buffer buffer_size r =
    let r' : PublishChunkRequest = record r { content = some (drop 16 buffer) } in
    if publish_chunk_header_size + r.data_length != buffer_size
      || (r.data_length == 0 || ltb max_chunk_data r.data_length)
    then (bad_length, some r)
    else ((if r.operation_id != 0 then ok else invalid_argument), some r')

-- `robusto_proxy_pubsub_decode_publish_chunk_request`: the result, with `*request` as it leaves it.
unfoldable pub decode_publish_chunk_request :
    Option (List ℕ) → ℕ → Option PublishChunkRequest → ProxyResult × Option PublishChunkRequest
decode_publish_chunk_request (some buffer) buffer_size (some old) =
    if ltb buffer_size publish_chunk_header_size
    then (bad_length, some old)
    else check_publish_chunk_request buffer buffer_size (publish_chunk_header buffer old)
decode_publish_chunk_request buffer buffer_size r = (bad_length, r)

abbrev pub publish_transfer_request_bytes : PublishTransferRequest → List ℕ
publish_transfer_request_bytes r = le64 r.operation_id

-- `robusto_proxy_pubsub_encode_publish_transfer_request`
unfoldable pub encode_publish_transfer_request :
    Option (List ℕ) → ℕ → Option PublishTransferRequest → ProxyResult × Option (List ℕ)
encode_publish_transfer_request (some buffer) buffer_size (some r) =
    if r.operation_id == 0
    then (invalid_argument, some buffer)
    else if ltb buffer_size publish_transfer_request_size
    then (bad_length, some buffer)
    else (ok, some (overwrite (publish_transfer_request_bytes r) buffer))
encode_publish_transfer_request buffer buffer_size r = (invalid_argument, buffer)

-- `robusto_proxy_pubsub_decode_publish_transfer_request`: the result, with `*request` as it leaves it.
unfoldable pub decode_publish_transfer_request :
    Option (List ℕ)
    → ℕ
    → Option PublishTransferRequest
    → ProxyResult × Option PublishTransferRequest
decode_publish_transfer_request (some buffer) buffer_size (some old) =
    if buffer_size != publish_transfer_request_size then (bad_length, some old) else (
      (if read_le64 buffer != 0 then ok else invalid_argument),
      some (record { operation_id = read_le64 buffer }),
    )
decode_publish_transfer_request buffer buffer_size r = (bad_length, r)

abbrev pub publish_response_bytes : PublishResponse → List ℕ
publish_response_bytes r = le32 r.topic_hash ++ le32 r.delivery_count

-- `robusto_proxy_pubsub_encode_publish_response`
unfoldable pub encode_publish_response :
    Option (List ℕ) → ℕ → Option PublishResponse → ProxyResult × Option (List ℕ)
encode_publish_response (some buffer) buffer_size (some r) =
    if ltb buffer_size publish_response_size
    then (invalid_argument, some buffer)
    else (ok, some (overwrite (publish_response_bytes r) buffer))
encode_publish_response buffer buffer_size r = (invalid_argument, buffer)

-- `robusto_proxy_pubsub_decode_publish_response`: the result, with `*response` as it leaves it.
unfoldable pub decode_publish_response :
    Option (List ℕ) → ℕ → Option PublishResponse → ProxyResult × Option PublishResponse
decode_publish_response (some buffer) buffer_size (some old) =
    if buffer_size != publish_response_size then (bad_length, some old) else (
      ok,
      some (record { topic_hash = read_le32 buffer; delivery_count = read_le32 (drop 4 buffer) }),
    )
decode_publish_response buffer buffer_size r = (bad_length, r)
