-- ===== src/Pubsub/Subscribe.antt =====
-- components/robusto/proxy/src/robusto_proxy_pubsub.c: subscriptions, and the status of the domain.
use robusto.Prelude.{
  ℕ, ◌+◌, not, ◌&&◌, ◌||◌, Option, some, List, [], ◌∷◌, ◌++◌, ltb, leb, ◌==◌, ◌!=◌, if◌then◌else◌,
  byte_at, le16, le32, le64, read_le16, read_le32, read_le64, overwrite, drop,
}
use robusto.Protocol.{ProxyResult, ok, invalid_argument, bad_reserved, bad_length}
use robusto.Pubsub.{topic_is_valid, subscribe_deliveries, pointed}
use robusto.Pubsub.Messages.{
  SubscribeRequest, UnsubscribeRequest, SubscribeResponse, UnsubscribeResponse, StatusResponse,
}

abbrev pub subscribe_header_size : ℕ
subscribe_header_size = 12

abbrev pub unsubscribe_request_size : ℕ
unsubscribe_request_size = 12

abbrev pub subscribe_response_size : ℕ
subscribe_response_size = 12

abbrev pub unsubscribe_response_size : ℕ
unsubscribe_response_size = 4

abbrev pub status_response_size : ℕ
status_response_size = 52

abbrev pub subscribe_request_bytes : SubscribeRequest → List ℕ
subscribe_request_bytes r =
    le64 r.operation_id
    ++ (le16 r.topic_length ++ (r.options ∷ (0 ∷ pointed r.topic_length r.topic)))

-- `robusto_proxy_pubsub_encode_subscribe_request`: the result, with the buffer and `*encoded_size`.
unfoldable pub encode_subscribe_request :
    Option (List ℕ)
    → ℕ
    → Option SubscribeRequest
    → Option ℕ
    → ProxyResult × Option (List ℕ) × Option ℕ
encode_subscribe_request (some buffer) buffer_size (some r) (some old) =
    if r.operation_id == 0
      || (r.options != subscribe_deliveries || not (topic_is_valid r.topic r.topic_length))
    then (invalid_argument, some buffer, some old)
    else if ltb buffer_size (subscribe_header_size + r.topic_length)
    then (bad_length, some buffer, some old)
    else (
      ok,
      some (overwrite (subscribe_request_bytes r) buffer),
      some (subscribe_header_size + r.topic_length),
    )
encode_subscribe_request buffer buffer_size r encoded_size =
    (invalid_argument, buffer, encoded_size)

abbrev pub subscribe_header : List ℕ → SubscribeRequest → SubscribeRequest
subscribe_header buffer old = record old {
  operation_id = read_le64 buffer;
  topic_length = read_le16 (drop 8 buffer);
  options = byte_at buffer 10;
}

unfoldable pub check_subscribe_request :
    List ℕ → ℕ → SubscribeRequest → ProxyResult × Option SubscribeRequest
check_subscribe_request buffer buffer_size r =
    let r' : SubscribeRequest = record r { topic = some (drop 12 buffer) } in
    if subscribe_header_size + r.topic_length != buffer_size
    then (bad_length, some r)
    else if byte_at buffer 11 != 0
    then (bad_reserved, some r)
    else if r.operation_id == 0
        || (r.options != subscribe_deliveries || not (topic_is_valid r'.topic r.topic_length))
    then (invalid_argument, some r')
    else (ok, some r')

-- `robusto_proxy_pubsub_decode_subscribe_request`: the result, with `*request` as it leaves it.
unfoldable pub decode_subscribe_request :
    Option (List ℕ) → ℕ → Option SubscribeRequest → ProxyResult × Option SubscribeRequest
decode_subscribe_request (some buffer) buffer_size (some old) =
    if ltb buffer_size subscribe_header_size
    then (bad_length, some old)
    else check_subscribe_request buffer buffer_size (subscribe_header buffer old)
decode_subscribe_request buffer buffer_size r = (bad_length, r)

abbrev pub unsubscribe_request_bytes : UnsubscribeRequest → List ℕ
unsubscribe_request_bytes r = le64 r.operation_id ++ le32 r.subscription_id

-- `robusto_proxy_pubsub_encode_unsubscribe_request`
unfoldable pub encode_unsubscribe_request :
    Option (List ℕ) → ℕ → Option UnsubscribeRequest → ProxyResult × Option (List ℕ)
encode_unsubscribe_request (some buffer) buffer_size (some r) =
    if r.operation_id == 0 || r.subscription_id == 0
    then (invalid_argument, some buffer)
    else if ltb buffer_size unsubscribe_request_size
    then (bad_length, some buffer)
    else (ok, some (overwrite (unsubscribe_request_bytes r) buffer))
encode_unsubscribe_request buffer buffer_size r = (invalid_argument, buffer)

-- `robusto_proxy_pubsub_decode_unsubscribe_request`: the result, with `*request` as it leaves it.
unfoldable pub decode_unsubscribe_request :
    Option (List ℕ) → ℕ → Option UnsubscribeRequest → ProxyResult × Option UnsubscribeRequest
decode_unsubscribe_request (some buffer) buffer_size (some old) =
    if buffer_size != unsubscribe_request_size then (bad_length, some old) else (
      (if read_le64 buffer != 0 && read_le32 (drop 8 buffer) != 0 then ok else invalid_argument),
      some
          (record { operation_id = read_le64 buffer; subscription_id = read_le32 (drop 8 buffer) }),
    )
decode_unsubscribe_request buffer buffer_size r = (bad_length, r)

abbrev pub subscribe_response_bytes : SubscribeResponse → List ℕ
subscribe_response_bytes r =
    le32 r.subscription_id ++ (le32 r.topic_hash ++ (r.created ∷ (0 ∷ (0 ∷ (0 ∷ [])))))

-- `robusto_proxy_pubsub_encode_subscribe_response`
unfoldable pub encode_subscribe_response :
    Option (List ℕ) → ℕ → Option SubscribeResponse → ProxyResult × Option (List ℕ)
encode_subscribe_response (some buffer) buffer_size (some r) =
    if ltb buffer_size subscribe_response_size || (r.subscription_id == 0 || ltb 1 r.created)
    then (invalid_argument, some buffer)
    else (ok, some (overwrite (subscribe_response_bytes r) buffer))
encode_subscribe_response buffer buffer_size r = (invalid_argument, buffer)

-- `robusto_proxy_pubsub_decode_subscribe_response`: the result, with `*response` as it leaves it.
unfoldable pub decode_subscribe_response :
    Option (List ℕ) → ℕ → Option SubscribeResponse → ProxyResult × Option SubscribeResponse
decode_subscribe_response (some buffer) buffer_size (some old) =
    if buffer_size != subscribe_response_size
    then (bad_length, some old)
    else if byte_at buffer 9 != 0 || (byte_at buffer 10 != 0 || byte_at buffer 11 != 0)
    then (bad_reserved, some old)
    else (
      (if read_le32 buffer != 0 && leb (byte_at buffer 8) 1 then ok else invalid_argument),
      some (record {
        subscription_id = read_le32 buffer;
        topic_hash = read_le32 (drop 4 buffer);
        created = byte_at buffer 8;
      }),
    )
decode_subscribe_response buffer buffer_size r = (bad_length, r)

abbrev pub unsubscribe_response_bytes : UnsubscribeResponse → List ℕ
unsubscribe_response_bytes r = r.removed ∷ (0 ∷ (0 ∷ (0 ∷ [])))

-- `robusto_proxy_pubsub_encode_unsubscribe_response`
unfoldable pub encode_unsubscribe_response :
    Option (List ℕ) → ℕ → Option UnsubscribeResponse → ProxyResult × Option (List ℕ)
encode_unsubscribe_response (some buffer) buffer_size (some r) =
    if ltb buffer_size unsubscribe_response_size || (ltb 1 r.removed)
    then (invalid_argument, some buffer)
    else (ok, some (overwrite (unsubscribe_response_bytes r) buffer))
encode_unsubscribe_response buffer buffer_size r = (invalid_argument, buffer)

-- `robusto_proxy_pubsub_decode_unsubscribe_response`: the result, with `*response` as it leaves it.
unfoldable pub decode_unsubscribe_response :
    Option (List ℕ) → ℕ → Option UnsubscribeResponse → ProxyResult × Option UnsubscribeResponse
decode_unsubscribe_response (some buffer) buffer_size (some old) =
    if buffer_size != unsubscribe_response_size
    then (bad_length, some old)
    else if byte_at buffer 1 != 0 || (byte_at buffer 2 != 0 || byte_at buffer 3 != 0)
    then (bad_reserved, some old)
    else (
      (if leb (byte_at buffer 0) 1 then ok else invalid_argument),
      some (record { removed = byte_at buffer 0 }),
    )
decode_unsubscribe_response buffer buffer_size r = (bad_length, r)

abbrev pub status_response_bytes : StatusResponse → List ℕ
status_response_bytes r =
    r.state
    ∷ (0
        ∷ (0
            ∷ (0
                ∷ (le32 r.active_subscriptions
                    ++ (le32 r.publish_requests
                        ++ (le32 r.subscribe_requests
                            ++ (le32 r.unsubscribe_requests
                                ++ (le32 r.delivery_events
                                    ++ (le32 r.delivery_drops
                                        ++ (le32 r.duplicate_operations
                                            ++ (le32 r.pubsub_errors
                                                ++ (le16 r.last_publish_status
                                                    ++ (le16 r.reserved
                                                        ++ (le32 r.last_publish_topic_hash
                                                            ++ (le32 r.last_publish_delivery_count
                                                            ++ le32
                                                            r.last_publish_bytes)))))))))))))))

-- `robusto_proxy_pubsub_encode_status_response`
unfoldable pub encode_status_response :
    Option (List ℕ) → ℕ → Option StatusResponse → ProxyResult × Option (List ℕ)
encode_status_response (some buffer) buffer_size (some r) =
    if ltb buffer_size status_response_size || (ltb 3 r.state)
    then (invalid_argument, some buffer)
    else (ok, some (overwrite (status_response_bytes r) buffer))
encode_status_response buffer buffer_size r = (invalid_argument, buffer)

abbrev pub read_status_response : List ℕ → StatusResponse
read_status_response buffer = record {
  state = byte_at buffer 0;
  active_subscriptions = read_le32 (drop 4 buffer);
  publish_requests = read_le32 (drop 8 buffer);
  subscribe_requests = read_le32 (drop 12 buffer);
  unsubscribe_requests = read_le32 (drop 16 buffer);
  delivery_events = read_le32 (drop 20 buffer);
  delivery_drops = read_le32 (drop 24 buffer);
  duplicate_operations = read_le32 (drop 28 buffer);
  pubsub_errors = read_le32 (drop 32 buffer);
  last_publish_status = read_le16 (drop 36 buffer);
  reserved = read_le16 (drop 38 buffer);
  last_publish_topic_hash = read_le32 (drop 40 buffer);
  last_publish_delivery_count = read_le32 (drop 44 buffer);
  last_publish_bytes = read_le32 (drop 48 buffer);
}

-- `robusto_proxy_pubsub_decode_status_response`: the result, with `*response` as it leaves it.
unfoldable pub decode_status_response :
    Option (List ℕ) → ℕ → Option StatusResponse → ProxyResult × Option StatusResponse
decode_status_response (some buffer) buffer_size (some old) =
    if buffer_size != status_response_size
    then (bad_length, some old)
    else if byte_at buffer 1 != 0 || (byte_at buffer 2 != 0 || byte_at buffer 3 != 0)
    then (bad_reserved, some old)
    else (
      (if read_le16 (drop 38 buffer) != 0
          then bad_reserved
          else if leb (byte_at buffer 0) 3
          then ok
          else invalid_argument),
      some (read_status_response buffer),
    )
decode_status_response buffer buffer_size r = (bad_length, r)
