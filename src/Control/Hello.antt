-- ===== src/Control/Hello.antt =====
-- proxy/src/robusto_proxy_control.c: HELLO, which opens a session.
use robusto.Prelude.{
  ℕ, Option, List, ◌∷◌, ◌++◌, byte_at, le16, le32, le64, read_le16, read_le32, read_le64, drop,
}
use robusto.Protocol.{ProxyResult, ok}
use robusto.Protocol.Messages.{HelloRequest, HelloResponse}
use robusto.Control.{Run, encode_with, decode_with}

abbrev pub hello_request_size : ℕ
hello_request_size = 36

abbrev pub hello_request_bytes : HelloRequest → List ℕ
hello_request_bytes m =
    le64 m.controller_boot_id
    ++ (m.min_protocol_major
        ∷ (m.max_protocol_major
            ∷ (m.min_protocol_minor
                ∷ (m.max_protocol_minor
                    ∷ (le32 m.max_payload
                        ++ (le16 m.max_in_flight
                            ++ (le16 m.reserved
                                ++ (le64 m.required_features ++ le64 m.optional_features))))))))

-- `robusto_proxy_encode_hello_request`
unfoldable pub encode_hello_request :
    Option (List ℕ) → ℕ → Option HelloRequest → Run (ProxyResult × Option (List ℕ))
encode_hello_request = encode_with hello_request_size hello_request_bytes

abbrev pub read_hello_request : List ℕ → HelloRequest
read_hello_request buffer = record {
  controller_boot_id = read_le64 buffer;
  min_protocol_major = byte_at buffer 8;
  max_protocol_major = byte_at buffer 9;
  min_protocol_minor = byte_at buffer 10;
  max_protocol_minor = byte_at buffer 11;
  max_payload = read_le32 (drop 12 buffer);
  max_in_flight = read_le16 (drop 16 buffer);
  reserved = read_le16 (drop 18 buffer);
  required_features = read_le64 (drop 20 buffer);
  optional_features = read_le64 (drop 28 buffer);
}

-- `robusto_proxy_decode_hello_request`
unfoldable pub decode_hello_request :
    Option (List ℕ) → ℕ → Option HelloRequest → Run (ProxyResult × Option HelloRequest)
decode_hello_request = decode_with hello_request_size (λ bytes. (ok, read_hello_request bytes))

abbrev pub hello_response_size : ℕ
hello_response_size = 40

abbrev pub hello_response_bytes : HelloResponse → List ℕ
hello_response_bytes m =
    le64 m.proxy_boot_id
    ++ (m.selected_protocol_major
        ∷ (m.selected_protocol_minor
            ∷ (le16 m.reserved
                ++ (le32 m.selected_max_payload
                    ++ (le16 m.selected_max_in_flight
                        ++ (le16 m.dedupe_entries
                            ++ (le32 m.dedupe_window_ms
                                ++ (le64 m.enabled_features
                                    ++ (le32 m.proxy_uptime_ms ++ le32 m.reserved2)))))))))

-- `robusto_proxy_encode_hello_response`
unfoldable pub encode_hello_response :
    Option (List ℕ) → ℕ → Option HelloResponse → Run (ProxyResult × Option (List ℕ))
encode_hello_response = encode_with hello_response_size hello_response_bytes

abbrev pub read_hello_response : List ℕ → HelloResponse
read_hello_response buffer = record {
  proxy_boot_id = read_le64 buffer;
  selected_protocol_major = byte_at buffer 8;
  selected_protocol_minor = byte_at buffer 9;
  reserved = read_le16 (drop 10 buffer);
  selected_max_payload = read_le32 (drop 12 buffer);
  selected_max_in_flight = read_le16 (drop 16 buffer);
  dedupe_entries = read_le16 (drop 18 buffer);
  dedupe_window_ms = read_le32 (drop 20 buffer);
  enabled_features = read_le64 (drop 24 buffer);
  proxy_uptime_ms = read_le32 (drop 32 buffer);
  reserved2 = read_le32 (drop 36 buffer);
}

-- `robusto_proxy_decode_hello_response`
unfoldable pub decode_hello_response :
    Option (List ℕ) → ℕ → Option HelloResponse → Run (ProxyResult × Option HelloResponse)
decode_hello_response = decode_with hello_response_size (λ bytes. (ok, read_hello_response bytes))
