-- ===== src/Control/Reports.antt =====
-- proxy/src/robusto_proxy_control.c: the CAPABILITY and HEALTH responses.
use robusto.Prelude.{
  ℕ, Option, List, ◌∷◌, ◌++◌, byte_at, le16, le32, le64, read_le16, read_le32, read_le64, drop,
}
use robusto.Protocol.{ProxyResult, ok}
use robusto.Protocol.Messages.{CapabilityResponse, HealthResponse}
use robusto.Control.{Run, encode_with, decode_with}

abbrev pub capability_response_size : ℕ
capability_response_size = 28

abbrev pub capability_response_bytes : CapabilityResponse → List ℕ
capability_response_bytes m =
    le64 m.proxy_boot_id
    ++ (le64 m.enabled_features
        ++ (m.pubsub_major
            ∷ (m.pubsub_minor
                ∷ (le16 m.reserved
                    ++ (le32 m.selected_max_payload
                        ++ (le16 m.selected_max_in_flight ++ le16 m.max_subscriptions))))))

-- `robusto_proxy_encode_capability_response`
unfoldable pub encode_capability_response :
    Option (List ℕ) → ℕ → Option CapabilityResponse → Run (ProxyResult × Option (List ℕ))
encode_capability_response = encode_with capability_response_size capability_response_bytes

abbrev pub read_capability_response : List ℕ → CapabilityResponse
read_capability_response buffer = record {
  proxy_boot_id = read_le64 buffer;
  enabled_features = read_le64 (drop 8 buffer);
  pubsub_major = byte_at buffer 16;
  pubsub_minor = byte_at buffer 17;
  reserved = read_le16 (drop 18 buffer);
  selected_max_payload = read_le32 (drop 20 buffer);
  selected_max_in_flight = read_le16 (drop 24 buffer);
  max_subscriptions = read_le16 (drop 26 buffer);
}

-- `robusto_proxy_decode_capability_response`
unfoldable pub decode_capability_response :
    Option (List ℕ) → ℕ → Option CapabilityResponse → Run (ProxyResult × Option CapabilityResponse)
decode_capability_response =
    decode_with capability_response_size (λ bytes. (ok, read_capability_response bytes))

abbrev pub health_response_size : ℕ
health_response_size = 40

abbrev pub health_response_bytes : HealthResponse → List ℕ
health_response_bytes m =
    le64 m.proxy_boot_id
    ++ (le32 m.uptime_ms
        ++ (m.service_state
            ∷ (m.reserved_0
                ∷ (m.reserved_1
                    ∷ (m.reserved_2
                        ∷ (le32 m.requests
                            ++ (le32 m.events
                                ++ (le32 m.errors
                                    ++ (le32 m.timeouts
                                        ++ (le32 m.rx_crc_errors
                                            ++ le32 m.queue_high_water))))))))))

-- `robusto_proxy_encode_health_response`
unfoldable pub encode_health_response :
    Option (List ℕ) → ℕ → Option HealthResponse → Run (ProxyResult × Option (List ℕ))
encode_health_response = encode_with health_response_size health_response_bytes

abbrev pub read_health_response : List ℕ → HealthResponse
read_health_response buffer = record {
  proxy_boot_id = read_le64 buffer;
  uptime_ms = read_le32 (drop 8 buffer);
  service_state = byte_at buffer 12;
  reserved_0 = byte_at buffer 13;
  reserved_1 = byte_at buffer 14;
  reserved_2 = byte_at buffer 15;
  requests = read_le32 (drop 16 buffer);
  events = read_le32 (drop 20 buffer);
  errors = read_le32 (drop 24 buffer);
  timeouts = read_le32 (drop 28 buffer);
  rx_crc_errors = read_le32 (drop 32 buffer);
  queue_high_water = read_le32 (drop 36 buffer);
}

-- `robusto_proxy_decode_health_response`
unfoldable pub decode_health_response :
    Option (List ℕ) → ℕ → Option HealthResponse → Run (ProxyResult × Option HealthResponse)
decode_health_response =
    decode_with health_response_size (λ bytes. (ok, read_health_response bytes))
