-- ===== src/Control/Message.antt =====
-- proxy/src/robusto_proxy_control.c: `decode_response_message` and its five callers, which take a
-- whole response apart: prefix, detail, and payload.
use robusto.Prelude.{ℕ, ◌+◌, ◌-◌, Option, some, List, ltb, if◌then◌else◌, drop, replicate}
use robusto.Protocol.{ProxyResult, ok, invalid_argument, bad_length}
use robusto.Protocol.Messages.{ResponsePrefix, HelloResponse, CapabilityResponse, HealthResponse}
use robusto.Protocol.Stats.{FragmentStatsResponse}
use robusto.Control.{Run, fault, returns, prefix_size, decode_response_prefix, is_success}
use robusto.Control.Hello.{decode_hello_response}
use robusto.Control.Reports.{decode_capability_response, decode_health_response}
use robusto.Control.SystemInfo.{
  SystemInfoResponse, decode_system_info_response, robusto_version_capacity,
  delegate_version_capacity,
}
use robusto.Control.FragmentStats.{no_stats, decode_fragment_stats_response}

-- What `memset` makes of the responses.
abbrev pub cleared_hello_response : HelloResponse
cleared_hello_response = record {
  proxy_boot_id = 0;
  selected_protocol_major = 0;
  selected_protocol_minor = 0;
  reserved = 0;
  selected_max_payload = 0;
  selected_max_in_flight = 0;
  dedupe_entries = 0;
  dedupe_window_ms = 0;
  enabled_features = 0;
  proxy_uptime_ms = 0;
  reserved2 = 0;
}

abbrev pub cleared_capability_response : CapabilityResponse
cleared_capability_response = record {
  proxy_boot_id = 0;
  enabled_features = 0;
  pubsub_major = 0;
  pubsub_minor = 0;
  reserved = 0;
  selected_max_payload = 0;
  selected_max_in_flight = 0;
  max_subscriptions = 0;
}

abbrev pub cleared_health_response : HealthResponse
cleared_health_response = record {
  proxy_boot_id = 0;
  uptime_ms = 0;
  service_state = 0;
  reserved_0 = 0;
  reserved_1 = 0;
  reserved_2 = 0;
  requests = 0;
  events = 0;
  errors = 0;
  timeouts = 0;
  rx_crc_errors = 0;
  queue_high_water = 0;
}

abbrev pub cleared_system_info_response : SystemInfoResponse
cleared_system_info_response = record {
  proxy_boot_id = 0;
  available_memory_bytes = 0;
  available_spi_memory_bytes = 0;
  robusto_version_length = 0;
  delegate_version_length = 0;
  reserved_0 = 0;
  reserved_1 = 0;
  robusto_version = replicate robusto_version_capacity 0;
  delegate_version = replicate delegate_version_capacity 0;
}

abbrev pub cleared_fragment_stats_response : FragmentStatsResponse
cleared_fragment_stats_response = record {
  proxy_boot_id = 0;
  stats_level = 0;
  reserved_0 = 0;
  reserved_1 = 0;
  reserved_2 = 0;
  total = no_stats;
  delta_since_last_read = no_stats;
}

module _ {A : Type 0} where
  -- The outcome of the payload's decoder, with the prefix.
  abbrev pub with_prefix :
      ResponsePrefix
      → Run (ProxyResult × Option A)
      → Run (ProxyResult × Option ResponsePrefix × Option A)
  with_prefix p fault = fault
  with_prefix p (returns (result, m)) = returns (result, some p, m)

  -- From the result of the prefix's decoder on.
  abbrev pub after_prefix :
      (Option (List ℕ) → ℕ → Option A → Run (ProxyResult × Option A))
      → A
      → List ℕ
      → ℕ
      → A
      → Run (ProxyResult × Option ResponsePrefix)
      → Run (ProxyResult × Option ResponsePrefix × Option A)
  after_prefix decode cleared buffer buffer_size response fault = fault
  after_prefix decode cleared buffer buffer_size response (returns (ok, some p)) =
      if ltb buffer_size (prefix_size + p.detail_length)
      then returns (bad_length, some p, some response)
      else if is_success (some p)
      then with_prefix p (
          decode (some (drop (prefix_size + p.detail_length) buffer))
            (buffer_size - (prefix_size + p.detail_length)) (some cleared))
      else returns (ok, some p, some cleared)
  after_prefix decode cleared buffer buffer_size response (returns (e, p)) =
      returns (invalid_argument, p, some response)

  -- `decode_response_message`: the result, with `*prefix` and `*response`.
  abbrev pub decode_response_message :
      (Option (List ℕ) → ℕ → Option A → Run (ProxyResult × Option A))
      → A
      → Option (List ℕ)
      → ℕ
      → Option ResponsePrefix
      → Option A
      → Run (ProxyResult × Option ResponsePrefix × Option A)
  decode_response_message decode cleared (some buffer) buffer_size (some prefix) (some response) =
      after_prefix decode cleared buffer buffer_size response
        (decode_response_prefix (some buffer) buffer_size (some prefix))
  decode_response_message decode cleared buffer buffer_size prefix response =
      returns (invalid_argument, prefix, response)

-- `robusto_proxy_decode_hello_response_message`
unfoldable pub decode_hello_response_message :
    Option (List ℕ)
    → ℕ
    → Option ResponsePrefix
    → Option HelloResponse
    → Run (ProxyResult × Option ResponsePrefix × Option HelloResponse)
decode_hello_response_message = decode_response_message decode_hello_response cleared_hello_response

-- `robusto_proxy_decode_capability_response_message`
unfoldable pub decode_capability_response_message :
    Option (List ℕ)
    → ℕ
    → Option ResponsePrefix
    → Option CapabilityResponse
    → Run (ProxyResult × Option ResponsePrefix × Option CapabilityResponse)
decode_capability_response_message =
    decode_response_message decode_capability_response cleared_capability_response

-- `robusto_proxy_decode_health_response_message`
unfoldable pub decode_health_response_message :
    Option (List ℕ)
    → ℕ
    → Option ResponsePrefix
    → Option HealthResponse
    → Run (ProxyResult × Option ResponsePrefix × Option HealthResponse)
decode_health_response_message =
    decode_response_message decode_health_response cleared_health_response

-- `robusto_proxy_decode_system_info_response_message`
unfoldable pub decode_system_info_response_message :
    Option (List ℕ)
    → ℕ
    → Option ResponsePrefix
    → Option SystemInfoResponse
    → Run (ProxyResult × Option ResponsePrefix × Option SystemInfoResponse)
decode_system_info_response_message =
    decode_response_message decode_system_info_response cleared_system_info_response

-- `robusto_proxy_decode_fragment_stats_response_message`
unfoldable pub decode_fragment_stats_response_message :
    Option (List ℕ)
    → ℕ
    → Option ResponsePrefix
    → Option FragmentStatsResponse
    → Run (ProxyResult × Option ResponsePrefix × Option FragmentStatsResponse)
decode_fragment_stats_response_message =
    decode_response_message decode_fragment_stats_response cleared_fragment_stats_response
