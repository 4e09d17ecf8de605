-- ===== src/Control/Tests.antt =====
-- Control messages at concrete values, and the theorems applied to them.
use robusto.Prelude.{ℕ, ◌≡◌, ◌↔◌, refl, none, some, List, [], ◌∷◌, arith, replicate}
use robusto.Protocol.{ok, invalid_argument}
use robusto.Protocol.Messages.{
  ResponsePrefix, HelloRequest, HelloResponse, CapabilityResponse, HealthResponse,
}
use robusto.Protocol.Stats.{FragmentStats, FragmentStatsResponse}
use robusto.Control.{
  fault, returns, prefix_bytes, read_prefix, encode_response_prefix, decode_response_prefix,
  is_success,
}
use robusto.Control.Hello.{
  hello_response_bytes, encode_hello_request, decode_hello_request, encode_hello_response,
  decode_hello_response,
}
use robusto.Control.SystemInfo.{
  SystemInfoResponse, copy_into, encode_system_info_response, decode_system_info_response,
}
use robusto.Control.FragmentStats.{encode_fragment_stats_response, decode_fragment_stats_response}
use robusto.Control.RoundTrip.{Recovers}
use robusto.Control.RoundTrip.Prefix.{
  IsAdmitted, decode_response_prefix-encode, decode_response_prefix_iff,
}
use robusto.Control.RoundTrip.SystemInfo.{IsSystemInfo, decode_system_info_response-encode}
use robusto.Control.RoundTrip.FragmentStats.{decode_fragment_stats_response-encode}
use robusto.Control.Message.{cleared_hello_response, decode_hello_response_message}
use robusto.Control.Whole.{message_bytes, failure, decode_hello_response_message_lem}
use robusto.Control.NullBuffer.{null_buffer_faults}

abbrev room : List ℕ
room = replicate 200 0xEE

abbrev a_hello_request : HelloRequest
a_hello_request = record {
  controller_boot_id = 1234605616436508552;
  min_protocol_major = 1;
  max_protocol_major = 1;
  min_protocol_minor = 0;
  max_protocol_minor = 0;
  max_payload = 4096;
  max_in_flight = 2;
  reserved = 0;
  required_features = 1;
  optional_features = 6;
}

abbrev a_hello_response : HelloResponse
a_hello_response = record {
  proxy_boot_id = 77;
  selected_protocol_major = 1;
  selected_protocol_minor = 0;
  reserved = 0;
  selected_max_payload = 4096;
  selected_max_in_flight = 2;
  dedupe_entries = 32;
  dedupe_window_ms = 10000;
  enabled_features = 5;
  proxy_uptime_ms = 1234;
  reserved2 = 0;
}

abbrev a_capability_response : CapabilityResponse
a_capability_response = record {
  proxy_boot_id = 77;
  enabled_features = 5;
  pubsub_major = 1;
  pubsub_minor = 1;
  reserved = 0;
  selected_max_payload = 4096;
  selected_max_in_flight = 2;
  max_subscriptions = 16;
}

abbrev a_health_response : HealthResponse
a_health_response = record {
  proxy_boot_id = 77;
  uptime_ms = 1000;
  service_state = 1;
  reserved_0 = 0;
  reserved_1 = 0;
  reserved_2 = 0;
  requests = 10;
  events = 0;
  errors = 2;
  timeouts = 1;
  rx_crc_errors = 0;
  queue_high_water = 3;
}

abbrev a_prefix : ResponsePrefix
a_prefix = record {
  status = 5;
  result_flags = 1;
  retry_after_ms = 250;
  detail_length = 3;
  reserved = 0;
}

decode_response_prefix-encode_example :
    Recovers encode_response_prefix decode_response_prefix 12 a_prefix room 200 a_prefix 40
decode_response_prefix-encode_example =
    decode_response_prefix-encode a_prefix room 200 a_prefix 40 (omega arith) (omega arith)
      (omega arith)

decode_response_prefix_iff_example :
    (decode_response_prefix (some (prefix_bytes a_prefix)) 15 (some a_prefix)
      ≡ returns (ok, some (read_prefix (prefix_bytes a_prefix))))
    ↔ IsAdmitted 15 (read_prefix (prefix_bytes a_prefix))
decode_response_prefix_iff_example =
    decode_response_prefix_iff (prefix_bytes a_prefix) 15 a_prefix (omega arith)

abbrev system_info : SystemInfoResponse
system_info = record {
  proxy_boot_id = 77;
  available_memory_bytes = 100000;
  available_spi_memory_bytes = 5;
  robusto_version_length = 3;
  delegate_version_length = 2;
  reserved_0 = 0;
  reserved_1 = 0;
  robusto_version = 0x30 ∷ 0x2E ∷ 0x31 ∷ replicate 29 0;
  delegate_version = 0x43 ∷ 0x36 ∷ replicate 62 0;
}

system_info-IsSystemInfo : IsSystemInfo system_info
unfolding copy_into
system_info-IsSystemInfo = record {
  boot = omega arith;
  memory = omega arith;
  spi_memory = omega arith;
  reserved_0 = refl;
  reserved_1 = refl;
  robusto = record { fits = omega arith; whole = refl; cleared = refl };
  delegate = record { fits = omega arith; whole = refl; cleared = refl };
}

decode_system_info_response-encode_example :
    Recovers encode_system_info_response decode_system_info_response 116 system_info room 200
      system_info 116
decode_system_info_response-encode_example =
    decode_system_info_response-encode system_info room 200 system_info 116 system_info-IsSystemInfo
      (omega arith) (omega arith)

abbrev counters : FragmentStats
counters = record {
  send_started = 1;
  send_succeeded = 2;
  send_failed = 3;
  send_timed_out = 4;
  request_received = 5;
  message_received = 6;
  resend_request_sent = 7;
  resend_request_received = 8;
  check_sent = 9;
  check_received = 10;
  result_ok_received = 11;
  result_fail_received = 12;
  missing_fragments_reported = 13;
  invalid_fragment_reference = 14;
  invalid_fragment_index = 15;
  wrong_fragment_length = 16;
  wrong_resend_map_length = 17;
  full_message_crc_mismatch = 18;
  fragment_oom = 19;
  invalid_fragment_type = 20;
  fragments_sent = 21;
  fragments_resent = 22;
}

abbrev stats_response : FragmentStatsResponse
stats_response = record {
  proxy_boot_id = 77;
  stats_level = 3;
  reserved_0 = 0;
  reserved_1 = 0;
  reserved_2 = 0;
  total = counters;
  delta_since_last_read = counters;
}

decode_fragment_stats_response-encode_example :
    Recovers encode_fragment_stats_response decode_fragment_stats_response 188 stats_response room
      200 stats_response 188
decode_fragment_stats_response-encode_example =
    decode_fragment_stats_response-encode stats_response room 200 stats_response 188 (omega arith)
      (omega arith) (omega arith)

abbrev success : ResponsePrefix
success = record a_prefix { status = 0; result_flags = 0 }

-- A whole response of 55 bytes.
success_read :
    decode_hello_response_message
      (some (message_bytes success (1 ∷ 2 ∷ 3 ∷ []) (hello_response_bytes a_hello_response)))
      55
      (some a_prefix)
      (some cleared_hello_response)
    ≡ returns (ok, some success, some a_hello_response)
unfolding decode_hello_response_message decode_response_prefix is_success decode_hello_response
success_read = refl

-- A failure in 15 bytes, with a detail and no payload.
decode_hello_response_message_lem_example :
    decode_hello_response_message
      (some (message_bytes a_prefix (1 ∷ 2 ∷ 3 ∷ []) []))
      15
      (some success)
      (some a_hello_response)
    ≡ returns (ok, some a_prefix, some cleared_hello_response)
decode_hello_response_message_lem_example =
    decode_hello_response_message_lem a_prefix (1 ∷ 2 ∷ 3 ∷ []) [] 15 success a_hello_response ok
      cleared_hello_response (omega arith) (omega arith) refl (failure (λ e. absurd (omega arith)))

null_buffer_faults_example :
    (encode_hello_request none 40 (some a_hello_request) ≡ fault)
    × (decode_hello_request none 40 (some a_hello_request) ≡ fault)
    × (encode_hello_response none 40 (some a_hello_response) ≡ fault)
    × (decode_hello_response none 40 (some a_hello_response) ≡ fault)
    × (decode_response_prefix none 40 (some a_prefix) ≡ fault)
    × (encode_response_prefix none 40 (some a_prefix) ≡ returns (invalid_argument, none))
null_buffer_faults_example =
    null_buffer_faults a_hello_request a_hello_response a_prefix 40 (omega arith)
