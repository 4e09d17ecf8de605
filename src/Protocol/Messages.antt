-- ===== src/Protocol/Messages.antt =====
-- The structures of proxy/include/robusto_proxy_protocol.h that the control messages carry, and
-- the widths of their fields.
use robusto.Prelude.{ℕ, ◌^◌, ◌<◌}

-- `robusto_proxy_hello_request_t`
pub record HelloRequest : Type 0 where
  pub controller_boot_id : ℕ
  pub min_protocol_major : ℕ
  pub max_protocol_major : ℕ
  pub min_protocol_minor : ℕ
  pub max_protocol_minor : ℕ
  pub max_payload : ℕ
  pub max_in_flight : ℕ
  pub reserved : ℕ
  pub required_features : ℕ
  pub optional_features : ℕ

pub record FitsHelloRequest (m : HelloRequest) : Type 0 where
  pub controller_boot_id : m.controller_boot_id < 2 ^ 64
  pub min_protocol_major : m.min_protocol_major < 2 ^ 8
  pub max_protocol_major : m.max_protocol_major < 2 ^ 8
  pub min_protocol_minor : m.min_protocol_minor < 2 ^ 8
  pub max_protocol_minor : m.max_protocol_minor < 2 ^ 8
  pub max_payload : m.max_payload < 2 ^ 32
  pub max_in_flight : m.max_in_flight < 2 ^ 16
  pub reserved : m.reserved < 2 ^ 16
  pub required_features : m.required_features < 2 ^ 64
  pub optional_features : m.optional_features < 2 ^ 64

-- `robusto_proxy_hello_response_t`
pub record HelloResponse : Type 0 where
  pub proxy_boot_id : ℕ
  pub selected_protocol_major : ℕ
  pub selected_protocol_minor : ℕ
  pub reserved : ℕ
  pub selected_max_payload : ℕ
  pub selected_max_in_flight : ℕ
  pub dedupe_entries : ℕ
  pub dedupe_window_ms : ℕ
  pub enabled_features : ℕ
  pub proxy_uptime_ms : ℕ
  pub reserved2 : ℕ

pub record FitsHelloResponse (m : HelloResponse) : Type 0 where
  pub proxy_boot_id : m.proxy_boot_id < 2 ^ 64
  pub selected_protocol_major : m.selected_protocol_major < 2 ^ 8
  pub selected_protocol_minor : m.selected_protocol_minor < 2 ^ 8
  pub reserved : m.reserved < 2 ^ 16
  pub selected_max_payload : m.selected_max_payload < 2 ^ 32
  pub selected_max_in_flight : m.selected_max_in_flight < 2 ^ 16
  pub dedupe_entries : m.dedupe_entries < 2 ^ 16
  pub dedupe_window_ms : m.dedupe_window_ms < 2 ^ 32
  pub enabled_features : m.enabled_features < 2 ^ 64
  pub proxy_uptime_ms : m.proxy_uptime_ms < 2 ^ 32
  pub reserved2 : m.reserved2 < 2 ^ 32

-- `robusto_proxy_capability_response_t`
pub record CapabilityResponse : Type 0 where
  pub proxy_boot_id : ℕ
  pub enabled_features : ℕ
  pub pubsub_major : ℕ
  pub pubsub_minor : ℕ
  pub reserved : ℕ
  pub selected_max_payload : ℕ
  pub selected_max_in_flight : ℕ
  pub max_subscriptions : ℕ

pub record FitsCapabilityResponse (m : CapabilityResponse) : Type 0 where
  pub proxy_boot_id : m.proxy_boot_id < 2 ^ 64
  pub enabled_features : m.enabled_features < 2 ^ 64
  pub pubsub_major : m.pubsub_major < 2 ^ 8
  pub pubsub_minor : m.pubsub_minor < 2 ^ 8
  pub reserved : m.reserved < 2 ^ 16
  pub selected_max_payload : m.selected_max_payload < 2 ^ 32
  pub selected_max_in_flight : m.selected_max_in_flight < 2 ^ 16
  pub max_subscriptions : m.max_subscriptions < 2 ^ 16

-- `robusto_proxy_health_response_t`
pub record HealthResponse : Type 0 where
  pub proxy_boot_id : ℕ
  pub uptime_ms : ℕ
  pub service_state : ℕ
  pub reserved_0 : ℕ
  pub reserved_1 : ℕ
  pub reserved_2 : ℕ
  pub requests : ℕ
  pub events : ℕ
  pub errors : ℕ
  pub timeouts : ℕ
  pub rx_crc_errors : ℕ
  pub queue_high_water : ℕ

pub record FitsHealthResponse (m : HealthResponse) : Type 0 where
  pub proxy_boot_id : m.proxy_boot_id < 2 ^ 64
  pub uptime_ms : m.uptime_ms < 2 ^ 32
  pub service_state : m.service_state < 2 ^ 8
  pub reserved_0 : m.reserved_0 < 2 ^ 8
  pub reserved_1 : m.reserved_1 < 2 ^ 8
  pub reserved_2 : m.reserved_2 < 2 ^ 8
  pub requests : m.requests < 2 ^ 32
  pub events : m.events < 2 ^ 32
  pub errors : m.errors < 2 ^ 32
  pub timeouts : m.timeouts < 2 ^ 32
  pub rx_crc_errors : m.rx_crc_errors < 2 ^ 32
  pub queue_high_water : m.queue_high_water < 2 ^ 32

-- `robusto_proxy_response_prefix_t`
pub record ResponsePrefix : Type 0 where
  pub status : ℕ
  pub result_flags : ℕ
  pub retry_after_ms : ℕ
  pub detail_length : ℕ
  pub reserved : ℕ

pub record FitsResponsePrefix (m : ResponsePrefix) : Type 0 where
  pub status : m.status < 2 ^ 16
  pub result_flags : m.result_flags < 2 ^ 16
  pub retry_after_ms : m.retry_after_ms < 2 ^ 32
  pub detail_length : m.detail_length < 2 ^ 16
  pub reserved : m.reserved < 2 ^ 16
