-- ===== src/Service/Query.antt =====
-- proxy/src/robusto_proxy_service.c: the branches of `robusto_proxy_service_handle_control_request`
-- that take no payload.
use robusto.Prelude.{
  ℕ, zero, suc, ◌+◌, ◌/◌, ◌%◌, ◌^◌, Bool, true, false, not, ◌||◌, Option, none, some, List, [], ◌∷◌,
  bit_and, ltb, ◌==◌, ◌!=◌, if◌then◌else◌, byte_at,
}
use robusto.Protocol.Status
use robusto.Protocol.Messages.{CapabilityResponse}
use robusto.Protocol.Stats.{FragmentStats, FragmentStatsResponse}
use robusto.Control.{prefix_size}
use robusto.Control.Reports.{
  capability_response_size, encode_capability_response, health_response_size,
  encode_health_response,
}
use robusto.Control.SystemInfo.{
  SystemInfoResponse, copy_into, robusto_version_capacity, delegate_version_capacity,
  system_info_response_size, encode_system_info_response,
}
use robusto.Control.FragmentStats.{fragment_stats_response_size, encode_fragment_stats_response}
use robusto.Service.{
  Service, Output, Answer, is_established, build_health_response, counted, erred, refused,
  reply_status, reply_payload,
}
use robusto.Service.Features.{pubsub}

-- What the build and the machine supply: the texts of ROBUSTO_VERSION and of the configured
-- identity, the application's SHA-256, the free memory, and the counters of the fragmentation, whose
-- reading resets the differences.
pub record Platform (A : Type 0) : Type 0 where
  pub robusto_version : List ℕ
  pub configured_identity : Option (List ℕ)
  pub app_elf_sha256 : Option (List ℕ)
  pub get_free_mem : A → ℕ
  pub get_free_mem_spi : A → ℕ
  pub fragment_stats_level : A → ℕ
  pub fragment_stats_get : A → FragmentStats × (FragmentStats × A)

-- The loop of `bounded_string_length`; a text is the bytes before its NUL, or has it inside.
unfoldable pub text_length : List ℕ → ℕ → ℕ
text_length text zero = 0
text_length [] (suc maximum) = 0
text_length (c ∷ text) (suc maximum) = if c == 0 then 0 else suc (text_length text maximum)

-- `bounded_string_length`
unfoldable pub bounded_string_length : Option (List ℕ) → ℕ → ℕ
bounded_string_length none maximum = 0
bounded_string_length (some text) maximum = text_length text maximum

-- `hex_digits[value]`
abbrev pub hex_digit : ℕ → ℕ
hex_digit value = if ltb value 10 then 48 + value else 55 + value

unfoldable pub hex_text : List ℕ → List ℕ
hex_text [] = []
hex_text (byte ∷ bytes) = hex_digit (byte / 2 ^ 4) ∷ hex_digit (byte % 2 ^ 4) ∷ hex_text bytes

module _ {A : Type 0} where
  -- What `delegate_identity_string` takes where no identity is configured.
  abbrev pub built_identity : Platform A → Option (List ℕ) → List ℕ
  built_identity p none = p.robusto_version
  built_identity p (some sha256) = hex_text sha256

  -- `delegate_identity_string`
  unfoldable pub delegate_identity_string : Platform A → List ℕ
  delegate_identity_string p = elim p.configured_identity [
    | none ↦ built_identity p p.app_elf_sha256
    | some identity ↦
        if byte_at identity 0 != 0 then identity else built_identity p p.app_elf_sha256
  ]

  unfoldable pub handle_health : Service A → ℕ → ℕ → Output → A → Answer A
  handle_health s payload_size now_ms out world =
      if payload_size != 0 || ltb out.room (prefix_size + health_response_size)
      then refused s out world
      else reply_payload (counted s) (counted s)
          (λ buffer size.
            encode_health_response buffer size (some (build_health_response (counted s) now_ms)))
          health_response_size out world

  -- A session that is not open gets ROBUSTO_PROXY_STATUS_HANDSHAKE_REQUIRED.
  abbrev pub require_handshake : Service A → Output → A → Answer A
  require_handshake s out world = reply_status s (erred s) Status.handshake_required out world

  unfoldable pub capability_response : Service A → CapabilityResponse
  capability_response s =
      let speaks_pubsub : Bool = bit_and s.session.enabled_features pubsub != 0 in
      record {
        proxy_boot_id = s.session.local_boot_id;
        enabled_features = s.session.enabled_features;
        pubsub_major = if speaks_pubsub then 1 else 0;
        pubsub_minor = if speaks_pubsub then 1 else 0;
        reserved = 0;
        selected_max_payload = s.session.negotiated_limits.request_pool_bytes;
        selected_max_in_flight = s.session.negotiated_limits.max_in_flight;
        max_subscriptions = s.session.negotiated_limits.max_subscriptions;
      }

  unfoldable pub handle_capability_query : Service A → ℕ → Output → A → Answer A
  handle_capability_query s payload_size out world =
      if payload_size != 0 || ltb out.room prefix_size
      then refused s out world
      else if not (is_established s.session.state)
      then require_handshake s out world
      else if ltb out.room (prefix_size + capability_response_size)
      then refused s out world
      else reply_payload s (counted s)
          (λ buffer size. encode_capability_response buffer size (some (capability_response s)))
          capability_response_size out world

  -- The memory sizes are cast to 32 bits.
  unfoldable pub system_info_response : Platform A → Service A → A → SystemInfoResponse
  system_info_response p s world =
      let identity : List ℕ = delegate_identity_string p in
      let version_length : ℕ =
        bounded_string_length (some p.robusto_version) robusto_version_capacity in
      let identity_length : ℕ = bounded_string_length (some identity) delegate_version_capacity in
      record {
        proxy_boot_id = s.session.local_boot_id;
        available_memory_bytes = p.get_free_mem world % 2 ^ 32;
        available_spi_memory_bytes = p.get_free_mem_spi world % 2 ^ 32;
        robusto_version_length = version_length;
        delegate_version_length = identity_length;
        reserved_0 = 0;
        reserved_1 = 0;
        robusto_version = copy_into robusto_version_capacity version_length p.robusto_version;
        delegate_version = copy_into delegate_version_capacity identity_length identity;
      }

  unfoldable pub handle_system_info : Platform A → Service A → ℕ → Output → A → Answer A
  handle_system_info p s payload_size out world =
      if payload_size != 0 || ltb out.room (prefix_size + system_info_response_size)
      then refused s out world
      else if not (is_established s.session.state)
      then require_handshake s out world
      else reply_payload s (counted s)
          (λ buffer size.
            encode_system_info_response buffer size (some (system_info_response p s world)))
          system_info_response_size out world

  -- The level is cast to 8 bits.
  unfoldable pub fragment_stats_response :
      Service A → ℕ → FragmentStats → FragmentStats → FragmentStatsResponse
  fragment_stats_response s level total delta = record {
    proxy_boot_id = s.session.local_boot_id;
    stats_level = level % 2 ^ 8;
    reserved_0 = 0;
    reserved_1 = 0;
    reserved_2 = 0;
    total = total;
    delta_since_last_read = delta;
  }

  unfoldable pub report_stats :
      Service A → ℕ → Output → FragmentStats × (FragmentStats × A) → Answer A
  report_stats s level out (total, (delta, world)) =
      reply_payload s (counted s)
        (λ buffer size.
          encode_fragment_stats_response buffer size
            (some (fragment_stats_response s level total delta)))
        fragment_stats_response_size out world

  unfoldable pub handle_fragment_stats : Platform A → Service A → ℕ → Output → A → Answer A
  handle_fragment_stats p s payload_size out world =
      if payload_size != 0 || ltb out.room (prefix_size + fragment_stats_response_size)
      then refused s out world
      else if not (is_established s.session.state)
      then require_handshake s out world
      else report_stats s (p.fragment_stats_level world) out (p.fragment_stats_get world)

  -- The status of a REBOOT, with the call of the handler.
  unfoldable pub try_reboot : Bool → Option (A → Bool × A) → A → ℕ × A
  try_reboot false handler world = (Status.handshake_required, world)
  try_reboot true none world = (Status.capability_unavailable, world)
  try_reboot true (some reboot_request) world =
      let (accepted, world') = reboot_request world in
      ((if accepted then Status.ok else Status.internal), world')

  unfoldable pub after_reboot : Service A → Output → ℕ × A → Answer A
  after_reboot s out (status, world) =
      reply_status s (counted (if status != Status.ok then erred s else s)) status out world

  unfoldable pub handle_reboot : Service A → ℕ → Output → A → Answer A
  handle_reboot s payload_size out world =
      if payload_size != 0 || ltb out.room prefix_size
      then refused s out world
      else after_reboot s out (try_reboot (is_established s.session.state) s.reboot_request world)
