-- ===== src/Protocol.antt =====
-- components/robusto/proxy/include/robusto_proxy_protocol.h: the constants, enumerations and
-- structures that both ends of the proxy link share, and the profile limits and flag test that
-- proxy/src/robusto_proxy_frame.c defines for them.
pub mod Flag
pub mod Domain
pub mod Opcode
pub mod PubsubOpcode
pub mod Status
pub mod FlagRule
pub mod Messages
pub mod Stats
use robusto.Prelude.{
  ◌≡◌, ◌≢◌, ◌⊎◌, inl, inr, refl, ℕ, ◌+◌, ◌^◌, ◌<◌, Bool, true, false, ◌||◌, bit_and, bit_or, ◌==◌,
  ◌!=◌, leb, if◌then◌else◌, IsByte,
}

-- Sizes, in bytes.
abbrev pub slot_size : ℕ
slot_size = 4120

abbrev pub header_size : ℕ
header_size = 20

abbrev pub crc_size : ℕ
crc_size = 4

abbrev pub max_payload : ℕ
max_payload = 4096

abbrev pub protocol_major : ℕ
protocol_major = 1

abbrev pub protocol_minor : ℕ
protocol_minor = 0

-- `robusto_proxy_result_t`
pub data ProxyResult : Type 0 where
  ok invalid_argument bad_magic bad_version bad_header_length bad_flags : ProxyResult
  bad_reserved bad_length bad_crc : ProxyResult

pub ok_or_not : (r : ProxyResult) → (r ≡ ok) ⊎ (r ≢ ok)
ok_or_not ok = inl refl
ok_or_not _ = inr (λ e. cc)

-- `robusto_proxy_session_state_t`
pub data SessionState : Type 0 where
  reset negotiating established degraded incompatible : SessionState

-- `robusto_proxy_profile_t`
pub data Profile : Type 0 where
  low_memory standard : Profile

-- `robusto_proxy_frame_header_t`
pub record FrameHeader : Type 0 where
  pub magic_0 : ℕ
  pub magic_1 : ℕ
  pub protocol_major : ℕ
  pub header_length : ℕ
  pub flags : ℕ
  pub domain : ℕ
  pub opcode : ℕ
  pub reserved : ℕ
  pub correlation_id : ℕ
  pub sequence : ℕ
  pub payload_length : ℕ

-- The widths of the fields of `robusto_proxy_frame_header_t`.
pub record FitsHeader (h : FrameHeader) : Type 0 where
  pub magic_0 : IsByte h.magic_0
  pub magic_1 : IsByte h.magic_1
  pub protocol_major : IsByte h.protocol_major
  pub header_length : IsByte h.header_length
  pub flags : IsByte h.flags
  pub domain : IsByte h.domain
  pub opcode : IsByte h.opcode
  pub reserved : IsByte h.reserved
  pub correlation_id : h.correlation_id < 2 ^ 32
  pub sequence : h.sequence < 2 ^ 32
  pub payload_length : h.payload_length < 2 ^ 32

-- `robusto_proxy_profile_limits_t`
pub record ProfileLimits : Type 0 where
  pub max_in_flight : ℕ
  pub max_subscriptions : ℕ
  pub dedupe_entries : ℕ
  pub dedupe_window_ms : ℕ
  pub request_pool_bytes : ℕ
  pub response_pool_bytes : ℕ

-- `robusto_proxy_flag_is_valid`
unfoldable pub flag_is_valid : ℕ → Bool
flag_is_valid flags =
    let frame_type_bits = bit_and flags (bit_or (bit_or Flag.request Flag.response) Flag.event) in
    if bit_and flags 0xF0 != 0
    then false
    else (frame_type_bits == Flag.request
        || (frame_type_bits == Flag.response || frame_type_bits == Flag.event))

-- `robusto_proxy_payload_length_is_valid`
unfoldable pub payload_length_is_valid : ℕ → Bool
payload_length_is_valid payload_length = leb payload_length max_payload

-- `robusto_proxy_frame_size_bytes`. A `size_t` holds the sum: the length is a `uint32_t`, and the
-- callers compute with the result only for a length of at most `max_payload`.
abbrev pub frame_size_bytes : ℕ → ℕ
frame_size_bytes payload_length = header_size + payload_length + crc_size

-- `robusto_proxy_profile_limits`
unfoldable pub profile_limits : Profile → ProfileLimits
profile_limits standard = record {
  max_in_flight = 8;
  max_subscriptions = 32;
  dedupe_entries = 64;
  dedupe_window_ms = 10000;
  request_pool_bytes = 8192;
  response_pool_bytes = 8192;
}
profile_limits low_memory = record {
  max_in_flight = 2;
  max_subscriptions = 16;
  dedupe_entries = 32;
  dedupe_window_ms = 10000;
  request_pool_bytes = 4096;
  response_pool_bytes = 4096;
}
