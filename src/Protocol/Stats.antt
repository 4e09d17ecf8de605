-- ===== src/Protocol/Stats.antt =====
-- `robusto_fragment_stats_t` of components/robusto/include/robusto_message.h, and the
-- FRAGMENT_STATS response.
use robusto.Prelude.{ℕ, ◌^◌, ◌<◌}

pub record FragmentStats : Type 0 where
  pub send_started : ℕ
  pub send_succeeded : ℕ
  pub send_failed : ℕ
  pub send_timed_out : ℕ
  pub request_received : ℕ
  pub message_received : ℕ
  pub resend_request_sent : ℕ
  pub resend_request_received : ℕ
  pub check_sent : ℕ
  pub check_received : ℕ
  pub result_ok_received : ℕ
  pub result_fail_received : ℕ
  pub missing_fragments_reported : ℕ
  pub invalid_fragment_reference : ℕ
  pub invalid_fragment_index : ℕ
  pub wrong_fragment_length : ℕ
  pub wrong_resend_map_length : ℕ
  pub full_message_crc_mismatch : ℕ
  pub fragment_oom : ℕ
  pub invalid_fragment_type : ℕ
  pub fragments_sent : ℕ
  pub fragments_resent : ℕ

pub record FitsFragmentStats (m : FragmentStats) : Type 0 where
  pub send_started : m.send_started < 2 ^ 32
  pub send_succeeded : m.send_succeeded < 2 ^ 32
  pub send_failed : m.send_failed < 2 ^ 32
  pub send_timed_out : m.send_timed_out < 2 ^ 32
  pub request_received : m.request_received < 2 ^ 32
  pub message_received : m.message_received < 2 ^ 32
  pub resend_request_sent : m.resend_request_sent < 2 ^ 32
  pub resend_request_received : m.resend_request_received < 2 ^ 32
  pub check_sent : m.check_sent < 2 ^ 32
  pub check_received : m.check_received < 2 ^ 32
  pub result_ok_received : m.result_ok_received < 2 ^ 32
  pub result_fail_received : m.result_fail_received < 2 ^ 32
  pub missing_fragments_reported : m.missing_fragments_reported < 2 ^ 32
  pub invalid_fragment_reference : m.invalid_fragment_reference < 2 ^ 32
  pub invalid_fragment_index : m.invalid_fragment_index < 2 ^ 32
  pub wrong_fragment_length : m.wrong_fragment_length < 2 ^ 32
  pub wrong_resend_map_length : m.wrong_resend_map_length < 2 ^ 32
  pub full_message_crc_mismatch : m.full_message_crc_mismatch < 2 ^ 32
  pub fragment_oom : m.fragment_oom < 2 ^ 32
  pub invalid_fragment_type : m.invalid_fragment_type < 2 ^ 32
  pub fragments_sent : m.fragments_sent < 2 ^ 32
  pub fragments_resent : m.fragments_resent < 2 ^ 32

-- `robusto_proxy_fragment_stats_response_t`
pub record FragmentStatsResponse : Type 0 where
  pub proxy_boot_id : ℕ
  pub stats_level : ℕ
  pub reserved_0 : ℕ
  pub reserved_1 : ℕ
  pub reserved_2 : ℕ
  pub total : FragmentStats
  pub delta_since_last_read : FragmentStats
