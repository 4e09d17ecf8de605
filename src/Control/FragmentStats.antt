-- ===== src/Control/FragmentStats.antt =====
-- proxy/src/robusto_proxy_control.c: the FRAGMENT_STATS response, two blocks of 22 counters.
use robusto.Prelude.{
  ℕ, ◌||◌, Option, List, ◌∷◌, ◌++◌, byte_at, le32, le64, read_le32, read_le64, drop, ltb, ◌!=◌,
  if◌then◌else◌,
}
use robusto.Protocol.{ProxyResult, ok, bad_reserved}
use robusto.Protocol.Stats.{FragmentStats, FragmentStatsResponse}
use robusto.Control.{Run, encode_with, decode_with}

abbrev pub fragment_stats_response_size : ℕ
fragment_stats_response_size = 188

-- ROBUSTO_STATS_LEVEL_VERBOSE
abbrev pub verbose_level : ℕ
verbose_level = 3

-- `write_fragment_stats`
unfoldable pub stats_bytes : FragmentStats → List ℕ
stats_bytes m =
    le32 m.send_started
    ++ (le32 m.send_succeeded
        ++ (le32 m.send_failed
            ++ (le32 m.send_timed_out
                ++ (le32 m.request_received
                    ++ (le32 m.message_received
                        ++ (le32 m.resend_request_sent
                            ++ (le32 m.resend_request_received
                                ++ (le32 m.check_sent
                                    ++ (le32 m.check_received
                                        ++ (le32 m.result_ok_received
                                            ++ (le32 m.result_fail_received
                                                ++ (le32 m.missing_fragments_reported
                                                    ++ (le32 m.invalid_fragment_reference
                                                        ++ (le32 m.invalid_fragment_index
                                                            ++ (le32 m.wrong_fragment_length
                                                            ++ (le32 m.wrong_resend_map_length
                                                            ++ (le32 m.full_message_crc_mismatch
                                                            ++ (le32 m.fragment_oom
                                                            ++ (le32 m.invalid_fragment_type
                                                            ++ (le32 m.fragments_sent
                                                            ++ (le32
                                                            m.fragments_resent)))))))))))))))))))))

-- `read_fragment_stats`
unfoldable pub read_fragment_stats : List ℕ → FragmentStats
read_fragment_stats buffer = record {
  send_started = read_le32 buffer;
  send_succeeded = read_le32 (drop 4 buffer);
  send_failed = read_le32 (drop 8 buffer);
  send_timed_out = read_le32 (drop 12 buffer);
  request_received = read_le32 (drop 16 buffer);
  message_received = read_le32 (drop 20 buffer);
  resend_request_sent = read_le32 (drop 24 buffer);
  resend_request_received = read_le32 (drop 28 buffer);
  check_sent = read_le32 (drop 32 buffer);
  check_received = read_le32 (drop 36 buffer);
  result_ok_received = read_le32 (drop 40 buffer);
  result_fail_received = read_le32 (drop 44 buffer);
  missing_fragments_reported = read_le32 (drop 48 buffer);
  invalid_fragment_reference = read_le32 (drop 52 buffer);
  invalid_fragment_index = read_le32 (drop 56 buffer);
  wrong_fragment_length = read_le32 (drop 60 buffer);
  wrong_resend_map_length = read_le32 (drop 64 buffer);
  full_message_crc_mismatch = read_le32 (drop 68 buffer);
  fragment_oom = read_le32 (drop 72 buffer);
  invalid_fragment_type = read_le32 (drop 76 buffer);
  fragments_sent = read_le32 (drop 80 buffer);
  fragments_resent = read_le32 (drop 84 buffer);
}

-- What the encoder stores: bytes 9 to 11 stay 0.
unfoldable pub fragment_stats_response_bytes : FragmentStatsResponse → List ℕ
fragment_stats_response_bytes m =
    le64 m.proxy_boot_id
    ++ (m.stats_level ∷ 0 ∷ 0 ∷ 0 ∷ (stats_bytes m.total ++ stats_bytes m.delta_since_last_read))

-- `robusto_proxy_encode_fragment_stats_response`
unfoldable pub encode_fragment_stats_response :
    Option (List ℕ) → ℕ → Option FragmentStatsResponse → Run (ProxyResult × Option (List ℕ))
encode_fragment_stats_response =
    encode_with fragment_stats_response_size fragment_stats_response_bytes

abbrev pub no_stats : FragmentStats
no_stats = record {
  send_started = 0;
  send_succeeded = 0;
  send_failed = 0;
  send_timed_out = 0;
  request_received = 0;
  message_received = 0;
  resend_request_sent = 0;
  resend_request_received = 0;
  check_sent = 0;
  check_received = 0;
  result_ok_received = 0;
  result_fail_received = 0;
  missing_fragments_reported = 0;
  invalid_fragment_reference = 0;
  invalid_fragment_index = 0;
  wrong_fragment_length = 0;
  wrong_resend_map_length = 0;
  full_message_crc_mismatch = 0;
  fragment_oom = 0;
  invalid_fragment_type = 0;
  fragments_sent = 0;
  fragments_resent = 0;
}

-- The response after the checks; the counters stay cleared where they fail.
unfoldable pub read_fragment_stats_response : List ℕ → ProxyResult × FragmentStatsResponse
read_fragment_stats_response buffer =
    if byte_at buffer 9 != 0
      || (byte_at buffer 10 != 0
          || (byte_at buffer 11 != 0 || ltb verbose_level (byte_at buffer 8)))
    then (bad_reserved, response no_stats no_stats)
    else (
      ok,
      response (read_fragment_stats (drop 12 buffer)) (read_fragment_stats (drop 100 buffer)),
    )
  where
    response : FragmentStats → FragmentStats → FragmentStatsResponse
    response total delta = record {
      proxy_boot_id = read_le64 buffer;
      stats_level = byte_at buffer 8;
      reserved_0 = byte_at buffer 9;
      reserved_1 = byte_at buffer 10;
      reserved_2 = byte_at buffer 11;
      total = total;
      delta_since_last_read = delta;
    }

-- `robusto_proxy_decode_fragment_stats_response`
unfoldable pub decode_fragment_stats_response :
    Option (List ℕ)
    → ℕ
    → Option FragmentStatsResponse
    → Run (ProxyResult × Option FragmentStatsResponse)
decode_fragment_stats_response =
    decode_with fragment_stats_response_size read_fragment_stats_response
