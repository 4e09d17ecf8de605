-- ===== src/Control/RoundTrip/FragmentStats.antt =====
-- The FRAGMENT_STATS response.
use robusto.Prelude.{
  ℕ, ◌≤◌, ◌<◌, ◌^◌, ◌≡◌, refl, sym, ap, ◌∙◌, List, ◌++◌, append_assoc, arith, drop, length,
  drop-append, length-append,
}
use robusto.Protocol.{ok}
use robusto.Protocol.Stats.{FragmentStats, FitsFragmentStats, FragmentStatsResponse}
use robusto.Control.FragmentStats.{
  fragment_stats_response_size, verbose_level, stats_bytes, read_fragment_stats,
  fragment_stats_response_bytes, read_fragment_stats_response, encode_fragment_stats_response,
  decode_fragment_stats_response,
}
use robusto.Control.RoundTrip.{Recovers, with-Recovers}

pub record IsStatsResponse (m : FragmentStatsResponse) : Type 0 where
  pub boot : m.proxy_boot_id < 2 ^ 64
  pub level : m.stats_level ≤ verbose_level
  pub reserved_0 : m.reserved_0 ≡ 0
  pub reserved_1 : m.reserved_1 ≡ 0
  pub reserved_2 : m.reserved_2 ≡ 0
  pub total : FitsFragmentStats m.total
  pub delta : FitsFragmentStats m.delta_since_last_read

length-stats_bytes : (m : FragmentStats) → length (stats_bytes m) ≡ 88
unfolding stats_bytes
length-stats_bytes m = refl

read_fragment_stats-bytes :
    (m : FragmentStats) (rest : List ℕ)
    → FitsFragmentStats m
    → read_fragment_stats (stats_bytes m ++ rest) ≡ m
unfolding stats_bytes read_fragment_stats
read_fragment_stats-bytes m rest fits = ground arith

module _ (m : FragmentStatsResponse) (v : IsStatsResponse m) where
  total-back :
      (rest : List ℕ)
      → read_fragment_stats ((stats_bytes m.total ++ stats_bytes m.delta_since_last_read) ++ rest)
        ≡ m.total
  total-back rest =
      rw (append_assoc (stats_bytes m.total))
        (read_fragment_stats-bytes m.total (stats_bytes m.delta_since_last_read ++ rest) v.total)

  delta-back :
      (rest : List ℕ)
      → read_fragment_stats
          (drop 88 ((stats_bytes m.total ++ stats_bytes m.delta_since_last_read) ++ rest))
        ≡ m.delta_since_last_read
  delta-back rest = rw (append_assoc (stats_bytes m.total)) (
      ap read_fragment_stats (
        drop-append (stats_bytes m.total) (stats_bytes m.delta_since_last_read ++ rest) 88
          (sym (length-stats_bytes m.total)))
      ∙ read_fragment_stats-bytes m.delta_since_last_read rest v.delta)

  read-bytes :
      (rest : List ℕ)
      → read_fragment_stats_response (fragment_stats_response_bytes m ++ rest) ≡ (ok, m)
  unfolding read_fragment_stats_response fragment_stats_response_bytes
  read-bytes rest = ground (
    arith,
    v.boot,
    v.level,
    v.reserved_0,
    v.reserved_1,
    v.reserved_2,
    total-back rest,
    delta-back rest,
  )

  long : length (fragment_stats_response_bytes m) ≡ fragment_stats_response_size
  unfolding fragment_stats_response_bytes
  long = omega (
    arith,
    length-append (stats_bytes m.total) (stats_bytes m.delta_since_last_read),
    length-stats_bytes m.total,
    length-stats_bytes m.delta_since_last_read,
  )

-- A fragment stats response whose fields fit, with a known level and the reserved bytes 0, comes
-- back from `robusto_proxy_encode_fragment_stats_response` through
-- `robusto_proxy_decode_fragment_stats_response`, all 44 counters included.
pub decode_fragment_stats_response-encode :
    (m : FragmentStatsResponse) (buffer : List ℕ) (buffer_size : ℕ) (old : FragmentStatsResponse)
    (received : ℕ)
    → IsStatsResponse m
    → fragment_stats_response_size ≤ buffer_size
    → fragment_stats_response_size ≤ received
    → Recovers encode_fragment_stats_response decode_fragment_stats_response
        fragment_stats_response_size m buffer buffer_size old received
unfolding encode_fragment_stats_response decode_fragment_stats_response
decode_fragment_stats_response-encode m buffer buffer_size old received v room whole =
    with-Recovers fragment_stats_response_size fragment_stats_response_bytes
      read_fragment_stats_response m (long m v) (read-bytes m v) buffer buffer_size old received
      room whole
