-- ===== src/Service/QueryReply.antt =====
-- Every request of the control domain that takes no payload, and has none, gets a reply.
use robusto.Prelude.{
  ℕ, ◌+◌, ◌≤◌, ◌<◌, ◌^◌, ◌≡◌, refl, Bool, true, false, Option, none, some, List, arith, AreBytes,
  length, Bool-cases, inl, inr, ltb,
}
use robusto.Protocol.{max_payload}
use robusto.Protocol.Status
use robusto.Protocol.Messages.{CapabilityResponse, HealthResponse}
use robusto.Protocol.Stats.{FragmentStats, FragmentStatsResponse}
use robusto.Session.{apply_health_metrics}
use robusto.Control.{prefix_size}
use robusto.Control.Reports.{
  capability_response_size, capability_response_bytes, encode_capability_response,
  health_response_size, health_response_bytes, encode_health_response,
}
use robusto.Control.SystemInfo.{
  SystemInfoResponse, system_info_response_size, system_info_response_bytes,
}
use robusto.Control.FragmentStats.{
  fragment_stats_response_size, fragment_stats_response_bytes, stats_bytes,
  encode_fragment_stats_response,
}
use robusto.Service.{
  Service, Output, is_established, build_health_response, counted, erred, reply_payload,
}
use robusto.Service.Query.{
  Platform, handle_health, capability_response, handle_capability_query, system_info_response,
  handle_system_info, fragment_stats_response, report_stats, handle_fragment_stats, try_reboot,
  after_reboot, handle_reboot,
}
use robusto.Service.Replies.{
  IsBuffer, Replies, IsKept, reply_status-Replies, Stores, reply_payload_lem, answered-IsReply,
}
use robusto.Service.Sound.{IsSoundPlatform}
use robusto.Service.Texts.{
  IsInfo, system_info_response-IsInfo, system_info-Stores, system_info-AreBytes, length-system_info,
}

health-Stores :
    (m : HealthResponse)
    → Stores (λ buffer size. encode_health_response buffer size (some m)) (health_response_bytes m)
unfolding encode_health_response
health-Stores m buffer size room = ground arith

capability-Stores :
    (m : CapabilityResponse)
    → Stores
        (λ buffer size. encode_capability_response buffer size (some m))
        (capability_response_bytes m)
unfolding encode_capability_response
capability-Stores m buffer size room = ground arith

stats-Stores :
    (m : FragmentStatsResponse)
    → Stores
        (λ buffer size. encode_fragment_stats_response buffer size (some m))
        (fragment_stats_response_bytes m)
unfolding encode_fragment_stats_response fragment_stats_response_bytes stats_bytes
stats-Stores m buffer size room = ground arith

stats-AreBytes : (m : FragmentStats) → AreBytes (stats_bytes m)
unfolding stats_bytes
stats-AreBytes m = omega arith

module _ {A : Type 0} where
  -- A reply whose payload an encoder of the control messages stores.
  reply_payload-Replies :
      (s failed done : Service A) (encode : Option (List ℕ) → ℕ → _) (size : ℕ) (out : Output)
      (world : A) (bytes : List ℕ)
      → IsKept s done
      → IsBuffer out
      → Stores encode bytes
      → AreBytes bytes
      → length bytes ≡ size
      → prefix_size + size ≤ max_payload
      → Replies s (reply_payload failed done encode size out world)
  reply_payload-Replies s failed done encode size out world bytes kept buffer stores are long
        small =
      rw
        (reply_payload_lem failed done encode size out world bytes stores long
          (omega (arith, buffer.room)))
        (
          answered-IsReply done out 0 bytes (prefix_size + size) world buffer (omega arith) are
              (omega arith) (omega arith) small,
          kept,
        )

  try_reboot_width :
      (opened : Bool) (handler : Option (A → Bool × A)) (before : A)
      → (try_reboot opened handler before).0 < 2 ^ 16
  unfolding try_reboot
  try_reboot_width false handler before = omega arith
  try_reboot_width true none before = omega arith
  try_reboot_width true (some reboot_request) before = ground arith

  module _ (s : Service A) (out : Output) (buffer : IsBuffer out) where
    pub handle_health-Replies :
        (now_ms : ℕ) (world : A) → Replies s (handle_health s 0 now_ms out world)
    unfolding handle_health
    handle_health-Replies now_ms world =
        let roomy : ltb out.room (prefix_size + health_response_size) ≡ false =
          ground (arith, buffer.room) in
        rw roomy (
          reply_payload-Replies s (counted s) (counted s) _ health_response_size out world
            (health_response_bytes (build_health_response (counted s) now_ms)) (refl, refl, refl)
            buffer (health-Stores (build_health_response (counted s) now_ms))
            (unfold build_health_response apply_health_metrics in ground arith) refl (omega arith))

    pub handle_capability_query-Replies :
        (world : A) → Replies s (handle_capability_query s 0 out world)
    unfolding handle_capability_query
    handle_capability_query-Replies world =
        let roomy : ltb out.room prefix_size ≡ false = ground (arith, buffer.room) in
        let roomy' : ltb out.room (prefix_size + capability_response_size) ≡ false =
          ground (arith, buffer.room) in
        elim (Bool-cases (is_established s.session.state)) [
          | inl opened ↦
              rw (roomy, opened, roomy')
                (reply_payload-Replies s s (counted s) _ capability_response_size out world
                  (capability_response_bytes (capability_response s)) (refl, refl, refl) buffer
                  (capability-Stores (capability_response s))
                  (unfold capability_response in ground arith) refl (omega arith))
          | inr closed ↦
              rw (roomy, closed)
                (reply_status-Replies s s (erred s) Status.handshake_required out world buffer
                  (omega arith) (refl, refl, refl))
        ]

    reported :
        (level : ℕ) (read : FragmentStats × (FragmentStats × A))
        → Replies s (report_stats s level out read)
    unfolding report_stats
    reported level (total, (delta, after)) =
        reply_payload-Replies s s (counted s) _ fragment_stats_response_size out after
          (fragment_stats_response_bytes (fragment_stats_response s level total delta))
          (refl, refl, refl) buffer (stats-Stores (fragment_stats_response s level total delta))
          (unfold fragment_stats_response fragment_stats_response_bytes stats_bytes in omega arith)
          (unfold fragment_stats_response_bytes stats_bytes in refl) (omega arith)

    pub handle_fragment_stats-Replies :
        (p : Platform A) (world : A) → Replies s (handle_fragment_stats p s 0 out world)
    unfolding handle_fragment_stats
    handle_fragment_stats-Replies p world =
        let roomy : ltb out.room (prefix_size + fragment_stats_response_size) ≡ false =
          ground (arith, buffer.room) in
        elim (Bool-cases (is_established s.session.state)) [
          | inl opened ↦
              rw (roomy, opened)
                (reported (p.fragment_stats_level world) (p.fragment_stats_get world))
          | inr closed ↦
              rw (roomy, closed)
                (reply_status-Replies s s (erred s) Status.handshake_required out world buffer
                  (omega arith) (refl, refl, refl))
        ]

    ended : (tried : ℕ × A) → tried.0 < 2 ^ 16 → Replies s (after_reboot s out tried)
    unfolding after_reboot
    ended (status, after) width =
        reply_status-Replies s s _ status out after buffer width (ground arith)

    pub handle_reboot-Replies : (world : A) → Replies s (handle_reboot s 0 out world)
    unfolding handle_reboot
    handle_reboot-Replies world =
        let roomy : ltb out.room prefix_size ≡ false = ground (arith, buffer.room) in
        rw roomy (
          ended (try_reboot (is_established s.session.state) s.reboot_request world)
            (try_reboot_width (is_established s.session.state) s.reboot_request world))

    module _ (p : Platform A) (sound : IsSoundPlatform p) (world : A) where
      abbrev info : SystemInfoResponse
      info = system_info_response p s world

      info-IsInfo : IsInfo info
      info-IsInfo = system_info_response-IsInfo p s world sound

      pub handle_system_info-Replies : Replies s (handle_system_info p s 0 out world)
      unfolding handle_system_info
      handle_system_info-Replies =
          let roomy : ltb out.room (prefix_size + system_info_response_size) ≡ false =
            ground (arith, buffer.room) in
          elim (Bool-cases (is_established s.session.state)) [
            | inl opened ↦
                rw (roomy, opened)
                  (reply_payload-Replies s s (counted s) _ system_info_response_size out world
                    (system_info_response_bytes info) (refl, refl, refl) buffer
                    (system_info-Stores info info-IsInfo) (system_info-AreBytes info info-IsInfo)
                    (length-system_info info info-IsInfo) (omega arith))
            | inr closed ↦
                rw (roomy, closed)
                  (reply_status-Replies s s (erred s) Status.handshake_required out world buffer
                    (omega arith) (refl, refl, refl))
          ]
