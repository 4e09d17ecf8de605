-- ===== src/Service/ControlReply.antt =====
-- Which requests of the control domain get a reply.
use robusto.Prelude.{
  ℕ, ◌≡◌, ◌≤◌, ◌⊎◌, refl, Bool, true, false, ◌&&◌, Option, List, arith, ltb, leb, ◌==◌, ◌!=◌,
  Bool-cases, inl, inr,
}
use robusto.Protocol.Opcode
use robusto.Protocol.Status
use robusto.Control.{prefix_size}
use robusto.Service.{Service, Output, erred, refused}
use robusto.Service.Query.{
  Platform, handle_health, handle_capability_query, handle_system_info, handle_fragment_stats,
  handle_reboot,
}
use robusto.Service.Control.{handle_control_request}
use robusto.Service.Replies.{IsBuffer, reply_status-Replies}
use robusto.Service.Sound.{IsSound, IsSoundPlatform, Outcome, Replies-Outcome}
use robusto.Service.HelloReply.{handle_hello-Outcome}
use robusto.Service.QueryReply.{
  handle_health-Replies, handle_capability_query-Replies, handle_system_info-Replies,
  handle_fragment_stats-Replies, handle_reboot-Replies,
}

-- CAPABILITY_QUERY, HEALTH, SYSTEM_INFO, REBOOT and FRAGMENT_STATS take no payload.
abbrev pub is_query : ℕ → Bool
is_query opcode = leb Opcode.capability_query opcode && leb opcode Opcode.fragment_stats

five :
    (opcode : ℕ)
    → is_query opcode ≡ true
    → (opcode ≡ Opcode.capability_query)
      ⊎ (opcode ≡ Opcode.health)
      ⊎ (opcode ≡ Opcode.system_info)
      ⊎ (opcode ≡ Opcode.reboot)
      ⊎ (opcode ≡ Opcode.fragment_stats)
five opcode h =
    let lower : Opcode.capability_query ≤ opcode = ground arith in
    let upper : opcode ≤ Opcode.fragment_stats = ground arith in omega arith

module _ {A : Type 0} (p : Platform A) (s : Service A) (opcode : ℕ) (payload : Option (List ℕ))
    (now_ms : ℕ) (out : Output) (world : A) where
  -- A query that comes with a payload is refused without a reply, and changes nothing.
  pub query_with_payload :
      (size : ℕ)
      → is_query opcode && size != 0 ≡ true
      → handle_control_request p s opcode payload size now_ms out world ≡ refused s out world
  unfolding handle_control_request handle_health handle_capability_query handle_system_info
      handle_fragment_stats handle_reboot
  query_with_payload size h = ground arith

  query-Outcome :
      IsBuffer out
      → IsSoundPlatform p
      → IsSound s
      → is_query opcode ≡ true
      → Outcome (handle_control_request p s opcode payload 0 now_ms out world)
  unfolding handle_control_request
  query-Outcome buffer platform sound h = Replies-Outcome s _ sound (elim (five opcode h) [
    | inl e ↦ rw e (handle_capability_query-Replies s out buffer world)
    | inr (inl e) ↦ rw e (handle_health-Replies s out buffer now_ms world)
    | inr (inr (inl e)) ↦ rw e (handle_system_info-Replies s out buffer p platform world)
    | inr (inr (inr (inl e))) ↦ rw e (handle_reboot-Replies s out buffer world)
    | inr (inr (inr (inr e))) ↦ rw e (handle_fragment_stats-Replies s out buffer p world)
  ])

  other-Outcome :
      (size : ℕ)
      → IsBuffer out
      → IsSound s
      → is_query opcode ≡ false
      → Outcome (handle_control_request p s opcode payload size now_ms out world)
  unfolding handle_control_request
  other-Outcome size buffer sound h =
      let roomy : ltb out.room prefix_size ≡ false = ground (arith, buffer.room) in
      let no_health : (opcode == Opcode.health) ≡ false = ground arith in
      let no_capability : (opcode == Opcode.capability_query) ≡ false = ground arith in
      let no_info : (opcode == Opcode.system_info) ≡ false = ground arith in
      let no_stats : (opcode == Opcode.fragment_stats) ≡ false = ground arith in
      let no_reboot : (opcode == Opcode.reboot) ≡ false = ground arith in
      elim (Bool-cases (opcode == Opcode.hello)) [
        | inl hello ↦ rw hello (handle_hello-Outcome s payload size now_ms out world buffer sound)
        | inr unknown ↦
            rw (unknown, no_health, no_capability, no_info, no_stats, no_reboot, roomy)
              (Replies-Outcome s _ sound (
                reply_status-Replies s s (erred s) Status.unsupported_opcode out world buffer
                  (omega arith) (refl, refl, refl)))
      ]

  -- All other requests get a reply.
  pub handle_control_request-Outcome :
      (size : ℕ)
      → IsBuffer out
      → IsSoundPlatform p
      → IsSound s
      → is_query opcode && size != 0 ≡ false
      → Outcome (handle_control_request p s opcode payload size now_ms out world)
  handle_control_request-Outcome size buffer platform sound h =
      elim (Bool-cases (is_query opcode)) [
        | inl query ↦
            let empty : size ≡ 0 = ground arith in
            rw empty (query-Outcome buffer platform sound query)
        | inr other ↦ other-Outcome size buffer sound other
      ]
