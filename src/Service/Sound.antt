-- ===== src/Service/Sound.antt =====
-- What a service keeps true of its own state, and what it relies on: the widths that the types of
-- the callbacks state, and responses that the encoders accept.
use robusto.Prelude.{ℕ, ◌≤◌, ◌<◌, ◌^◌, ◌≡◌, ◌≢◌, true, Option, none, some, List, IsByte, AreBytes}
use robusto.Protocol.{max_payload, profile_limits}
use robusto.Session.{Session}
use robusto.Inflight.{max_requests}
use robusto.Inflight.Invariant.{IsValid}
use robusto.Pubsub.Messages.{
  PublishResponse, SubscribeResponse, UnsubscribeResponse, StatusResponse,
}
use robusto.Service.{Adapter, Service, Answer, is_established}
use robusto.Service.Query.{Platform}
use robusto.Service.Replies.{IsKept, IsReply, Replies}

-- A session that is open keeps to the limits of the protocol; the version numbers are bytes.
pub record IsSoundSession (s : Session) : Type 0 where
  pub local : s.local_limits ≡ profile_limits s.local_profile
  pub major : IsByte s.selected_protocol_major
  pub minor : IsByte s.selected_protocol_minor
  pub sequence : s.next_sequence < 2 ^ 32
  pub some_requests : is_established s.state ≡ true → 1 ≤ s.negotiated_limits.max_in_flight
  pub few_requests :
      is_established s.state ≡ true → s.negotiated_limits.max_in_flight ≤ max_requests
  pub some_payload : is_established s.state ≡ true → 1 ≤ s.negotiated_limits.request_pool_bytes
  pub small_payload :
      is_established s.state ≡ true → s.negotiated_limits.request_pool_bytes ≤ max_payload

abbrev pub IsTextOrNone : Option (List ℕ) → Type 0
IsTextOrNone none = Unit
IsTextOrNone (some text) = AreBytes text

module _ {A : Type 0} where
  -- A callback that gives a status, which is a `uint16_t`.
  abbrev pub GivesStatus : {Q : Type 0} → Option (Q → A → ℕ × A) → Type 0
  GivesStatus none = Unit
  GivesStatus {Q} (some callback) = (r : Q) (world : A) → (callback r world).0 < 2 ^ 16

  -- One that gives a response too: with status OK, its encoder accepts it.
  abbrev pub GivesResponse : {Q R : Type 0} → (R → Type 0) → Option (Q → A → ℕ × (R × A)) → Type 0
  GivesResponse Good none = Unit
  GivesResponse {Q} Good (some callback) =
      (r : Q) (world : A)
      → ((callback r world).0 < 2 ^ 16) × ((callback r world).0 ≡ 0 → Good (callback r world).1.0)

  abbrev pub ResetsWithStatus : Option (A → ℕ × A) → Type 0
  ResetsWithStatus none = Unit
  ResetsWithStatus (some callback) = (world : A) → (callback world).0 < 2 ^ 16

  abbrev pub ReportsStatus : Option (A → ℕ × (StatusResponse × A)) → Type 0
  ReportsStatus none = Unit
  ReportsStatus (some callback) =
      (world : A)
      → ((callback world).0 < 2 ^ 16) × ((callback world).0 ≡ 0 → (callback world).1.0.state ≤ 3)

  pub record IsSoundAdapter (a : Adapter A) : Type 0 where
    pub publish : GivesResponse (λ (r : PublishResponse). Unit) a.publish
    pub publish_begin : GivesStatus a.publish_begin
    pub publish_chunk : GivesStatus a.publish_chunk
    pub publish_commit : GivesResponse (λ (r : PublishResponse). Unit) a.publish_commit
    pub publish_abort : GivesStatus a.publish_abort
    pub session_reset : ResetsWithStatus a.session_reset
    pub subscribe :
        GivesResponse
          (λ (r : SubscribeResponse). (r.subscription_id ≢ 0) × (r.created ≤ 1))
          a.subscribe
    pub unsubscribe : GivesResponse (λ (r : UnsubscribeResponse). r.removed ≤ 1) a.unsubscribe
    pub status : ReportsStatus a.status

  abbrev pub AreSoundCallbacks : Option (Adapter A) → Type 0
  AreSoundCallbacks none = Unit
  AreSoundCallbacks (some a) = IsSoundAdapter a

  -- The texts are made of bytes.
  pub record IsSoundPlatform (p : Platform A) : Type 0 where
    pub robusto_version : AreBytes p.robusto_version
    pub configured_identity : IsTextOrNone p.configured_identity
    pub app_elf_sha256 : IsTextOrNone p.app_elf_sha256

-- The table of requests has the capacity that the open session negotiated.
pub record IsSound {A : Type 0} (s : Service A) : Type 0 where
  pub session : IsSoundSession s.session
  pub inflight : IsValid s.inflight
  pub callbacks : AreSoundCallbacks s.pubsub_adapter
  pub capacity :
      is_established s.session.state ≡ true
      → s.inflight.capacity ≡ s.session.negotiated_limits.max_in_flight

-- A service that keeps its session stays sound.
pub kept-IsSound : {A : Type 0} (s s' : Service A) → IsKept s s' → IsSound s → IsSound s'
kept-IsSound s s' (session, inflight, adapter) sound = record {
  session = rw session sound.session;
  inflight = rw inflight sound.inflight;
  callbacks = rw adapter sound.callbacks;
  capacity = rw (session, inflight) sound.capacity;
}

-- A reply that leaves a sound service.
abbrev pub Outcome : {A : Type 0} → Answer A → Type 0
Outcome a = IsReply a × IsSound a.service

pub Replies-Outcome :
    {A : Type 0} (s : Service A) (a : Answer A) → IsSound s → Replies s a → Outcome a
Replies-Outcome s a sound (reply, kept) = (reply, kept-IsSound s a.service kept sound)
