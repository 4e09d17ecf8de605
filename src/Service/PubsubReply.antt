-- ===== src/Service/PubsubReply.antt =====
-- Every request of the publish-subscribe domain gets a reply.
use robusto.Prelude.{
  ℕ, [], ◌+◌, ◌-◌, ◌≤◌, ◌<◌, ◌^◌, ◌≡◌, ◌≢◌, refl, Option, none, some, List, ◌++◌, arith, AreBytes,
  AreBytes-append, AreBytes-drop, overwrite, drop, take, length, length-drop, length-append,
  length-take, Bool-cases, Option-cases, inl, inr, ◌!=◌, ◌==◌, if◌then◌else◌,
}
use robusto.Crc32.Detects.{AreBytes-take}
use robusto.Protocol.{ProxyResult, ok, ok_or_not, max_payload}
use robusto.Protocol.Status
use robusto.Control.{prefix_size, encode_response_prefix}
use robusto.Pubsub.Messages.{
  PublishResponse, SubscribeResponse, UnsubscribeResponse, StatusResponse,
}
use robusto.Pubsub.Publish.{publish_response_size, publish_response_bytes, encode_publish_response}
use robusto.Pubsub.Subscribe.{
  subscribe_response_size, subscribe_response_bytes, encode_subscribe_response,
  unsubscribe_response_size, unsubscribe_response_bytes, encode_unsubscribe_response,
  status_response_size, status_response_bytes, encode_status_response,
}
use robusto.Service.{Service, Output, Answer, erred, answered}
use robusto.Service.Branch.{encode_pubsub_result, conclude, conclude_with, attempt}
use robusto.Service.Replies.{IsBuffer, Replies, with_reply, answered-IsReply}

-- The buffer, with a payload stored behind the place of the prefix.
stored-IsBuffer :
    (out : Output) (bytes : List ℕ)
    → IsBuffer out
    → AreBytes bytes
    → length bytes ≤ max_payload - prefix_size
    → IsBuffer (record out {
      bytes = take prefix_size out.bytes ++ overwrite bytes (drop prefix_size out.bytes);
    })
stored-IsBuffer out bytes buffer are small = record {
  room = buffer.room;
  length = omega (
    arith,
    length-append (take prefix_size out.bytes) (overwrite bytes (drop prefix_size out.bytes)),
    length-append bytes (drop (length bytes) (drop prefix_size out.bytes)),
    length-drop (length bytes) (drop prefix_size out.bytes),
    length-drop prefix_size out.bytes,
    length-take prefix_size out.bytes,
    buffer.length,
  );
  bytes =
      AreBytes-append (take prefix_size out.bytes) _
        (AreBytes-take prefix_size out.bytes buffer.bytes)
        (AreBytes-append bytes _ are
          (AreBytes-drop (length bytes) _ (AreBytes-drop prefix_size out.bytes buffer.bytes)));
}

-- An encoder of responses: the bytes that it stores for those that it accepts.
pub record Encodes {R : Type 0}
    (encode : Option (List ℕ) → ℕ → Option R → ProxyResult × Option (List ℕ)) (size : ℕ)
    (bytes : R → List ℕ) (Good : R → Type 0) : Type 0 where
  pub stores :
      (r : R) (buffer : List ℕ) (room : ℕ)
      → Good r
      → size ≤ room
      → encode (some buffer) room (some r) ≡ (ok, some (overwrite (bytes r) buffer))
  pub are : (r : R) → Good r → AreBytes (bytes r)
  pub long : (r : R) → length (bytes r) ≡ size

pub publish-Encodes :
    Encodes encode_publish_response publish_response_size publish_response_bytes
      (λ (r : PublishResponse). Unit)
unfolding encode_publish_response
publish-Encodes = record {
  stores = λ r buffer room good fit. ground arith;
  are = λ r good. omega arith;
  long = λ r. refl;
}

pub subscribe-Encodes :
    Encodes encode_subscribe_response subscribe_response_size subscribe_response_bytes
      (λ (r : SubscribeResponse). (r.subscription_id ≢ 0) × (r.created ≤ 1))
unfolding encode_subscribe_response
subscribe-Encodes = record {
  stores = λ r buffer room good fit. ground (arith, good.0, good.1);
  are = λ r good. omega (arith, good.1);
  long = λ r. refl;
}

pub unsubscribe-Encodes :
    Encodes encode_unsubscribe_response unsubscribe_response_size unsubscribe_response_bytes
      (λ (r : UnsubscribeResponse). r.removed ≤ 1)
unfolding encode_unsubscribe_response
unsubscribe-Encodes = record {
  stores = λ r buffer room good fit. ground arith;
  are = λ r good. omega arith;
  long = λ r. refl;
}

pub status-Encodes :
    Encodes encode_status_response status_response_size status_response_bytes
      (λ (r : StatusResponse). r.state ≤ 3)
unfolding encode_status_response
status-Encodes = record {
  stores = λ r buffer room good fit. ground arith;
  are = λ r good. omega arith;
  long = λ r. refl;
}

module _ {A : Type 0} where
  encode_pubsub_result_lem :
      (s : Service A) (status size : ℕ) (out : Output) (world : A)
      → prefix_size + size ≤ out.room
      → encode_pubsub_result s status size out world
        ≡ answered
            (if status != Status.ok then erred s else s)
            (with_reply out status
              (drop prefix_size out.bytes)
              (prefix_size + (if status == Status.ok then size else 0)))
            world
  unfolding encode_pubsub_result encode_response_prefix
  encode_pubsub_result_lem s status size out world room = ground arith

  pub encode_pubsub_result-Replies :
      (s : Service A) (status size : ℕ) (out : Output) (world : A)
      → IsBuffer out
      → status < 2 ^ 16
      → prefix_size + size ≤ max_payload
      → Replies s (encode_pubsub_result s status size out world)
  encode_pubsub_result-Replies s status size out world buffer width small =
      rw (encode_pubsub_result_lem s status size out world (omega (arith, buffer.room))) (
        answered-IsReply _ out status [] _ world buffer width tt (omega arith) (ground arith)
            (ground arith),
        ground arith,
      )

  pub conclude-Replies :
      (s : Service A) (out : Output) (end : ℕ × A)
      → IsBuffer out
      → end.0 < 2 ^ 16
      → Replies s (conclude s out end)
  unfolding conclude
  conclude-Replies s out (status, world) buffer width =
      encode_pubsub_result-Replies s status 0 out world buffer width (omega arith)

  pub conclude_with-Replies :
      {R : Type 0} (Good : R → Type 0)
      (encode : Option (List ℕ) → ℕ → Option R → ProxyResult × Option (List ℕ)) (size : ℕ)
      (bytes : R → List ℕ) (s : Service A) (out : Output) (end : ℕ × (R × A))
      → Encodes encode size bytes Good
      → prefix_size + size ≤ max_payload
      → IsBuffer out
      → (end.0 < 2 ^ 16) × (end.0 ≡ 0 → Good end.1.0)
      → Replies s (conclude_with encode size s out end)
  unfolding conclude_with
  conclude_with-Replies Good encode size bytes s out (status, (r, world)) encodes small buffer
        (width, good) =
      elim (Bool-cases (status != Status.ok)) [
        | inl bad ↦ rw bad (encode_pubsub_result-Replies s status size out world buffer width small)
        | inr fine ↦
            let fit : Good r = good (ground arith) in
            rw
              (
                fine,
                encodes.stores r (drop prefix_size out.bytes) (out.room - prefix_size) fit
                    (omega (arith, buffer.room)),
              )
              (encode_pubsub_result-Replies s status size _ world
                (stored-IsBuffer out (bytes r) buffer (encodes.are r fit)
                  (omega (arith, encodes.long r)))
                width small)
      ]

  -- Every call of the callback that is there ends with a reply.
  abbrev pub Calls : {Q F : Type 0} → Service A → (F → Q → Answer A) → Option F → Type 0
  Calls s call none = Unit
  Calls {Q} s call (some callback) = (r : Q) → Replies s (call callback r)

  module _ {Q F : Type 0} (s : Service A) (out : Output) (world : A) (blank : Q)
      (refuse : ProxyResult → Q → ℕ) (call : F → Q → Answer A) where
    refused_lem :
        (callback : Option F) (e : ProxyResult) (r : Q)
        → e ≢ ok
        → attempt s out world blank refuse callback call (e, some r)
          ≡ encode_pubsub_result s (refuse e r) 0 out world
    unfolding attempt
    refused_lem callback e r bad = ground arith

    refused_blank :
        (callback : Option F) (e : ProxyResult)
        → e ≢ ok
        → attempt s out world blank refuse callback call (e, none)
          ≡ encode_pubsub_result s (refuse e blank) 0 out world
    unfolding attempt
    refused_blank callback e bad = ground arith

    taken-Replies :
        (callback : Option F) (r : Option Q)
        → IsBuffer out
        → Calls s call callback
        → Replies s (attempt s out world blank refuse callback call (ok, r))
    unfolding attempt
    taken-Replies none r buffer calls =
        encode_pubsub_result-Replies s Status.capability_unavailable 0 out world buffer
          (omega arith) (omega arith)
    taken-Replies (some callback) none buffer calls = calls blank
    taken-Replies (some callback) (some r) buffer calls = calls r

    pub attempt-Replies :
        (callback : Option F) (decoded : ProxyResult × Option Q)
        → IsBuffer out
        → ((e : ProxyResult) (r : Q) → refuse e r < 2 ^ 16)
        → Calls s call callback
        → Replies s (attempt s out world blank refuse callback call decoded)
    attempt-Replies callback (e, r) buffer width calls = elim (ok_or_not e) [
      | inl fine ↦ rw fine (taken-Replies callback r buffer calls)
      | inr bad ↦ elim (Option-cases r) [
        | inl missing ↦
            rw (missing, refused_blank callback e bad)
              (encode_pubsub_result-Replies s (refuse e blank) 0 out world buffer (width e blank)
                (omega arith))
        | inr (q, given) ↦
            rw (given, refused_lem callback e q bad)
              (encode_pubsub_result-Replies s (refuse e q) 0 out world buffer (width e q)
                (omega arith))
      ]
    ]
