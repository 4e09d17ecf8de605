-- ===== src/Service/Branch.antt =====
-- proxy/src/robusto_proxy_service.c: what the branches of `robusto_proxy_service_handle_pubsub_request`
-- share: the refusals, the order of a branch, and `encode_pubsub_result`, which ends it.
use robusto.Prelude.{
  ℕ, ◌+◌, ◌-◌, Bool, true, false, not, ◌&&◌, Option, none, some, List, ◌++◌, ltb, leb, ◌==◌, ◌!=◌,
  if◌then◌else◌, take, drop,
}
use robusto.Protocol.{ProxyResult, ok, invalid_argument}
use robusto.Protocol.Status
use robusto.Control.{prefix_size, encode_response_prefix}
use robusto.Pubsub.{max_inline_data, topic_is_valid}
use robusto.Pubsub.Messages.{PublishRequest}
use robusto.Pubsub.Publish.{publish_header_size}
use robusto.Service.{
  Service, Output, Answer, encoded, status_prefix, uncounted, erred, refused, answered,
}

abbrev pub is_invalid_argument : ProxyResult → Bool
is_invalid_argument invalid_argument = true
is_invalid_argument _ = false

-- The status of a request that a decoder refuses.
abbrev pub refusal : ProxyResult → ℕ
refusal result =
    if is_invalid_argument result then Status.invalid_argument else Status.malformed_payload

-- The same for a request with a topic.
abbrev pub topic_refusal : ProxyResult → ℕ → Option (List ℕ) → ℕ → ℕ
topic_refusal result operation_id topic topic_length =
    if is_invalid_argument result && (operation_id != 0 && not (topic_is_valid topic topic_length))
    then Status.pubsub_topic_invalid
    else refusal result

abbrev pub publish_refusal : ℕ → ProxyResult → PublishRequest → ℕ
publish_refusal payload_size result r =
    if leb publish_header_size payload_size && ltb max_inline_data r.data_length
    then Status.pubsub_payload_too_large
    else topic_refusal result r.operation_id r.topic r.topic_length

-- What a response encoder leaves in the buffer, where it succeeds.
abbrev pub stored : ProxyResult × Option (List ℕ) → Option (List ℕ)
stored (ok, buffer) = buffer
stored _ = none

module _ {A : Type 0} where
  -- `encode_pubsub_result`
  unfoldable pub encode_pubsub_result : Service A → ℕ → ℕ → Output → A → Answer A
  encode_pubsub_result s status success_size out world =
      let total : ℕ = prefix_size + (if status == Status.ok then success_size else 0) in
      if ltb out.room total
      then refused s out world
      else elim (encoded
          (encode_response_prefix (some out.bytes) out.room (some (status_prefix status)))) [
            | none ↦ refused s out world
            | some bytes ↦
                answered (if status != Status.ok then erred s else s)
                  (record out { bytes = bytes; used = total }) world
          ]

  -- The end of a request whose callback gives only a status.
  unfoldable pub conclude : Service A → Output → ℕ × A → Answer A
  conclude s out (status, world) = encode_pubsub_result s status 0 out world

  -- The end of a request whose callback gives a response too: it is stored behind the prefix.
  unfoldable pub conclude_with :
      {R : Type 0}
      → (Option (List ℕ) → ℕ → Option R → ProxyResult × Option (List ℕ))
      → ℕ
      → Service A
      → Output
      → ℕ × (R × A)
      → Answer A
  conclude_with encode size s out (status, (response, world)) =
      if status != Status.ok
      then encode_pubsub_result s status size out world
      else elim (stored
          (encode (some (drop prefix_size out.bytes)) (out.room - prefix_size) (some response))) [
            | none ↦ refused (uncounted s) out world
            | some payload ↦
                encode_pubsub_result s status size
                  (record out { bytes = take prefix_size out.bytes ++ payload }) world
          ]

  -- The order of a branch: the decoder's refusal, a callback that is missing, the call.
  unfoldable pub attempt :
      {Q F : Type 0}
      → Service A
      → Output
      → A
      → Q
      → (ProxyResult → Q → ℕ)
      → Option F
      → (F → Q → Answer A)
      → ProxyResult × Option Q
      → Answer A
  attempt s out world blank refuse none call (ok, r) =
      encode_pubsub_result s Status.capability_unavailable 0 out world
  attempt s out world blank refuse (some callback) call (ok, none) = call callback blank
  attempt s out world blank refuse (some callback) call (ok, some r) = call callback r
  attempt s out world blank refuse callback call (e, none) =
      encode_pubsub_result s (refuse e blank) 0 out world
  attempt s out world blank refuse callback call (e, some r) =
      encode_pubsub_result s (refuse e r) 0 out world
