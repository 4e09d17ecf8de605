-- ===== src/Pubsub.antt =====
-- components/robusto/proxy/src/robusto_proxy_pubsub.c: the payloads of the publish-subscribe domain.
-- Here are the sizes and the check of a topic; each child has a group of messages.
pub mod Utf8
pub mod Topic
pub mod Messages
pub mod Publish
pub mod Subscribe
pub mod Delivery
pub mod Pointed
pub mod PublishTrip
pub mod SubscribeTrip
pub mod DeliveryTrip
mod Tests
use robusto.Prelude.{
  ℕ, zero, suc, ◌-◌, Bool, true, false, not, ◌&&◌, ◌||◌, Option, none, some, List, [], ◌∷◌, bit_and,
  ltb, leb, ◌==◌, if◌then◌else◌, take, length,
}
use robusto.Protocol.{max_payload}

abbrev pub max_topic : ℕ
max_topic = 255

-- The most bytes of data in a publish request or a delivery that is not in chunks.
abbrev pub max_inline_data : ℕ
max_inline_data = 3824

abbrev pub max_chunk_data : ℕ
max_chunk_data = 4080

abbrev pub max_delivery_data : ℕ
max_delivery_data = 3824

abbrev pub max_delivery_chunk_data : ℕ
max_delivery_chunk_data = max_payload - 16

abbrev pub subscribe_deliveries : ℕ
subscribe_deliveries = 1

-- `continuation`
unfoldable pub continuation : ℕ → Bool
continuation byte = bit_and byte 0xC0 == 0x80

-- The branches of the loop for a first byte that announces one, two or three more: what is behind
-- them, or `none` where the function returns false.
unfoldable pub after_two : List ℕ → Option (List ℕ)
after_two [] = none
after_two (second ∷ rest) = if continuation second then some rest else none

unfoldable pub after_three : ℕ → List ℕ → Option (List ℕ)
after_three first (second ∷ third ∷ rest) =
    if not (continuation second)
      || (not (continuation third)
          || ((first == 0xE0 && ltb second 0xA0) || (first == 0xED && leb 0xA0 second)))
    then none
    else some rest
after_three first _ = none

unfoldable pub after_four : ℕ → List ℕ → Option (List ℕ)
after_four first (second ∷ third ∷ fourth ∷ rest) =
    if not (continuation second)
      || (not (continuation third)
          || (not (continuation fourth)
              || ((first == 0xF0 && ltb second 0x90) || (first == 0xF4 && ltb 0x8F second))))
    then none
    else some rest
after_four first _ = none

-- The body of the loop of `robusto_proxy_pubsub_topic_is_valid`, at the bytes from `index` on.
unfoldable pub after_first : ℕ → List ℕ → Option (List ℕ)
after_first first rest =
    if leb first 0x7F
    then (if leb first 0x1F || first == 0x7F then none else some rest)
    else if leb 0xC2 first && leb first 0xDF
    then after_two rest
    else if leb 0xE0 first && leb first 0xEF
    then after_three first rest
    else if leb 0xF0 first && leb first 0xF4
    then after_four first rest
    else none

-- The loop. Each round goes at least one byte on, so that as many rounds as bytes are enough.
unfoldable pub scan : ℕ → List ℕ → Bool
scan rounds [] = true
scan zero (first ∷ rest) = false
scan (suc rounds) (first ∷ rest) = elim (after_first first rest) [
  | none ↦ false
  | some behind ↦ scan rounds behind
]

-- `robusto_proxy_pubsub_topic_is_valid`; `none` is a NULL pointer.
unfoldable pub topic_is_valid : Option (List ℕ) → ℕ → Bool
topic_is_valid none size = false
topic_is_valid (some topic) size =
    if size == 0 || ltb max_topic size then false else scan size (take size topic)

-- The bytes that `memcpy` takes from a pointer.
abbrev pub pointed : ℕ → Option (List ℕ) → List ℕ
pointed size none = []
pointed size (some bytes) = take size bytes
