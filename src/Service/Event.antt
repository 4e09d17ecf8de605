-- ===== src/Service/Event.antt =====
-- proxy/src/robusto_proxy_service.c: the frames of the events that go to the controller.
use robusto.Prelude.{
  ℕ, ◌+◌, ◌%◌, ◌^◌, Bool, not, ◌&&◌, Option, none, some, List, bit_and, ◌==◌, if◌then◌else◌,
}
use robusto.Protocol.{ProxyResult, ok, invalid_argument}
use robusto.Protocol.Domain
use robusto.Protocol.Flag
use robusto.Protocol.PubsubOpcode
use robusto.Session.{take_sequence}
use robusto.Frame.{header_init, encode}
use robusto.Pubsub.Messages.{Delivery, DeliveryBegin, DeliveryChunk, DeliveryCommit}
use robusto.Pubsub.Delivery.{
  decode_delivery, decode_delivery_begin, decode_delivery_chunk, decode_delivery_commit,
}
use robusto.Service.{Service, is_established}
use robusto.Service.Features.{pubsub, chunked_delivery}

abbrev blank_delivery : Delivery
blank_delivery = record {
  subscription_id = 0;
  delivery_sequence = 0;
  content = none;
  data_length = 0;
}

abbrev blank_begin : DeliveryBegin
blank_begin = record { subscription_id = 0; delivery_sequence = 0; data_length = 0 }

abbrev blank_chunk : DeliveryChunk
blank_chunk = record {
  subscription_id = 0;
  delivery_sequence = 0;
  offset = 0;
  content = none;
  data_length = 0;
}

abbrev blank_commit : DeliveryCommit
blank_commit = record { subscription_id = 0; delivery_sequence = 0 }

-- The result, the buffer of the frame, `*encoded_size`, and the service.
abbrev pub Built : Type 0 → Type 0
Built A = ProxyResult × (Option (List ℕ) × (Option ℕ × Service A))

module _ {A : Type 0} where
  -- Whether the session carries publish-subscribe events.
  abbrev pub carries_events : Service A → Bool
  carries_events s =
      is_established s.session.state && not (bit_and s.session.enabled_features pubsub == 0)

  -- The check of the payload, by the opcode.
  unfoldable pub check_event : Service A → ℕ → List ℕ → ℕ → ProxyResult
  check_event s opcode payload size =
      if opcode == PubsubOpcode.delivery
      then (decode_delivery (some payload) size (some blank_delivery)).0
      else if bit_and s.session.enabled_features chunked_delivery == 0
      then invalid_argument
      else if opcode == PubsubOpcode.delivery_begin
      then (decode_delivery_begin (some payload) size (some blank_begin)).0
      else if opcode == PubsubOpcode.delivery_chunk
      then (decode_delivery_chunk (some payload) size (some blank_chunk)).0
      else if opcode == PubsubOpcode.delivery_commit
      then (decode_delivery_commit (some payload) size (some blank_commit)).0
      else invalid_argument

  abbrev pub count_event : ProxyResult → Service A → Service A
  count_event ok s = record s { events = (s.events + 1) % 2 ^ 32 }
  count_event e s = s

  -- The frame, with the next sequence number, which is taken whether the encoder succeeds or not.
  unfoldable pub frame_event : ProxyResult → Service A → ℕ → List ℕ → ℕ → List ℕ → ℕ → ℕ → Built A
  frame_event ok s opcode payload size frame frame_size old =
      let (sequence, session) = take_sequence s.session in
      let (result, frame', encoded_size) =
        encode (some frame) frame_size
          (some (header_init Flag.event Domain.pubsub opcode 0 sequence (size % 2 ^ 32)))
          (some payload) (some old) in
      (result, (frame', (encoded_size, count_event result (record s { session = session }))))
  frame_event e s opcode payload size frame frame_size old = (e, (some frame, (some old, s)))

  -- `robusto_proxy_service_build_pubsub_event`; a pointer that is NULL is `none`.
  unfoldable pub build_pubsub_event :
      Service A → ℕ → Option (List ℕ) → ℕ → Option (List ℕ) → ℕ → Option ℕ → Built A
  build_pubsub_event s opcode (some payload) size (some frame) frame_size (some old) =
      if not (carries_events s)
      then (invalid_argument, (some frame, (some old, s)))
      else frame_event (check_event s opcode payload size) s opcode payload size frame frame_size
          old
  build_pubsub_event s opcode payload size frame frame_size old =
      (invalid_argument, (frame, (old, s)))

  after_delivery : ProxyResult → Service A → List ℕ → ℕ → List ℕ → ℕ → ℕ → Built A
  unfolding build_pubsub_event
  after_delivery ok s payload size frame frame_size old =
      build_pubsub_event s PubsubOpcode.delivery (some payload) size (some frame) frame_size
        (some old)
  after_delivery e s payload size frame frame_size old = (e, (some frame, (some old, s)))

  -- `robusto_proxy_service_build_pubsub_delivery_event`
  unfoldable pub build_pubsub_delivery_event :
      Service A → Option (List ℕ) → ℕ → Option (List ℕ) → ℕ → Option ℕ → Built A
  unfolding after_delivery
  build_pubsub_delivery_event s (some payload) size (some frame) frame_size (some old) =
      if not (carries_events s)
      then (invalid_argument, (some frame, (some old, s)))
      else after_delivery (decode_delivery (some payload) size (some blank_delivery)).0 s payload
          size frame frame_size old
  build_pubsub_delivery_event s payload size frame frame_size old =
      (invalid_argument, (frame, (old, s)))
