-- ===== src/Service/Tests.antt =====
-- A service with an adapter that counts what is published, and the theorems applied to it.
use robusto.Prelude.{
  ℕ, ◌+◌, ◌≡◌, refl, false, some, none, List, [], ◌∷◌, arith, replicate, length, length-replicate,
  drop,
}
use robusto.Protocol.{
  ok, standard, established, flag_is_valid, payload_length_is_valid, max_payload,
}
use robusto.Protocol.Status
use robusto.Protocol.Domain
use robusto.Protocol.Opcode
use robusto.Protocol.PubsubOpcode
use robusto.Protocol.Messages.{HelloRequest, HelloResponse}
use robusto.Crc32.{crc32_iso_hdlc, crc_bytes, crc_byte, crc_bits, crc_bit}
use robusto.Frame.{validate_buffer, check_header, expected_crc, actual_crc, encode, header_init}
use robusto.Session
use robusto.Session.{Session}
use robusto.Control.{returns, prefix_size}
use robusto.Control.Hello.{decode_hello_request, decode_hello_response, hello_response_size}
use robusto.Control.FragmentStats.{no_stats}
use robusto.Client.Judge.{Call, null}
use robusto.Pubsub.Delivery.{decode_delivery, check_delivery}
use robusto.Service.{Adapter, Service, init, set_pubsub_adapter}
use robusto.Service.Query.{Platform}
use robusto.Service.Hello.{
  welcomed, handle_hello, read_request, request_status, is_malformed, is_unsupported, is_open_with,
}
use robusto.Service.Event.{build_pubsub_event, check_event, frame_event}
use robusto.Service.Frame.{handle_frame, carry_out, transact, payload_output}
use robusto.Service.Replies.{IsBuffer}
use robusto.Service.Sound.{IsSound, IsSoundAdapter, IsSoundPlatform}
use robusto.Service.Texts.{zeros-AreBytes}
use robusto.Service.Negotiation.{IsNegotiated}
use robusto.Service.Greeting.{handle_hello_opens}
use robusto.Service.FrameReply.{IsRequest, handle_frame-IsMatched}
use robusto.Service.Accept.{IsMatched}
use robusto.Service.Refused.{IsUntouched, handle_frame_refused}
use robusto.Service.EventFrame.{IsEventFrame, build_pubsub_event-frame}
use robusto.Service.Gate.{carry_out_closed}
use robusto.Service.History.{Reachable, started, adapted, Reachable-IsSound}

abbrev adapter : Adapter ℕ
adapter = record {
  publish = some (λ r w. (0, (record { topic_hash = 7; delivery_count = w }, w + 1)));
  publish_begin = none;
  publish_chunk = none;
  publish_commit = none;
  publish_abort = none;
  session_reset = some (λ w. (0, w));
  subscribe = none;
  unsubscribe = some (λ r w. (Status.pubsub_subscription_not_found, (record { removed = 0 }, w)));
  status = none;
}

adapter-IsSound : IsSoundAdapter adapter
adapter-IsSound = record {
  publish = λ r w. (omega arith, λ e. tt);
  publish_begin = tt;
  publish_chunk = tt;
  publish_commit = tt;
  publish_abort = tt;
  session_reset = λ w. omega arith;
  subscribe = tt;
  unsubscribe = λ r w. (omega arith, λ e. omega arith);
  status = tt;
}

abbrev platform : Platform ℕ
platform = record {
  robusto_version = 49 ∷ 46 ∷ 50 ∷ [];
  configured_identity = none;
  app_elf_sha256 = some (171 ∷ 205 ∷ []);
  get_free_mem = λ w. 100000;
  get_free_mem_spi = λ w. 0;
  fragment_stats_level = λ w. 3;
  fragment_stats_get = λ w. (no_stats, (no_stats, w));
}

platform-IsSound : IsSoundPlatform platform
platform-IsSound = record {
  robusto_version = omega arith;
  configured_identity = tt;
  app_elf_sha256 = omega arith;
}

abbrev fresh : Service ℕ
fresh = init standard 77 1 9 8 1000

abbrev service : Service ℕ
service = set_pubsub_adapter fresh (some adapter)

service-Reachable : Reachable platform service 0
service-Reachable =
    adapted fresh 0 (some adapter) (started standard 77 1 9 8 1000 0 (omega arith)) adapter-IsSound

abbrev scratch : List ℕ
scratch = replicate 4096 0

scratch-length : length scratch ≡ max_payload
scratch-length = length-replicate {A = ℕ} 4096 0

-- The payload of a HELLO, and its frame, with the correlation id 5.
abbrev hello : List ℕ
hello =
    5 ∷ 0 ∷ 0 ∷ 0 ∷ 0 ∷ 0 ∷ 0 ∷ 0 ∷ 1 ∷ 1 ∷ 0 ∷ 0 ∷ 0 ∷ 16 ∷ 0 ∷ 0 ∷ 4 ∷ 0 ∷ 0 ∷ 0 ∷ 1 ∷ 0 ∷ 0 ∷ 0
    ∷ 0 ∷ 0 ∷ 0 ∷ 0 ∷ 6 ∷ 0 ∷ 0 ∷ 0 ∷ 0 ∷ 0 ∷ 0 ∷ 0 ∷ []

abbrev hello_frame : List ℕ
hello_frame =
    82 ∷ 80 ∷ 1 ∷ 20 ∷ 1 ∷ 0 ∷ 1 ∷ 0 ∷ 5 ∷ 0 ∷ 0 ∷ 0 ∷ 3 ∷ 0 ∷ 0 ∷ 0 ∷ 36 ∷ 0 ∷ 0 ∷ 0 ∷ 5 ∷ 0 ∷ 0
    ∷ 0 ∷ 0 ∷ 0 ∷ 0 ∷ 0 ∷ 1 ∷ 1 ∷ 0 ∷ 0 ∷ 0 ∷ 16 ∷ 0 ∷ 0 ∷ 4 ∷ 0 ∷ 0 ∷ 0 ∷ 1 ∷ 0 ∷ 0 ∷ 0 ∷ 0 ∷ 0 ∷ 0
    ∷ 0 ∷ 6 ∷ 0 ∷ 0 ∷ 0 ∷ 0 ∷ 0 ∷ 0 ∷ 0 ∷ 178 ∷ 219 ∷ 142 ∷ 188 ∷ []

abbrev call : Call
call = record {
  domain = Domain.control;
  opcode = Opcode.hello;
  payload = null;
  payload_size = 0;
  mutation = false;
}

hello_frame-IsRequest : IsRequest hello_frame 60
unfolding validate_buffer check_header flag_is_valid payload_length_is_valid expected_crc actual_crc
    crc32_iso_hdlc crc_bytes crc_byte crc_bits crc_bit
hello_frame-IsRequest = record {
  valid = refl;
  flagged = omega arith;
  correlated = omega arith;
  bytes = omega arith;
}

-- The client that sent this HELLO accepts the response.
handle_frame-IsMatched_example :
    IsMatched call 5
      (handle_frame platform service (some hello_frame) 60 2000 (some []) 4120 (some 0) scratch 0)
handle_frame-IsMatched_example =
    handle_frame-IsMatched platform service
      (Reachable-IsSound platform service 0 platform-IsSound service-Reachable) platform-IsSound
      2000 scratch scratch-length (zeros-AreBytes 4096) 0 hello_frame 60 [] 4120 0 call
      hello_frame-IsRequest refl (omega arith) refl refl

Reachable-IsSound_example : IsSound service
Reachable-IsSound_example = Reachable-IsSound platform service 0 platform-IsSound service-Reachable

-- A REBOOT before the handshake.
carry_out_closed_example :
    (carry_out platform service
      (header_init 1 Domain.control Opcode.reboot 6 4 0)
      []
      2000
      scratch
      0).world
    ≡ 0
unfolding header_init Session.init init
carry_out_closed_example =
    carry_out_closed platform service 0 (header_init 1 Domain.control Opcode.reboot 6 4 0) [] 2000
      scratch refl refl

abbrev request : HelloRequest
request = record {
  controller_boot_id = 5;
  min_protocol_major = 1;
  max_protocol_major = 1;
  min_protocol_minor = 0;
  max_protocol_minor = 0;
  max_payload = 4096;
  max_in_flight = 4;
  reserved = 0;
  required_features = 1;
  optional_features = 6;
}

abbrev blank_response : HelloResponse
blank_response = record {
  proxy_boot_id = 0;
  selected_protocol_major = 0;
  selected_protocol_minor = 0;
  reserved = 0;
  selected_max_payload = 0;
  selected_max_in_flight = 0;
  dedupe_entries = 0;
  dedupe_window_ms = 0;
  enabled_features = 0;
  proxy_uptime_ms = 0;
  reserved2 = 0;
}

hello_reads : read_request (some hello) 36 ≡ some request
unfolding read_request decode_hello_request
hello_reads = refl

out-IsBuffer : IsBuffer (payload_output scratch)
out-IsBuffer = record { room = refl; length = scratch-length; bytes = zeros-AreBytes 4096 }

-- The first HELLO, and what the controller reads.
handle_hello_opens_example :
    (m : HelloResponse) × (let a =
        handle_hello service (some hello) 36 2000 (payload_output scratch) 0 in
      (decode_hello_response
          (some (drop prefix_size a.output.bytes))
          hello_response_size
          (some blank_response)
        ≡ returns (ok, some m))
      × IsNegotiated service request m
      × (a.service.session.state ≡ established)
      × (a.service.session.peer_boot_id ≡ 5)
      × (a.service.session.enabled_features ≡ m.enabled_features)
      × (a.service.session.negotiated_limits.max_in_flight ≡ m.selected_max_in_flight)
      × (a.service.session.negotiated_limits.request_pool_bytes ≡ m.selected_max_payload)
      × (a.service.inflight.capacity ≡ m.selected_max_in_flight))
unfolding request_status is_malformed is_unsupported is_open_with init Session.init
handle_hello_opens_example =
    handle_hello_opens service request (some hello) 36 2000 (payload_output scratch) 0 out-IsBuffer
      hello_reads (Reachable-IsSound platform service 0 platform-IsSound service-Reachable)
      (omega arith) refl refl refl blank_response

-- The session that this HELLO opens, and a HELLO from another controller to it.
abbrev joined_service : Service ℕ
joined_service = welcomed service request 2000

abbrev other_request : HelloRequest
other_request = record request { controller_boot_id = 9 }

-- A session with chunked deliveries.
abbrev opened_service : Service ℕ
opened_service = record service {
  session = record service.session { state = established; peer_boot_id = 5; enabled_features = 5 };
}

-- A frame that is too short: `*response_size` keeps the value 4120.
handle_frame_refused_example :
    IsUntouched (some []) (some 4120) (
      handle_frame platform service (some hello_frame) 20 2000 (some []) 4120 (some 4120) scratch 0)
unfolding handle_frame transact validate_buffer
handle_frame_refused_example =
    handle_frame_refused platform service (some hello_frame) 20 2000 (some []) 4120 (some 4120)
      scratch 0 (λ e. cc)

-- A delivery of the byte 42 for subscription 1.
abbrev delivery : List ℕ
delivery = 1 ∷ 0 ∷ 0 ∷ 0 ∷ 1 ∷ 0 ∷ 0 ∷ 0 ∷ 1 ∷ 0 ∷ 0 ∷ 0 ∷ 42 ∷ []

abbrev frame_room : List ℕ
frame_room = replicate 64 0

build_pubsub_event-frame_example :
    (check_event opened_service PubsubOpcode.delivery delivery 13 ≡ ok)
    × ((out : List ℕ) × IsEventFrame opened_service PubsubOpcode.delivery delivery 13 frame_room 64
          0 out)
unfolding build_pubsub_event check_event frame_event decode_delivery check_delivery init
    Session.init Session.take_sequence encode check_header flag_is_valid payload_length_is_valid
    header_init Session.nonzero_u32
build_pubsub_event-frame_example =
    build_pubsub_event-frame opened_service PubsubOpcode.delivery delivery 13 frame_room 64 0 refl
      (omega arith) (omega arith) (omega arith) (omega arith) (omega arith)
