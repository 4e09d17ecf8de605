-- ===== src/Client/Tests.antt =====
-- The client at a peer that answers, and at one that does not.
use robusto.Prelude.{
  ℕ, ◌+◌, ◌≡◌, ◌≤◌, ◌⊎◌, refl, true, false, some, List, [], ◌∷◌, replicate, ◌-◌, ◌^◌, ◌++◌, length,
  arith,
}
use robusto.Protocol.{FrameHeader, standard, established, flag_is_valid, payload_length_is_valid}
use robusto.Protocol.Flag
use robusto.Protocol.Domain
use robusto.Session
use robusto.Session.{Session}
use robusto.Inflight
use robusto.Inflight.Invariant.{init-IsValid}
use robusto.Protocol.Messages.{ResponsePrefix, HelloResponse, HealthResponse}
use robusto.Control.Hello.{hello_response_bytes}
use robusto.Client.Connect.{
  PubsubClient, connect, query_health, after_health, read_response, take_response,
}
use robusto.Client.Queried.{IsCurrent, query_health-IsCurrent}
use robusto.Control.Reports.{decode_health_response}
use robusto.Client.Connected.{IsSettled, connect-IsSettled}
use robusto.Frame.{
  header_init, frame_bytes, read_header, encode, check_header, frame_body, header_bytes,
  validate_buffer, expected_crc, actual_crc,
}
use robusto.Crc32.{crc32_iso_hdlc, crc_bytes, crc_byte, crc_bits, crc_bit}
use robusto.Control.{decode_response_prefix, is_success}
use robusto.RetVal.{RetVal, is_ok}
use robusto.Client.{Env, Client, Reply, accepted, acceptance_unknown}
use robusto.Client.{Config, init, fresh_client}
use robusto.Client.Start.{IsReady, init-IsReady}
use robusto.Protocol.{low_memory}
use robusto.Client.Judge.{Call, null, judge, failed, valid_answer}
use robusto.Client.Request.{
  request, open_request, entered, rounds, round, stamped_round, found_round, send_round, transmit,
}
use robusto.Client.Replies.{IsSuccess, IsAnswer, judge_mutation}
use robusto.Client.Success.{request-ok}
use robusto.Client.Exchanges.{counting, request_bounded}
use robusto.Client.Slots.{IsRestored, request-IsRestored}

abbrev session : Session
session = record (Session.init standard 5 1 1) { state = established }

abbrev client : Client
client = record {
  session = session;
  inflight = Inflight.init 8;
  request_frame = replicate 64 0;
  request_frame_size = 64;
  response_frame = replicate 64 0;
  response_frame_size = 64;
  next_operation_id = 1;
  request_timeout_ms = 100;
  last_status = 0;
  last_result_flags = 0;
  last_retry_after_ms = 0;
  retries = 0;
  consecutive_health_timeouts = 0;
}

abbrev call : Call
call = record {
  domain = Domain.control;
  opcode = 4;
  payload = null;
  payload_size = 0;
  mutation = false;
}

abbrev mutation : Call
mutation = record call { mutation = true }

-- A response with the status OK, no detail, and the payload 7, 8.
abbrev answer : List ℕ → List ℕ
answer request =
    let h : FrameHeader = read_header request in
    frame_bytes (header_init Flag.response h.domain h.opcode h.correlation_id h.sequence 14)
      (some (0 ∷ 0 ∷ 0 ∷ 0 ∷ 0 ∷ 0 ∷ 0 ∷ 0 ∷ 0 ∷ 0 ∷ 0 ∷ 0 ∷ 7 ∷ 8 ∷ []))

-- The state is a clock.
abbrev answering : Env ℕ
answering = record {
  exchange = λ request response capacity timeout w.
      (record { result = RetVal.ok; acceptance = accepted; frame = answer request; size = 38 }, w);
  now_ms = λ w. (w, w + 1);
  wait_ms = λ delay w. w + delay;
  retry_jitter_ms = λ bound w. (3, w);
}

abbrev lost : Reply
lost = record { result = RetVal.timeout; acceptance = acceptance_unknown; frame = []; size = 0 }

abbrev silent : Env ℕ
silent = record answering { exchange = λ request response capacity timeout w. (lost, w + timeout) }

-- The client gets the payload behind the prefix.
answering_succeeds : (request answering call client 7).payload ≡ some (32, 2)
unfolding request open_request entered Inflight.begin Session.take_correlation_id Session.init
    Session.nonzero_u32 Inflight.init Inflight.find Inflight.lookup Inflight.claim rounds round
    stamped_round found_round send_round transmit encode check_header flag_is_valid
    payload_length_is_valid header_init frame_bytes frame_body header_bytes crc32_iso_hdlc crc_bytes
    crc_byte crc_bits crc_bit judge valid_answer validate_buffer expected_crc actual_crc
    decode_response_prefix is_success Inflight.update_found Session.take_sequence
answering_succeeds = refl

answering-ok : (request answering call client 7).result ≡ RetVal.ok
unfolding request open_request entered Inflight.begin Session.take_correlation_id Session.init
    Session.nonzero_u32 Inflight.init Inflight.find Inflight.lookup Inflight.claim rounds round
    stamped_round found_round send_round transmit encode check_header flag_is_valid
    payload_length_is_valid header_init frame_bytes frame_body header_bytes crc32_iso_hdlc crc_bytes
    crc_byte crc_bits crc_bit judge valid_answer validate_buffer expected_crc actual_crc
    decode_response_prefix is_success Inflight.update_found Session.take_sequence
answering-ok = refl

-- The payload lies behind the prefix of the response.
request-ok_example :
    (offset : ℕ) × (size : ℕ) × ((request answering call client 7).payload ≡ some (offset, size))
    × IsSuccess call 1 (request answering call client 7).client.response_frame offset size
unfolding Session.init Session.nonzero_u32
request-ok_example = request-ok answering call client 7 answering-ok

-- Nobody answers: the request is not sent a third time.
request_bounded_example : (request (counting silent) call client (0, 7)).world.0 ≤ 2
request_bounded_example = request_bounded silent call client 7

request-IsRestored_example :
    IsRestored (Inflight.init 8) (request silent mutation client 7).client.inflight
request-IsRestored_example = request-IsRestored silent mutation client 7 (init-IsValid 8).0

-- A mutation is lost on the way.
judge_mutation_example :
    ((judge mutation 1 client lost).0 ≡ failed RetVal.outcome_unknown true 0)
    ⊎ ((lost.result ≡ RetVal.ok)
        × (lost.acceptance ≡ accepted)
        × ((p : ResponsePrefix) × IsAnswer mutation 1 lost.frame lost.size p))
judge_mutation_example = judge_mutation mutation 1 client lost refl (λ e. cc)

abbrev config : Config
config = record {
  profile = low_memory;
  controller_boot_id = 5;
  correlation_seed = 0;
  sequence_seed = 9;
  operation_seed = 0;
  request_timeout_ms = 100;
  has_callbacks = true;
  request_frame = some [];
  request_frame_size = 4120;
  response_frame = some [];
  response_frame_size = 4120;
}

config_accepted : init config ≡ (RetVal.ok, some (fresh_client config [] []))
unfolding init
config_accepted = refl

-- A configuration of the smallest frames, with two seeds 0.
init-IsReady_example : IsReady (fresh_client config [] [])
init-IsReady_example = init-IsReady config (fresh_client config [] []) config_accepted

abbrev last : Client
last = record client { next_operation_id = 2 ^ 64 - 1 }

-- The proxy's HELLO, in a frame that answers the request.
abbrev greeting : List ℕ → List ℕ
greeting request =
    let h : FrameHeader = read_header request in
    let m : HelloResponse = record {
      proxy_boot_id = 5;
      selected_protocol_major = 1;
      selected_protocol_minor = 0;
      reserved = 0;
      selected_max_payload = 1024;
      selected_max_in_flight = 4;
      dedupe_entries = 0;
      dedupe_window_ms = 0;
      enabled_features = 1;
      proxy_uptime_ms = 9;
      reserved2 = 0;
    } in
    let payload : List ℕ = replicate 12 0 ++ hello_response_bytes m in
    frame_bytes
      (header_init Flag.response h.domain h.opcode h.correlation_id h.sequence (length payload))
      (some payload)

abbrev welcoming : Env ℕ
welcoming = record answering {
  exchange = λ request response capacity timeout w. (
    record {
      result = RetVal.ok;
      acceptance = accepted;
      frame = greeting request;
      size = length (greeting request);
    },
    w,
  );
}

abbrev roomy : Client
roomy = record client { response_frame = replicate 128 0; response_frame_size = 128 }

-- A pubsub client without subscriptions.
abbrev unsubscribed : PubsubClient ℕ
unsubscribed = record { session_reset = λ c w. (c, w); reconcile = λ c w. (RetVal.ok, (c, w)) }

connect-IsSettled_example : IsSettled (connect unsubscribed welcoming roomy 7)
connect-IsSettled_example =
    connect-IsSettled unsubscribed
      (record { session_reset = λ c w. refl; reconcile = λ c w fine. refl }) welcoming roomy 7
      (omega arith)

-- A peer of the boot 5 that answers HEALTH with counters 0.
abbrev healthy : Env ℕ
healthy = record answering {
  exchange = λ bytes response capacity timeout w.
      let h : FrameHeader = read_header bytes in
      (
        record {
          result = RetVal.ok;
          acceptance = accepted;
          frame =
              frame_bytes
                (header_init Flag.response h.domain h.opcode h.correlation_id h.sequence 52)
                (some (replicate 12 0 ++ 5 ∷ replicate 39 0));
          size = 76;
        },
        w,
      );
}

abbrev counters : HealthResponse
counters = record {
  proxy_boot_id = 0;
  uptime_ms = 0;
  service_state = 0;
  reserved_0 = 0;
  reserved_1 = 0;
  reserved_2 = 0;
  requests = 0;
  events = 0;
  errors = 0;
  timeouts = 0;
  rx_crc_errors = 0;
  queue_high_water = 0;
}

abbrev acquainted : Client
acquainted = record roomy { session = record session { peer_boot_id = 5 } }

healthy-ok : is_ok (query_health unsubscribed healthy acquainted 7 counters).0.0 ≡ true
unfolding query_health after_health read_response take_response decode_health_response request
    open_request entered Inflight.begin Session.take_correlation_id Session.init Session.nonzero_u32
    Inflight.init Inflight.find Inflight.lookup Inflight.claim rounds round stamped_round
    found_round send_round transmit encode check_header flag_is_valid payload_length_is_valid
    header_init frame_bytes frame_body header_bytes crc32_iso_hdlc crc_bytes crc_byte crc_bits
    crc_bit judge valid_answer validate_buffer expected_crc actual_crc decode_response_prefix
    is_success Inflight.update_found Session.take_sequence
healthy-ok = refl

query_health-IsCurrent_example :
    IsCurrent
      (λ (m : HealthResponse). m.proxy_boot_id)
      (query_health unsubscribed healthy acquainted 7 counters)
query_health-IsCurrent_example =
    query_health-IsCurrent unsubscribed healthy acquainted 7 counters healthy-ok
