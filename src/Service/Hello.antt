-- ===== src/Service/Hello.antt =====
-- proxy/src/robusto_proxy_service.c: the HELLO branch of `robusto_proxy_service_handle_control_request`,
-- which opens a session or confirms the one that is open.
use robusto.Prelude.{
  ℕ, ◌+◌, ◌-◌, ◌^◌, Bool, ◌&&◌, ◌||◌, Option, none, some, List, bit_or, bit_and, ltb, ◌==◌, ◌!=◌,
  if◌then◌else◌,
}
use robusto.Protocol.{ok, max_payload, protocol_major, protocol_minor, established}
use robusto.Protocol.Status
use robusto.Protocol.Messages.{HelloRequest, HelloResponse}
use robusto.Inflight
use robusto.Inflight.{max_requests}
use robusto.Control.{returns, prefix_size}
use robusto.Control.Hello.{
  hello_request_size, decode_hello_request, hello_response_size, encode_hello_response,
}
use robusto.Service.{
  Adapter, Service, Output, Answer, is_established, uptime, counted, uncounted, erred, refused,
  reply_status, reply_payload,
}
use robusto.Service.Features.{available_features}

abbrev blank_request : HelloRequest
blank_request = record {
  controller_boot_id = 0;
  min_protocol_major = 0;
  max_protocol_major = 0;
  min_protocol_minor = 0;
  max_protocol_minor = 0;
  max_payload = 0;
  max_in_flight = 0;
  reserved = 0;
  required_features = 0;
  optional_features = 0;
}

-- The request, where the payload is one.
unfoldable pub read_request : Option (List ℕ) → ℕ → Option HelloRequest
read_request none size = none
read_request (some payload) size =
    if size != hello_request_size
    then none
    else elim (decode_hello_request (some payload) size (some blank_request)) [
      | returns (ok, request) ↦ request
      | _ ↦ none
    ]

-- The tests of the request for ROBUSTO_PROXY_STATUS_MALFORMED_PAYLOAD.
unfoldable pub is_malformed : HelloRequest → Bool
is_malformed r =
    r.controller_boot_id == 0
    || (r.reserved != 0
        || (ltb r.max_protocol_major r.min_protocol_major
            || (ltb r.max_protocol_minor r.min_protocol_minor
                || (r.max_payload == 0
                    || (ltb max_payload r.max_payload
                        || (r.max_in_flight == 0 || ltb max_requests r.max_in_flight))))))

-- Those for ROBUSTO_PROXY_STATUS_UNSUPPORTED_VERSION.
unfoldable pub is_unsupported : HelloRequest → Bool
is_unsupported r =
    ltb protocol_major r.min_protocol_major
    || (ltb r.max_protocol_major protocol_major || ltb protocol_minor r.min_protocol_minor)

module _ {A : Type 0} where
  -- `error_status` of a request that was decoded. `~supported_features` is a 64-bit complement.
  unfoldable pub request_status : Service A → HelloRequest → ℕ
  request_status s r =
      if is_malformed r
      then Status.malformed_payload
      else if is_unsupported r
      then Status.unsupported_version
      else if bit_and r.required_features (2 ^ 64 - 1 - available_features s) != 0
      then Status.capability_unavailable
      else Status.ok

  -- Whether the session with this controller is open already.
  unfoldable pub is_open_with : Service A → HelloRequest → Bool
  is_open_with s r =
      is_established s.session.state && s.session.peer_boot_id == r.controller_boot_id

  -- `local_max_payload`
  abbrev pub local_max_payload : Service A → ℕ
  local_max_payload s =
      let pool : ℕ = s.session.local_limits.request_pool_bytes in
      if ltb max_payload pool then max_payload else pool

  -- The response that negotiates a session.
  unfoldable pub negotiated_response : Service A → HelloRequest → ℕ → HelloResponse
  negotiated_response s r now_ms = record {
    proxy_boot_id = s.session.local_boot_id;
    selected_protocol_major = protocol_major;
    selected_protocol_minor = protocol_minor;
    reserved = 0;
    selected_max_payload =
        if ltb r.max_payload (local_max_payload s) then r.max_payload else local_max_payload s;
    selected_max_in_flight =
        if ltb r.max_in_flight s.session.local_limits.max_in_flight
        then r.max_in_flight
        else s.session.local_limits.max_in_flight;
    dedupe_entries = s.session.local_limits.dedupe_entries;
    dedupe_window_ms = s.session.local_limits.dedupe_window_ms;
    enabled_features =
        bit_and (bit_or r.required_features r.optional_features) (available_features s);
    proxy_uptime_ms = uptime s now_ms;
    reserved2 = 0;
  }

  -- The response to a controller whose session is open: what was negotiated.
  unfoldable pub open_response : Service A → HelloResponse → HelloResponse
  open_response s response = record response {
    selected_protocol_major = s.session.selected_protocol_major;
    selected_protocol_minor = s.session.selected_protocol_minor;
    selected_max_payload = s.session.negotiated_limits.request_pool_bytes;
    selected_max_in_flight = s.session.negotiated_limits.max_in_flight;
    dedupe_entries = s.session.negotiated_limits.dedupe_entries;
    dedupe_window_ms = s.session.negotiated_limits.dedupe_window_ms;
    enabled_features = bit_and s.session.enabled_features (available_features s);
  }

  unfoldable pub hello_response : Service A → HelloRequest → ℕ → HelloResponse
  hello_response s r now_ms =
      if is_open_with s r
      then open_response s (negotiated_response s r now_ms)
      else negotiated_response s r now_ms

  -- The stores that open the session.
  unfoldable pub opened : Service A → HelloRequest → HelloResponse → Service A
  opened s r response = record s {
    inflight = Inflight.init response.selected_max_in_flight;
    session = record s.session {
      peer_boot_id = r.controller_boot_id;
      enabled_features = response.enabled_features;
      selected_protocol_major = response.selected_protocol_major;
      selected_protocol_minor = response.selected_protocol_minor;
      negotiated_limits = record {
        max_in_flight = response.selected_max_in_flight;
        max_subscriptions = s.session.local_limits.max_subscriptions;
        dedupe_entries = response.dedupe_entries;
        dedupe_window_ms = response.dedupe_window_ms;
        request_pool_bytes = response.selected_max_payload;
        response_pool_bytes = response.selected_max_payload;
      };
      state = established;
    };
  }

  unfoldable pub welcomed : Service A → HelloRequest → ℕ → Service A
  welcomed s r now_ms = if is_open_with s r then s else opened s r (hello_response s r now_ms)

  -- From the local limits on.
  unfoldable pub welcome : Service A → HelloRequest → ℕ → Output → A → Answer A
  welcome s r now_ms out world =
      reply_payload (uncounted s) (welcomed s r now_ms)
        (λ buffer size. encode_hello_response buffer size (some (hello_response s r now_ms)))
        hello_response_size out world

  -- What follows the result of the callback `session_reset`.
  unfoldable pub after_reset : Service A → HelloRequest → ℕ → Output → ℕ × A → Answer A
  after_reset s r now_ms out (status, world) =
      if status != Status.ok
      then reply_status (uncounted s) (erred s) status out world
      else welcome s r now_ms out world

  -- The call of `session_reset`, where there is an adapter that has it.
  unfoldable pub reset_adapter :
      Service A → HelloRequest → ℕ → Output → A → Option (Adapter A) → Answer A
  reset_adapter s r now_ms out world none = welcome s r now_ms out world
  reset_adapter s r now_ms out world (some adapter) = elim adapter.session_reset [
    | none ↦ welcome s r now_ms out world
    | some session_reset ↦ after_reset s r now_ms out (session_reset world)
  ]

  -- What follows the decoding. The service has counted the request.
  unfoldable pub greet : Service A → Option HelloRequest → ℕ → Output → A → Answer A
  greet s none now_ms out world =
      reply_status (uncounted s) (erred s) Status.malformed_payload out world
  greet s (some r) now_ms out world =
      if request_status s r != Status.ok
      then reply_status (uncounted s) (erred s) (request_status s r) out world
      else if ltb out.room (prefix_size + hello_response_size)
      then refused (uncounted s) out world
      else reset_adapter s r now_ms out world s.pubsub_adapter

  unfoldable pub handle_hello : Service A → Option (List ℕ) → ℕ → ℕ → Output → A → Answer A
  handle_hello s payload payload_size now_ms out world =
      if ltb out.room prefix_size
      then refused s out world
      else greet (counted s) (read_request payload payload_size) now_ms out world
