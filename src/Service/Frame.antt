-- ===== src/Service/Frame.antt =====
-- proxy/src/robusto_proxy_service.c: a whole transaction, from the request frame to the response frame.
use robusto.Prelude.{
  ℕ, ◌%◌, ◌^◌, ◌||◌, Option, none, some, List, bit_and, ◌==◌, if◌then◌else◌, drop,
}
use robusto.Protocol.{ProxyResult, ok, invalid_argument, FrameHeader, header_size, max_payload}
use robusto.Protocol.Domain
use robusto.Protocol.Flag
use robusto.Protocol.Status
use robusto.Session.{take_sequence}
use robusto.Frame.{header_init, validate_buffer, read_header, encode}
use robusto.Service.{Service, Output, Answer, erred, reply_status}
use robusto.Service.Query.{Platform}
use robusto.Service.Control.{handle_control_request}
use robusto.Service.Pubsub.{handle_pubsub_request}

-- What `robusto_proxy_service_handle_frame` returns, with the response frame, `*response_size`, the
-- service and the callbacks' state as it leaves them.
pub record Transaction (A : Type 0) : Type 0 where
  pub result : ProxyResult
  pub frame : Option (List ℕ)
  pub size : Option ℕ
  pub service : Service A
  pub world : A

-- The local `response_payload`, of whose bytes nothing is known before, and `response_payload_size`.
abbrev pub payload_output : List ℕ → Output
payload_output scratch = record { bytes = scratch; room = max_payload; used = 0 }

module _ {A : Type 0} where
  -- The call of the domain's handler. In any other domain, the error is counted in every case.
  unfoldable pub carry_out :
      Platform A → Service A → FrameHeader → List ℕ → ℕ → List ℕ → A → Answer A
  carry_out p s h payload now_ms scratch world =
      if h.domain == Domain.control
      then handle_control_request p s h.opcode (some payload) h.payload_length now_ms
          (payload_output scratch) world
      else if h.domain == Domain.pubsub
      then handle_pubsub_request s h.opcode (some payload) h.payload_length (payload_output scratch)
          world
      else reply_status (erred s) (erred s) Status.unsupported_domain (payload_output scratch) world

  unfoldable pub respond : FrameHeader → List ℕ → ℕ → ℕ → Answer A → Transaction A
  respond h response_frame frame_size old answer =
      if answer.handled
      then (let (sequence, session) = take_sequence answer.service.session in
          let (result, frame, size) =
            encode (some response_frame) frame_size
              (some (
                header_init Flag.response h.domain h.opcode h.correlation_id sequence
                  (answer.output.used % 2 ^ 32)))
              (some answer.output.bytes) (some old) in
          record {
            result = result;
            frame = frame;
            size = size;
            service = record answer.service { session = session };
            world = answer.world;
          })
      else record {
        result = invalid_argument;
        frame = some response_frame;
        size = some old;
        service = answer.service;
        world = answer.world;
      }

  abbrev pub rejected : ProxyResult → Service A → Option (List ℕ) → Option ℕ → A → Transaction A
  rejected result s frame size world = record {
    result = result;
    frame = frame;
    size = size;
    service = s;
    world = world;
  }

  -- From the validation's result on.
  unfoldable pub transact :
      ProxyResult
      → Platform A
      → Service A
      → List ℕ
      → ℕ
      → List ℕ
      → ℕ
      → ℕ
      → List ℕ
      → A
      → Transaction A
  transact ok p s request now_ms response_frame frame_size old scratch world =
      let h : FrameHeader = read_header request in
      if bit_and h.flags Flag.request == 0 || h.correlation_id == 0
      then rejected invalid_argument s (some response_frame) (some old) world
      else respond h response_frame frame_size old
          (carry_out p s h (drop header_size request) now_ms scratch world)
  transact e p s request now_ms response_frame frame_size old scratch world =
      rejected e s (some response_frame) (some old) world

  -- `robusto_proxy_service_handle_frame`; a pointer that is NULL is `none`.
  unfoldable pub handle_frame :
      Platform A
      → Service A
      → Option (List ℕ)
      → ℕ
      → ℕ
      → Option (List ℕ)
      → ℕ
      → Option ℕ
      → List ℕ
      → A
      → Transaction A
  handle_frame p s (some request) request_size now_ms (some response_frame) frame_size (some old)
        scratch world =
      transact (validate_buffer (some request) request_size none).0 p s request now_ms
        response_frame frame_size old scratch world
  handle_frame p s request request_size now_ms response_frame frame_size old scratch world =
      rejected invalid_argument s response_frame old world
