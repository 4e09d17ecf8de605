-- ===== src/Client.antt =====
-- components/robusto/proxy/src/robusto_proxy_client.c: the controller's end of the proxy link. Here
-- are its state, its surroundings, and the functions without a loop.
pub mod Judge
pub mod Request
pub mod Replies
pub mod Loop
pub mod Success
pub mod Exchanges
pub mod Slots
pub mod Start
pub mod Connect
pub mod Connected
pub mod Queried
mod Tests
use robusto.Prelude.{
  ℕ, ◌+◌, ◌%◌, ◌^◌, Bool, true, false, not, ◌&&◌, ◌||◌, Option, none, some, List, ltb, ◌==◌,
  if◌then◌else◌,
}
use robusto.Protocol.{Profile, slot_size}
use robusto.Protocol.Domain
use robusto.Protocol.Opcode
use robusto.Protocol.Status
use robusto.RetVal
use robusto.RetVal.{RetVal}
use robusto.Session.{Session}
use robusto.Session
use robusto.Inflight.{Table}
use robusto.Inflight

-- `robusto_proxy_transfer_acceptance_t`
pub data Acceptance : Type 0 where
  not_accepted accepted acceptance_unknown : Acceptance

-- What an exchange gives back: its result, `*acceptance`, the response frame as the transport leaves
-- it, and `*response_size`.
pub record Reply : Type 0 where
  pub result : RetVal
  pub acceptance : Acceptance
  pub frame : List ℕ
  pub size : ℕ

-- The callbacks of the configuration, over the state `W` of what lies behind them. `exchange` gets
-- the request's bytes, the response frame, its capacity and the timeout.
pub record Env (W : Type 0) : Type 0 where
  pub exchange : List ℕ → List ℕ → ℕ → ℕ → W → Reply × W
  pub now_ms : W → ℕ × W
  pub wait_ms : ℕ → W → W
  pub retry_jitter_ms : ℕ → W → ℕ × W

-- `robusto_proxy_client_t`, without the fields of the pubsub client. The callbacks are those of `Env`.
pub record Client : Type 0 where
  pub session : Session
  pub inflight : Table
  pub request_frame : List ℕ
  pub request_frame_size : ℕ
  pub response_frame : List ℕ
  pub response_frame_size : ℕ
  pub next_operation_id : ℕ
  pub request_timeout_ms : ℕ
  pub last_status : ℕ
  pub last_result_flags : ℕ
  pub last_retry_after_ms : ℕ
  pub retries : ℕ
  pub consecutive_health_timeouts : ℕ

-- `robusto_proxy_client_config_t`; of the callbacks it says which are there.
pub record Config : Type 0 where
  pub profile : Profile
  pub controller_boot_id : ℕ
  pub correlation_seed : ℕ
  pub sequence_seed : ℕ
  pub operation_seed : ℕ
  pub request_timeout_ms : ℕ
  pub has_callbacks : Bool
  pub request_frame : Option (List ℕ)
  pub request_frame_size : ℕ
  pub response_frame : Option (List ℕ)
  pub response_frame_size : ℕ

-- `nonzero_u64`
unfoldable pub nonzero_u64 : ℕ → ℕ
nonzero_u64 value = if value == 0 then 1 else value

-- The test `domain == CONTROL && opcode == HELLO`.
abbrev pub is_hello : ℕ → ℕ → Bool
is_hello domain opcode = domain == Domain.control && opcode == Opcode.hello

-- `maximum_retries`
unfoldable pub maximum_retries : ℕ → ℕ → Bool → ℕ
maximum_retries domain opcode mutation =
    if mutation then 0 else if is_hello domain opcode then 4 else 1

-- `handshake_backoff[retry_index]`; an index out of range yields 0.
abbrev pub handshake_backoff : ℕ → ℕ
handshake_backoff retry_index =
    if retry_index == 0
    then 100
    else if retry_index == 1
    then 250
    else if retry_index == 2
    then 500
    else if retry_index == 3
    then 1000
    else 0

-- `normal_backoff[retry_index < 2U ? retry_index : 1U]`
abbrev pub normal_backoff : ℕ → ℕ
normal_backoff retry_index = if retry_index == 0 then 50 else 200

-- The delay of `retry_delay_ms` before the jitter.
unfoldable pub base_delay_ms : ℕ → ℕ → ℕ → ℕ → ℕ
base_delay_ms domain opcode retry_index retry_after_ms =
    if ltb 0 retry_after_ms
    then retry_after_ms
    else if is_hello domain opcode
    then handshake_backoff retry_index
    else normal_backoff retry_index

-- `retry_delay_ms`; the sum is one of `uint32_t`.
unfoldable pub retry_delay_ms : {W : Type 0} → Env W → ℕ → ℕ → ℕ → ℕ → W → ℕ × W
retry_delay_ms env domain opcode retry_index retry_after_ms w =
    let (jitter, w') = env.retry_jitter_ms 20 w in
    (
      (base_delay_ms domain opcode retry_index retry_after_ms
            + (if ltb 20 jitter then 20 else jitter))
          % 2 ^ 32,
      w',
    )

-- `robusto_proxy_status_to_robusto`
unfoldable pub status_to_robusto : ℕ → RetVal
status_to_robusto status =
    if status == Status.ok
    then RetVal.ok
    else if status == Status.invalid_argument
        || (status == Status.malformed_payload || status == Status.pubsub_topic_invalid)
    then RetVal.invalid_arg
    else if status == Status.out_of_memory
    then RetVal.out_of_memory
    else if status == Status.busy
        || (status == Status.too_many_in_flight || status == Status.pubsub_subscription_limit)
    then RetVal.queue_full
    else if status == Status.timeout
    then RetVal.timeout
    else if status == Status.not_ready
        || (status == Status.handshake_required || status == Status.stale_session)
    then RetVal.not_ready
    else if status == Status.unsupported_version
        || (status == Status.unsupported_domain
            || (status == Status.unsupported_opcode || status == Status.capability_unavailable))
    then RetVal.not_supported
    else if status == Status.not_found || status == Status.pubsub_subscription_not_found
    then RetVal.invalid_id
    else if status == Status.link_crc
    then RetVal.wrong_crc
    else if status == Status.link_length || status == Status.pubsub_payload_too_large
    then RetVal.message_too_long
    else if status == Status.link_io
    then RetVal.send_fail
    else if status == Status.outcome_unknown
    then RetVal.outcome_unknown
    else RetVal.fail

-- What `robusto_proxy_client_init` makes of a configuration that passes its checks.
abbrev pub fresh_client : Config → List ℕ → List ℕ → Client
fresh_client config request_frame response_frame =
    let session =
      Session.init config.profile config.controller_boot_id config.correlation_seed
        config.sequence_seed in
    record {
      session = session;
      inflight = Inflight.init session.local_limits.max_in_flight;
      request_frame = request_frame;
      request_frame_size = config.request_frame_size;
      response_frame = response_frame;
      response_frame_size = config.response_frame_size;
      next_operation_id = nonzero_u64 config.operation_seed;
      request_timeout_ms = config.request_timeout_ms;
      last_status = 0;
      last_result_flags = 0;
      last_retry_after_ms = 0;
      retries = 0;
      consecutive_health_timeouts = 0;
    }

unfoldable pub init_with : Config → Option (List ℕ) → Option (List ℕ) → RetVal × Option Client
init_with config (some request_frame) (some response_frame) =
    if config.controller_boot_id == 0
      || (config.request_timeout_ms == 0
          || (not config.has_callbacks
              || (ltb config.request_frame_size slot_size
                  || ltb config.response_frame_size slot_size)))
    then (RetVal.invalid_arg, none)
    else (RetVal.ok, some (fresh_client config request_frame response_frame))
init_with config request_frame response_frame = (RetVal.invalid_arg, none)

-- `robusto_proxy_client_init`: the result, and the client where it is set up.
unfoldable pub init : Config → RetVal × Option Client
unfolding init_with
init config = init_with config config.request_frame config.response_frame

-- `robusto_proxy_client_take_operation_id`; the sum is one of `uint64_t`.
unfoldable pub take_operation_id : Client → ℕ × Client
take_operation_id c = (
  c.next_operation_id,
  record c { next_operation_id = nonzero_u64 ((c.next_operation_id + 1) % 2 ^ 64) },
)
