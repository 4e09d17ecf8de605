-- ===== src/Client/Request.antt =====
-- components/robusto/proxy/src/robusto_proxy_client.c: `robusto_proxy_client_request`, one request
-- and its retries.
use robusto.Prelude.{
  ℕ, zero, suc, ◌+◌, ◌%◌, ◌^◌, Bool, true, false, not, ◌&&◌, ◌||◌, Option, none, some, List, ltb,
  ◌==◌, if◌then◌else◌, bit_or, take,
}
use robusto.Protocol.{ProxyResult, ok, SessionState, established, max_payload}
use robusto.Protocol.Flag
use robusto.RetVal.{RetVal}
use robusto.Session.{take_correlation_id, take_sequence}
use robusto.Inflight.{Entry, Table, find, update_found, begin, complete}
use robusto.Frame.{header_init, encode}
use robusto.Client.{Env, Client, is_hello, maximum_retries, retry_delay_ms}
use robusto.Client.Judge.{payload_at, is_null, Call, Verdict, answered, failed, judge}

-- The stores through `inflight_entry`.
abbrev pub restamp : ℕ → ℕ → Entry → Entry
restamp sequence now e = record e { sequence = sequence; started_at_ms = now }

-- What comes of one round: how it ends, the client and what lies behind its callbacks.
abbrev pub Round : Type 0 → Type 0
Round W = Verdict × Client × W

module _ {W : Type 0} (env : Env W) (call : Call) (id : ℕ) where
  -- The exchange, where the frame was encoded.
  unfoldable pub transmit : Client → W → ProxyResult × Option (List ℕ) × Option ℕ → Round W
  transmit c w (ok, some frame, some size) =
      let (reply, w') =
        env.exchange (take size frame) c.response_frame c.response_frame_size c.request_timeout_ms
          w in
      let (verdict, c') = judge call id (record c { request_frame = frame }) reply in
      (verdict, c', w')
  transmit c w (r, frame, size) = (failed RetVal.invalid_arg false 0, c, w)

  -- The round, where the entry of the request was found.
  unfoldable pub send_round : ℕ → ℕ → ℕ → Client → W → Round W
  send_round flags sequence now c w =
      let t : Table = c.inflight in
      let c' : Client = record c {
        inflight = record t { entries = update_found (restamp sequence now) id t.entries };
      } in
      transmit c' w (
        encode (some c'.request_frame) c'.request_frame_size
          (some (header_init flags call.domain call.opcode id sequence call.payload_size))
          (payload_at c' call.payload) (some 0))

  unfoldable pub found_round : ℕ → ℕ → ℕ → Client → W → Option Entry → Round W
  found_round flags sequence now c w none = (failed RetVal.fail false 0, c, w)
  found_round flags sequence now c w (some e) = send_round flags sequence now c w

  unfoldable pub stamped_round : ℕ → ℕ → Client → W → Round W
  stamped_round flags sequence c w =
      let (now, w') = env.now_ms w in found_round flags sequence now c w' (find c.inflight id)

  -- The body of the loop up to its `break` or `continue`. The first round has the sequence number
  -- that was taken before the loop.
  unfoldable pub round : ℕ → ℕ → Client → W → Round W
  round attempt sequence c w =
      if attempt == 0
      then stamped_round Flag.request sequence c w
      else let (next, session) = take_sequence c.session in
        stamped_round (bit_or Flag.request Flag.retry) next (record c { session = session }) w

  -- The wait before the next round.
  unfoldable pub pause : ℕ → ℕ → Client → W → Client × W
  pause attempt retry_after c w =
      let (delay, w') = retry_delay_ms env call.domain call.opcode attempt retry_after w in
      (record c { retries = (c.retries + 1) % 2 ^ 32 }, env.wait_ms delay w')

-- What a request leaves: its result, the success payload in the response frame (`none` where none
-- was stored), the client and what lies behind its callbacks.
pub record Done (W : Type 0) : Type 0 where
  pub result : RetVal
  pub payload : Option (ℕ × ℕ)
  pub client : Client
  pub world : W

abbrev pub done : {W : Type 0} → RetVal → Client → W → Done W
done r c w = record { result = r; payload = none; client = c; world = w }

-- The condition of the three `continue` branches.
abbrev pub may_retry : Call → Bool → ℕ → ℕ → Bool
may_retry call retryable attempt limit = not call.mutation && (retryable && ltb attempt limit)

module _ {W : Type 0} (env : Env W) (call : Call) (id sequence limit : ℕ) where
  -- The loop, `left` rounds from its end.
  unfoldable pub rounds : (left attempt : ℕ) → RetVal → Client → W → Done W
  rounds zero attempt result c w = done result c w
  rounds (suc left) attempt result c w =
      let (verdict, c', w') = round env call id attempt sequence c w in
      elim verdict [
        | answered offset size ↦ record {
          result = RetVal.ok;
          payload = some (offset, size);
          client = c';
          world = w';
        }
        | failed r retryable after ↦ elim (may_retry call retryable attempt limit) [
          | true ↦
              let (c2, w2) = pause env call id attempt after c' w' in
              rounds left (suc attempt) r c2 w2
          | false ↦ done r c' w'
        ]
      ]

abbrev is_established : SessionState → Bool
is_established established = true
is_established _ = false

-- The fields that a request clears first.
abbrev pub forget_last : Client → Client
forget_last c = record c { last_status = 0; last_result_flags = 0; last_retry_after_ms = 0 }

-- The completion behind the loop.
abbrev pub close : {W : Type 0} → ℕ → Done W → Done W
close id d =
    let c : Client = d.client in
    record d { client = record c { inflight = (complete c.inflight id).1 } }

-- The tests on the arguments and on the session.
abbrev pub refuses_arguments : Call → Bool
refuses_arguments call =
    (ltb 0 call.payload_size && is_null call.payload) || ltb max_payload call.payload_size

abbrev pub refuses_session : Call → Client → Bool
refuses_session call c =
    not (is_hello call.domain call.opcode) && not (is_established c.session.state)

module _ {W : Type 0} (env : Env W) (call : Call) where
  -- The loop and the completion, where the request was entered in the table.
  unfoldable pub entered : ℕ → ℕ → Client → W → ProxyResult × Table → Done W
  entered id sequence c w (ok, t) =
      let limit = maximum_retries call.domain call.opcode call.mutation in
      close id
        (rounds env call id sequence limit (suc limit) 0 RetVal.fail (record c { inflight = t }) w)
  entered id sequence c w (r, t) = done RetVal.conv_list_full (record c { inflight = t }) w

  -- The request behind the checks of its arguments and of the session.
  unfoldable pub open_request : Client → W → Done W
  open_request c w =
      let (id, s1) = take_correlation_id c.session in
      let (sequence, s2) = take_sequence s1 in
      let c' : Client = record (forget_last c) { session = s2 } in
      let (now, w') = env.now_ms w in
      entered id sequence c' w' (
        begin c'.inflight call.domain call.opcode id sequence now c'.request_timeout_ms
          c'.session.peer_boot_id)

  -- `robusto_proxy_client_request`; the client and the places for the payload are there.
  unfoldable pub request : Client → W → Done W
  request c w =
      if refuses_arguments call
      then done RetVal.invalid_arg c w
      else if refuses_session call c
      then done RetVal.not_ready c w
      else open_request c w
