-- ===== src/Client/Connect.antt =====
-- components/robusto/proxy/src/robusto_proxy_client.c: opening the session, the queries, and the reboot of the peer.
use robusto.Prelude.{
  ℕ, ◌+◌, ◌%◌, ◌^◌, Bool, true, false, ◌&&◌, Option, none, some, List, bit_and, bit_or, leb, ◌==◌,
  ◌!=◌, if◌then◌else◌, drop,
}
use robusto.Protocol.{
  ProxyResult, ok, SessionState, reset, negotiating, degraded, incompatible, protocol_major,
  protocol_minor, max_payload,
}
use robusto.Protocol.Domain
use robusto.Protocol.Opcode
use robusto.Protocol.Messages.{HelloRequest, HelloResponse, CapabilityResponse, HealthResponse}
use robusto.Protocol.Stats.{FragmentStatsResponse}
use robusto.RetVal.{RetVal, is_ok, is_timeout}
use robusto.Session.{Session, apply_hello_response}
use robusto.Inflight
use robusto.Control.{Run, returns, fault}
use robusto.Control.Hello.{hello_request_size, encode_hello_request, decode_hello_response}
use robusto.Control.Message.{cleared_hello_response}
use robusto.Control.Reports.{decode_capability_response, decode_health_response}
use robusto.Control.SystemInfo.{SystemInfoResponse, decode_system_info_response}
use robusto.Control.FragmentStats.{decode_fragment_stats_response}
use robusto.Client.{Env, Client}
use robusto.Client.Judge.{Call, own_response, null}
use robusto.Client.Request.{Done, request}

-- What robusto_proxy_pubsub_client.c supplies: `robusto_proxy_pubsub_session_reset` and
-- `robusto_proxy_pubsub_reconcile`.
pub record PubsubClient (W : Type 0) : Type 0 where
  pub session_reset : Client → W → Client × W
  pub reconcile : Client → W → RetVal × (Client × W)

-- What a call returns, with the client and what lies behind its callbacks.
abbrev pub Returned : Type 0 → Type 0
Returned W = RetVal × (Client × W)

abbrev pub with_state : SessionState → Client → Client
with_state state c = record c { session = record c.session { state = state } }

abbrev pub hello_request : Client → HelloRequest
hello_request c = record {
  controller_boot_id = c.session.local_boot_id;
  min_protocol_major = protocol_major;
  max_protocol_major = protocol_major;
  min_protocol_minor = protocol_minor;
  max_protocol_minor = protocol_minor;
  max_payload = max_payload;
  max_in_flight = c.session.local_limits.max_in_flight;
  reserved = 0;
  required_features = 1;
  optional_features = bit_or 2 4;
}

abbrev pub hello_call : Call
hello_call = record {
  domain = Domain.control;
  opcode = Opcode.hello;
  payload = own_response;
  payload_size = hello_request_size;
  mutation = false;
}

-- The message at the payload of a response, where its decoder admits it.
abbrev pub admitted : {R : Type 0} → Run (ProxyResult × Option R) → Option R
admitted (returns (ok, m)) = m
admitted _ = none

unfoldable pub hello_payload : Client → Option (ℕ × ℕ) → Option HelloResponse
hello_payload c none = none
hello_payload c (some (offset, size)) =
    admitted (
      decode_hello_response (some (drop offset c.response_frame)) size
        (some cleared_hello_response))

module _ {W : Type 0} (pubsub : PubsubClient W) where
  unfoldable pub reconciled : Returned W → Returned W
  reconciled (result, (c, w)) =
      if is_ok result then (result, (c, w)) else (result, (with_state degraded c, w))

  -- A peer that started again has lost the subscriptions.
  unfoldable pub renew : ℕ → Client → W → Client × W
  renew previous c w =
      if previous != 0 && previous != c.session.peer_boot_id
      then pubsub.session_reset c w
      else (c, w)

  unfoldable pub applied : ℕ → Client → W → Bool × Session → Returned W
  applied previous c w (false, s) =
      (RetVal.not_supported, (with_state incompatible (record c { session = s }), w))
  applied previous c w (true, s) =
      let (c', w') =
        renew previous
          (record c {
            session = s;
            inflight = Inflight.init s.negotiated_limits.max_in_flight;
            consecutive_health_timeouts = 0;
          })
          w in
      reconciled (pubsub.reconcile c' w')

  unfoldable pub judge_hello : ℕ → Client → W → Option HelloResponse → Returned W
  judge_hello previous c w none = (RetVal.not_supported, (with_state incompatible c, w))
  judge_hello previous c w (some r) =
      if bit_and r.enabled_features 1 == 0
      then (RetVal.not_supported, (with_state incompatible c, w))
      else applied previous c w (apply_hello_response c.session (some r))

  unfoldable pub after_hello : ℕ → Done W → Returned W
  after_hello previous d =
      if is_ok d.result
      then judge_hello previous d.client d.world (hello_payload d.client d.payload)
      else (d.result, (with_state reset d.client, d.world))

  unfoldable pub send_hello : Env W → Client → W → Run (ProxyResult × Option (List ℕ)) → Returned W
  send_hello env c w (returns (ok, some frame)) =
      after_hello c.session.peer_boot_id
        (request env hello_call (with_state negotiating (record c { response_frame = frame })) w)
  send_hello env c w _ = (RetVal.fail, (c, w))

  -- `robusto_proxy_client_connect`, at a client that is there.
  unfoldable pub connect : Env W → Client → W → Returned W
  connect env c w =
      send_hello env c w (
        encode_hello_request (some c.response_frame) c.response_frame_size (some (hello_request c)))

  abbrev pub query_call : ℕ → Bool → Call
  query_call opcode mutation = record {
    domain = Domain.control;
    opcode = opcode;
    payload = null;
    payload_size = 0;
    mutation = mutation;
  }

  -- The session is closed: the peer has started again, or will.
  unfoldable pub lose_session : RetVal → Client → W → Returned W
  lose_session result c w = (result, pubsub.session_reset (with_state reset c) w)

  -- The bodies of the queries: the result, the client, and `*response` as they leave it.
  module _ {R : Type 0} (decode : Option (List ℕ) → ℕ → Option R → Run (ProxyResult × Option R))
      (boot_id : R → ℕ) where
    unfoldable pub take_response :
        Client → W → Run (ProxyResult × Option R) → Option R → Returned W × Option R
    take_response c w (returns (ok, some m)) old =
        if boot_id m != c.session.peer_boot_id
        then (lose_session RetVal.not_ready c w, some m)
        else ((RetVal.ok, (c, w)), some m)
    take_response c w (returns (e, m)) old = ((RetVal.parsing_failed, (c, w)), m)
    take_response c w fault old = ((RetVal.parsing_failed, (c, w)), old)

    unfoldable pub read_response : Client → W → Option (ℕ × ℕ) → Option R → Returned W × Option R
    read_response c w none old = ((RetVal.parsing_failed, (c, w)), old)
    read_response c w (some (offset, size)) old =
        take_response c w (decode (some (drop offset c.response_frame)) size old) old

    unfoldable pub after_query : Done W → Option R → Returned W × Option R
    after_query d old =
        if is_ok d.result
        then read_response d.client d.world d.payload old
        else ((d.result, (d.client, d.world)), old)

  -- `robusto_proxy_client_query_capabilities`, its pointers given.
  unfoldable pub query_capabilities :
      Env W → Client → W → CapabilityResponse → Returned W × Option CapabilityResponse
  query_capabilities env c w old =
      after_query decode_capability_response (λ (m : CapabilityResponse). m.proxy_boot_id)
        (request env (query_call Opcode.capability_query false) c w) (some old)

  -- `robusto_proxy_client_query_system_info`, its pointers given.
  unfoldable pub query_system_info :
      Env W → Client → W → SystemInfoResponse → Returned W × Option SystemInfoResponse
  query_system_info env c w old =
      after_query decode_system_info_response (λ (m : SystemInfoResponse). m.proxy_boot_id)
        (request env (query_call Opcode.system_info false) c w) (some old)

  -- `robusto_proxy_client_query_fragment_stats`, its pointers given.
  unfoldable pub query_fragment_stats :
      Env W → Client → W → FragmentStatsResponse → Returned W × Option FragmentStatsResponse
  query_fragment_stats env c w old =
      after_query decode_fragment_stats_response (λ (m : FragmentStatsResponse). m.proxy_boot_id)
        (request env (query_call Opcode.fragment_stats false) c w) (some old)

  -- A timeout of HEALTH is counted; the third in a row degrades the session.
  unfoldable pub count_timeout : Client → Client
  count_timeout c =
      let timeouts : ℕ = (c.consecutive_health_timeouts + 1) % 2 ^ 8 in
      let c' : Client = record c { consecutive_health_timeouts = timeouts } in
      if leb 3 timeouts then with_state degraded c' else c'

  unfoldable pub after_health : Done W → Option HealthResponse → Returned W × Option HealthResponse
  after_health d old =
      if is_ok d.result
      then read_response decode_health_response (λ (m : HealthResponse). m.proxy_boot_id)
          (record d.client { consecutive_health_timeouts = 0 }) d.world d.payload old
      else (
        (d.result, ((if is_timeout d.result then count_timeout d.client else d.client), d.world)),
        old,
      )

  -- `robusto_proxy_client_query_health`, its pointers given.
  unfoldable pub query_health :
      Env W → Client → W → HealthResponse → Returned W × Option HealthResponse
  query_health env c w old =
      after_health (request env (query_call Opcode.health false) c w) (some old)

  unfoldable pub after_reboot : Done W → Returned W
  after_reboot d =
      if is_ok d.result
      then lose_session RetVal.ok d.client d.world
      else (d.result, (d.client, d.world))

  -- `robusto_proxy_client_reboot_delegate`, at a client that is there.
  unfoldable pub reboot_delegate : Env W → Client → W → Returned W
  reboot_delegate env c w = after_reboot (request env (query_call Opcode.reboot true) c w)
