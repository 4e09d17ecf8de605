-- ===== src/Service/Gate.antt =====
-- Before the handshake, only HELLO reaches the callbacks.
use robusto.Prelude.{ℕ, Bool, false, ◌≡◌, false, ◌&&◌, List, arith, ◌==◌}
use robusto.Protocol.{FrameHeader}
use robusto.Protocol.Domain
use robusto.Protocol.Opcode
use robusto.Service.{Service, Output, is_established, reply_status, reply_payload}
use robusto.Service.Query.{
  Platform, handle_health, handle_capability_query, handle_system_info, handle_fragment_stats,
  handle_reboot, try_reboot, after_reboot,
}
use robusto.Service.Control.{handle_control_request}
use robusto.Service.Branch.{encode_pubsub_result}
use robusto.Service.Pubsub.{handle_pubsub_request}
use robusto.Service.Frame.{carry_out, payload_output}

abbrev pub is_hello : FrameHeader → Bool
is_hello h = h.domain == Domain.control && h.opcode == Opcode.hello

module _ {A : Type 0} (p : Platform A) (s : Service A) (world : A) where
  health_world :
      (size now_ms : ℕ) (out : Output) → (handle_health s size now_ms out world).world ≡ world
  unfolding handle_health reply_payload
  health_world size now_ms out = ground arith

  -- While no session is open, a request other than HELLO reaches no callback, that of REBOOT included: their state
  -- stays as it was.
  pub carry_out_closed :
      (h : FrameHeader) (payload : List ℕ) (now_ms : ℕ) (scratch : List ℕ)
      → is_established s.session.state ≡ false
      → is_hello h ≡ false
      → (carry_out p s h payload now_ms scratch world).world ≡ world
  unfolding carry_out handle_control_request handle_capability_query handle_system_info
      handle_fragment_stats handle_reboot try_reboot after_reboot handle_pubsub_request
      encode_pubsub_result reply_status
  carry_out_closed h payload now_ms scratch closed other =
      ground (arith, health_world h.payload_length now_ms (payload_output scratch))
