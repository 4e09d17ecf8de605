-- ===== src/Service/Repeated.antt =====
-- A HELLO to a session that is open: from its controller, and from another one.
use robusto.Prelude.{ℕ, ◌<◌, ◌^◌, ◌≡◌, none, Option, some, List}
use robusto.Protocol.{established}
use robusto.Protocol.Status
use robusto.Protocol.Messages.{HelloRequest, HelloResponse}
use robusto.Inflight.{find}
use robusto.Session.{Session}
use robusto.Service.{Service, Output, counted}
use robusto.Service.Hello.{read_request, hello_response}
use robusto.Service.Replies.{IsBuffer}

-- The widths of the fields of a session that HELLO repeats.
pub record FitsSession (s : Session) : Type 0 where
  pub local_boot_id : s.local_boot_id < 2 ^ 64
  pub dedupe_entries : s.negotiated_limits.dedupe_entries < 2 ^ 16
  pub dedupe_window_ms : s.negotiated_limits.dedupe_window_ms < 2 ^ 32

-- The session of this controller is open.
abbrev pub IsOpenWith : {A : Type 0} → Service A → HelloRequest → Type 0
IsOpenWith s r = (s.session.state ≡ established) × (s.session.peer_boot_id ≡ r.controller_boot_id)

-- A session for this controller, with no request in flight.
pub record IsFresh {A : Type 0} (r : HelloRequest) (s : Service A) : Type 0 where
  pub state : s.session.state ≡ established
  pub peer : s.session.peer_boot_id ≡ r.controller_boot_id
  pub none_inflight : (k : ℕ) → find s.inflight k ≡ none

module _ {A : Type 0} where
  module _ (s : Service A) (r : HelloRequest) (payload : Option (List ℕ)) (size now_ms : ℕ)
      (out : Output) (world : A) (buffer : IsBuffer out)
      (read : read_request payload size ≡ some r) where
    abbrev reply : HelloResponse
    reply = hello_response (counted s) r now_ms
