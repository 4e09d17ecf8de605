-- ===== src/Client/Start.antt =====
-- A client as `robusto_proxy_client_init` leaves it, and the identifiers of its operations.
use robusto.Prelude.{ℕ, ◌^◌, ◌≤◌, ◌<◌, ◌≡◌, ◌≢◌, refl, subst, Option, none, some, List, arith}
use robusto.Protocol.{slot_size, reset}
use robusto.RetVal.{RetVal}
use robusto.Session
use robusto.Inflight.Invariant.{IsValid, init-IsValid}
use robusto.Client.{Client, Config, init, init_with, fresh_client, nonzero_u64, take_operation_id}

-- What the other functions of the client rely on.
pub record IsReady (c : Client) : Type 0 where
  pub table : IsValid c.inflight
  pub state : c.session.state ≡ reset
  pub timeout : c.request_timeout_ms ≢ 0
  pub request_room : slot_size ≤ c.request_frame_size
  pub response_room : slot_size ≤ c.response_frame_size
  pub boot : c.session.local_boot_id ≢ 0
  pub correlation : c.session.next_correlation_id ≢ 0
  pub sequence : c.session.next_sequence ≢ 0
  pub operation : c.next_operation_id ≢ 0

fresh-IsReady :
    (config : Config) (request response : List ℕ)
    → config.request_timeout_ms ≢ 0
    → config.controller_boot_id ≢ 0
    → slot_size ≤ config.request_frame_size
    → slot_size ≤ config.response_frame_size
    → IsReady (fresh_client config request response)
unfolding Session.init Session.nonzero_u32 nonzero_u64
fresh-IsReady config request response waits boots room place = record {
  table = (init-IsValid _).0;
  state = refl;
  timeout = waits;
  request_room = room;
  response_room = place;
  boot = boots;
  correlation = ground arith;
  sequence = ground arith;
  operation = ground arith;
}

init_fresh :
    (config : Config) (request response : Option (List ℕ)) (c : Client)
    → init_with config request response ≡ (RetVal.ok, some c)
    → IsReady c
unfolding init_with
init_fresh config (some request) (some response) c e =
    let same : fresh_client config request response ≡ c = ground arith in
    subst IsReady same (
      fresh-IsReady config request response (ground arith) (ground arith) (ground arith)
        (ground arith))
init_fresh config (some request) none c e = absurd (ground arith)
init_fresh config none response c e = absurd (ground arith)

-- A client that `robusto_proxy_client_init` sets up with ROB_OK has a valid table of requests, a
-- session that is reset, a timeout and a boot id above 0, room for a slot in both frames, and
-- counters of correlation ids, sequence numbers and operation ids that are above 0.
pub init-IsReady : (config : Config) (c : Client) → init config ≡ (RetVal.ok, some c) → IsReady c
unfolding init
init-IsReady config c e = init_fresh config config.request_frame config.response_frame c e

-- From a counter above 0 and below 2 ^ 64, the identifiers of two operations in a row are above 0
-- and distinct, also where the counter wraps, and the counter stays below 2 ^ 64.
pub take_operation_id_distinct :
    (c : Client)
    → c.next_operation_id ≢ 0
    → c.next_operation_id < 2 ^ 64
    → ((take_operation_id c).0 ≢ 0)
      × ((take_operation_id (take_operation_id c).1).0 ≢ 0)
      × ((take_operation_id c).0 ≢ (take_operation_id (take_operation_id c).1).0)
      × ((take_operation_id c).1.next_operation_id < 2 ^ 64)
unfolding take_operation_id nonzero_u64
take_operation_id_distinct c set fits = (ground arith, ground arith, ground arith, ground arith)
