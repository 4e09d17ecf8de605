-- ===== src/Inflight.antt =====
-- components/robusto/proxy/src/robusto_proxy_inflight.c: the table of requests that wait for their
-- responses, eight slots of which `capacity` may be in use.
pub mod Slots
pub mod Invariant
pub mod Sweeps
pub mod History
mod Tests
use robusto.Prelude.{
  ℕ, zero, suc, ◌+◌, ◌-◌, ◌%◌, ◌^◌, Bool, true, false, ◌&&◌, ◌||◌, Option, none, some, List, [],
  ◌∷◌, ltb, leb, ◌==◌, if◌then◌else◌, replicate,
}
use robusto.Protocol.{ProxyResult, ok, invalid_argument, bad_reserved, bad_length}

abbrev pub max_requests : ℕ
max_requests = 8

-- `robusto_proxy_inflight_status_t`
pub data Status : Type 0 where
  free active completed stale_session : Status

-- `robusto_proxy_inflight_entry_t`
pub record Entry : Type 0 where
  pub status : Status
  pub domain : ℕ
  pub opcode : ℕ
  pub correlation_id : ℕ
  pub sequence : ℕ
  pub started_at_ms : ℕ
  pub timeout_ms : ℕ
  pub peer_boot_id : ℕ

-- `robusto_proxy_inflight_table_t`
pub record Table : Type 0 where
  pub capacity : ℕ
  pub active_count : ℕ
  pub entries : List Entry

-- The test `entry->status == ACTIVE`.
abbrev pub is_active : Status → Bool
is_active active = true
is_active free = false
is_active completed = false
is_active stale_session = false

-- The test of `robusto_proxy_inflight_begin` for a slot that may be taken.
abbrev pub is_claimable : Status → Bool
is_claimable free = true
is_claimable completed = true
is_claimable stale_session = true
is_claimable active = false

-- `clamp_capacity`
unfoldable pub clamp_capacity : ℕ → ℕ
clamp_capacity negotiated =
    if negotiated == 0 then 1 else if ltb max_requests negotiated then max_requests else negotiated

-- What `memset` makes of an entry.
abbrev pub cleared : Entry
cleared = record {
  status = free;
  domain = 0;
  opcode = 0;
  correlation_id = 0;
  sequence = 0;
  started_at_ms = 0;
  timeout_ms = 0;
  peer_boot_id = 0;
}

-- `robusto_proxy_inflight_init`
unfoldable pub init : ℕ → Table
unfolding clamp_capacity
init negotiated = record {
  capacity = clamp_capacity negotiated;
  active_count = 0;
  entries = replicate max_requests cleared;
}

abbrev pub matches : ℕ → Entry → Bool
matches correlation_id e = is_active e.status && e.correlation_id == correlation_id

-- The loop of `robusto_proxy_inflight_find`: the first active entry with the id.
unfoldable pub lookup : ℕ → List Entry → Option Entry
lookup correlation_id [] = none
lookup correlation_id (e ∷ es) =
    if matches correlation_id e then some e else lookup correlation_id es

-- A write through the pointer that the loop finds.
unfoldable pub update_found : (Entry → Entry) → ℕ → List Entry → List Entry
update_found f correlation_id [] = []
update_found f correlation_id (e ∷ es) =
    if matches correlation_id e then f e ∷ es else e ∷ update_found f correlation_id es

-- `robusto_proxy_inflight_find`
unfoldable pub find : Table → ℕ → Option Entry
find t correlation_id = if correlation_id == 0 then none else lookup correlation_id t.entries

-- The entry that `robusto_proxy_inflight_begin` stores.
abbrev pub active_entry : ℕ → ℕ → ℕ → ℕ → ℕ → ℕ → ℕ → Entry
active_entry domain opcode correlation_id sequence started_at_ms timeout_ms peer_boot_id = record {
  status = active;
  domain = domain;
  opcode = opcode;
  correlation_id = correlation_id;
  sequence = sequence;
  started_at_ms = started_at_ms;
  timeout_ms = timeout_ms;
  peer_boot_id = peer_boot_id;
}

-- The loop of `robusto_proxy_inflight_begin`: the first claimable slot is overwritten.
unfoldable pub claim : Entry → List Entry → Option (List Entry)
claim new [] = none
claim new (e ∷ es) =
    if is_claimable e.status
    then some (new ∷ es)
    else elim (claim new es) [ none ↦ none | some es' ↦ some (e ∷ es') ]

claimed : Table → Option (List Entry) → ProxyResult × Table
claimed t none = (bad_length, t)
claimed t (some es) = (ok, record t { active_count = (t.active_count + 1) % 2 ^ 16; entries = es })

taken : Table → Entry → Option Entry → ProxyResult × Table
unfolding claimed
taken t new (some e) = (bad_reserved, t)
taken t new none = claimed t (claim new t.entries)

-- `robusto_proxy_inflight_begin`
unfoldable pub begin : Table → ℕ → ℕ → ℕ → ℕ → ℕ → ℕ → ℕ → ProxyResult × Table
unfolding taken
begin t domain opcode correlation_id sequence started_at_ms timeout_ms peer_boot_id =
    if correlation_id == 0 || timeout_ms == 0
    then (invalid_argument, t)
    else if leb t.capacity t.active_count
    then (bad_length, t)
    else taken t
        (active_entry domain opcode correlation_id sequence started_at_ms timeout_ms peer_boot_id)
        (find t correlation_id)

-- What the completion, the expiry and the invalidation of an entry store in it.
abbrev pub finish : Status → Entry → Entry
finish s e = record e { status = s; correlation_id = 0 }

complete_found : Table → ℕ → Option Entry → Bool × Table
complete_found t correlation_id none = (false, t)
complete_found t correlation_id (some e) = (
  true,
  record t {
    active_count = if ltb 0 t.active_count then t.active_count - 1 else t.active_count;
    entries = update_found (finish completed) correlation_id t.entries;
  },
)

-- `robusto_proxy_inflight_complete`
unfoldable pub complete : Table → ℕ → Bool × Table
unfolding complete_found
complete t correlation_id = complete_found t correlation_id (find t correlation_id)

-- `robusto_proxy_inflight_is_expired`. The difference of the times is taken modulo 2 ^ 32.
unfoldable pub is_expired : ℕ → Entry → Bool
is_expired now_ms e =
    is_active e.status && leb e.timeout_ms ((now_ms + 2 ^ 32 - e.started_at_ms) % 2 ^ 32)

-- The test of `robusto_proxy_inflight_invalidate_peer`.
abbrev pub belongs_to : ℕ → Entry → Bool
belongs_to peer_boot_id e = is_active e.status && e.peer_boot_id == peer_boot_id

-- The loops of `expire` and `invalidate_peer`: each entry that passes the test is finished, and
-- counted. There are eight entries, so that the `uint16_t` counter does not wrap.
unfoldable pub sweep : (Entry → Bool) → Status → List Entry → List Entry
sweep test s [] = []
sweep test s (e ∷ es) = (if test e then finish s e else e) ∷ sweep test s es

unfoldable pub count : (Entry → Bool) → List Entry → ℕ
count test [] = 0
count test (e ∷ es) = (if test e then 1 else 0) + count test es

abbrev pub swept : Table → ℕ → List Entry → ℕ × Table
swept t n es = (
  n,
  record t { active_count = if ltb t.active_count n then 0 else t.active_count - n; entries = es },
)

-- `robusto_proxy_inflight_expire`
unfoldable pub expire : Table → ℕ → ℕ × Table
expire t now_ms =
    swept t (count (is_expired now_ms) t.entries) (sweep (is_expired now_ms) completed t.entries)

-- `robusto_proxy_inflight_invalidate_peer`
unfoldable pub invalidate_peer : Table → ℕ → ℕ × Table
invalidate_peer t peer_boot_id =
    swept t (count (belongs_to peer_boot_id) t.entries)
      (sweep (belongs_to peer_boot_id) stale_session t.entries)
