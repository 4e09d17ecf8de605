-- ===== src/Inflight/Sweeps.antt =====
-- components/robusto/proxy/src/robusto_proxy_inflight.c: which requests `robusto_proxy_inflight_expire` and
-- `robusto_proxy_inflight_invalidate_peer` remove.
use robusto.Prelude.{
  ◌↔◌, ◌≤◌, ℕ, ◌+◌, ◌%◌, ◌^◌, ◌<◌, ◌≡◌, refl, true, Option, none, some, List, [], ◌∷◌, arith, leb,
  ◌==◌, if◌then◌else◌, ◌-◌, ◌∙◌,
}
use robusto.Inflight.{Entry, Table, lookup, find, is_expired, belongs_to, expire, invalidate_peer}
use robusto.Inflight.Slots.{active_in, unless}
use robusto.Inflight.Invariant.{IsValid, expire_lem, invalidate_peer_lem}

-- The time since a request was sent: from its start it leads to `now` on a clock that wraps at 2 ^ 32.
pub record HasElapsed (e : Entry) (now elapsed : ℕ) : Type 0 where
  pub width : elapsed < 2 ^ 32
  pub leads : (e.started_at_ms + elapsed) % 2 ^ 32 ≡ now

-- What is found after the expiry, from what was found before it.
abbrev pub IsExpiry : ℕ → Option Entry → Option Entry → Type 0
IsExpiry now none after = after ≡ none
IsExpiry now (some e) after =
    (elapsed : ℕ) × HasElapsed e now elapsed
    × (after ≡ (if leb e.timeout_ms elapsed then none else some e))

elapsed_since :
    (e : Entry) (now : ℕ)
    → e.started_at_ms < 2 ^ 32
    → now < 2 ^ 32
    → HasElapsed e now ((now + 2 ^ 32 - e.started_at_ms) % 2 ^ 32)
elapsed_since e now started width = record { width = omega arith; leads = omega arith }

-- Only active requests are found.
lookup-active : (es : List Entry) (k : ℕ) (e : Entry) → lookup k es ≡ some e → active_in e ≡ true
unfolding lookup
lookup-active [] k e h = cc
lookup-active (x ∷ xs) k e h = ground (arith, lookup-active xs k e)

find-active : (t : Table) (k : ℕ) (e : Entry) → find t k ≡ some e → active_in e ≡ true
unfolding find
find-active t k e h = lookup-active t.entries k e (ground arith)

is_expired_active :
    (now : ℕ) (e : Entry)
    → active_in e ≡ true
    → is_expired now e ≡ leb e.timeout_ms ((now + 2 ^ 32 - e.started_at_ms) % 2 ^ 32)
unfolding is_expired
is_expired_active now e h = ground arith

-- A request is expired exactly when it is active and its timeout has passed since its start, for
-- times at most 2 ^ 32 - 1 ms apart, across the wrap of the clock.
is_expired_iff :
    (e : Entry) (elapsed : ℕ)
    → e.started_at_ms < 2 ^ 32
    → elapsed < 2 ^ 32
    → (is_expired ((e.started_at_ms + elapsed) % 2 ^ 32) e ≡ true)
      ↔ ((active_in e ≡ true) × (e.timeout_ms ≤ elapsed))
unfolding is_expired
is_expired_iff e elapsed hs he = (ground arith, ground arith)

unless-IsExpiry :
    (now : ℕ) (found : Option Entry)
    → now < 2 ^ 32
    → ((e : Entry) → found ≡ some e → (active_in e ≡ true) × (e.started_at_ms < 2 ^ 32))
    → IsExpiry now found (unless (is_expired now) found)
unless-IsExpiry now none width entry = refl
unless-IsExpiry now (some e) width entry =
    let (on, started) = entry e refl in
    (
      (now + 2 ^ 32 - e.started_at_ms) % 2 ^ 32,
      elapsed_since e now started width,
      rw (is_expired_active now e on) refl,
    )

-- In a valid table, at a time and with starts of 32 bits, `robusto_proxy_inflight_expire` removes exactly
-- the requests that were sent at least their timeout ago, on a clock that wraps at 2 ^ 32: what was found
-- under an id is found no more where the time elapsed since its start is its timeout or longer, and is
-- found as before otherwise. The number returned is the number removed from the count, and the table
-- stays valid.
pub find-expire :
    (t : Table) (now j : ℕ)
    → IsValid t
    → now < 2 ^ 32
    → ((e : Entry) → find t j ≡ some e → e.started_at_ms < 2 ^ 32)
    → IsExpiry now (find t j) (find (expire t now).1 j)
      × ((expire t now).1.active_count + (expire t now).0 ≡ t.active_count)
      × IsValid (expire t now).1
find-expire t now j v width starts =
    let (found, balance, valid) = expire_lem t now j v in
    (
      rw found (unless-IsExpiry now (find t j) width (λ e h. (find-active t j e h, starts e h))),
      balance,
      valid,
    )

unless-belongs_to :
    (boot : ℕ) (found : Option Entry)
    → ((e : Entry) → found ≡ some e → active_in e ≡ true)
    → unless (belongs_to boot) found ≡ unless (λ e. e.peer_boot_id == boot) found
unless-belongs_to boot none entry = refl
unless-belongs_to boot (some e) entry = rw (entry e refl) refl

-- In a valid table `robusto_proxy_inflight_invalidate_peer` removes exactly the requests whose boot of the
-- peer is the one given: such a request is found no more under its id, and all else is found as before.
-- The number returned is the number removed from the count, and the table stays valid.
pub find-invalidate_peer :
    (t : Table) (boot j : ℕ)
    → IsValid t
    → (find (invalidate_peer t boot).1 j ≡ unless (λ e. e.peer_boot_id == boot) (find t j))
      × ((invalidate_peer t boot).1.active_count + (invalidate_peer t boot).0 ≡ t.active_count)
      × IsValid (invalidate_peer t boot).1
find-invalidate_peer t boot j v =
    let (found, balance, valid) = invalidate_peer_lem t boot j v in
    (found ∙ unless-belongs_to boot (find t j) (find-active t j), balance, valid)
