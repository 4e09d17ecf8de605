-- ===== src/Inflight/Invariant.antt =====
-- The invariant of the table, and what each operation does to the requests that it finds.
use robusto.Prelude.{
  ℕ, zero, suc, ◌+◌, ◌%◌, ◌^◌, ◌≤◌, ◌<◌, ◌≡◌, ◌≢◌, ◌↔◌, refl, ap, Bool, true, false, not, none,
  some, List, arith, ◌==◌, if◌then◌else◌, length, replicate, Option-cases, ◌⊎◌, inl, inr, is_none,
}
use robusto.Protocol.{ProxyResult, ok, ok_or_not}
use robusto.Inflight.{
  Status, completed, stale_session, Entry, Table, active_entry, is_active, lookup, claim, finish,
  sweep, count, init, find, begin, complete, is_expired, belongs_to, expire, invalidate_peer,
  max_requests, cleared, swept,
}
use robusto.Inflight.Slots.{
  active_in, Distinct, unless, length-claim, count-claim, claim_total, lookup-claim, claim-Distinct,
  length-update_found, lookup_complete, count_complete, complete-Distinct, length-sweep,
  lookup-sweep, count-sweep, sweep-Distinct,
}

pub record IsValid (t : Table) : Type 0 where
  pub slots : length t.entries ≡ max_requests
  pub some_room : 1 ≤ t.capacity
  pub few : t.capacity ≤ max_requests
  pub counted : t.active_count ≡ count active_in t.entries
  pub within : t.active_count ≤ t.capacity
  pub distinct : Distinct t.entries

replicate-Distinct : (n : ℕ) → Distinct (replicate n cleared)
replicate-Distinct zero = tt
replicate-Distinct (suc n) = ((λ on. cc), replicate-Distinct n)

-- A new table is valid and holds no request, whatever capacity was negotiated.
pub init-IsValid :
    (negotiated : ℕ) → IsValid (init negotiated) × ((k : ℕ) → find (init negotiated) k ≡ none)
unfolding init lookup count find
init-IsValid negotiated = (
  record {
    slots = refl;
    some_room = ground arith;
    few = ground arith;
    counted = refl;
    within = omega arith;
    distinct = replicate-Distinct 8;
  },
  λ k. ground arith,
)

find_nonzero : (t : Table) (k : ℕ) → k ≢ 0 → find t k ≡ lookup k t.entries
unfolding find
find_nonzero t k h = ground arith

module _ (t : Table) (domain opcode id sequence started timeout boot : ℕ) where
  abbrev pub new_entry : Entry
  new_entry = active_entry domain opcode id sequence started timeout boot

  abbrev pub after_begin : ProxyResult × Table
  after_begin = begin t domain opcode id sequence started timeout boot

  -- What a request must meet to be entered.
  abbrev pub IsAdmissible : Type 0
  IsAdmissible = (id ≢ 0) × (timeout ≢ 0) × (t.active_count < t.capacity) × (find t id ≡ none)

  abbrev Entered : Type 0
  Entered =
      (es : List Entry) × (claim new_entry t.entries ≡ some es)
      × (after_begin
          ≡ (ok, record t { active_count = (t.active_count + 1) % 2 ^ 16; entries = es }))

  begin_enters : IsValid t → IsAdmissible → Entered
  unfolding begin
  begin_enters v (nonzero, waits, room, fresh) =
      let (es, slot) = claim_total new_entry t.entries (omega (arith, v.slots, v.few, v.counted)) in
      (es, slot, ground (arith, slot, fresh))

  begin_needs : after_begin.0 ≡ ok → IsAdmissible
  unfolding begin
  begin_needs e = ground arith

  pub begin_keeps : after_begin.0 ≢ ok → after_begin.1 ≡ t
  unfolding begin
  begin_keeps e = ground arith

  pub begin-IsValid : IsValid t → IsValid after_begin.1
  begin-IsValid v = elim (ok_or_not after_begin.0) [
    | inl e ↦
        let a : IsAdmissible = begin_needs e in
        let (es, slot, result) = begin_enters v a in
        let fresh : lookup id t.entries ≡ none = ground (arith, find_nonzero t id a.0, a.3) in
        rw result (record {
          slots = omega (arith, length-claim new_entry t.entries es slot, v.slots);
          some_room = v.some_room;
          few = v.few;
          counted =
              omega
                (arith, count-claim new_entry t.entries es refl slot, v.counted, v.within, v.few);
          within = omega (arith, a.2, v.few);
          distinct = claim-Distinct new_entry t.entries es refl a.0 slot fresh v.distinct;
        })
    | inr e ↦ rw (begin_keeps e) v
  ]

  -- In a valid table `robusto_proxy_inflight_begin` enters exactly the requests that have an id and
  -- a timeout, find the table below its capacity and their id unused: the search for a slot then
  -- always succeeds. The table stays valid, and is unchanged where the request is refused.
  pub begin_iff :
      IsValid t
      → ((after_begin.0 ≡ ok) ↔ IsAdmissible)
        × IsValid after_begin.1
        × ((after_begin.0 ≡ ok) ⊎ (after_begin.1 ≡ t))
  begin_iff v = (
    (begin_needs, λ a. ap (λ (r : ProxyResult × Table). r.0) (begin_enters v a).2),
    begin-IsValid v,
    elim (ok_or_not after_begin.0) [ inl e ↦ inl e | inr e ↦ inr (begin_keeps e) ],
  )

  -- A request that was entered in a valid table is found under its id, and every other id finds what it found before.
  pub find-begin :
      (j : ℕ)
      → IsValid t
      → after_begin.0 ≡ ok
      → find after_begin.1 j ≡ (if id == j then some new_entry else find t j)
  find-begin j v e =
      let a : IsAdmissible = begin_needs e in
      let (es, slot, result) = begin_enters v a in
      let fresh : lookup id t.entries ≡ none = ground (arith, find_nonzero t id a.0, a.3) in
      rw result
        (unfold find in ground (arith, lookup-claim new_entry t.entries es j refl slot fresh, a.0))

module _ (t : Table) (k : ℕ) where
  pub complete-IsValid : IsValid t → IsValid (complete t k).1
  unfolding complete
  complete-IsValid v = elim (Option-cases (find t k)) [
    | inl n ↦ rw n v
    | inr (e, f) ↦
        let found : lookup k t.entries ≡ some e = unfold find in ground arith in
        rw f (record {
          slots = omega (arith, length-update_found (finish completed) k t.entries, v.slots);
          some_room = v.some_room;
          few = v.few;
          counted = ground (arith, count_complete completed k t.entries e refl found, v.counted);
          within = ground (arith, v.within);
          distinct = complete-Distinct completed k t.entries refl v.distinct;
        })
  ]

  -- In a valid table `robusto_proxy_inflight_complete` reports whether the id was in use. Then the id is free and the
  -- count one lower; the other requests are found as before, and the table stays valid.
  pub find-complete :
      (j : ℕ)
      → IsValid t
      → ((complete t k).0 ≡ not (is_none (find t k)))
        × (find (complete t k).1 j ≡ (if k == j then none else find t j))
        × ((complete t k).1.active_count + (if (complete t k).0 then 1 else 0) ≡ t.active_count)
        × IsValid (complete t k).1
  unfolding complete
  find-complete j v = elim (Option-cases (find t k)) [
    | inl n ↦ (ground arith, ground arith, ground arith, complete-IsValid v)
    | inr (e, f) ↦
        let found : lookup k t.entries ≡ some e = unfold find in ground arith in
        (
          ground arith,
          unfold find in ground (arith, lookup_complete completed k t.entries j refl v.distinct),
          ground (arith, count_complete completed k t.entries e refl found, v.counted),
          complete-IsValid v,
        )
  ]

-- What `expire` and `invalidate_peer` share.
module _ (t : Table) (test : Entry → Bool) (s : Status) (v : IsValid t) (off : is_active s ≡ false)
    (only : (e : Entry) → test e ≡ true → active_in e ≡ true) where
  abbrev swept_table : Table
  swept_table = (swept t (count test t.entries) (sweep test s t.entries)).1

  balance : swept_table.active_count + count test t.entries ≡ t.active_count
  balance = ground (arith, count-sweep test s t.entries off only, v.counted)

  swept-IsValid : IsValid swept_table
  swept-IsValid = record {
    slots = omega (arith, length-sweep test s t.entries, v.slots);
    some_room = v.some_room;
    few = v.few;
    counted = omega (arith, balance, count-sweep test s t.entries off only, v.counted);
    within = omega (arith, balance, v.within);
    distinct = sweep-Distinct test s t.entries off v.distinct;
  }

  find-swept : (j : ℕ) → find swept_table j ≡ unless test (find t j)
  unfolding find
  find-swept j = ground (arith, lookup-sweep test s t.entries j off v.distinct)

is_expired_active : (now : ℕ) (e : Entry) → is_expired now e ≡ true → active_in e ≡ true
unfolding is_expired
is_expired_active now e h = ground arith

belongs_to_active : (boot : ℕ) (e : Entry) → belongs_to boot e ≡ true → active_in e ≡ true
belongs_to_active boot e h = ground arith

pub expire_lem :
    (t : Table) (now j : ℕ)
    → IsValid t
    → (find (expire t now).1 j ≡ unless (is_expired now) (find t j))
      × ((expire t now).1.active_count + (expire t now).0 ≡ t.active_count)
      × IsValid (expire t now).1
unfolding expire
expire_lem t now j v = (
  find-swept t (is_expired now) completed v refl (is_expired_active now) j,
  balance t (is_expired now) completed v refl (is_expired_active now),
  swept-IsValid t (is_expired now) completed v refl (is_expired_active now),
)

pub invalidate_peer_lem :
    (t : Table) (boot j : ℕ)
    → IsValid t
    → (find (invalidate_peer t boot).1 j ≡ unless (belongs_to boot) (find t j))
      × ((invalidate_peer t boot).1.active_count + (invalidate_peer t boot).0 ≡ t.active_count)
      × IsValid (invalidate_peer t boot).1
unfolding invalidate_peer
invalidate_peer_lem t boot j v = (
  find-swept t (belongs_to boot) stale_session v refl (belongs_to_active boot) j,
  balance t (belongs_to boot) stale_session v refl (belongs_to_active boot),
  swept-IsValid t (belongs_to boot) stale_session v refl (belongs_to_active boot),
)
