-- ===== src/Client/Slots.antt =====
-- What a request does to the table of requests in flight.
use robusto.Prelude.{
  ℕ, suc, ◌+◌, ◌<◌, ◌≡◌, ◌≢◌, ◌==◌, inl, inr, refl, sym, subst, false, Option, none, some, List, [],
  ◌∷◌, arith, if◌then◌else◌, Bool-cases, is_none,
}
use robusto.Protocol.{ProxyResult, ok}
use robusto.Inflight.{Entry, Table, find, lookup, update_found, count, matches, complete, begin}
use robusto.Inflight.Slots.{active_in, Distinct, length-update_found}
use robusto.Inflight.Invariant.{IsValid, begin_iff, begin_keeps, find-begin, find-complete}
use robusto.RetVal.{RetVal}
use robusto.Client.{Env, Client}
use robusto.Client.Judge.{Call}
use robusto.Client.Request.{
  restamp, transmit, round, pause, rounds, close, entered, open_request, request,
}
use robusto.Client.Replies.{judge-inflight}
use robusto.Client.Loop.{rounds_rule, round_rule, request_rule}

abbrev restamped : Option Entry → ℕ → ℕ → Option Entry
restamped none s n = none
restamped (some e) s n = some (restamp s n e)

module _ (s n k : ℕ) where
  lookup-restamp :
      (es : List Entry) (j : ℕ)
      → lookup j (update_found (restamp s n) k es)
        ≡ (if j == k then restamped (lookup j es) s n else lookup j es)
  unfolding lookup update_found
  lookup-restamp [] j = ground arith
  lookup-restamp (e ∷ es) j = ground (arith, lookup-restamp es j)

  count-restamp :
      (es : List Entry) → count active_in (update_found (restamp s n) k es) ≡ count active_in es
  unfolding count update_found
  count-restamp [] = refl
  count-restamp (e ∷ es) = ground (arith, count-restamp es)

  restamp-Distinct : (es : List Entry) → Distinct es → Distinct (update_found (restamp s n) k es)
  unfolding update_found
  restamp-Distinct [] d = tt
  restamp-Distinct (e ∷ es) d = elim (Bool-cases (matches k e)) [
    | inl hit ↦ rw hit (d.0, d.1)
    | inr miss ↦ rw miss (
      (λ on. ((d.0 on).0, ground (arith, lookup-restamp es e.correlation_id, (d.0 on).1))),
      restamp-Distinct es d.1,
    )
  ]

find-restamp :
    (t : Table) (s n k j : ℕ)
    → find (record t { entries = update_found (restamp s n) k t.entries }) j
      ≡ (if j == k then restamped (find t j) s n else find t j)
unfolding find
find-restamp t s n k j = ground (arith, lookup-restamp s n k t.entries j)

begin_counts :
    (t : Table) (domain opcode id sequence started timeout boot : ℕ)
    → t.active_count < 8
    → (begin t domain opcode id sequence started timeout boot).0 ≡ ok
    → (begin t domain opcode id sequence started timeout boot).1.active_count ≡ t.active_count + 1
unfolding begin
begin_counts t domain opcode id sequence started timeout boot few e = ground arith

-- The table `t` holds what `before` held, and the request `id`.
record IsKept (before : Table) (id : ℕ) (t : Table) : Type 0 where
  valid : IsValid t
  counted : t.active_count ≡ before.active_count + 1
  others : (j : ℕ) → j ≢ id → find t j ≡ find before j
  own : is_none (find t id) ≡ false

module _ (before : Table) (id : ℕ) where
  stamp-IsKept :
      (t : Table) (s n : ℕ)
      → IsKept before id t
      → IsKept before id (record t { entries = update_found (restamp s n) id t.entries })
  stamp-IsKept t s n k =
      let v : IsValid t = k.valid in
      record {
        valid = record {
          slots = omega (arith, length-update_found (restamp s n) id t.entries, v.slots);
          some_room = v.some_room;
          few = v.few;
          counted = omega (arith, count-restamp s n id t.entries, v.counted);
          within = v.within;
          distinct = restamp-Distinct s n id t.entries v.distinct;
        };
        counted = k.counted;
        others = λ j ne. ground (arith, find-restamp t s n id j, k.others j ne);
        own = ground (arith, find-restamp t s n id id, k.own);
      }

  begin-IsKept :
      (domain opcode sequence started timeout boot : ℕ)
      → IsValid before
      → (begin before domain opcode id sequence started timeout boot).0 ≡ ok
      → (find before id ≡ none)
        × IsKept before id (begin before domain opcode id sequence started timeout boot).1
  begin-IsKept domain opcode sequence started timeout boot v e =
      let rule = begin_iff before domain opcode id sequence started timeout boot v in
      let admissible = rule.0.0 e in
      (
        admissible.3,
        record {
          valid = rule.1;
          counted =
              begin_counts before domain opcode id sequence started timeout boot
                (omega (arith, admissible.2, v.few)) e;
          others = λ j ne.
              ground
                (arith, find-begin before domain opcode id sequence started timeout boot j v e);
          own =
              ground
                (arith, find-begin before domain opcode id sequence started timeout boot id v e);
        },
      )

  complete-kept :
      (t : Table) (j : ℕ)
      → find before id ≡ none
      → IsKept before id t
      → IsValid (complete t id).1
        × ((complete t id).1.active_count ≡ before.active_count)
        × (find (complete t id).1 j ≡ find before j)
  complete-kept t j fresh k =
      let (found, rest, count, valid) = find-complete t id j k.valid in
      (valid, ground (arith, k.counted, k.own), ground (arith, k.others j))

module _ {W : Type 0} (env : Env W) (call : Call) (id : ℕ) (before : Table) where
  transmit-IsKept :
      (c : Client) (w : W) (x : ProxyResult × Option (List ℕ) × Option ℕ)
      → IsKept before id c.inflight
      → IsKept before id (transmit env call id c w x).1.inflight
  unfolding transmit
  transmit-IsKept c w (ok, some frame, some size) k =
      subst (IsKept before id) (sym (judge-inflight call id _ _)) k
  transmit-IsKept c w (ok, some frame, none) k = k
  transmit-IsKept c w (ok, none, size) k = k
  transmit-IsKept c w (_, frame, size) k = k

  round-IsKept :
      (attempt sequence : ℕ) (c : Client) (w : W)
      → IsKept before id c.inflight
      → IsKept before id (round env call id attempt sequence c w).1.inflight
  round-IsKept attempt sequence c w k =
      round_rule env call id (λ c w. IsKept before id c.inflight)
        (λ x. IsKept before id x.1.inflight) (λ c w k. k) (λ c w x k. transmit-IsKept c w x k)
        (λ c w k. k) (λ c w s n k. stamp-IsKept before id c.inflight s n k) (λ c w s k. k) attempt
        sequence c w k

  pause-IsKept :
      (attempt after : ℕ) (c : Client) (w : W)
      → IsKept before id c.inflight
      → IsKept before id (pause env call id attempt after c w).0.inflight
  unfolding pause
  pause-IsKept attempt after c w k = k

  rounds-IsKept :
      (sequence limit left attempt : ℕ) (r : RetVal) (c : Client) (w : W)
      → IsKept before id c.inflight
      → IsKept before id (rounds env call id sequence limit left attempt r c w).client.inflight
  rounds-IsKept sequence limit left attempt r c w k =
      rounds_rule env call id sequence limit (λ left r c w. IsKept before id c.inflight)
        (λ d. IsKept before id d.client.inflight) (λ left r c w k. k)
        (λ left attempt after r c w k. pause-IsKept attempt after c w k)
        (λ left attempt after old r again c w k e. round-IsKept attempt sequence c w k)
        (λ left attempt offset size old c w k e. round-IsKept attempt sequence c w k) left attempt r
        c w k

-- The table `t` finds what `before` finds.
pub record IsRestored (before : Table) (t : Table) : Type 0 where
  pub valid : IsValid t
  pub count : t.active_count ≡ before.active_count
  pub finds : (j : ℕ) → find t j ≡ find before j

module _ {W : Type 0} (env : Env W) (call : Call) where
  closed :
      (id sequence : ℕ) (before : Table) (c : Client) (w : W)
      → (find before id ≡ none) × IsKept before id c.inflight
      → (left : ℕ)
      → IsRestored before
          (close id (rounds env call id sequence left (suc left) 0 RetVal.fail c w)).client.inflight
  closed id sequence before c w (fresh, k) left =
      let t : Table =
        (rounds env call id sequence left (suc left) 0 RetVal.fail c w).client.inflight in
      let kept : IsKept before id t =
        rounds-IsKept env call id before sequence left (suc left) 0 RetVal.fail c w k in
      record {
        valid = (complete-kept before id t 0 fresh kept).0;
        count = (complete-kept before id t 0 fresh kept).1;
        finds = λ j. (complete-kept before id t j fresh kept).2;
      }

  entered-IsRestored :
      (id sequence : ℕ) (before : Table) (c : Client) (w : W) (x : ProxyResult × Table)
      → (x.0 ≡ ok → (find before id ≡ none) × IsKept before id x.1)
      → (x.0 ≢ ok → x.1 ≡ before)
      → IsValid before
      → IsRestored before (entered env call id sequence c w x).client.inflight
  unfolding entered
  entered-IsRestored id sequence before c w (ok, t) good bad v =
      closed id sequence before _ w (good refl) _
  entered-IsRestored id sequence before c w (_, t) good bad v =
      subst (IsRestored before) (sym (bad (λ e. cc)))
        (record { valid = v; count = refl; finds = λ j. refl })

-- Given a valid table, whatever a request comes to, its entry is gone from the table when it returns: every id finds
-- what it found before, and the count is the same. So no request leaks a slot.
pub request-IsRestored :
    {W : Type 0} (env : Env W) (call : Call) (c : Client) (w : W)
    → IsValid c.inflight
    → IsRestored c.inflight (request env call c w).client.inflight
request-IsRestored env call c w v =
    let same : IsRestored c.inflight c.inflight = record {
      valid = v;
      count = refl;
      finds = λ j. refl;
    } in
    request_rule env call c w (λ d. IsRestored c.inflight d.client.inflight) same same
      (unfold open_request in
        entered-IsRestored env call _ _ c.inflight _ _ _
          (λ e. begin-IsKept c.inflight _ _ _ _ _ _ _ v e) (begin_keeps c.inflight _ _ _ _ _ _ _) v)
