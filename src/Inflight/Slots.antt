-- ===== src/Inflight/Slots.antt =====
-- The loops over the slots, seen through `lookup`, and their counts.
use robusto.Prelude.{
  ℕ, suc, ◌+◌, ◌<◌, ◌≡◌, ◌≢◌, refl, ap, Bool, true, false, not, Option, none, some, List, [], ◌∷◌,
  arith, ◌==◌, if◌then◌else◌, length, Bool-cases, Option-cases, inl, inr, ◌⊎◌,
}
use robusto.Inflight.{
  Status, free, active, completed, stale_session, Entry, is_active, is_claimable, matches, lookup,
  update_found, claim, finish, sweep, count,
}

-- The number of active slots.
abbrev pub active_in : Entry → Bool
active_in e = is_active e.status

-- Active slots have ids, none of them twice.
abbrev pub Distinct : List Entry → Type 0
Distinct [] = Unit
Distinct (e ∷ es) =
    (active_in e ≡ true → (e.correlation_id ≢ 0) × (lookup e.correlation_id es ≡ none))
    × Distinct es

-- Where `claim` puts the new entry: in this slot, or in a later one.
abbrev Claimed : Entry → Entry → List Entry → List Entry → Type 0
Claimed new e es es' =
    ((active_in e ≡ false) × (es' ≡ new ∷ es))
    ⊎ ((rest : List Entry) × (active_in e ≡ true) × (claim new es ≡ some rest) × (es' ≡ e ∷ rest))

claimable_or_active : (s : Status) → is_claimable s ≡ not (is_active s)
claimable_or_active free = refl
claimable_or_active active = refl
claimable_or_active completed = refl
claimable_or_active stale_session = refl

claim-Claimed :
    (new e : Entry) (es es' : List Entry) → claim new (e ∷ es) ≡ some es' → Claimed new e es es'
unfolding claim
claim-Claimed new e es es' h = elim (Bool-cases (active_in e)) [
  | inl a ↦ elim (Option-cases (claim new es)) [
    | inl n ↦ ground (arith, claimable_or_active e.status)
    | inr (rest, r) ↦ inr (rest, a, r, ground (arith, claimable_or_active e.status))
  ]
  | inr a ↦ inl (a, ground (arith, claimable_or_active e.status))
]

pub length-claim :
    (new : Entry) (es es' : List Entry) → claim new es ≡ some es' → length es' ≡ length es
unfolding claim
length-claim new [] es' h = cc
length-claim new (e ∷ es) es' h = elim (claim-Claimed new e es es' h) [
  | inl (a, p) ↦ rw p
  | inr (rest, a, r, p) ↦ rw p (ap suc (length-claim new es rest r))
]

pub count-claim :
    (new : Entry) (es es' : List Entry)
    → active_in new ≡ true
    → claim new es ≡ some es'
    → count active_in es' ≡ count active_in es + 1
unfolding claim count
count-claim new [] es' a h = cc
count-claim new (e ∷ es) es' a h = elim (claim-Claimed new e es es' h) [
  | inl (off, p) ↦ ground arith
  | inr (rest, on, r, p) ↦ ground (arith, count-claim new es rest a r)
]

-- With fewer active slots than slots, one can be claimed.
pub claim_total :
    (new : Entry) (es : List Entry)
    → count active_in es < length es
    → (es' : List Entry) × (claim new es ≡ some es')
unfolding claim count
claim_total new [] h = absurd (omega arith)
claim_total new (e ∷ es) h = elim (Bool-cases (active_in e)) [
  | inl on ↦
      let (rest, r) = claim_total new es (ground arith) in
      (e ∷ rest, ground (arith, claimable_or_active e.status))
  | inr off ↦ (new ∷ es, ground (arith, claimable_or_active e.status))
]

pub lookup-claim :
    (new : Entry) (es es' : List Entry) (j : ℕ)
    → active_in new ≡ true
    → claim new es ≡ some es'
    → lookup new.correlation_id es ≡ none
    → lookup j es' ≡ (if new.correlation_id == j then some new else lookup j es)
unfolding claim lookup
lookup-claim new [] es' j a h fresh = cc
lookup-claim new (e ∷ es) es' j a h fresh = elim (claim-Claimed new e es es' h) [
  | inl (off, p) ↦ ground arith
  | inr (rest, on, r, p) ↦ ground (arith, lookup-claim new es rest j a r)
]

pub claim-Distinct :
    (new : Entry) (es es' : List Entry)
    → active_in new ≡ true
    → new.correlation_id ≢ 0
    → claim new es ≡ some es'
    → lookup new.correlation_id es ≡ none
    → Distinct es
    → Distinct es'
unfolding claim lookup
claim-Distinct new [] es' a nz h fresh d = cc
claim-Distinct new (e ∷ es) es' a nz h fresh d = elim (claim-Claimed new e es es' h) [
  | inl (off, p) ↦ rw p ((λ _. (nz, ground arith)), d.1)
  | inr (rest, on, r, p) ↦
      let here : (e.correlation_id ≢ 0) × (lookup e.correlation_id es ≡ none) = d.0 on in
      let later : lookup new.correlation_id es ≡ none = ground arith in
      rw p (
        (λ _. (here.0, ground (arith, lookup-claim new es rest e.correlation_id a r later))),
        claim-Distinct new es rest a nz r later d.1,
      )
]

-- Updating the entry that an id finds.
pub length-update_found :
    (f : Entry → Entry) (k : ℕ) (es : List Entry) → length (update_found f k es) ≡ length es
unfolding update_found
length-update_found f k [] = refl
length-update_found f k (e ∷ es) = ground (arith, length-update_found f k es)

-- An id that is found, completed: it is found no more, and all others are as before.
pub lookup_complete :
    (s : Status) (k : ℕ) (es : List Entry) (j : ℕ)
    → is_active s ≡ false
    → Distinct es
    → lookup j (update_found (finish s) k es) ≡ (if k == j then none else lookup j es)
unfolding update_found lookup
lookup_complete s k [] j off d = ground arith
lookup_complete s k (e ∷ es) j off d = ground (arith, lookup_complete s k es j off d.1, d.0)

pub count_complete :
    (s : Status) (k : ℕ) (es : List Entry) (found : Entry)
    → is_active s ≡ false
    → lookup k es ≡ some found
    → count active_in (update_found (finish s) k es) + 1 ≡ count active_in es
unfolding update_found lookup count
count_complete s k [] found off h = cc
count_complete s k (e ∷ es) found off h = ground (arith, count_complete s k es found off)

pub complete-Distinct :
    (s : Status) (k : ℕ) (es : List Entry)
    → is_active s ≡ false
    → Distinct es
    → Distinct (update_found (finish s) k es)
unfolding update_found
complete-Distinct s k [] off d = tt
complete-Distinct s k (e ∷ es) off d = elim (Bool-cases (matches k e)) [
  | inl hit ↦ rw hit ((λ on. cc), d.1)
  | inr miss ↦ rw miss (
    (λ on.
        ((d.0 on).0, ground (arith, lookup_complete s k es e.correlation_id off d.1, (d.0 on).1))),
    complete-Distinct s k es off d.1,
  )
]

-- Sweeping the slots by a test.
pub length-sweep :
    (test : Entry → Bool) (s : Status) (es : List Entry) → length (sweep test s es) ≡ length es
unfolding sweep
length-sweep test s [] = refl
length-sweep test s (e ∷ es) = ap suc (length-sweep test s es)

abbrev pub unless : (Entry → Bool) → Option Entry → Option Entry
unless test none = none
unless test (some e) = if test e then none else some e

-- What passes the test is found no more, and all else is found as before.
pub lookup-sweep :
    (test : Entry → Bool) (s : Status) (es : List Entry) (j : ℕ)
    → is_active s ≡ false
    → Distinct es
    → lookup j (sweep test s es) ≡ unless test (lookup j es)
unfolding sweep lookup
lookup-sweep test s [] j off d = refl
lookup-sweep test s (e ∷ es) j off d = elim (Bool-cases (test e)) [
  | inl hit ↦ ground (arith, lookup-sweep test s es j off d.1, d.0)
  | inr miss ↦ ground (arith, lookup-sweep test s es j off d.1, d.0)
]

pub count-sweep :
    (test : Entry → Bool) (s : Status) (es : List Entry)
    → is_active s ≡ false
    → ((e : Entry) → test e ≡ true → active_in e ≡ true)
    → count active_in (sweep test s es) + count test es ≡ count active_in es
unfolding sweep count
count-sweep test s [] off only = refl
count-sweep test s (e ∷ es) off only = ground (arith, count-sweep test s es off only, only e)

pub sweep-Distinct :
    (test : Entry → Bool) (s : Status) (es : List Entry)
    → is_active s ≡ false
    → Distinct es
    → Distinct (sweep test s es)
unfolding sweep
sweep-Distinct test s [] off d = tt
sweep-Distinct test s (e ∷ es) off d = elim (Bool-cases (test e)) [
  | inl hit ↦ rw hit ((λ on. cc), sweep-Distinct test s es off d.1)
  | inr miss ↦ rw miss (
    (λ on.
        ((d.0 on).0, ground (arith, lookup-sweep test s es e.correlation_id off d.1, (d.0 on).1))),
    sweep-Distinct test s es off d.1,
  )
]
