-- ===== src/Inflight/Tests.antt =====
-- A table in use, and the theorems applied to it.
use robusto.Prelude.{
  ◌≡◌, ◌↔◌, ◌⊎◌, refl, not, none, some, List, [], ◌∷◌, is_none, ◌==◌, if◌then◌else◌, ◌+◌, arith,
}
use robusto.Protocol.{ok, bad_reserved, bad_length}
use robusto.Inflight.{
  Table, init, begin, find, lookup, claim, complete, expire, is_expired, invalidate_peer, count,
  sweep, active,
}
use robusto.Inflight.Slots.{unless}
use robusto.Inflight.Invariant.{
  IsValid, IsAdmissible, new_entry, after_begin, init-IsValid, begin_iff, find-begin, find-complete,
}
use robusto.Inflight.Sweeps.{IsExpiry, find-expire, find-invalidate_peer}
use robusto.Inflight.History.{Call, begins, completes, run, step, run-init-IsValid}

-- Requests 5 and 6 of a table that admits two.
abbrev calls : List Call
calls = begins 0 1 5 1 100 50 77 ∷ begins 0 3 6 2 120 50 77 ∷ []

abbrev busy : Table
busy = run (init 2) calls

busy_full : after_begin busy 0 3 7 3 130 50 77 ≡ (bad_length, busy)
unfolding run step begin find lookup claim init
busy_full = refl

duplicate_refused :
    after_begin (run (init 3) calls) 0 3 6 3 130 50 77 ≡ (bad_reserved, run (init 3) calls)
unfolding run step begin find lookup claim init
duplicate_refused = refl

-- At 155 only the request that started at 100 has timed out.
busy_expired : (expire busy 155).0 ≡ 1
unfolding run step begin find lookup claim init expire count is_expired sweep
busy_expired = refl

busy-IsValid : IsValid busy
busy-IsValid = run-init-IsValid 2 calls

run-init-IsValid_example : IsValid (run (init 2) (begins 0 1 5 1 100 50 77 ∷ completes 5 ∷ []))
run-init-IsValid_example = run-init-IsValid 2 (begins 0 1 5 1 100 50 77 ∷ completes 5 ∷ [])

begin_iff_example :
    (((after_begin busy 0 3 7 3 130 50 77).0 ≡ ok) ↔ IsAdmissible busy 0 3 7 3 130 50 77)
    × IsValid (after_begin busy 0 3 7 3 130 50 77).1
    × (((after_begin busy 0 3 7 3 130 50 77).0 ≡ ok)
        ⊎ ((after_begin busy 0 3 7 3 130 50 77).1 ≡ busy))
begin_iff_example = begin_iff busy 0 3 7 3 130 50 77 busy-IsValid

find-begin_example :
    find (after_begin (init 2) 0 1 5 1 100 50 77).1 5
    ≡ (if 5 == 5 then some (new_entry (init 2) 0 1 5 1 100 50 77) else find (init 2) 5)
unfolding begin find lookup claim init
find-begin_example = find-begin (init 2) 0 1 5 1 100 50 77 5 (init-IsValid 2).0 refl

find-complete_example :
    ((complete busy 5).0 ≡ not (is_none (find busy 5)))
    × (find (complete busy 5).1 6 ≡ (if 5 == 6 then none else find busy 6))
    × ((complete busy 5).1.active_count + (if (complete busy 5).0 then 1 else 0)
        ≡ busy.active_count)
    × IsValid (complete busy 5).1
find-complete_example = find-complete busy 5 6 busy-IsValid

busy_found :
    find busy 5
    ≡ some (record {
      status = active;
      domain = 0;
      opcode = 1;
      correlation_id = 5;
      sequence = 1;
      started_at_ms = 100;
      timeout_ms = 50;
      peer_boot_id = 77;
    })
unfolding run step begin find lookup claim init
busy_found = refl

find-expire_example :
    IsExpiry 155 (find busy 5) (find (expire busy 155).1 5)
    × ((expire busy 155).1.active_count + (expire busy 155).0 ≡ busy.active_count)
    × IsValid (expire busy 155).1
find-expire_example =
    find-expire busy 155 5 busy-IsValid (omega arith) (λ e h. ground (arith, busy_found, h))

find-invalidate_peer_example :
    (find (invalidate_peer busy 77).1 5 ≡ unless (λ e. e.peer_boot_id == 77) (find busy 5))
    × ((invalidate_peer busy 77).1.active_count + (invalidate_peer busy 77).0 ≡ busy.active_count)
    × IsValid (invalidate_peer busy 77).1
find-invalidate_peer_example = find-invalidate_peer busy 77 5 busy-IsValid
