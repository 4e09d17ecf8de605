-- ===== src/Inflight/History.antt =====
-- Any history of calls on one table.
use robusto.Prelude.{ℕ, List, [], ◌∷◌}
use robusto.Inflight.{Table, init, begin, complete, expire, invalidate_peer}
use robusto.Inflight.Invariant.{
  IsValid, init-IsValid, begin-IsValid, complete-IsValid, expire_lem, invalidate_peer_lem,
}

pub data Call : Type 0 where
  begins : (domain opcode id sequence started timeout boot : ℕ) → Call
  completes : (id : ℕ) → Call
  expires : (now : ℕ) → Call
  invalidates : (boot : ℕ) → Call

unfoldable pub step : Table → Call → Table
step t (begins domain opcode id sequence started timeout boot) =
    (begin t domain opcode id sequence started timeout boot).1
step t (completes id) = (complete t id).1
step t (expires now) = (expire t now).1
step t (invalidates boot) = (invalidate_peer t boot).1

unfoldable pub run : Table → List Call → Table
run t [] = t
run t (c ∷ cs) = run (step t c) cs

step-IsValid : (t : Table) (c : Call) → IsValid t → IsValid (step t c)
unfolding step
step-IsValid t (begins domain opcode id sequence started timeout boot) v =
    begin-IsValid t domain opcode id sequence started timeout boot v
step-IsValid t (completes id) v = complete-IsValid t id v
step-IsValid t (expires now) v = (expire_lem t now 0 v).2
step-IsValid t (invalidates boot) v = (invalidate_peer_lem t boot 0 v).2

run-IsValid : (t : Table) (cs : List Call) → IsValid t → IsValid (run t cs)
unfolding run
run-IsValid t [] v = v
run-IsValid t (c ∷ cs) v = run-IsValid (step t c) cs (step-IsValid t c v)

-- After any calls on a new table, in any order, the table is valid: the count is the number of
-- active slots and never above the capacity, and no id is in use twice.
pub run-init-IsValid : (negotiated : ℕ) (cs : List Call) → IsValid (run (init negotiated) cs)
run-init-IsValid negotiated cs = run-IsValid (init negotiated) cs (init-IsValid negotiated).0
