-- ===== src/Session/Ids.antt =====
-- Correlation ids and sequence numbers.
use robusto.Prelude.{ℕ, zero, suc, ◌+◌, ◌-◌, ◌%◌, ◌^◌, ◌<◌, ◌≡◌, ◌≢◌, arith}
use robusto.Protocol.{Profile}
use robusto.Session.{Session, nonzero_u32, next_id, init, take_correlation_id}

-- What a session can hold: 32-bit ids that are never 0.
pub record HasIds (s : Session) : Type 0 where
  pub correlation_nonzero : s.next_correlation_id ≢ 0
  pub correlation_fits : s.next_correlation_id < 2 ^ 32
  pub sequence_nonzero : s.next_sequence ≢ 0
  pub sequence_fits : s.next_sequence < 2 ^ 32

-- A session starts with ids that are not 0, whatever the seeds.
pub init-HasIds :
    (p : Profile) (boot correlation_seed sequence_seed : ℕ)
    → correlation_seed < 2 ^ 32
    → sequence_seed < 2 ^ 32
    → HasIds (init p boot correlation_seed sequence_seed)
unfolding init nonzero_u32
init-HasIds p boot c s hc hs = ground arith

next_id_lem : (n : ℕ) → n < 2 ^ 32 → (next_id n ≢ 0) × (next_id n < 2 ^ 32)
unfolding next_id
next_id_lem n h = ground arith

-- The ids that `count` calls of `robusto_proxy_session_take_correlation_id` leave to be given out.
unfoldable pub after_takes : ℕ → Session → Session
after_takes zero s = s
after_takes (suc n) s = after_takes n (take_correlation_id s).1

take-HasIds : (s : Session) → HasIds s → HasIds (take_correlation_id s).1
unfolding take_correlation_id
take-HasIds s v = ground (arith, next_id_lem s.next_correlation_id v.correlation_fits)

pub after_takes-HasIds : (n : ℕ) (s : Session) → HasIds s → HasIds (after_takes n s)
unfolding after_takes
after_takes-HasIds zero s v = v
after_takes-HasIds (suc n) s v = after_takes-HasIds n (take_correlation_id s).1 (take-HasIds s v)

-- The position of an id in the cycle 1, 2, … 2 ^ 32 - 1.
take_moves :
    (s : Session)
    → HasIds s
    → (take_correlation_id s).1.next_correlation_id ≡ s.next_correlation_id % (2 ^ 32 - 1) + 1
unfolding take_correlation_id next_id
take_moves s v = ground arith

-- The id that is given out after `n` calls of `robusto_proxy_session_take_correlation_id`: the ids
-- run through 1, 2, … 2 ^ 32 - 1 and round again, without 0.
pub after_takes-id :
    (n : ℕ) (s : Session)
    → HasIds s
    → (after_takes n s).next_correlation_id ≡ (s.next_correlation_id - 1 + n) % (2 ^ 32 - 1) + 1
unfolding after_takes
after_takes-id zero s v = omega (arith, v.correlation_fits, v.correlation_nonzero)
after_takes-id (suc n) s v = omega (
  arith,
  after_takes-id n (take_correlation_id s).1 (take-HasIds s v),
  take_moves s v,
  v.correlation_nonzero,
)

-- Two calls fewer than 2 ^ 32 - 1 apart give out different ids, also where the counter wraps.
pub take_correlation_id_distinct :
    (s : Session) (i j : ℕ)
    → HasIds s
    → i < j
    → j < i + (2 ^ 32 - 1)
    → (take_correlation_id (after_takes i s)).0 ≢ (take_correlation_id (after_takes j s)).0
unfolding take_correlation_id
take_correlation_id_distinct s i j v lt near e =
    omega (arith, e, after_takes-id i s v, after_takes-id j s v)
