-- ===== src/Client/Loop.antt =====
-- What holds of every round of a request holds of the request.
use robusto.Prelude.{
  ℕ, zero, suc, ◌≡◌, ◌⊎◌, refl, Bool, false, Option, some, Bool-cases, Option-cases, inl, inr, List,
  ◌==◌,
}
use robusto.RetVal.{RetVal}
use robusto.Protocol.{ProxyResult}
use robusto.Session.{Session}
use robusto.Inflight.{update_found, find}
use robusto.Client.{Env, Client}
use robusto.Client.Judge.{Call, Verdict, answered, failed}
use robusto.Client.Request.{
  Round, round, stamped_round, found_round, send_round, transmit, restamp, pause, may_retry, Done,
  done, rounds, refuses_arguments, refuses_session, open_request, request,
}

pub Verdict-cases :
    (v : Verdict)
    → ((offset : ℕ) × (size : ℕ) × (v ≡ answered offset size))
      ⊎ ((r : RetVal) × (again : Bool) × (after : ℕ) × (v ≡ failed r again after))
Verdict-cases (answered offset size) = inl (offset, size, refl)
Verdict-cases (failed r again after) = inr (r, again, after, refl)

-- The rule of the loop: `I` holds before every round, with the number of rounds that are left, and
-- `Q` of what the loop leaves.
module _ {W : Type 0} (env : Env W) (call : Call) (id sequence limit : ℕ)
    (I : ℕ → RetVal → Client → W → Type 0) (Q : Done W → Type 0)
    (stops : (left : ℕ) (r : RetVal) (c : Client) (w : W) → I left r c w → Q (done r c w))
    (pauses : (left attempt after : ℕ) (r : RetVal) (c : Client) (w : W)
      → I left r c w
      → I left r (pause env call id attempt after c w).0 (pause env call id attempt after c w).1)
    (fails : (left attempt after : ℕ) (old r : RetVal) (again : Bool) (c : Client) (w : W)
      → I (suc left) old c w
      → (round env call id attempt sequence c w).0 ≡ failed r again after
      → I left r
          (round env call id attempt sequence c w).1
          (round env call id attempt sequence c w).2)
    (succeeds : (left attempt offset size : ℕ) (old : RetVal) (c : Client) (w : W)
      → I (suc left) old c w
      → (round env call id attempt sequence c w).0 ≡ answered offset size
      → Q (record {
        result = RetVal.ok;
        payload = some (offset, size);
        client = (round env call id attempt sequence c w).1;
        world = (round env call id attempt sequence c w).2;
      })) where
  pub rounds_rule :
      (left attempt : ℕ) (r : RetVal) (c : Client) (w : W)
      → I left r c w
      → Q (rounds env call id sequence limit left attempt r c w)
  unfolding rounds
  rounds_rule zero attempt r c w i = stops 0 r c w i
  rounds_rule (suc left) attempt r c w i =
      elim (Verdict-cases (round env call id attempt sequence c w).0) [
        | inl (offset, size, e) ↦ rw (rounds, e) (succeeds left attempt offset size r c w i e)
        | inr (r', again, after, e) ↦
            let i' : I left r' (round env call id attempt sequence c w).1
                (round env call id attempt sequence c w).2 =
              fails left attempt after r r' again c w i e in
            elim (Bool-cases (may_retry call again attempt limit)) [
              | inl retry ↦
                  rw (rounds, e)
                    (rw retry
                      (rounds_rule left (suc attempt) r' _ _ (pauses left attempt after r' _ _ i')))
              | inr last ↦ rw (rounds, e) (rw last (stops left r' _ _ i'))
            ]
      ]

-- The rule of a round: `K` holds up to the exchange, and `P` of what the round leaves.
module _ {W : Type 0} (env : Env W) (call : Call) (id : ℕ) (K : Client → W → Type 0)
    (P : Round W → Type 0)
    (misses : (c : Client) (w : W) → K c w → P (failed RetVal.fail false 0, c, w))
    (sends : (c : Client) (w : W) (x : ProxyResult × Option (List ℕ) × Option ℕ)
      → K c w
      → P (transmit env call id c w x))
    (clocks : (c : Client) (w : W) → K c w → K c (env.now_ms w).1)
    (stamps : (c : Client) (w : W) (sequence now : ℕ)
      → K c w
      → K
          (record c {
            inflight = record c.inflight {
              entries = update_found (restamp sequence now) id c.inflight.entries;
            };
          })
          w)
    (numbers : (c : Client) (w : W) (s : Session) → K c w → K (record c { session = s }) w) where
  stamped_rule :
      (flags sequence : ℕ) (c : Client) (w : W)
      → K c w
      → P (stamped_round env call id flags sequence c w)
  unfolding stamped_round
  stamped_rule flags sequence c w k = elim (Option-cases (find c.inflight id)) [
    | inl n ↦ rw (stamped_round, n) (unfold found_round in misses c _ (clocks c w k))
    | inr (e, f) ↦
        rw (stamped_round, f)
          (unfold found_round send_round in sends _ _ _ (stamps c _ sequence _ (clocks c w k)))
  ]

  pub round_rule :
      (attempt sequence : ℕ) (c : Client) (w : W)
      → K c w
      → P (round env call id attempt sequence c w)
  unfolding round
  round_rule attempt sequence c w k = elim (Bool-cases (attempt == 0)) [
    | inl first ↦ rw (round, first) (stamped_rule _ _ c w k)
    | inr later ↦ rw (round, later) (stamped_rule _ _ _ w (numbers c w _ k))
  ]

-- The rule of a request: it is refused, or goes past the checks.
module _ {W : Type 0} (env : Env W) (call : Call) (c : Client) (w : W) (Q : Done W → Type 0)
    (invalid : Q (done RetVal.invalid_arg c w)) (early : Q (done RetVal.not_ready c w))
    (opens : Q (open_request env call c w)) where
  pub request_rule : Q (request env call c w)
  unfolding request
  request_rule = elim (Bool-cases (refuses_arguments call)) [
    | inl bad ↦ rw (request, bad) invalid
    | inr good ↦ elim (Bool-cases (refuses_session call c)) [
      | inl shut ↦ rw (request, good, shut) early
      | inr ready ↦ rw (request, good, ready) opens
    ]
  ]
