-- ===== src/Client/Success.antt =====
-- What a request that succeeds has received.
use robusto.Prelude.{ℕ, ◌≡◌, ◌≢◌, ◌⊎◌, refl, subst, Option, none, some, List, inl, inr}
use robusto.Protocol.{ProxyResult, ok}
use robusto.Session.{take_correlation_id}
use robusto.Inflight.{Table}
use robusto.RetVal.{RetVal}
use robusto.Client.{Env, Client, Reply}
use robusto.Client.Judge.{Call, Verdict, answered, failed, judge}
use robusto.Client.Request.{Round, transmit, round, Done, rounds, entered, open_request, request}
use robusto.Client.Replies.{IsSuccess, judge-answered, judge-failed}
use robusto.Client.Loop.{rounds_rule, round_rule, request_rule}

-- A verdict that is borne out by the response frame.
abbrev IsBorneOut : Call → ℕ → List ℕ → Verdict → Type 0
IsBorneOut call id frame (answered offset size) = IsSuccess call id frame offset size
IsBorneOut call id frame (failed r again after) = r ≢ RetVal.ok

-- A result that is borne out by the response frame and the payload.
abbrev IsSound : {W : Type 0} → Call → ℕ → Done W → Type 0
IsSound call id d =
    (d.result ≢ RetVal.ok)
    ⊎ ((offset : ℕ) × (size : ℕ) × (d.payload ≡ some (offset, size))
        × IsSuccess call id d.client.response_frame offset size)

judge-IsBorneOut :
    (call : Call) (id : ℕ) (c : Client) (reply : Reply) (v : Verdict)
    → (judge call id c reply).0 ≡ v
    → IsBorneOut call id (judge call id c reply).1.response_frame v
judge-IsBorneOut call id c reply (answered offset size) e =
    judge-answered call id c reply offset size e
judge-IsBorneOut call id c reply (failed r again after) e =
    judge-failed call id c reply r again after e

module _ {W : Type 0} (env : Env W) (call : Call) (id : ℕ) where
  abbrev RoundIsBorneOut : Round W → Type 0
  RoundIsBorneOut x = IsBorneOut call id x.1.response_frame x.0

  transmit-IsBorneOut :
      (c : Client) (w : W) (x : ProxyResult × Option (List ℕ) × Option ℕ)
      → RoundIsBorneOut (transmit env call id c w x)
  unfolding transmit
  transmit-IsBorneOut c w (ok, some frame, some size) = judge-IsBorneOut call id _ _ _ refl
  transmit-IsBorneOut c w (ok, some frame, none) = cc
  transmit-IsBorneOut c w (ok, none, size) = cc
  transmit-IsBorneOut c w (_, frame, size) = cc

  round-IsBorneOut :
      (attempt sequence : ℕ) (c : Client) (w : W)
      → RoundIsBorneOut (round env call id attempt sequence c w)
  round-IsBorneOut attempt sequence c w =
      round_rule env call id (λ c w. Unit) RoundIsBorneOut (λ c w k. (λ e. cc))
        (λ c w x k. transmit-IsBorneOut c w x) (λ c w k. tt) (λ c w s n k. tt) (λ c w s k. tt)
        attempt sequence c w tt

  rounds-IsSound :
      (sequence limit left attempt : ℕ) (r : RetVal) (c : Client) (w : W)
      → r ≢ RetVal.ok
      → IsSound call id (rounds env call id sequence limit left attempt r c w)
  rounds-IsSound sequence limit left attempt r c w bad =
      rounds_rule env call id sequence limit (λ left r c w. r ≢ RetVal.ok) (λ d. IsSound call id d)
        (λ left r c w bad. inl bad) (λ left attempt after r c w bad. bad)
        (λ left attempt after old r again c w bad e.
          subst (IsBorneOut call id _) e (round-IsBorneOut attempt sequence c w))
        (λ left attempt offset size old c w bad e. inr (
          offset,
          size,
          refl,
          subst (IsBorneOut call id _) e (round-IsBorneOut attempt sequence c w),
        ))
        left attempt r c w bad

  entered-IsSound :
      (sequence : ℕ) (c : Client) (w : W) (x : ProxyResult × Table)
      → IsSound call id (entered env call id sequence c w x)
  unfolding entered
  entered-IsSound sequence c w (ok, t) = rounds-IsSound sequence _ _ 0 RetVal.fail _ w (λ e. cc)
  entered-IsSound sequence c w (_, t) = inl (λ e. cc)

-- A request reports success only if, in its response frame, the client holds an intact response to
-- just this request, whose status is OK. The payload that it hands out lies inside that frame, from
-- the end of the prefix and its detail to the CRC.
pub request-ok :
    {W : Type 0} (env : Env W) (call : Call) (c : Client) (w : W)
    → (request env call c w).result ≡ RetVal.ok
    → (offset : ℕ) × (size : ℕ) × ((request env call c w).payload ≡ some (offset, size))
      × IsSuccess call c.session.next_correlation_id
          (request env call c w).client.response_frame
          offset
          size
request-ok env call c w e = elim sound [ inl bad ↦ absurd (bad e) | inr good ↦ good ]
  where
    sound : IsSound call c.session.next_correlation_id (request env call c w)
    sound =
        request_rule env call c w (λ d. IsSound call c.session.next_correlation_id d)
          (inl (λ e. cc)) (inl (λ e. cc))
          (unfold open_request take_correlation_id in entered-IsSound env call _ _ _ _ _)
