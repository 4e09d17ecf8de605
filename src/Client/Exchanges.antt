-- ===== src/Client/Exchanges.antt =====
-- How often a request uses the transport.
use robusto.Prelude.{ℕ, suc, ◌+◌, ◌≤◌, Option, none, some, List, arith, if◌then◌else◌}
use robusto.Protocol.{ProxyResult, ok}
use robusto.Inflight.{Table}
use robusto.RetVal.{RetVal}
use robusto.Client.{Env, Client, maximum_retries, is_hello, retry_delay_ms}
use robusto.Client.Judge.{Call}
use robusto.Client.Request.{transmit, round, pause, rounds, entered, open_request, request}
use robusto.Client.Loop.{rounds_rule, round_rule, request_rule}

-- The same surroundings, with the exchanges counted in front of their state.
abbrev pub counting : {W : Type 0} → Env W → Env (ℕ × W)
counting env = record {
  exchange = λ request response capacity timeout s.
      let (reply, w) = env.exchange request response capacity timeout s.1 in (reply, (suc s.0, w));
  now_ms = λ s. let (now, w) = env.now_ms s.1 in (now, (s.0, w));
  wait_ms = λ delay s. (s.0, env.wait_ms delay s.1);
  retry_jitter_ms =
      λ bound s. let (jitter, w) = env.retry_jitter_ms bound s.1 in (jitter, (s.0, w));
}

module _ {W : Type 0} (env : Env W) (call : Call) (id : ℕ) where
  transmit_once :
      (n : ℕ) (c : Client) (s : ℕ × W) (x : ProxyResult × Option (List ℕ) × Option ℕ)
      → s.0 ≤ n
      → (transmit (counting env) call id c s x).2.0 ≤ suc n
  unfolding transmit
  transmit_once n c s (ok, some frame, some size) h = omega arith
  transmit_once n c s (ok, some frame, none) h = omega arith
  transmit_once n c s (ok, none, size) h = omega arith
  transmit_once n c s (_, frame, size) h = omega arith

  round_once :
      (n attempt sequence : ℕ) (c : Client) (s : ℕ × W)
      → s.0 ≤ n
      → (round (counting env) call id attempt sequence c s).2.0 ≤ suc n
  round_once n attempt sequence c s h =
      round_rule (counting env) call id (λ c s. s.0 ≤ n) (λ x. x.2.0 ≤ suc n) (λ c s k. omega arith)
        (λ c s x k. transmit_once n c s x k) (λ c s k. k) (λ c s q n k. k) (λ c s q k. k) attempt
        sequence c s h

  pause_none :
      (n attempt after : ℕ) (c : Client) (s : ℕ × W)
      → s.0 ≤ n
      → (pause (counting env) call id attempt after c s).1.0 ≤ n
  unfolding pause retry_delay_ms
  pause_none n attempt after c s h = h

  rounds_bounded :
      (n sequence limit left attempt : ℕ) (r : RetVal) (c : Client) (s : ℕ × W)
      → s.0 + left ≤ n
      → (rounds (counting env) call id sequence limit left attempt r c s).world.0 ≤ n
  rounds_bounded n sequence limit left attempt r c s h =
      rounds_rule (counting env) call id sequence limit (λ left r c s. s.0 + left ≤ n)
        (λ d. d.world.0 ≤ n) (λ left r c s k. omega arith)
        (λ left attempt after r c s k.
          omega (arith, pause_none s.0 attempt after c s (omega arith)))
        (λ left attempt after old r again c s k e.
          omega (arith, round_once s.0 attempt sequence c s (omega arith)))
        (λ left attempt offset size old c s k e.
          omega (arith, round_once s.0 attempt sequence c s (omega arith)))
        left attempt r c s h

  entered_bounded :
      (n sequence : ℕ) (c : Client) (w : W) (x : ProxyResult × Table)
      → suc (maximum_retries call.domain call.opcode call.mutation) ≤ n
      → (entered (counting env) call id sequence c (0, w) x).world.0 ≤ n
  unfolding entered
  entered_bounded n sequence c w (ok, t) h =
      rounds_bounded n sequence _ _ 0 RetVal.fail _ (0, w) (omega arith)
  entered_bounded n sequence c w (_, t) h = omega arith

abbrev pub allowed_exchanges : Call → ℕ
allowed_exchanges call =
    if call.mutation then 1 else if is_hello call.domain call.opcode then 5 else 2

allowed_exchanges_lem :
    (call : Call)
    → suc (maximum_retries call.domain call.opcode call.mutation) ≤ allowed_exchanges call
unfolding maximum_retries
allowed_exchanges_lem call = ground arith

-- A request uses the transport at most once for a mutation, else at most five times for HELLO and at
-- most twice for any other query, whatever the transport answers.
pub request_bounded :
    {W : Type 0} (env : Env W) (call : Call) (c : Client) (w : W)
    → (request (counting env) call c (0, w)).world.0 ≤ allowed_exchanges call
request_bounded env call c w =
    request_rule (counting env) call c (0, w) (λ d. d.world.0 ≤ allowed_exchanges call)
      (omega arith) (omega arith)
      (unfold open_request in
        entered_bounded env call _ (allowed_exchanges call) _ _ _ _ (allowed_exchanges_lem call))
