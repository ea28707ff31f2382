-- ===== src/Proxy/Permits.antt =====
-- The slots and the permits over all rounds of `chat` in keyhub/llm/proxy.py.
use key_hub.Common.{
  ℕ, suc, ◌+◌, ◌≡◌, refl, ap, ◌∙◌, String, false, none, some, List, [], ◌∷◌, arith, if◌then◌else◌,
}
use mathlib.Core.Path.{subst}
use key_hub.Balancer.State.{Balancer}
use key_hub.Balancer.Slots.{slots}
use key_hub.Providers.{ProviderConfig}
use key_hub.Json.{Value, Fields, end}
use key_hub.Proxy.Request.{Call, call_body}
use key_hub.Proxy.World.{Env, World, Try, Progress, Step, again, finished, stopped, crashed}
use key_hub.Proxy.Attempt.{attempt}
use key_hub.Proxy.Chat.{Ended, ended, after, rounds, forward, returned}
use key_hub.Proxy.Keeps.{tried, Kept, Keeps, attempt-Keeps}

module _ (env : Env) where
  -- Rounds on end: what one leaves is what the next begins with.
  Kept_trans :
      (b0 : Balancer) (n q : ℕ) (p p' p'' : Progress) (w w' : World)
      → ((j : String) → slots w.balancer j ≡ slots b0 j)
      → q + tried p ≡ n + tried p'
      → Kept w.balancer q p' w' p''
      → Kept b0 n p w' p''
  Kept_trans b0 n q p p' p'' w w' same counts (same', (r, permits, counts')) =
      (λ j. same' j ∙ same j, (r, permits, omega arith))

  abbrev pub AnswerKept : Balancer → ℕ → Progress → Ended → Type 0
  AnswerKept b0 n p (ended w (some p') r) = Kept b0 n p w p'
  AnswerKept b0 n p (ended w none r) = Unit

  after-AnswerKept :
      (b0 : Balancer) (n : ℕ) (p : Progress) (step : Step) (next : World → Progress → Ended)
      → Keeps b0 n p step
      → ((w : World) (p' : Progress) (q : ℕ)
          → w.permits ≡ some q
          → AnswerKept w.balancer q p' (next w p'))
      → AnswerKept b0 n p (after env step next)
  after-AnswerKept b0 n p (again w p') next (same, (q, permits, counts)) h =
      elim (next w p') as (λ (e : Ended). AnswerKept w.balancer q p' e → AnswerKept b0 n p e) [
        | ended w' (some p'') r ↦ λ kept. Kept_trans b0 n q p p' p'' w w' same counts kept
        | ended w' none r ↦ λ kept. tt
      ]
        (h w p' q permits)
  after-AnswerKept b0 n p (finished w p' v) next kept h = kept
  after-AnswerKept b0 n p (stopped w message) next kept h = tt
  after-AnswerKept b0 n p (crashed w) next kept h = tt

  rounds-AnswerKept :
      (ts : List Try) (n k : ℕ) (c : Call) (body : Fields) (w : World) (p : Progress)
      → w.permits ≡ some n
      → AnswerKept w.balancer n p (rounds env c body k ts w p)
  unfolding rounds
  rounds-AnswerKept [] n k c body w p permits = tt
  rounds-AnswerKept (t ∷ ts) n k c body w p permits =
      after-AnswerKept w.balancer n p (attempt env c w p k t body)
        (λ w' p'. rounds env c body (suc k) ts w' p') (attempt-Keeps env n k c w p t body permits)
        (λ w' p' q e. rounds-AnswerKept ts q (suc k) c body w' p' e)

  counted :
      (b0 : Balancer) (n : ℕ) (p p' : Progress) (w : World)
      → p.fallback_tried ≡ false
      → Kept b0 n p w p'
      → ((j : String) → slots w.balancer j ≡ slots b0 j)
        × (w.permits ≡ some (if p'.fallback_tried then n + 1 else n))
  counted b0 n p p' w not_yet (same, (q, permits, counts)) =
      (same, permits ∙ ap some (ground (arith, not_yet, counts)))

  -- With a limit on concurrent calls, rounds that come to an answer leave every key with the slots in
  -- flight that it had; and they leave the semaphore's permits as they were, but for one permit too
  -- many where the call fell back to another provider.
  pub rounds-permits :
      (ts : List Try) (n : ℕ) (c : Call) (cfg : ProviderConfig) (w w' : World) (p' : Progress)
      (v : Value)
      → w.permits ≡ some n
      → forward env c cfg w ts ≡ ended w' (some p') (returned v)
      → ((j : String) → slots w'.balancer j ≡ slots w.balancer j)
        × (w'.permits ≡ some (if p'.fallback_tried then n + 1 else n))
  unfolding forward
  rounds-permits ts n c cfg w w' p' v permits e =
      let p : Progress = record {
        current_provider = c.provider;
        current_cfg = cfg;
        last_error = none;
        fallback_tried = false;
      } in
      counted w.balancer n p p' w' refl (
        subst (AnswerKept w.balancer n p) e
          (rounds-AnswerKept ts n 0 c (call_body c end) w p permits))
