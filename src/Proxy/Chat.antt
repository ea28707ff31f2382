-- ===== src/Proxy/Chat.antt =====
-- keyhub/llm/proxy.py: `chat`, a call with its aliases, its cache and its rounds.
use key_hub.Common.{
  ℕ, suc, String, str_eq, true, false, Option, none, some, List, [], ◌∷◌, if◌then◌else◌, append,
}
use key_hub.Cache
use key_hub.Aliases.{resolve}
use key_hub.Providers.{ProviderConfig, get_provider}
use key_hub.Json.{Value, Fields, end}
use key_hub.Proxy.Request.{Call, call_body, friendly_error}
use key_hub.Proxy.World.{Env, World, Try, Progress, Step, again, finished, stopped, crashed}
use key_hub.Proxy.Attempt.{attempt}

-- The answer, the text of the `LLMProxyError`, or another exception.
pub data Result : Type 0 where
  returned : Value → Result
  raised : String → Result
  uncaught : Result

-- How the loop ended: the world, the loop's variables at an answer, and the result.
pub data Ended : Type 0 where
  ended : World → Option Progress → Result → Ended

abbrev pub world_of : Ended → World
world_of (ended w p r) = w

abbrev pub result_of : Ended → Result
result_of (ended w p r) = r

module _ (env : Env) where
  -- The exception after the last round.
  abbrev pub last_words : Progress → String
  last_words p = elim p.last_error [ some e ↦ friendly_error env.lower e | none ↦ "调用失败，原因未知" ]

  -- What follows a round.
  abbrev pub after : Step → (World → Progress → Ended) → Ended
  after (again w p) next = next w p
  after (finished w p v) next = ended w (some p) (returned v)
  after (stopped w message) next = ended w none (raised message)
  after (crashed w) next = ended w none uncaught

  -- The rounds from number `n` on, one for each `Try`: `max_retries` of them.
  unfoldable pub rounds : Call → Fields → ℕ → List Try → World → Progress → Ended
  rounds c body n [] w p = ended w none (raised (last_words p))
  rounds c body n (t ∷ ts) w p =
      after (attempt env c w p n t body) (λ w' p'. rounds c body (suc n) ts w' p')

  -- The call behind the cache.
  unfoldable pub forward : Call → ProviderConfig → World → List Try → Ended
  forward c cfg w tries = rounds c (call_body c end) 0 tries w (record {
    current_provider = c.provider;
    current_cfg = cfg;
    last_error = none;
    fallback_tried = false;
  })

  abbrev pub unknown_provider : String → String
  unknown_provider name = append "未知的供应商 '" (append name "'，请在控制台添加")

  abbrev pub no_base_url : String → String
  no_base_url name = append "provider '" (append name "' has no base_url configured")

  -- The lookup in the cache, at the time `now`.
  unfoldable pub through_cache : Call → ProviderConfig → World → ℕ → List Try → Ended
  through_cache c cfg w now tries =
      let (cache, found) =
        Cache.get Call env.make_key Value (record { store = w.cache }) c env.cache_ttl now in
      let w' = record w { cache = cache.store } in
      elim found [ some v ↦ ended w' none (returned v) | none ↦ forward c cfg w' tries ]

  -- `chat`
  unfoldable pub chat : Call → World → ℕ → List Try → Ended
  chat call w now tries =
      let (aliases, target) = resolve env.json true w.aliases call.provider call.model in
      let w' = record w { aliases = aliases } in
      let c = record call { provider = target.0; model = target.1 } in
      elim (get_provider c.provider) [
        | none ↦ ended w' none (raised (unknown_provider c.provider))
        | some cfg ↦
            if str_eq cfg.base_url ""
            then ended w' none (raised (no_base_url c.provider))
            else through_cache c cfg w' now tries
      ]
