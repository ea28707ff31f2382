-- ===== src/Proxy/Calls.antt =====
-- What a whole call in keyhub/llm/proxy.py sends and waits.
use key_hub.Common.{
  zero, ℕ, suc, ◌+◌, ◌≤◌, ◌≡◌, refl, str_eq, Bool, true, false, Option, none, some, List, [], ◌∷◌,
  arith, ltb, if◌then◌else◌, length,
}
use key_hub.Cache
use key_hub.Aliases.{resolve}
use key_hub.Providers.{ProviderConfig, get_provider}
use key_hub.Json.{Value, Fields, end}
use key_hub.Proxy.Request.{Call, call_body, backoff_wait}
use key_hub.Proxy.World.{
  round_wait, Env, World, Try, Progress, Step, again, finished, stopped, crashed,
}
use key_hub.Proxy.Attempt.{attempt}
use key_hub.Proxy.Traced.{Traced, attempt-Traced}
use key_hub.Proxy.Chat.{
  Result, returned, raised, Ended, ended, world_of, after, rounds, forward, unknown_provider,
  no_base_url, through_cache, chat,
}

-- From the round number `n` on, the longest waits: for a permit, and before each round but the
-- rounds 0 and 1 five seconds and the jitter.
unfoldable pub longest : ℕ → ℕ → List Try → ℕ
longest timeout n [] = 0
longest timeout n (t ∷ ts) =
    timeout + (if ltb n 2 then 0 else 5000 + t.jitter) + longest timeout (suc n) ts

waits_le :
    (env : Env) (permits : Option ℕ) (n jitter : ℕ)
    → round_wait env permits n jitter ≤ env.connect_timeout + (if ltb n 2 then 0 else 5000 + jitter)
unfolding round_wait backoff_wait
waits_le env none n jitter = ground arith
waits_le env (some zero) n jitter = ground arith
waits_le env (some (suc m)) n jitter = ground arith

-- What a whole call may have sent and waited.
abbrev pub Within : ℕ → ℕ → Ended → Type 0
Within n s e = (length (world_of e).sent ≤ n) × ((world_of e).slept ≤ s)

module _ (env : Env) where
  after-Within :
      (c : Call) (t : Try) (n s m r : ℕ) (step : Step) (next : World → Progress → Ended)
      → Traced env c t n s step
      → ((w : World) (p : Progress)
          → length w.sent ≤ n
          → w.slept ≡ s
          → Within (n + m) (s + r) (next w p))
      → Within (n + m) (s + r) (after env step next)
  after-Within c t n s m r (again w p) next (few, slept) h = h w p few slept
  after-Within c t n s m r (finished w p v) next ((few, slept), stored) h =
      (omega arith, omega arith)
  after-Within c t n s m r (stopped w message) next (few, slept) h = (omega arith, omega arith)
  after-Within c t n s m r (crashed w) next (few, slept) h = (omega arith, omega arith)

  rounds-Within :
      (ts : List Try) (k n s : ℕ) (c : Call) (body : Fields) (w : World) (p : Progress)
      → length w.sent ≤ n
      → w.slept ≤ s
      → Within (n + length ts) (s + longest env.connect_timeout k ts) (rounds env c body k ts w p)
  unfolding rounds longest
  rounds-Within [] k n s c body w p few slept = (omega arith, omega arith)
  rounds-Within (t ∷ ts) k n s c body w p few slept =
      let wait = round_wait env w.permits k t.jitter in
      let bounded = waits_le env w.permits k t.jitter in
      let (sent, waited) =
        after-Within c t (n + 1) (w.slept + wait) (length ts)
          (longest env.connect_timeout (suc k) ts) (attempt env c w p k t body)
          (λ w' p'. rounds env c body (suc k) ts w' p')
          (attempt-Traced env c t n (w.slept + wait) w p k body few refl)
          (λ w' p' few' slept'.
            rounds-Within ts (suc k) (n + 1) (w.slept + wait) c body w' p' few' (omega arith)) in
      (omega arith, omega arith)

  forward-Within :
      (c : Call) (cfg : ProviderConfig) (w : World) (ts : List Try)
      → Within
          (length w.sent + length ts)
          (w.slept + longest env.connect_timeout 0 ts)
          (forward env c cfg w ts)
  unfolding forward
  forward-Within c cfg w ts =
      rounds-Within ts 0 (length w.sent) w.slept c (call_body c end) w _ (omega arith) (omega arith)

  same-Within :
      (n s : ℕ) (w : World) (p : Option Progress) (r : Result)
      → Within (length w.sent + n) (w.slept + s) (ended w p r)
  same-Within n s w p r = (omega arith, omega arith)

  through_cache-Within :
      (c : Call) (cfg : ProviderConfig) (w : World) (now : ℕ) (ts : List Try)
      → Within
          (length w.sent + length ts)
          (w.slept + longest env.connect_timeout 0 ts)
          (through_cache env c cfg w now ts)
  unfolding through_cache
  through_cache-Within c cfg w now ts =
      let (cache, found) =
        Cache.get Call env.make_key Value (record { store = w.cache }) c env.cache_ttl now in
      let w' : World = record w { cache = cache.store } in
      elim found
        as (λ found.
          Within (length w.sent + length ts) (w.slept + longest env.connect_timeout 0 ts)
            (elim found [ some v ↦ ended w' none (returned v) | none ↦ forward env c cfg w' ts ])) [
              | some v ↦
                  same-Within (length ts) (longest env.connect_timeout 0 ts) w' none (returned v)
              | none ↦ forward-Within c cfg w' ts
            ]

  if-Within :
      (n s : ℕ) (test : Bool) (x y : Ended)
      → Within n s x
      → Within n s y
      → Within n s (if test then x else y)
  if-Within n s true x y hx hy = hx
  if-Within n s false x y hx hy = hy

  -- However a call ends, it sent at most one request for each of its rounds; and its waits before the
  -- rounds, those for a permit included, are together no longer than the time-out for a permit in each
  -- round, and five seconds and the jitter for each round from the third on.
  pub chat_bounds :
      (c : Call) (w : World) (now : ℕ) (ts : List Try)
      → let w' = world_of (chat env c w now ts) in
        (length w'.sent ≤ length w.sent + length ts)
        × (w'.slept ≤ w.slept + longest env.connect_timeout 0 ts)
  unfolding chat
  chat_bounds call w now ts =
      let (aliases, target) = resolve env.json true w.aliases call.provider call.model in
      let w' : World = record w { aliases = aliases } in
      let c : Call = record call { provider = target.0; model = target.1 } in
      elim (get_provider c.provider)
        as (λ found.
          Within (length w.sent + length ts) (w.slept + longest env.connect_timeout 0 ts)
            (elim found [
              | none ↦ ended w' none (raised (unknown_provider env c.provider))
              | some cfg ↦
                  if str_eq cfg.base_url ""
                  then ended w' none (raised (no_base_url env c.provider))
                  else through_cache env c cfg w' now ts
            ])) [
              | none ↦
                  same-Within (length ts) (longest env.connect_timeout 0 ts) w' none
                    (raised (unknown_provider env c.provider))
              | some cfg ↦
                  if-Within _ _ (str_eq cfg.base_url "") _ _
                    (same-Within (length ts) (longest env.connect_timeout 0 ts) w' none
                      (raised (no_base_url env c.provider)))
                    (through_cache-Within c cfg w' now ts)
            ]
