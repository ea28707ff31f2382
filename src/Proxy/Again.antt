-- ===== src/Proxy/Again.antt =====
-- A call in keyhub/llm/proxy.py that was answered is answered again from the cache.
use mathlib.Core.Path.{subst}
use key_hub.Common.{
  ℕ, suc, ◌+◌, ◌*◌, ◌<◌, ◌≡◌, refl, ap, ◌∙◌, String, Bool, true, false, Option, none, some, List,
  [], ◌∷◌, Memᴰ, arith, ltb, if◌then◌else◌, length,
}
use key_hub.Common.Dict.{Dict}
use key_hub.Cache
use key_hub.Cache.Eviction.{get-set}
use key_hub.Providers.{ProviderConfig}
use key_hub.Json.{Value, Fields, end}
use key_hub.Proxy.Request.{Call, call_body}
use key_hub.Proxy.World.{
  round_wait, Env, World, Try, Progress, Step, again, finished, stopped, crashed,
}
use key_hub.Proxy.Attempt.{attempt}
use key_hub.Proxy.Traced.{Stored, Traced, attempt-Traced}
use key_hub.Proxy.Chat.{
  returned, raised, uncaught, Ended, ended, after, rounds, forward, through_cache,
}

module _ (env : Env) where
  -- The answer that a loop came to is the last that the cache was given, in one of its rounds.
  abbrev pub Kept : Call → List Try → Ended → Type 0
  Kept c ts (ended w (some p) (returned v)) = (t : Try) × Memᴰ t ts × Stored env c t w p v
  Kept c ts (ended w p r) = Unit

  later : (c : Call) (t : Try) (ts : List Try) (e : Ended) → Kept c ts e → Kept c (t ∷ ts) e
  later c t ts (ended w (some p) (returned v)) (t', at, stored) = (t', Memᴰ.tail at, stored)
  later c t ts (ended w (some p) (raised message)) h = tt
  later c t ts (ended w (some p) uncaught) h = tt
  later c t ts (ended w none r) h = tt

  after-Kept :
      (c : Call) (t : Try) (ts : List Try) (n s : ℕ) (step : Step) (next : World → Progress → Ended)
      → Traced env c t n s step
      → ((w : World) (p : Progress) → Kept c ts (next w p))
      → Kept c (t ∷ ts) (after env step next)
  after-Kept c t ts n s (again w p) next h rest = later c t ts (next w p) (rest w p)
  after-Kept c t ts n s (finished w p v) next (fair, stored) rest = (t, Memᴰ.head refl, stored)
  after-Kept c t ts n s (stopped w message) next h rest = tt
  after-Kept c t ts n s (crashed w) next h rest = tt

  rounds-Kept :
      (ts : List Try) (k : ℕ) (c : Call) (body : Fields) (w : World) (p : Progress)
      → Kept c ts (rounds env c body k ts w p)
  unfolding rounds
  rounds-Kept [] k c body w p = tt
  rounds-Kept (t ∷ ts) k c body w p =
      after-Kept c t ts (length w.sent + 1) (w.slept + round_wait env w.permits k t.jitter)
        (attempt env c w p k t body) (λ w' p'. rounds env c body (suc k) ts w' p')
        (attempt-Traced env c t (length w.sent) (w.slept + round_wait env w.permits k t.jitter) w p
          k body (omega arith) refl)
        (λ w' p'. rounds-Kept ts (suc k) c body w' p')

  -- The cache after a lookup.
  abbrev pub looked_up : Call → World → ℕ → World
  looked_up c w now = record w {
    cache =
        (Cache.get Call env.make_key Value (record { store = w.cache }) c env.cache_ttl
          now).0.store;
  }

  unfoldable answer : Call → ProviderConfig → World → ℕ → List Try → Option Value → Ended
  answer c cfg w now ts found = elim found [
    | some v ↦ ended (looked_up c w now) none (returned v)
    | none ↦ forward env c cfg (looked_up c w now) ts
  ]

  through_cache_lem :
      (c : Call) (cfg : ProviderConfig) (w : World) (now : ℕ) (ts : List Try) (late : Bool)
      (v : Value)
      → (Cache.get Call env.make_key Value (record { store = w.cache }) c env.cache_ttl now).1
        ≡ (if late then none else some v)
      → through_cache env c cfg w now ts ≡ (
          if late
          then forward env c cfg (looked_up c w now) ts
          else ended (looked_up c w now) none (returned v))
  unfolding through_cache answer
  through_cache_lem c cfg w now ts true v e = ap (answer c cfg w now ts) e
  through_cache_lem c cfg w now ts false v e = ap (answer c cfg w now ts) e

  found_again :
      (c : Call) (w : World) (p : Progress) (v : Value) (t : Try) (now : ℕ)
      → 0 < env.cache_ttl
      → p.current_provider ≡ c.provider
      → Stored env c t w p v
      → (Cache.get Call env.make_key Value (record { store = w.cache }) c env.cache_ttl now).1
        ≡ (if ltb (t.cached_at + env.cache_ttl * 1000) now then none else some v)
  found_again c w p v t now pos same (store, e) =
      let put : String → Cache.ResponseCache Call env.make_key Value = λ provider.
        Cache.set Call env.make_key Value store (record c { provider = provider }) v env.cache_ttl
          t.cached_at in
      ap
        (λ (d : Dict (Value × ℕ)).
          (Cache.get Call env.make_key Value (record { store = d }) c env.cache_ttl now).1)
        (e ∙ ap (λ provider. (put provider).store) same)
      ∙ (get-set Call env.make_key Value store c v env.cache_ttl env.cache_ttl t.cached_at now pos
          pos).0

  -- Where answers are cached, a call that was answered without a fallback is answered again from the
  -- cache, by the same answer and with no request sent, until a lifetime is over that is counted from
  -- one of its rounds; from then on it is forwarded.
  pub through_cache-forward :
      (c : Call) (cfg : ProviderConfig) (w w' : World) (p : Progress) (v : Value) (ts : List Try)
      → 0 < env.cache_ttl
      → forward env c cfg w ts ≡ ended w' (some p) (returned v)
      → p.current_provider ≡ c.provider
      → (t : Try) × Memᴰ t ts
        × ((now : ℕ) (ts' : List Try)
            → through_cache env c cfg w' now ts' ≡ (
                if ltb (t.cached_at + env.cache_ttl * 1000) now
                then forward env c cfg (looked_up c w' now) ts'
                else ended (looked_up c w' now) none (returned v)))
  unfolding forward
  through_cache-forward c cfg w w' p v ts pos e same =
      let (t, at, stored) = subst (Kept c ts) e (rounds-Kept ts 0 c (call_body c end) w _) in
      (
        t,
        at,
        λ now ts'.
            through_cache_lem c cfg w' now ts' (ltb (t.cached_at + env.cache_ttl * 1000) now) v
              (found_again c w' p v t now pos same stored),
      )
