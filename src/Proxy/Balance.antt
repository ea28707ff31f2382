-- ===== src/Proxy/Balance.antt =====
-- The permits and the slots over all rounds of `chat_stream` in keyhub/llm/proxy.py.
use mathlib.Core.Path.{subst}
use key_hub.Common.{
  ℕ, zero, suc, ◌+◌, ◌≡◌, refl, sym, ◌∙◌, inl, inr, String, str_eq, Bool, true, false, not, ◌&&◌,
  Option, none, some, List, [], ◌∷◌, arith, if◌then◌else◌, Bool-cases,
}
use key_hub.Models.{LlmKey}
use key_hub.Aliases.{resolve}
use key_hub.Balancer.State.{Balancer}
use key_hub.Balancer.Select.{pick, pick_cross_provider}
use key_hub.Balancer.Slots.{slots}
use key_hub.Balancer.Taken.{Taken, pick-Taken}
use key_hub.Providers.{ProviderConfig, get_provider}
use key_hub.Json.{bool, Fields, end, field}
use key_hub.Proxy.Request.{Call, call_body}
use key_hub.Proxy.World.{round_wait, Env, World, Progress, failed, take_permit, give_permit}
use key_hub.Proxy.Attempt.{given_model}
use key_hub.Proxy.Lines.{StreamLib}
use key_hub.Proxy.Stream.{Flow, Turn, retry, over}
use key_hub.Proxy.StreamRounds.{
  stream_use_key, stream_fallback, stream_pick, stream_permit, stream_round, Outlet, gone, raises,
  stream_rounds, stream_forward, stream_known, chat_stream,
}
use key_hub.Proxy.Held.{given_back}
use key_hub.Proxy.Returned.{kept, Restored, Turned, stream_use_key-Turned}

never {ℓ} : {A : Type ℓ} → (b : Bool) → b ≡ true → b ≡ false → A
never b x y = cc

module _ (env : Env) (lib : StreamLib) where
  stream_fallback-Turned :
      (b0 : Balancer) (m : ℕ) (c : Call) (w : World) (p : Progress) (f : Flow) (body : Fields)
      (found : Option (String × LlmKey))
      → env.fallback ≡ true
      → w.permits ≡ some m
      → Turned env b0 (m + 1) (stream_fallback env lib c w p f body found)
  unfolding stream_fallback
  stream_fallback-Turned b0 m c w p f body none falls permits =
      (given_back m w permits, λ off. never env.fallback falls off)
  stream_fallback-Turned b0 m c w p f body (some (provider, key)) falls permits =
      elim (get_provider provider)
        as (λ cfg. Turned env b0 (m + 1) (elim cfg [
          | none ↦
              retry (give_permit w)
                (failed (record p { current_provider = provider }) f.provider_error)
          | some cfg ↦
              stream_use_key env lib c w
                (record p { current_provider = provider; current_cfg = cfg }) key f body
        ])) [
          | none ↦ (given_back m w permits, λ off. never env.fallback falls off)
          | some cfg ↦
              stream_use_key-Turned env lib b0 m key c w
                (record p { current_provider = provider; current_cfg = cfg }) f body
                (permits, λ off. never env.fallback falls off)
        ]

  stream_pick-Turned :
      (b0 : Balancer) (m : ℕ) (c : Call) (w : World) (p : Progress) (f : Flow) (body : Fields)
      (found : Option LlmKey)
      → w.permits ≡ some m
      → Taken found b0 w.balancer
      → Turned env b0 (m + 1) (stream_pick env lib c w p f body found)
  unfolding stream_pick
  stream_pick-Turned b0 m c w p f body (some key) permits held =
      stream_use_key-Turned env lib b0 m key c w p f body (permits, λ off. held)
  stream_pick-Turned b0 m c w p f body none permits same =
      let (b, rows, found) =
        pick_cross_provider env.choices env.strategy true w.balancer w.llm_keys f.common.fallback_at
          (given_model env c.model) (some c.provider) in
      elim (Bool-cases (env.fallback && not p.fallback_tried)) [
        | inl falls ↦
            let on : env.fallback ≡ true = ground arith in
            rw falls (
              stream_fallback-Turned b0 m c (record w { balancer = b; llm_keys = rows })
                (record p { fallback_tried = true }) f body found on permits)
        | inr stays ↦ rw stays (given_back m w permits, λ off. same)
      ]

  stream_permit-Turned :
      (n : ℕ) (c : Call) (w : World) (p : Progress) (f : Flow) (body : Fields)
      → w.permits ≡ some n
      → Turned env w.balancer n (stream_permit env lib c w p f body (take_permit (some n)))
  unfolding stream_permit
  stream_permit-Turned zero c w p f body permits = (permits, λ off j. refl)
  stream_permit-Turned (suc m) c w p f body permits =
      let (b, rows, found) =
        pick env.choices env.strategy true w.balancer w.llm_keys f.common.picked_at
          p.current_provider (given_model env c.model) in
      let w' : World = record w { permits = some m; balancer = b; llm_keys = rows } in
      let e : m + 1 ≡ suc m = omega arith in
      subst (λ k. Turned env w.balancer k (stream_pick env lib c w' p f body found)) e
        (stream_pick-Turned w.balancer m c w' p f body found refl (
          pick-Taken env.choices env.strategy w.balancer w.llm_keys f.common.picked_at
            p.current_provider (given_model env c.model)))

  stream_round-Turned :
      (n k : ℕ) (c : Call) (w : World) (p : Progress) (f : Flow) (body : Fields)
      → w.permits ≡ some n
      → Turned env w.balancer n (stream_round env lib c w p k f body)
  unfolding stream_round
  stream_round-Turned n k c w p f body permits =
      let w' : World = record w { slept = w.slept + round_wait env w.permits k f.common.jitter } in
      subst (λ o. Turned env w.balancer n (stream_permit env lib c w' p f body (take_permit o)))
        (sym permits) (stream_permit-Turned n c w' p f body permits)

  abbrev pub Left : Balancer → ℕ → Outlet env lib → Type 0
  Left b0 n (gone w out how) = Restored env b0 (kept how n) w
  Left b0 n (raises w message) = Restored env b0 n w

  Left-trans :
      (b0 b : Balancer) (n : ℕ) (e : Outlet env lib)
      → (env.fallback ≡ false → (j : String) → slots b j ≡ slots b0 j)
      → Left b n e
      → Left b0 n e
  Left-trans b0 b n (gone w out how) same (permits, rest) =
      (permits, λ off j. rest off j ∙ same off j)
  Left-trans b0 b n (raises w message) same (permits, rest) =
      (permits, λ off j. rest off j ∙ same off j)

  turn-Left :
      (b0 : Balancer) (n : ℕ) (turn : Turn) (next : World → Progress → Outlet env lib)
      → Turned env b0 n turn
      → ((w : World) (p : Progress) → w.permits ≡ some n → Left w.balancer n (next w p))
      → Left b0 n (elim turn [ retry w p ↦ next w p | over w out how ↦ gone w out how ])
  turn-Left b0 n (retry w p) next (permits, same) h =
      Left-trans b0 w.balancer n (next w p) same (h w p permits)
  turn-Left b0 n (over w out how) next turned h = turned

  stream_rounds-Left :
      (fs : List Flow) (n k : ℕ) (c : Call) (body : Fields) (w : World) (p : Progress)
      → w.permits ≡ some n
      → Left w.balancer n (stream_rounds env lib c body k fs w p)
  unfolding stream_rounds
  stream_rounds-Left [] n k c body w p permits = (permits, λ off j. refl)
  stream_rounds-Left (f ∷ fs) n k c body w p permits =
      turn-Left w.balancer n (stream_round env lib c w p k f body)
        (λ w' p'. stream_rounds env lib c body (suc k) fs w' p')
        (stream_round-Turned n k c w p f body permits)
        (λ w' p' e. stream_rounds-Left fs n (suc k) c body w' p' e)

  if-Left :
      (b0 : Balancer) (n : ℕ) (test : Bool) (x y : Outlet env lib)
      → Left b0 n x
      → Left b0 n y
      → Left b0 n (if test then x else y)
  if-Left b0 n true x y hx hy = hx
  if-Left b0 n false x y hx hy = hy

  stream_known-Left :
      (c : Call) (w : World) (flows : List Flow) (n : ℕ) (found : Option ProviderConfig)
      → w.permits ≡ some n
      → Left w.balancer n (stream_known env lib c w flows found)
  unfolding stream_known stream_forward
  stream_known-Left c w flows n none permits = (permits, λ off j. refl)
  stream_known-Left c w flows n (some cfg) permits =
      if-Left w.balancer n (str_eq cfg.base_url "") _ _ (permits, λ off j. refl)
        (stream_rounds-Left flows n 0 c (call_body c (field "stream" (bool true) end)) w _ permits)

  chat_stream-Left :
      (c : Call) (w : World) (flows : List Flow) (n : ℕ)
      → w.permits ≡ some n
      → Left w.balancer n (chat_stream env lib c w flows)
  unfolding chat_stream
  chat_stream-Left call w flows n permits =
      let (aliases, target) = resolve env.json true w.aliases call.provider call.model in
      let c : Call = record call { provider = target.0; model = target.1 } in
      stream_known-Left c (record w { aliases = aliases }) flows n (get_provider c.provider) permits

  -- The permits after a call.
  abbrev pub Permits : ℕ → Outlet env lib → Type 0
  Permits n (gone w out how) = w.permits ≡ some (kept how n)
  Permits n (raises w message) = w.permits ≡ some n

  Left-Permits : (b0 : Balancer) (n : ℕ) (e : Outlet env lib) → Left b0 n e → Permits n e
  Left-Permits b0 n (gone w out how) h = h.0
  Left-Permits b0 n (raises w message) h = h.0

  -- However a stream ends, it leaves the permits of the semaphore as they were, but for one permit
  -- less where its consumer closes it at the event of an exception that broke the stream off.
  pub chat_stream-Permits :
      (c : Call) (w : World) (flows : List Flow) (n : ℕ)
      → w.permits ≡ some n
      → Permits n (chat_stream env lib c w flows)
  chat_stream-Permits c w flows n permits =
      Left-Permits w.balancer n (chat_stream env lib c w flows)
        (chat_stream-Left c w flows n permits)

  -- The slots after a call are those before.
  abbrev pub SameSlots : Balancer → Outlet env lib → Type 0
  SameSlots b (gone w out how) = (j : String) → slots w.balancer j ≡ slots b j
  SameSlots b (raises w message) = (j : String) → slots w.balancer j ≡ slots b j

  Left-SameSlots :
      (b0 : Balancer) (n : ℕ) (e : Outlet env lib)
      → env.fallback ≡ false
      → Left b0 n e
      → SameSlots b0 e
  Left-SameSlots b0 n (gone w out how) off h = h.1 off
  Left-SameSlots b0 n (raises w message) off h = h.1 off

  -- Where calls do not fall back and the semaphore counts, a stream leaves every key with the slots in
  -- flight that it had, however it ends.
  pub chat_stream-SameSlots :
      (c : Call) (w : World) (flows : List Flow) (n : ℕ)
      → w.permits ≡ some n
      → env.fallback ≡ false
      → SameSlots w.balancer (chat_stream env lib c w flows)
  chat_stream-SameSlots c w flows n permits off =
      Left-SameSlots w.balancer n (chat_stream env lib c w flows) off
        (chat_stream-Left c w flows n permits)
