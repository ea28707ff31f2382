-- ===== src/Proxy/StreamRounds.antt =====
-- keyhub/llm/proxy.py: the rounds of `chat_stream`, from the aliases to the request.
use key_hub.Common.{
  ℕ, suc, ◌+◌, String, str_eq, true, false, not, ◌&&◌, Option, none, some, List, [], ◌∷◌, ◌++◌,
  if◌then◌else◌, append,
}
use key_hub.Models.{Bytes, Credential, LlmKey}
use key_hub.Store.Defs.{Outcome, ok, fail, reveal_raw}
use key_hub.Keylimit
use key_hub.Aliases.{resolve}
use key_hub.Balancer.State.{release}
use key_hub.Balancer.Select.{pick, pick_cross_provider}
use key_hub.Providers.{ProviderConfig, get_provider}
use key_hub.Json.{bool, Fields, end, field}
use key_hub.Proxy.Request.{Call, call_body, build_request, friendly_error}
use key_hub.Proxy.World.{round_wait, Env, World, Progress, failed, take_permit, give_permit}
use key_hub.Proxy.Attempt.{
  given_model, marked_error, marked_rate_limited, check_budget_exceeded, over_budget, no_key_error,
  credential_of, name_or_id,
}
use key_hub.Proxy.Lines.{StreamLib, Chunk}
use key_hub.Proxy.Stream.{Flow, End, Turn, retry, over, not_started, open_stream}

module _ (env : Env) (lib : StreamLib) where
  -- The request goes out.
  unfoldable pub send_stream : Call → World → Progress → String → Flow → Bytes → Fields → Turn
  send_stream c w p key_id f api_key body = elim (build_request p.current_cfg api_key body) [
    | none ↦ not_started env lib c w p key_id f f.request_error
    | some request ↦
        open_stream env lib c (record w { sent = w.sent ++ request ∷ [] }) p key_id f f.opening
  ]

  unfoldable pub stream_secret :
      Call → World → Progress → String → Flow → Fields → Outcome Bytes → Turn
  stream_secret c w p key_id f body (fail e) = not_started env lib c w p key_id f f.secret_error
  stream_secret c w p key_id f body (ok api_key) = send_stream c w p key_id f api_key body

  unfoldable pub stream_open_key :
      Call → World → Progress → String → Credential → Flow → Fields → Turn
  stream_open_key c w p key_id cred f body =
      let (limiter, allowed, _, _) =
        Keylimit.check env.limits w.limiter key_id 0 f.common.checked_at in
      let w' = record w { limiter = limiter } in
      if allowed
      then stream_secret c w' p key_id f body
          (reveal_raw env.crypto w.vault key_id cred.encrypted_value (name_or_id env cred key_id))
      else retry (give_permit (marked_rate_limited env w' key_id f.common (some 10000)))
          (failed p "key rate limit exceeded")

  unfoldable pub stream_credential :
      Call → World → Progress → String → Flow → Fields → Option Credential → Turn
  stream_credential c w p key_id f body none =
      retry (give_permit (marked_error env w key_id f.common)) p
  stream_credential c w p key_id f body (some cred) = stream_open_key c w p key_id cred f body

  -- The stages behind the choice of a key.
  unfoldable pub stream_use_key : Call → World → Progress → LlmKey → Flow → Fields → Turn
  stream_use_key c w p key f body =
      if over_budget env key
      then (let w' = check_budget_exceeded env w key f.common in
          retry (give_permit (record w' { balancer = release w'.balancer key.id })) p)
      else stream_credential c w p key.id f body (credential_of env w key.id)

  -- A key of another provider. Where the provider is unknown, the exception is caught with no key set.
  unfoldable pub stream_fallback :
      Call → World → Progress → Flow → Fields → Option (String × LlmKey) → Turn
  stream_fallback c w p f body none = retry (give_permit w) (failed p (no_key_error env c p))
  stream_fallback c w p f body (some (provider, key)) = elim (get_provider provider) [
    | none ↦
        retry (give_permit w) (failed (record p { current_provider = provider }) f.provider_error)
    | some cfg ↦
        stream_use_key c w (record p { current_provider = provider; current_cfg = cfg }) key f body
  ]

  -- What `pick` found. The error for want of a key is caught too, and the next round tries again.
  unfoldable pub stream_pick : Call → World → Progress → Flow → Fields → Option LlmKey → Turn
  stream_pick c w p f body (some key) = stream_use_key c w p key f body
  stream_pick c w p f body none =
      if env.fallback && not p.fallback_tried
      then (let (b, rows, found) =
            pick_cross_provider env.choices env.strategy true w.balancer w.llm_keys
              f.common.fallback_at (given_model env c.model) (some c.provider) in
          stream_fallback c (record w { balancer = b; llm_keys = rows })
            (record p { fallback_tried = true }) f body found)
      else retry (give_permit w) (failed p (no_key_error env c p))

  unfoldable pub stream_permit : Call → World → Progress → Flow → Fields → Option (Option ℕ) → Turn
  stream_permit c w p f body none = retry w (failed p "LLM 并发请求数已达上限，请稍后重试")
  stream_permit c w p f body (some left) =
      let (b, rows, found) =
        pick env.choices env.strategy true w.balancer w.llm_keys f.common.picked_at
          p.current_provider (given_model env c.model) in
      stream_pick c (record w { permits = left; balancer = b; llm_keys = rows }) p f body found

  -- The round number `n`.
  unfoldable pub stream_round : Call → World → Progress → ℕ → Flow → Fields → Turn
  stream_round c w p n f body =
      stream_permit c (record w { slept = w.slept + round_wait env w.permits n f.common.jitter }) p
        f body (take_permit w.permits)

  -- How the generator ended: by itself or by its consumer, or with an `LLMProxyError`.
  pub data Outlet : Type 0 where
    gone : World → List Chunk → End → Outlet
    raises : World → String → Outlet

  abbrev pub stream_words : Progress → String
  stream_words p = elim p.last_error [ some e ↦ friendly_error env.lower e | none ↦ "流式调用失败，原因未知" ]

  -- The rounds from number `n` on.
  unfoldable pub stream_rounds : Call → Fields → ℕ → List Flow → World → Progress → Outlet
  stream_rounds c body n [] w p = raises w (stream_words p)
  stream_rounds c body n (f ∷ fs) w p = elim (stream_round c w p n f body) [
    | retry w' p' ↦ stream_rounds c body (suc n) fs w' p'
    | over w' out how ↦ gone w' out how
  ]

  unfoldable pub stream_forward : Call → ProviderConfig → World → List Flow → Outlet
  stream_forward c cfg w flows =
      stream_rounds c (call_body c (field "stream" (bool true) end)) 0 flows w (record {
        current_provider = c.provider;
        current_cfg = cfg;
        last_error = none;
        fallback_tried = false;
      })

  -- A call of a provider that is known, or not.
  unfoldable pub stream_known : Call → World → List Flow → Option ProviderConfig → Outlet
  stream_known c w flows none = raises w (append "未知的供应商 '" (append c.provider "'，请在控制台添加"))
  stream_known c w flows (some cfg) =
      if str_eq cfg.base_url ""
      then raises w (append "provider '" (append c.provider "' has no base_url configured"))
      else stream_forward c cfg w flows

  -- `chat_stream`
  unfoldable pub chat_stream : Call → World → List Flow → Outlet
  chat_stream call w flows =
      let (aliases, target) = resolve env.json true w.aliases call.provider call.model in
      let c = record call { provider = target.0; model = target.1 } in
      stream_known c (record w { aliases = aliases }) flows (get_provider c.provider)
