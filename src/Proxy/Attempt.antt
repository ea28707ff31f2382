-- ===== src/Proxy/Attempt.antt =====
-- keyhub/llm/proxy.py: one round of the loop of `chat`, in the order of its stages. Counters for
-- monitoring are left out.
use key_hub.Common.{
  ℕ, ◌+◌, String, str_eq, Bool, true, false, not, ◌&&◌, Option, none, some, [], ◌∷◌, ◌++◌, ltb, leb,
  ◌==◌, if◌then◌else◌, find, append, first_chars, get_elem?, ◌/◌, ◌%◌,
}
use key_hub.Models.{Bytes, Credential, LlmKey, exhausted, audit, llm_budget_exceeded}
use key_hub.Store.Defs.{Outcome, ok, fail, reveal_raw}
use key_hub.Cache
use key_hub.Keylimit
use key_hub.Balancer.State.{release}
use key_hub.Balancer.Select.{pick, pick_cross_provider}
use key_hub.Balancer.Mark.{update_key, mark_ok, mark_error, mark_rate_limited}
use key_hub.Providers.{get_provider}
use key_hub.Latency.{record_sample}
use key_hub.Json.{Value, Fields}
use key_hub.Proxy.Request.{
  Call, build_request, Counted, tokens, value_error, other_error, parse_usage, friendly_error,
}
use key_hub.Proxy.World.{
  round_wait, Env, World, Reply, answered, unreachable, Try, Progress, Step, again, finished,
  stopped, crashed, failed, take_permit, give_permit, log_call, shortened,
}

abbrev pub digit : ℕ → String
digit n =
    elim (get_elem? {A = String} ("0" ∷ "1" ∷ "2" ∷ "3" ∷ "4" ∷ "5" ∷ "6" ∷ "7" ∷ "8" ∷ "9" ∷ [])
      n) [ none ↦ "" | some d ↦ d ]

-- f"upstream {r.status_code}: {r.text[:200]}"; a status has three digits.
unfoldable pub upstream_error : ℕ → String → String
upstream_error status body = append "upstream " (
    append (digit (status / 100)) (
      append (digit (status / 10 % 10))
        (append (digit (status % 10)) (append ": " (first_chars 200 body)))))

module _ (env : Env) where
  -- An empty model is no wish for one.
  abbrev pub given_model : String → Option String
  given_model model = if str_eq model "" then none else some model

  abbrev pub marked_error : World → String → Try → World
  marked_error w key_id t =
      let (b, rows) = mark_error true w.balancer w.llm_keys t.marked_at key_id in
      record w { balancer = b; llm_keys = rows }

  abbrev pub marked_rate_limited : World → String → Try → Option ℕ → World
  marked_rate_limited w key_id t retry_after =
      let (b, rows) = mark_rate_limited true w.balancer w.llm_keys t.marked_at key_id retry_after in
      record w { balancer = b; llm_keys = rows }

  -- `_check_budget_exceeded`
  unfoldable pub check_budget_exceeded : World → LlmKey → Try → World
  check_budget_exceeded w key t = record w {
    llm_keys =
        update_key true key.id (λ r. record r { status = exhausted; cooldown_until = none })
          w.llm_keys;
    audit_logs =
        audit llm_budget_exceeded "system" (some (append "key:" key.id)) true t.marked_at.wall
          w.audit_logs;
    notices = w.notices ++ key.id ∷ [];
  }

  abbrev pub over_budget : LlmKey → Bool
  over_budget key =
      ltb 0 key.monthly_budget_usd && leb key.monthly_budget_usd key.estimated_cost_usd

  -- The two exceptions for want of a key.
  abbrev pub no_key_error : Call → Progress → String
  no_key_error c p = elim p.last_error [
    | some e ↦ friendly_error env.lower e
    | none ↦
        append "没有可用的 key（provider="
          (append c.provider (append ", model=" (append c.model "），请在控制台添加")))
  ]

  -- The end of a successful call.
  unfoldable pub succeed : Call → World → Progress → String → Try → Value → ℕ → ℕ → Step
  succeed c w p key_id t resp prompt_tokens completion_tokens =
      let limited = record w {
        limiter =
            Keylimit.record_tokens w.limiter key_id (prompt_tokens + completion_tokens)
              t.counted_at;
      } in
      let logged =
        log_call env limited t key_id p.current_provider c.model prompt_tokens completion_tokens
          true none in
      let (b, rows) = mark_ok true logged.balancer logged.llm_keys key_id (some t.latency_ms) in
      let stored =
        Cache.set Call env.make_key Value (record { store = w.cache })
          (record c { provider = p.current_provider }) resp env.cache_ttl t.cached_at in
      finished
        (give_permit (record logged {
          balancer = b;
          llm_keys = rows;
          latency = record_sample w.latency p.current_provider t.latency_ms;
          cache = stored.store;
        }))
        p resp

  -- The branch of `except (httpx.RequestError, ValueError)`.
  unfoldable pub give_up : Call → World → Progress → String → Try → String → Bool → Step
  give_up c w p key_id t message request_sent =
      let marked = marked_error w key_id t in
      again
        (give_permit (
          if request_sent
          then log_call env marked t key_id p.current_provider c.model 0 0 false (shortened message)
          else marked))
        (failed p message)

  -- `_parse_usage` of the error's body, where nothing that it raises goes further.
  abbrev pub tokens_or_none : Counted → ℕ × ℕ
  tokens_or_none (tokens p c) = (p, c)
  tokens_or_none _ = (0, 0)

  abbrev pub usage_of : Progress → Option Value → Counted
  usage_of p none = value_error
  usage_of p (some v) = parse_usage env.int_text p.current_cfg v

  -- A 429.
  unfoldable pub be_limited :
      Call → World → Progress → String → Try → Option ℕ → Option Value → Step
  be_limited c w p key_id t retry_after json =
      let marked = marked_rate_limited w key_id t retry_after in
      let (prompt_tokens, completion_tokens) = tokens_or_none (usage_of p json) in
      again
        (give_permit (
          log_call env marked t key_id p.current_provider c.model prompt_tokens completion_tokens
            false (some "rate_limited (429)")))
        (failed p "rate_limited (429)")

  -- A status from 400 on but 429.
  unfoldable pub be_refused : Call → World → Progress → String → Try → String → Step
  be_refused c w p key_id t message =
      let marked = marked_error w key_id t in
      again
        (give_permit
          (log_call env marked t key_id p.current_provider c.model 0 0 false (shortened message)))
        (failed p message)

  -- A status below 400.
  unfoldable pub be_answered : Call → World → Progress → String → Try → Option Value → Step
  be_answered c w p key_id t none = give_up c w p key_id t t.parse_error true
  be_answered c w p key_id t (some v) = elim (parse_usage env.int_text p.current_cfg v) [
    | tokens i o ↦ succeed c w p key_id t v i o
    | value_error ↦ give_up c w p key_id t t.parse_error true
    | other_error ↦ crashed w
  ]

  -- The branches on the provider's answer.
  unfoldable pub take_reply : Call → World → Progress → String → Try → Reply → Step
  take_reply c w p key_id t (unreachable message) = give_up c w p key_id t message false
  take_reply c w p key_id t (answered status retry_after json body) =
      if status == 429
      then be_limited c w p key_id t retry_after json
      else (if leb 400 status
          then be_refused c w p key_id t (upstream_error status body)
          else be_answered c w p key_id t json)

  -- The request goes out.
  unfoldable pub send : Call → World → Progress → LlmKey → Try → Bytes → Fields → Step
  send c w p key t api_key body = elim (build_request p.current_cfg api_key body) [
    | none ↦ crashed w
    | some request ↦ take_reply c (record w { sent = w.sent ++ request ∷ [] }) p key.id t t.reply
  ]

  -- The join of the key with its credential, whose ciphertext and name are read.
  unfoldable pub credential_of : World → String → Option Credential
  credential_of w key_id = elim (find (λ (k : LlmKey). str_eq k.id key_id) w.llm_keys) [
    | none ↦ none
    | some k ↦ find (λ (c : Credential). str_eq c.id k.credential_id) w.credentials
  ]

  -- `cred_name or key.id`
  abbrev pub name_or_id : Credential → String → String
  name_or_id c key_id = if str_eq c.name "" then key_id else c.name

  -- What `_decrypt_key` gives; its exceptions are not caught.
  unfoldable pub with_secret :
      Call → World → Progress → LlmKey → Try → Fields → Outcome Bytes → Step
  with_secret c w p key t body (fail e) = crashed w
  with_secret c w p key t body (ok api_key) = send c w p key t api_key body

  -- The limits of the key and its secret; `reveal_raw` gets the id of the key.
  unfoldable pub open_key : Call → World → Progress → LlmKey → Credential → Try → Fields → Step
  open_key c w p key cred t body =
      let (limiter, allowed, _, _) = Keylimit.check env.limits w.limiter key.id 0 t.checked_at in
      let w' = record w { limiter = limiter } in
      if allowed
      then with_secret c w' p key t body
          (reveal_raw env.crypto w.vault key.id cred.encrypted_value (name_or_id cred key.id))
      else again (give_permit (marked_rate_limited w' key.id t (some 10000)))
          (failed p "key rate limit exceeded")

  -- The row of the key, or a key that is gone.
  unfoldable pub with_credential :
      Call → World → Progress → LlmKey → Try → Fields → Option Credential → Step
  with_credential c w p key t body none = again (give_permit (marked_error w key.id t)) p
  with_credential c w p key t body (some cred) = open_key c w p key cred t body

  -- The stages behind the choice of a key.
  unfoldable pub use_key : Call → World → Progress → LlmKey → Try → Fields → Step
  use_key c w p key t body =
      if over_budget key
      then (let w' = check_budget_exceeded w key t in
          again (give_permit (record w' { balancer = release w'.balancer key.id })) p)
      else with_credential c w p key t body (credential_of w key.id)

  -- The provider's settings, which a key of another provider may lack.
  unfoldable pub with_fallback :
      Call → World → Progress → Try → Fields → Option (String × LlmKey) → Step
  with_fallback c w p t body none = stopped w (no_key_error c p)
  with_fallback c w p t body (some (provider, key)) = elim (get_provider provider) [
    | none ↦ stopped w (no_key_error c p)
    | some cfg ↦
        use_key c w
          (record p { current_provider = provider; current_cfg = cfg; fallback_tried = true }) key t
          body
  ]

  -- The key of another provider, once in a call. The permit is given back before.
  unfoldable pub fall_back : Call → World → Progress → Try → Fields → Step
  fall_back c w p t body =
      let (b, rows, found) =
        pick_cross_provider env.choices env.strategy true w.balancer w.llm_keys t.fallback_at
          (given_model c.model) (some c.provider) in
      with_fallback c (record w { balancer = b; llm_keys = rows }) p t body found

  -- What `pick` found.
  unfoldable pub with_pick : Call → World → Progress → Try → Fields → Option LlmKey → Step
  with_pick c w p t body (some key) = use_key c w p key t body
  with_pick c w p t body none =
      if env.fallback && not p.fallback_tried
      then fall_back c (give_permit w) p t body
      else stopped (give_permit w) (no_key_error c p)

  -- A round that has its permit.
  unfoldable pub choose_key : Call → World → Progress → Try → Fields → Step
  choose_key c w p t body =
      let (b, rows, found) =
        pick env.choices env.strategy true w.balancer w.llm_keys t.picked_at p.current_provider
          (given_model c.model) in
      with_pick c (record w { balancer = b; llm_keys = rows }) p t body found

  -- A round goes on where it got its permit.
  unfoldable pub with_permit : Call → World → Progress → Try → Fields → Option (Option ℕ) → Step
  with_permit c w p t body none = again w (failed p "LLM 并发请求数已达上限，请稍后重试")
  with_permit c w p t body (some left) = choose_key c (record w { permits = left }) p t body

  -- The round number `n`.
  unfoldable pub attempt : Call → World → Progress → ℕ → Try → Fields → Step
  attempt c w p n t body =
      with_permit c (record w { slept = w.slept + round_wait env w.permits n t.jitter }) p t body
        (take_permit w.permits)
