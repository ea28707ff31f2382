-- ===== src/Proxy/Traced.antt =====
-- What a round of `chat` in keyhub/llm/proxy.py sends, and what it puts into the cache.
use key_hub.Common.{
  ℕ, ◌+◌, ◌≤◌, ◌≡◌, refl, String, Bool, true, false, not, ◌&&◌, Option, none, some, [], ◌∷◌, ◌++◌,
  arith, leb, ◌==◌, if◌then◌else◌, length, length-append,
}
use key_hub.Models.{Bytes, LlmKey, Credential}
use key_hub.Store.Defs.{Outcome, ok, fail, reveal_raw}
use key_hub.Keylimit
use key_hub.Cache
use key_hub.Balancer.Select.{pick, pick_cross_provider}
use key_hub.Providers.{get_provider}
use key_hub.Json.{Value, Fields}
use key_hub.Proxy.Request.{Call, build_request, tokens, value_error, other_error, parse_usage}
use key_hub.Proxy.World.{
  round_wait, Env, World, Reply, answered, unreachable, Try, Progress, Step, again, finished,
  stopped, crashed, failed, take_permit, give_permit, log_call,
}
use key_hub.Proxy.Attempt.{
  given_model, no_key_error, marked_rate_limited, over_budget, check_budget_exceeded, succeed,
  give_up, be_limited, be_refused, be_answered, take_reply, send, credential_of, with_secret,
  with_credential, name_or_id, open_key, use_key, with_fallback, fall_back, with_pick, choose_key,
  with_permit, attempt,
}

-- At most `n` requests were sent and `s` milliseconds slept.
abbrev pub Fair : ℕ → ℕ → World → Type 0
Fair n s w = (length w.sent ≤ n) × (w.slept ≡ s)

module _ (env : Env) (c : Call) (t : Try) where
  -- The last thing that the cache was given is the answer.
  abbrev pub Stored : World → Progress → Value → Type 0
  Stored w p v =
      (store : Cache.ResponseCache Call env.make_key Value) × (w.cache
        ≡ (Cache.set Call env.make_key Value store (record c { provider = p.current_provider }) v
            env.cache_ttl t.cached_at).store)

  abbrev pub Traced : ℕ → ℕ → Step → Type 0
  Traced n s (again w p) = Fair n s w
  Traced n s (finished w p v) = Fair n s w × Stored w p v
  Traced n s (stopped w message) = Fair n s w
  Traced n s (crashed w) = Fair n s w

  module _ (n s : ℕ) where
    succeed-Traced :
        (w : World) (p : Progress) (id : String) (v : Value) (i o : ℕ)
        → Fair n s w
        → Traced n s (succeed env c w p id t v i o)
    unfolding succeed log_call
    succeed-Traced w p id v i o fair = (fair, (record { store = w.cache }, refl))

    give_up-Traced :
        (w : World) (p : Progress) (id message : String) (sent : Bool)
        → Fair n s w
        → Traced n s (give_up env c w p id t message sent)
    unfolding give_up log_call
    give_up-Traced w p id message true fair = fair
    give_up-Traced w p id message false fair = fair

    be_limited-Traced :
        (w : World) (p : Progress) (id : String) (r : Option ℕ) (json : Option Value)
        → Fair n s w
        → Traced n s (be_limited env c w p id t r json)
    unfolding be_limited log_call
    be_limited-Traced w p id r json fair = fair

    be_refused-Traced :
        (w : World) (p : Progress) (id message : String)
        → Fair n s w
        → Traced n s (be_refused env c w p id t message)
    unfolding be_refused log_call
    be_refused-Traced w p id message fair = fair

    be_answered-Traced :
        (w : World) (p : Progress) (id : String) (json : Option Value)
        → Fair n s w
        → Traced n s (be_answered env c w p id t json)
    unfolding be_answered
    be_answered-Traced w p id none fair = give_up-Traced w p id t.parse_error true fair
    be_answered-Traced w p id (some v) fair =
        elim (parse_usage env.int_text p.current_cfg v)
          as (λ counted. Traced n s (elim counted [
            | tokens i o ↦ succeed env c w p id t v i o
            | value_error ↦ give_up env c w p id t t.parse_error true
            | other_error ↦ crashed w
          ])) [
            | tokens i o ↦ succeed-Traced w p id v i o fair
            | value_error ↦ give_up-Traced w p id t.parse_error true fair
            | other_error ↦ fair
          ]

    if-Traced :
        (test : Bool) (x y : Step)
        → Traced n s x
        → Traced n s y
        → Traced n s (if test then x else y)
    if-Traced true x y hx hy = hx
    if-Traced false x y hx hy = hy

    take_reply-Traced :
        (w : World) (p : Progress) (id : String) (reply : Reply)
        → Fair n s w
        → Traced n s (take_reply env c w p id t reply)
    unfolding take_reply
    take_reply-Traced w p id (unreachable message) fair = give_up-Traced w p id message false fair
    take_reply-Traced w p id (answered status r json body) fair =
        if-Traced (status == 429) _ _ (be_limited-Traced w p id r json fair) (
          if-Traced (leb 400 status) _ _ (be_refused-Traced w p id _ fair)
            (be_answered-Traced w p id json fair))

  -- The stages up to the request, which may be one more.
  module _ (n s : ℕ) where
    fewer : (w : World) → Fair n s w → Fair (n + 1) s w
    fewer w (few, slept) = (omega arith, slept)

    send-Traced :
        (w : World) (p : Progress) (key : LlmKey) (api_key : Bytes) (body : Fields)
        → Fair n s w
        → Traced (n + 1) s (send env c w p key t api_key body)
    unfolding send
    send-Traced w p key api_key body (few, slept) =
        elim (build_request p.current_cfg api_key body)
          as (λ built. Traced (n + 1) s (elim built [
            | none ↦ crashed w
            | some request ↦
                take_reply env c (record w { sent = w.sent ++ request ∷ [] }) p key.id t t.reply
          ])) [
            | none ↦ fewer w (few, slept)
            | some request ↦
                let counts = length-append w.sent (request ∷ []) in
                take_reply-Traced (n + 1) s (record w { sent = w.sent ++ request ∷ [] }) p key.id
                  t.reply (omega arith, slept)
          ]

    with_secret-Traced :
        (w : World) (p : Progress) (key : LlmKey) (body : Fields) (secret : Outcome Bytes)
        → Fair n s w
        → Traced (n + 1) s (with_secret env c w p key t body secret)
    unfolding with_secret
    with_secret-Traced w p key body (fail e) fair = fewer w fair
    with_secret-Traced w p key body (ok api_key) fair = send-Traced w p key api_key body fair

    open_key-Traced :
        (w : World) (p : Progress) (key : LlmKey) (cred : Credential) (body : Fields)
        → Fair n s w
        → Traced (n + 1) s (open_key env c w p key cred t body)
    unfolding open_key
    open_key-Traced w p key cred body fair =
        let (limiter, allowed, _, _) = Keylimit.check env.limits w.limiter key.id 0 t.checked_at in
        let w' : World = record w { limiter = limiter } in
        let secret =
          reveal_raw env.crypto w.vault key.id cred.encrypted_value (name_or_id env cred key.id) in
        if-Traced (n + 1) s allowed (with_secret env c w' p key t body secret)
          (again (give_permit (marked_rate_limited env w' key.id t (some 10000)))
            (failed p "key rate limit exceeded"))
          (with_secret-Traced w' p key body secret fair) (fewer w' fair)

    with_credential-Traced :
        (w : World) (p : Progress) (key : LlmKey) (body : Fields) (cred : Option Credential)
        → Fair n s w
        → Traced (n + 1) s (with_credential env c w p key t body cred)
    unfolding with_credential
    with_credential-Traced w p key body none fair = fewer w fair
    with_credential-Traced w p key body (some cred) fair = open_key-Traced w p key cred body fair

    use_key-Traced :
        (w : World) (p : Progress) (key : LlmKey) (body : Fields)
        → Fair n s w
        → Traced (n + 1) s (use_key env c w p key t body)
    unfolding use_key check_budget_exceeded
    use_key-Traced w p key body fair =
        if-Traced (n + 1) s (over_budget env key) _ _ (fewer w fair)
          (with_credential-Traced w p key body (credential_of env w key.id) fair)

    with_fallback-Traced :
        (w : World) (p : Progress) (body : Fields) (found : Option (String × LlmKey))
        → Fair n s w
        → Traced (n + 1) s (with_fallback env c w p t body found)
    unfolding with_fallback
    with_fallback-Traced w p body none fair = fewer w fair
    with_fallback-Traced w p body (some (provider, key)) fair =
        elim (get_provider provider)
          as (λ cfg. Traced (n + 1) s (elim cfg [
            | none ↦ stopped w (no_key_error env c p)
            | some cfg ↦
                use_key env c w
                  (record p {
                    current_provider = provider;
                    current_cfg = cfg;
                    fallback_tried = true;
                  })
                  key t body
          ])) [
            | none ↦ fewer w fair
            | some cfg ↦
                use_key-Traced w
                  (record p {
                    current_provider = provider;
                    current_cfg = cfg;
                    fallback_tried = true;
                  })
                  key body fair
          ]

    with_pick-Traced :
        (w : World) (p : Progress) (body : Fields) (found : Option LlmKey)
        → Fair n s w
        → Traced (n + 1) s (with_pick env c w p t body found)
    unfolding with_pick fall_back
    with_pick-Traced w p body (some key) fair = use_key-Traced w p key body fair
    with_pick-Traced w p body none fair =
        let (b, rows, found) =
          pick_cross_provider env.choices env.strategy true w.balancer w.llm_keys t.fallback_at
            (given_model env c.model) (some c.provider) in
        if-Traced (n + 1) s (env.fallback && not p.fallback_tried) _ _
          (with_fallback-Traced (record (give_permit w) { balancer = b; llm_keys = rows }) p body
            found fair)
          (fewer w fair)

    pub attempt-Traced :
        (w : World) (p : Progress) (k : ℕ) (body : Fields)
        → length w.sent ≤ n
        → w.slept + round_wait env w.permits k t.jitter ≡ s
        → Traced (n + 1) s (attempt env c w p k t body)
    unfolding attempt choose_key with_permit
    attempt-Traced w p k body few slept =
        let w' : World = record w { slept = w.slept + round_wait env w.permits k t.jitter } in
        elim (take_permit w.permits) as (λ o. Traced (n + 1) s (with_permit env c w' p t body o)) [
          | none ↦ fewer w' (few, slept)
          | some left ↦
              let (b, rows, found) =
                pick env.choices env.strategy true w.balancer w.llm_keys t.picked_at
                  p.current_provider (given_model env c.model) in
              with_pick-Traced (record w' { permits = left; balancer = b; llm_keys = rows }) p body
                found (few, slept)
        ]
