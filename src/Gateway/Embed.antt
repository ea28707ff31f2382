-- ===== src/Gateway/Embed.antt =====
-- keyhub/api/v1.py: `embeddings`, from the choice of a key to what the provider answers.
use key_hub.Common.{
  ℕ, String, str_eq, true, not, Option, none, some, [], ◌∷◌, ◌++◌, leb, ◌==◌, if◌then◌else◌, append,
  strip_slashes,
}
use key_hub.Models.{Bytes, Credential, LlmKey}
use key_hub.Store.Defs.{Outcome, ok, fail, reveal_raw}
use key_hub.Aliases.{resolve}
use key_hub.Balancer.State.{release}
use key_hub.Balancer.Select.{pick, pick_cross_provider}
use key_hub.Balancer.Mark.{mark_ok}
use key_hub.Providers.{ProviderConfig, get_provider}
use key_hub.Json.{text, Fields, get_field}
use key_hub.Proxy.Request.{HttpRequest, headers_of, set_field, friendly_error}
use key_hub.Proxy.World.{Env, World, Reply, answered, unreachable, Try}
use key_hub.Proxy.Attempt.{
  given_model, marked_error, marked_rate_limited, credential_of, name_or_id,
}
use key_hub.Gateway.{
  Response, openai_error, upstream, internal_error, no_model, text_given, initial_provider,
  keep_fields, proxied,
}

abbrev pub refusal : String → Response
refusal message = openai_error 502 message "upstream_error"

abbrev pub unknown_provider : String → Response
unknown_provider provider = refusal (append "未知的供应商 '" (append provider "'"))

abbrev pub no_key_for : String → String → Response
no_key_for what name =
    refusal (append "no available key for " (append what (append "='" (append name "'"))))

-- The request to the provider.
abbrev pub embed_request : ProviderConfig → Bytes → String → Fields → HttpRequest
embed_request cfg api_key model body = record {
  url = append (strip_slashes cfg.base_url) "/v1/embeddings";
  headers = headers_of cfg api_key;
  body = set_field "model" (text model) (keep_fields (λ k. not (str_eq k "keyhub_provider")) body);
}

module _ (env : Env) where
  abbrev pub released : World → String → World
  released w key_id = record w { balancer = release w.balancer key_id }

  abbrev pub marked_ok : World → String → World
  marked_ok w key_id =
      let (b, rows) = mark_ok true w.balancer w.llm_keys key_id none in
      record w { balancer = b; llm_keys = rows }

  abbrev pub marked_by : World → String → Try → ℕ → Option ℕ → World
  marked_by w key_id t status retry_after =
      if status == 429
      then marked_rate_limited env w key_id t retry_after
      else (if leb 400 status then marked_error env w key_id t else marked_ok w key_id)

  -- What the provider answers; its content is passed on.
  unfoldable pub embed_reply : World → String → Try → Reply → World × Response
  embed_reply w key_id t (unreachable message) =
      (marked_error env w key_id t, refusal (friendly_error env.lower message))
  embed_reply w key_id t (answered status retry_after content_json content) =
      (marked_by w key_id t status retry_after, upstream status content)

  -- The secret; an exception gives the slot back.
  unfoldable pub embed_secret :
      World → ProviderConfig → LlmKey → String → Try → Fields → Outcome Bytes → World × Response
  embed_secret w cfg key model t body (fail e) = (released w key.id, internal_error)
  embed_secret w cfg key model t body (ok api_key) =
      embed_reply (record w { sent = w.sent ++ embed_request cfg api_key model body ∷ [] }) key.id t
        t.reply

  unfoldable pub embed_row :
      World → ProviderConfig → LlmKey → String → Try → Fields → Option Credential → World × Response
  embed_row w cfg key model t body none =
      (marked_error env w key.id t, refusal "selected key not found in database")
  embed_row w cfg key model t body (some cred) =
      embed_secret w cfg key model t body
        (reveal_raw env.crypto w.vault key.id cred.encrypted_value (name_or_id env cred key.id))

  -- The settings of the key's provider, after a fallback.
  unfoldable pub embed_cfg :
      World → String → LlmKey → String → Try → Fields → Option ProviderConfig → World × Response
  embed_cfg w provider key model t body none = (released w key.id, unknown_provider provider)
  embed_cfg w provider key model t body (some cfg) =
      if str_eq cfg.base_url ""
      then (released w key.id, no_key_for "model" model)
      else embed_row w cfg key model t body (credential_of env w key.id)

  unfoldable pub embed_cross :
      World → String → Try → Fields → Option (String × LlmKey) → World × Response
  embed_cross w model t body none = (w, no_key_for "model" model)
  embed_cross w model t body (some (provider, key)) =
      embed_cfg w provider key model t body (get_provider provider)

  -- What `pick` found. The provider that the fallback leaves out is the one before the aliases.
  unfoldable pub embed_pick :
      World
      → ProviderConfig
      → String
      → String
      → String
      → Try
      → Fields
      → Option LlmKey
      → World × Response
  embed_pick w cfg initial provider model t body (some key) =
      embed_row w cfg key model t body (credential_of env w key.id)
  embed_pick w cfg initial provider model t body none =
      if env.fallback
      then (let (b, rows, found) =
            pick_cross_provider env.choices env.strategy true w.balancer w.llm_keys t.fallback_at
              (given_model env model) (some initial) in
          embed_cross (record w { balancer = b; llm_keys = rows }) model t body found)
      else (w, no_key_for "provider" provider)

  unfoldable pub embed_provider :
      World → String → String → String → Try → Fields → Option ProviderConfig → World × Response
  embed_provider w initial provider model t body none = (w, unknown_provider provider)
  embed_provider w initial provider model t body (some cfg) =
      if str_eq cfg.base_url ""
      then (w, refusal (append "provider '" (append provider "' has no base_url configured")))
      else (let (b, rows, found) =
            pick env.choices env.strategy true w.balancer w.llm_keys t.picked_at provider
              (given_model env model) in
          embed_pick (record w { balancer = b; llm_keys = rows }) cfg initial provider model t body
            found)

  -- `embeddings`
  unfoldable pub embeddings : Fields → World → Try → String → ℕ → World × Response
  embeddings body w t actor now = elim (text_given (get_field "model" body)) [
    | none ↦ (w, no_model)
    | some asked ↦
        let initial = initial_provider body asked in
        let (aliases, (provider, model)) = resolve env.json true w.aliases initial asked in
        embed_provider (proxied (record w { aliases = aliases }) actor provider now) initial
          provider model t body (get_provider provider)
  ]
