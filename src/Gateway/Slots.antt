-- ===== src/Gateway/Slots.antt =====
-- The slots of keys in `embeddings` of keyhub/api/v1.py.
use key_hub.Common.{
  ℕ, zero, append, arith, ◌≡◌, refl, String, str_eq, Bool, true, false, Option, none, some, [], ◌∷◌,
  ◌++◌, if◌then◌else◌,
}
use key_hub.Models.{Bytes, LlmKey, Credential}
use key_hub.Store.Defs.{Outcome, ok, fail, reveal_raw}
use key_hub.Aliases.{resolve}
use key_hub.Balancer.State.{Balancer, release}
use key_hub.Balancer.Select.{pick, pick_cross_provider}
use key_hub.Balancer.Mark.{mark_ok}
use key_hub.Balancer.Slots.{slots, slots-release, mark-Freed}
use key_hub.Balancer.Taken.{Taken, key_of, pick-Taken, pick_cross_provider-Taken}
use key_hub.Providers.{ProviderConfig, get_provider}
use key_hub.Json.{Fields, get_field}
use key_hub.Proxy.World.{Env, World, Reply, answered, unreachable, Try}
use key_hub.Proxy.Attempt.{given_model, credential_of, name_or_id}
use key_hub.Proxy.Held.{freed, marked_error-slots, marked_rate_limited-slots}
use key_hub.Proxy.Keeps.{Taken-trans}
use key_hub.Gateway.{
  Response, upstream, internal_error, no_model, text_given, initial_provider, proxied,
}
use key_hub.Gateway.Embed.{
  refusal, unknown_provider, no_key_for, embed_request, released, marked_by, embed_reply,
  embed_secret, embed_row, embed_cfg, embed_cross, embed_pick, embed_provider, embeddings,
}

-- The slots of every key are those of `b0`.
abbrev pub SameSlots : Balancer → World × Response → Type 0
SameSlots b0 x = (j : String) → slots x.0.balancer j ≡ slots b0 j

module _ (b0 : Balancer) where
  either :
      (b : Bool) (x y : World × Response)
      → SameSlots b0 x
      → SameSlots b0 y
      → SameSlots b0 (if b then x else y)
  either true x y s t = s
  either false x y s t = t

module _ (env : Env) (b0 : Balancer) where
  module _ (key : LlmKey) where
    released-SameSlots :
        (w : World) (r : Response)
        → Taken (some key) b0 w.balancer
        → SameSlots b0 (released env w key.id, r)
    released-SameSlots w r held =
        freed b0 w.balancer (release w.balancer key.id) key held (slots-release w.balancer key.id)

    marked_by-SameSlots :
        (w : World) (t : Try) (status : ℕ) (retry_after : Option ℕ) (r : Response)
        → Taken (some key) b0 w.balancer
        → SameSlots b0 (marked_by env w key.id t status retry_after, r)
    marked_by-SameSlots w t status retry_after r held =
        let limited = marked_rate_limited-slots env b0 zero key w t retry_after held in
        let failed = marked_error-slots env b0 zero key w t held in
        let (given, _, _) = mark-Freed true w.balancer w.llm_keys t.marked_at key.id none none in
        let fine =
          freed b0 w.balancer (mark_ok true w.balancer w.llm_keys key.id none).0 key held given in
        λ j. ground (arith, limited j, failed j, fine j)

    embed_reply-SameSlots :
        (w : World) (t : Try) (reply : Reply)
        → Taken (some key) b0 w.balancer
        → SameSlots b0 (embed_reply env w key.id t reply)
    unfolding embed_reply
    embed_reply-SameSlots w t (unreachable message) held =
        marked_error-slots env b0 zero key w t held
    embed_reply-SameSlots w t (answered status retry_after content_json content) held =
        marked_by-SameSlots w t status retry_after (upstream status content) held

    embed_secret-SameSlots :
        (w : World) (cfg : ProviderConfig) (model : String) (t : Try) (body : Fields)
        (secret : Outcome Bytes)
        → Taken (some key) b0 w.balancer
        → SameSlots b0 (embed_secret env w cfg key model t body secret)
    unfolding embed_secret
    embed_secret-SameSlots w cfg model t body (fail e) held =
        released-SameSlots w internal_error held
    embed_secret-SameSlots w cfg model t body (ok api_key) held =
        embed_reply-SameSlots
          (record w { sent = w.sent ++ embed_request cfg api_key model body ∷ [] }) t t.reply held

    embed_row-SameSlots :
        (w : World) (cfg : ProviderConfig) (model : String) (t : Try) (body : Fields)
        (found : Option Credential)
        → Taken (some key) b0 w.balancer
        → SameSlots b0 (embed_row env w cfg key model t body found)
    unfolding embed_row
    embed_row-SameSlots w cfg model t body none held = marked_error-slots env b0 zero key w t held
    embed_row-SameSlots w cfg model t body (some cred) held =
        embed_secret-SameSlots w cfg model t body
          (reveal_raw env.crypto w.vault key.id cred.encrypted_value (name_or_id env cred key.id))
          held

    embed_cfg-SameSlots :
        (w : World) (provider model : String) (t : Try) (body : Fields)
        (cfg : Option ProviderConfig)
        → Taken (some key) b0 w.balancer
        → SameSlots b0 (embed_cfg env w provider key model t body cfg)
    unfolding embed_cfg
    embed_cfg-SameSlots w provider model t body none held =
        released-SameSlots w (unknown_provider provider) held
    embed_cfg-SameSlots w provider model t body (some cfg) held =
        either b0 (str_eq cfg.base_url "") (released env w key.id, no_key_for "model" model)
          (embed_row env w cfg key model t body (credential_of env w key.id))
          (released-SameSlots w (no_key_for "model" model) held)
          (embed_row-SameSlots w cfg model t body (credential_of env w key.id) held)

  embed_cross-SameSlots :
      (w : World) (model : String) (t : Try) (body : Fields) (found : Option (String × LlmKey))
      → Taken (key_of env.choices found) b0 w.balancer
      → SameSlots b0 (embed_cross env w model t body found)
  unfolding embed_cross
  embed_cross-SameSlots w model t body none held = held
  embed_cross-SameSlots w model t body (some (provider, key)) held =
      embed_cfg-SameSlots key w provider model t body (get_provider provider) held

  embed_pick-SameSlots :
      (w : World) (cfg : ProviderConfig) (initial provider model : String) (t : Try) (body : Fields)
      (found : Option LlmKey)
      → Taken found b0 w.balancer
      → SameSlots b0 (embed_pick env w cfg initial provider model t body found)
  unfolding embed_pick
  embed_pick-SameSlots w cfg initial provider model t body (some key) held =
      embed_row-SameSlots key w cfg model t body (credential_of env w key.id) held
  embed_pick-SameSlots w cfg initial provider model t body none held =
      let x =
        pick_cross_provider env.choices env.strategy true w.balancer w.llm_keys t.fallback_at
          (given_model env model) (some initial) in
      let w' = record w { balancer = x.0; llm_keys = x.1 } in
      either b0 env.fallback (embed_cross env w' model t body x.2)
        (w, no_key_for "provider" provider)
        (embed_cross-SameSlots w' model t body x.2 (
          Taken-trans (key_of env.choices x.2) b0 w.balancer x.0
            (pick_cross_provider-Taken env.choices env.strategy w.balancer w.llm_keys t.fallback_at
              (given_model env model) (some initial))
            held))
        held

  embed_provider-SameSlots :
      (w : World) (initial provider model : String) (t : Try) (body : Fields)
      (cfg : Option ProviderConfig)
      → ((j : String) → slots w.balancer j ≡ slots b0 j)
      → SameSlots b0 (embed_provider env w initial provider model t body cfg)
  unfolding embed_provider
  embed_provider-SameSlots w initial provider model t body none same = same
  embed_provider-SameSlots w initial provider model t body (some cfg) same =
      let x =
        pick env.choices env.strategy true w.balancer w.llm_keys t.picked_at provider
          (given_model env model) in
      let w' = record w { balancer = x.0; llm_keys = x.1 } in
      either b0 (str_eq cfg.base_url "")
        (w, refusal (append "provider '" (append provider "' has no base_url configured")))
        (embed_pick env w' cfg initial provider model t body x.2) same
        (embed_pick-SameSlots w' cfg initial provider model t body x.2 (
          Taken-trans x.2 b0 w.balancer x.0
            (pick-Taken env.choices env.strategy w.balancer w.llm_keys t.picked_at provider
              (given_model env model))
            same))

module _ (env : Env) where
  -- However a request for embeddings ends, with an answer, a refusal of the provider, no key, no row, a
  -- secret that does not decrypt, with or without a fallback, every key has as many slots taken as before.
  pub embeddings-SameSlots :
      (body : Fields) (w : World) (t : Try) (actor : String) (now : ℕ) (j : String)
      → slots (embeddings env body w t actor now).0.balancer j ≡ slots w.balancer j
  unfolding embeddings
  embeddings-SameSlots body w t actor now j =
      elim (text_given (get_field "model" body))
          as (λ given. SameSlots w.balancer (elim given as (λ _. World × Response) [
            | none ↦ (w, no_model)
            | some asked ↦
                let initial = initial_provider body asked in
                let (aliases, (provider, model)) = resolve env.json true w.aliases initial asked in
                embed_provider env (proxied (record w { aliases = aliases }) actor provider now)
                  initial provider model t body (get_provider provider)
          ])) [
            | none ↦ λ k. refl
            | some asked ↦
                let initial = initial_provider body asked in
                let (aliases, (provider, model)) = resolve env.json true w.aliases initial asked in
                embed_provider-SameSlots env w.balancer
                  (proxied (record w { aliases = aliases }) actor provider now) initial provider
                  model t body (get_provider provider) (λ k. refl)
          ]
        j
