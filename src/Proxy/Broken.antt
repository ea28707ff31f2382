-- ===== src/Proxy/Broken.antt =====
-- What `chat` in keyhub/llm/proxy.py makes of a key whose secret the store encrypted.
use key_hub.Common.{
  ◌+◌, ◌≡◌, ◌≢◌, refl, ap, ◌∙◌, str_eq, eq_iff, Bool, true, false, Option, some, List, length,
  arith, if◌then◌else◌,
}
use mathlib.Core.Path.{subst}
use key_hub.Models.{Bytes, LlmKey, Credential}
use key_hub.Store.Defs.{StoreError, undecryptable, fail, utf8, make_aad, reveal_raw}
use key_hub.Store.Failures.{reveal_raw-other_id}
use key_hub.Crypto
use key_hub.Keylimit
use key_hub.Balancer.State.{Balancer}
use key_hub.Balancer.Select.{pick}
use key_hub.Balancer.Slots.{slots}
use key_hub.Balancer.Taken.{Taken, pick-Taken}
use key_hub.Json.{Fields}
use key_hub.Proxy.Request.{Call}
use key_hub.Proxy.World.{Env, World, Try, Progress, Step, crashed}
use key_hub.Proxy.Attempt.{
  given_model, over_budget, credential_of, with_secret, with_credential, name_or_id, open_key,
  use_key, with_pick, choose_key,
}

otherwise : (test : Bool) (x y : Step) → test ≡ false → (if test then x else y) ≡ y
otherwise true x y e = cc
otherwise false x y e = refl

module _ (env : Env) where
  -- The world after the limits were asked.
  abbrev pub asked : World → LlmKey → Try → World
  asked w key t = record w {
    limiter = (Keylimit.check env.limits w.limiter key.id 0 t.checked_at).0;
  }

  open_key-crashed :
      (c : Call) (w : World) (p : Progress) (key : LlmKey) (cred : Credential) (t : Try)
      (body : Fields) (error : StoreError)
      → (Keylimit.check env.limits w.limiter key.id 0 t.checked_at).1 ≡ true
      → reveal_raw env.crypto w.vault key.id cred.encrypted_value (name_or_id env cred key.id)
        ≡ fail error
      → open_key env c w p key cred t body ≡ crashed (asked w key t)
  unfolding open_key with_secret
  open_key-crashed c w p key cred t body error allowed e = rw (allowed, e) refl

  use_key-crashed :
      (c : Call) (w : World) (p : Progress) (key : LlmKey) (t : Try) (body : Fields)
      (cred : Credential) (vault_key nonce value : Bytes)
      → over_budget env key ≡ false
      → credential_of env w key.id ≡ some cred
      → (Keylimit.check env.limits w.limiter key.id 0 t.checked_at).1 ≡ true
      → w.vault ≡ some vault_key
      → cred.encrypted_value
        ≡ Crypto.encrypt env.crypto vault_key nonce value (some (make_aad cred.id cred.name))
      → length nonce ≡ 12
      → cred.name ≢ ""
      → utf8 cred.id ≢ utf8 key.id
      → use_key env c w p key t body ≡ crashed (asked w key t)
  unfolding use_key with_credential
  use_key-crashed c w p key t body cred vault_key nonce value within at allowed unlocked e twelve
        named other =
      let unnamed : str_eq cred.name "" ≡ false = ground (arith, named, eq_iff cred.name "") in
      let name : name_or_id env cred key.id ≡ cred.name =
        ap (λ b. if b then key.id else cred.name) unnamed in
      let refused : reveal_raw env.crypto w.vault key.id cred.encrypted_value
            (name_or_id env cred key.id)
          ≡ fail (undecryptable Crypto.invalid_tag) =
        ap (λ v. reveal_raw env.crypto v key.id cred.encrypted_value (name_or_id env cred key.id))
          unlocked
        ∙ ap
            (λ blob.
              reveal_raw env.crypto (some vault_key) key.id blob (name_or_id env cred key.id))
            e
        ∙ ap
            (reveal_raw env.crypto (some vault_key) key.id
              (Crypto.encrypt env.crypto vault_key nonce value (some (make_aad cred.id cred.name))))
            name
        ∙ reveal_raw-other_id env.crypto vault_key nonce value cred.id key.id cred.name twelve
            other in
      otherwise (over_budget env key) _ _ within
      ∙ ap (with_credential env c w p key t body) at
      ∙ open_key-crashed c w p key cred t body (undecryptable Crypto.invalid_tag) allowed refused

  -- A round that has its permit, picks a key within its budget and its limits, and finds its credential
  -- as the store encrypted it, with a nonce of 12 bytes, a name, and an id that differs in UTF-8 from
  -- the key's, ends in an exception that nothing catches: the permit is not given back, the slot of
  -- the key stays taken, and no report of the key is made.
  pub choose_key-crashed :
      (c : Call) (w : World) (p : Progress) (t : Try) (body : Fields) (b : Balancer)
      (rows : List LlmKey) (key : LlmKey) (cred : Credential) (vault_key nonce value : Bytes)
      → pick env.choices env.strategy true w.balancer w.llm_keys t.picked_at p.current_provider
          (given_model env c.model)
        ≡ (b, rows, some key)
      → over_budget env key ≡ false
      → credential_of env (record w { balancer = b; llm_keys = rows }) key.id ≡ some cred
      → (Keylimit.check env.limits w.limiter key.id 0 t.checked_at).1 ≡ true
      → w.vault ≡ some vault_key
      → cred.encrypted_value
        ≡ Crypto.encrypt env.crypto vault_key nonce value (some (make_aad cred.id cred.name))
      → length nonce ≡ 12
      → cred.name ≢ ""
      → utf8 cred.id ≢ utf8 key.id
      → (choose_key env c w p t body
          ≡ crashed (asked (record w { balancer = b; llm_keys = rows }) key t))
        × (slots b key.id ≡ slots w.balancer key.id + 1)
  unfolding choose_key with_pick
  choose_key-crashed c w p t body b rows key cred vault_key nonce value picked within at allowed
        unlocked e twelve named other =
      let go : Balancer × List LlmKey × Option LlmKey → Step = λ (b, rows, found).
        with_pick env c (record w { balancer = b; llm_keys = rows }) p t body found in
      let taken =
        subst (λ (x : Balancer × List LlmKey × Option LlmKey). Taken x.2 w.balancer x.0) picked
          (pick-Taken env.choices env.strategy w.balancer w.llm_keys t.picked_at p.current_provider
            (given_model env c.model)) in
      (
        ap go picked
            ∙ use_key-crashed c (record w { balancer = b; llm_keys = rows }) p key t body cred
                vault_key nonce value within at allowed unlocked e twelve named other,
        ground (arith, taken key.id, eq_iff key.id key.id),
      )
