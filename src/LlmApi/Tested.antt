-- ===== src/LlmApi/Tested.antt =====
-- What a test of a key (keyhub/api/llm.py) does to the slots of keys.
use key_hub.Common.{
  ℕ, ◌-◌, ◌≡◌, refl, String, str_eq, Bool, true, false, ◌&&◌, Option, none, some, [], ◌∷◌, ◌++◌,
  if◌then◌else◌,
}
use key_hub.Models.{Bytes, Credential, LlmKey, llm_key_test}
use key_hub.Store.Defs.{Outcome, ok, fail, reveal_raw}
use key_hub.Balancer.State.{Balancer}
use key_hub.Balancer.Slots.{slots, mark-Freed}
use key_hub.Providers.{ProviderConfig, get_provider}
use key_hub.Proxy.World.{Env, World, Try}
use key_hub.Proxy.Attempt.{credential_of, name_or_id}
use key_hub.LlmApi.{
  noted, KeyTest, no_provider, tested, key_row, models_request, is_success, report_test,
  test_secret, test_cfg, test_row, test_key,
}

abbrev pub was_tested : KeyTest → Bool
was_tested (tested success latency_ms) = true
was_tested _ = false

-- One slot less of the key where it was tested, as far as there was one.
abbrev pub LosesSlot : String → Balancer → World × KeyTest → Type 0
LosesSlot key_id b x =
    (j : String)
    → slots x.0.balancer j
      ≡ (if was_tested x.1 && str_eq key_id j then slots b key_id - 1 else slots b j)

module _ (env : Env) (key_id : String) (t : Try) (actor : String) (now : ℕ) where
  report_test-LosesSlot :
      (w : World) (success : Bool)
      → LosesSlot key_id w.balancer (report_test env w key_id t actor now success)
  unfolding report_test
  report_test-LosesSlot w true =
      (mark-Freed true w.balancer w.llm_keys t.marked_at key_id none (some t.latency_ms)).0
  report_test-LosesSlot w false =
      let (_, given, _) = mark-Freed true w.balancer w.llm_keys t.marked_at key_id none none in
      given

  test_secret-LosesSlot :
      (w : World) (cfg : ProviderConfig) (secret : Outcome Bytes)
      → LosesSlot key_id w.balancer (test_secret env w cfg key_id t actor now secret)
  unfolding test_secret
  test_secret-LosesSlot w cfg (fail e) = λ j. refl
  test_secret-LosesSlot w cfg (ok api_key) =
      report_test-LosesSlot (record w { sent = w.sent ++ models_request cfg api_key ∷ [] })
        (is_success t.reply)

  if_url :
      (b : Balancer) (empty : Bool) (x y : World × KeyTest)
      → LosesSlot key_id b x
      → LosesSlot key_id b y
      → LosesSlot key_id b (if empty then x else y)
  if_url b true x y p q = p
  if_url b false x y p q = q

  test_cfg-LosesSlot :
      (w : World) (cred : Credential) (cfg : Option ProviderConfig)
      → LosesSlot key_id w.balancer (test_cfg env w key_id cred t actor now cfg)
  unfolding test_cfg
  test_cfg-LosesSlot w cred none = λ j. refl
  test_cfg-LosesSlot w cred (some cfg) =
      let secret =
        reveal_raw env.crypto w.vault key_id cred.encrypted_value (name_or_id env cred key_id) in
      if_url w.balancer (str_eq cfg.base_url "")
        (noted w llm_key_test actor key_id false now, no_provider)
        (test_secret env w cfg key_id t actor now secret) (λ j. refl)
        (test_secret-LosesSlot w cfg secret)

  test_row-LosesSlot :
      (w : World) (k : Option LlmKey) (cred : Option Credential)
      → LosesSlot key_id w.balancer (test_row env w key_id t actor now k cred)
  unfolding test_row
  test_row-LosesSlot w none cred = λ j. refl
  test_row-LosesSlot w (some k) none = λ j. refl
  test_row-LosesSlot w (some k) (some cred) = test_cfg-LosesSlot w cred (get_provider k.provider)

-- A test of a key that asks its provider, whatever comes of it, takes one slot off the key, if any is taken,
-- though it took none; the slots of other keys stay as they were, and so do all where no provider was asked.
pub test_key-LosesSlot :
    (env : Env) (w : World) (key_id : String) (t : Try) (actor : String) (now : ℕ) (j : String)
    → let (w', answer) = test_key env w key_id t actor now in
      slots w'.balancer j ≡ (
        if was_tested answer && str_eq key_id j
        then slots w.balancer key_id - 1
        else slots w.balancer j)
unfolding test_key
test_key-LosesSlot env w key_id t actor now j =
    test_row-LosesSlot env key_id t actor now w (key_row w key_id) (credential_of env w key_id) j
