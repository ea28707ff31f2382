-- ===== src/LlmApi.antt =====
-- keyhub/api/llm.py: the status of a key and its test. The models in the answer of a test are passed on, and
-- left out; the rest of the file passes on to the proxy and the tracker.
mod Tested
mod Tests
use key_hub.Common.{
  ℕ, String, str_eq, Bool, true, false, Option, none, some, List, [], ◌∷◌, ◌++◌, leb, find,
  if◌then◌else◌, append, strip_slashes,
}
use key_hub.Models.{
  Bytes, Credential, LlmKey, LlmKeyStatus, is_active, AuditAction, audit, llm_key_status,
  llm_key_test,
}
use key_hub.Store.Defs.{Outcome, ok, fail, reveal_raw}
use key_hub.Balancer.Mark.{update_key, mark_ok}
use key_hub.Providers.{ProviderConfig, get_provider}
use key_hub.Json.{end}
use key_hub.Proxy.Request.{HttpRequest, headers_of}
use key_hub.Proxy.World.{Env, World, Reply, answered, unreachable, Try}
use key_hub.Proxy.Attempt.{marked_error, credential_of, name_or_id}

-- The row after a change of its status.
abbrev pub with_status : LlmKeyStatus → LlmKey → LlmKey
with_status status k =
    if is_active status
    then record k { status = status; cooldown_until = none }
    else record k { status = status }

abbrev pub key_row : World → String → Option LlmKey
key_row w key_id = find (λ (k : LlmKey). str_eq k.id key_id) w.llm_keys

abbrev pub noted : World → AuditAction → String → String → Bool → ℕ → World
noted w action actor key_id success now = record w {
  audit_logs = audit action actor (some key_id) success now w.audit_logs;
}

-- `set_key_status`; `false` is the 404.
unfoldable pub set_key_status : World → String → LlmKeyStatus → String → ℕ → World × Bool
set_key_status w key_id status actor now = elim (key_row w key_id) [
  | none ↦ (w, false)
  | some k ↦ (
    noted (record w { llm_keys = update_key true key_id (with_status status) w.llm_keys })
        llm_key_status actor key_id true now,
    true,
  )
]

-- How a test of a key ends: a 404, no provider to ask, an exception that nothing catches, or an answer: whether
-- it was a success, with its latency.
pub data KeyTest : Type 0 where
  not_found no_provider uncaught : KeyTest
  tested : Bool → ℕ → KeyTest

-- The request for the models; it has no body.
abbrev pub models_request : ProviderConfig → Bytes → HttpRequest
models_request cfg api_key = record {
  url = append (strip_slashes cfg.base_url) "/v1/models";
  headers = headers_of cfg api_key;
  body = end;
}

abbrev pub is_success : Reply → Bool
is_success (unreachable message) = false
is_success (answered status retry_after json body) = if leb 400 status then false else true

module _ (env : Env) where
  abbrev pub marked_ok : World → String → ℕ → World
  marked_ok w key_id latency_ms =
      let (b, rows) = mark_ok true w.balancer w.llm_keys key_id (some latency_ms) in
      record w { balancer = b; llm_keys = rows }

  -- The report to the balancer and the row of the audit log.
  unfoldable pub report_test : World → String → Try → String → ℕ → Bool → World × KeyTest
  report_test w key_id t actor now true = (
    noted (marked_ok w key_id t.latency_ms) llm_key_test actor key_id true now,
    tested true t.latency_ms,
  )
  report_test w key_id t actor now false = (
    noted (marked_error env w key_id t) llm_key_test actor key_id false now,
    tested false t.latency_ms,
  )

  unfoldable pub test_secret :
      World → ProviderConfig → String → Try → String → ℕ → Outcome Bytes → World × KeyTest
  test_secret w cfg key_id t actor now (fail e) = (w, uncaught)
  test_secret w cfg key_id t actor now (ok api_key) =
      report_test (record w { sent = w.sent ++ models_request cfg api_key ∷ [] }) key_id t actor now
        (is_success t.reply)

  unfoldable pub test_cfg :
      World → String → Credential → Try → String → ℕ → Option ProviderConfig → World × KeyTest
  test_cfg w key_id cred t actor now none =
      (noted w llm_key_test actor key_id false now, no_provider)
  test_cfg w key_id cred t actor now (some cfg) =
      if str_eq cfg.base_url ""
      then (noted w llm_key_test actor key_id false now, no_provider)
      else test_secret w cfg key_id t actor now
          (reveal_raw env.crypto w.vault key_id cred.encrypted_value (name_or_id env cred key_id))

  -- The join of the key with its credential.
  unfoldable pub test_row :
      World → String → Try → String → ℕ → Option LlmKey → Option Credential → World × KeyTest
  test_row w key_id t actor now none cred = (w, not_found)
  test_row w key_id t actor now (some k) none = (w, not_found)
  test_row w key_id t actor now (some k) (some cred) =
      test_cfg w key_id cred t actor now (get_provider k.provider)

  -- `test_key`
  unfoldable pub test_key : World → String → Try → String → ℕ → World × KeyTest
  test_key w key_id t actor now =
      test_row w key_id t actor now (key_row w key_id) (credential_of env w key_id)
