-- ===== src/Proxy/World.antt =====
-- keyhub/llm/proxy.py: what a call reads and writes, and what comes from outside: the settings, the
-- libraries, the clocks and the answer of the provider. Calls run one after the other, so a wait for
-- a permit of the semaphore ends in its time-out where none is left. The database answers.
use key_hub.Common.{ℕ, zero, suc, ◌+◌, String, Bool, Option, none, some, List, first_chars}
use key_hub.Common.Dict.{Dict}
use key_hub.Models.{Bytes, Credential, LlmKey, UsageLog, AuditLog}
use key_hub.Crypto.{CryptoLib}
use key_hub.Aliases.{JsonLib, ModelAliasManager}
use key_hub.Keylimit.{KeyRateLimiter, Limits}
use key_hub.Balancer.State.{Clock, Balancer}
use key_hub.Balancer.Select.{Strategy}
use key_hub.Providers.{ProviderConfig, Rounding, estimate_cost}
use key_hub.Tracker.{record_usage, usage_log}
use key_hub.Latency.{LatencyStats}
use key_hub.Json.{Value}
use key_hub.Proxy.Request.{Call, HttpRequest, backoff_wait}

-- The settings (`llm_enable_cross_provider_fallback`, `llm_cache_ttl`, `llm_connect_timeout`, the limits of keys, the
-- strategy), and the libraries: the cipher, JSON of the aliases, the rounding of costs, the draw of
-- a key, the digest of a call, `str.lower` and `int` of a text.
pub record Env : Type 0 where
  pub fallback : Bool
  pub cache_ttl : ℕ
  pub connect_timeout : ℕ
  pub limits : Limits
  pub strategy : Strategy
  pub crypto : CryptoLib
  pub json : JsonLib
  pub rounding : Rounding
  pub choices : List LlmKey → List ℕ → Option LlmKey
  pub make_key : Call → String
  pub lower : String → String
  pub int_text : String → Option ℕ

-- The state of the process and the tables. `permits` is the semaphore's count, none without a limit;
-- `notices` are the keys that a notice was sent of, `sent` the requests that went out, `slept` the waits before rounds.
pub record World : Type 0 where
  pub balancer : Balancer
  pub llm_keys : List LlmKey
  pub credentials : List Credential
  pub logs : List UsageLog
  pub audit_logs : List AuditLog
  pub limiter : KeyRateLimiter
  pub cache : Dict (Value × ℕ)
  pub aliases : ModelAliasManager
  pub latency : LatencyStats
  pub vault : Option Bytes
  pub permits : Option ℕ
  pub notices : List String
  pub sent : List HttpRequest
  pub slept : ℕ

-- What the provider answers: a status with the seconds of `Retry-After` in milliseconds, the JSON of
-- the body, if it is JSON, and its text; or no answer but an `httpx.RequestError`.
pub data Reply : Type 0 where
  answered : ℕ → Option ℕ → Option Value → String → Reply
  unreachable : String → Reply

-- What an attempt draws and reads from outside: the jitter, the times, the answer, and the text of
-- the `ValueError` if parsing raises one.
pub record Try : Type 0 where
  pub jitter : ℕ
  pub picked_at : Clock
  pub fallback_at : Clock
  pub checked_at : ℕ
  pub reply : Reply
  pub latency_ms : ℕ
  pub marked_at : Clock
  pub counted_at : ℕ
  pub cached_at : ℕ
  pub parse_error : String

-- The variables of the loop that change.
pub record Progress : Type 0 where
  pub current_provider : String
  pub current_cfg : ProviderConfig
  pub last_error : Option String
  pub fallback_tried : Bool

-- How an attempt ends: `continue`, an answer, an `LLMProxyError`, or an exception of another kind
-- that nothing catches.
pub data Step : Type 0 where
  again : World → Progress → Step
  finished : World → Progress → Value → Step
  stopped : World → String → Step
  crashed : World → Step

abbrev pub failed : Progress → String → Progress
failed p message = record p { last_error = some message }

-- `_acquire_semaphore` succeeds, or there is no permit left.
abbrev pub take_permit : Option ℕ → Option (Option ℕ)
take_permit none = some none
take_permit (some zero) = none
take_permit (some (suc n)) = some (some n)

-- How long `_acquire_semaphore` waits, in milliseconds: its time-out where there is no permit left.
abbrev pub permit_wait : Env → Option ℕ → ℕ
permit_wait env none = 0
permit_wait env (some zero) = env.connect_timeout
permit_wait env (some (suc n)) = 0

-- The waits at the start of a round: the back-off, and the wait for a permit.
unfoldable pub round_wait : Env → Option ℕ → ℕ → ℕ → ℕ
round_wait env permits attempt jitter = backoff_wait attempt jitter + permit_wait env permits

-- `_release_semaphore`
abbrev pub give_permit : World → World
give_permit w = record w { permits = elim w.permits [ none ↦ none | some n ↦ some (n + 1) ] }

-- A row of the log of usage, with the totals of the key.
unfoldable pub log_call :
    Env → World → Try → String → String → String → ℕ → ℕ → Bool → Option String → World
log_call env w t key_id provider model prompt_tokens completion_tokens success error =
    let u =
      record_usage (record { llm_keys = w.llm_keys; logs = w.logs })
        (usage_log key_id model prompt_tokens completion_tokens
          (estimate_cost env.rounding provider model prompt_tokens completion_tokens) t.latency_ms
          success error t.marked_at.wall) in
    record w { llm_keys = u.llm_keys; logs = u.logs }

-- `err_msg[:500] if err_msg else None`
abbrev pub shortened : String → Option String
shortened String.[] = none
shortened (String.◌∷◌ c s) = some (first_chars 500 (String.◌∷◌ c s))
