-- ===== src/Tracker.antt =====
-- keyhub/llm/tracker.py: what each call adds to the log of usage and to the totals of its key, and
-- the costs by provider. Costs are in millionths of a dollar, so that rounding a sum to six places
-- changes nothing.
mod Totals
mod Tests
use key_hub.Common.{
  ℕ, ◌+◌, String, str_eq, Bool, true, Option, none, some, List, [], ◌∷◌, ◌++◌, if◌then◌else◌, find,
  any,
}
use key_hub.Common.Dict.{Dict, lookup, insert}
use key_hub.Models.{LlmKey, UsageLog}
use key_hub.Balancer.Mark.{update_key}

-- The tables.
pub record Usage : Type 0 where
  pub llm_keys : List LlmKey
  pub logs : List UsageLog

-- A row of a key that is gone breaks the foreign key of the log.
abbrev pub is_known : List LlmKey → UsageLog → Bool
is_known rows log = any (λ k. str_eq k.id log.llm_key_id) rows

-- The `UPDATE` of the key of a call.
unfoldable pub charge : UsageLog → List LlmKey → List LlmKey
charge log rows =
    update_key true log.llm_key_id
      (λ k. record k {
        total_requests = k.total_requests + 1;
        total_prompt_tokens = k.total_prompt_tokens + log.prompt_tokens;
        total_completion_tokens = k.total_completion_tokens + log.completion_tokens;
        estimated_cost_usd = k.estimated_cost_usd + log.cost_usd;
      })
      rows

-- `record_usage`, with the row that it adds. Where the key is gone, the transaction raises and
-- adds nothing; a call of the proxy has read its key just before.
unfoldable pub record_usage : Usage → UsageLog → Usage
unfolding charge
record_usage u log =
    if is_known u.llm_keys log
    then record { logs = u.logs ++ log ∷ []; llm_keys = charge log u.llm_keys }
    else u

-- The row of a call, with its sum of tokens.
unfoldable pub usage_log : String → String → ℕ → ℕ → ℕ → ℕ → Bool → Option String → ℕ → UsageLog
usage_log llm_key_id model prompt_tokens completion_tokens cost latency_ms success error now =
    record {
      llm_key_id = llm_key_id;
      model = model;
      prompt_tokens = prompt_tokens;
      completion_tokens = completion_tokens;
      total_tokens = prompt_tokens + completion_tokens;
      cost_usd = cost;
      latency_ms = latency_ms;
      success = success;
      error = error;
      created_at = now;
    }

pub record Spent : Type 0 where
  pub cost_usd : ℕ
  pub total_tokens : ℕ
  pub calls : ℕ

abbrev pub add_call : UsageLog → Option Spent → Spent
add_call log none = record { cost_usd = log.cost_usd; total_tokens = log.total_tokens; calls = 1 }
add_call log (some s) = record {
  cost_usd = log.cost_usd + s.cost_usd;
  total_tokens = log.total_tokens + s.total_tokens;
  calls = 1 + s.calls;
}

-- The join of a log row with its key.
abbrev pub provider_of : List LlmKey → UsageLog → Option String
provider_of keys log = elim (find (λ (k : LlmKey). str_eq k.id log.llm_key_id) keys) [
  | none ↦ none
  | some k ↦ some k.provider
]

abbrev pub wanted : Option String → String → Bool
wanted none provider = true
wanted (some p) provider = str_eq provider p

-- `aggregate_cost`: the groups of a query have no order.
unfoldable pub aggregate_cost : List LlmKey → Option String → List UsageLog → Dict Spent
aggregate_cost keys only [] = []
aggregate_cost keys only (log ∷ logs) =
    let rest = aggregate_cost keys only logs in
    elim (provider_of keys log) [
      | none ↦ rest
      | some p ↦ if wanted only p then insert p (add_call log (lookup p rest)) rest else rest
    ]
