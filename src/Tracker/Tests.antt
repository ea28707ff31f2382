-- ===== src/Tracker/Tests.antt =====
-- Tests and instances for keyhub/llm/tracker.py.
use key_hub.Common.{◌≡◌, refl, true, none, some, [], ◌∷◌, ◌++◌, map, find}
use key_hub.Common.Dict.{lookup, insert}
use key_hub.Models.{LlmKey, LlmKeyStatus, UsageLog}
use key_hub.Balancer.Mark.{update_key}
use key_hub.Tracker.{Usage, usage_log, record_usage, charge, aggregate_cost}
use key_hub.Tracker.Totals.{record_all, with_calls, record_all-with_calls}

abbrev key : LlmKey
key = record {
  id = "k";
  credential_id = "c";
  provider = "openai";
  label = "main";
  allowed_models = [];
  status = LlmKeyStatus.active;
  cooldown_until = none;
  priority = 0;
  weight = 1;
  monthly_budget_usd = 0;
  avg_latency_ms = 0;
  total_requests = 4;
  total_prompt_tokens = 10;
  total_completion_tokens = 20;
  estimated_cost_usd = 7;
}

abbrev call : UsageLog
call = usage_log "k" "gpt-4o" 3 5 2 100 true none 0

abbrev usage : Usage
usage = record { llm_keys = key ∷ []; logs = [] }

-- A call of a key that is gone.
abbrev lost : UsageLog
lost = usage_log "gone" "gpt-4o" 3 5 2 100 true none 0

record_all-with_calls_example :
    ((record_all usage (call ∷ lost ∷ call ∷ [])).llm_keys
      ≡ map (λ k. with_calls k (call ∷ lost ∷ call ∷ [])) (key ∷ []))
    × ((record_all usage (call ∷ lost ∷ call ∷ [])).logs ≡ [] ++ call ∷ call ∷ [])
unfolding usage_log
record_all-with_calls_example = record_all-with_calls (call ∷ lost ∷ call ∷ []) usage

adds :
    (record_usage usage call).llm_keys
    ≡ record key {
      total_requests = 5;
      total_prompt_tokens = 13;
      total_completion_tokens = 25;
      estimated_cost_usd = 9;
    }
      ∷ []
unfolding record_usage charge usage_log update_key
adds = refl

twice :
    aggregate_cost (key ∷ []) (some "openai") (call ∷ call ∷ [])
    ≡ ("openai", record { cost_usd = 4; total_tokens = 16; calls = 2 }) ∷ []
unfolding aggregate_cost usage_log find lookup insert
twice = refl
