-- ===== src/Tracker/Totals.antt =====
-- The totals of keyhub/llm/tracker.py add up.
use key_hub.Common.{
  ap, Bool-cases, ℕ, ◌+◌, ◌≡◌, refl, sym, ◌∙◌, inl, inr, String, str_eq, eq_iff, Bool, false,
  Option, none, some, List, [], ◌∷◌, ◌++◌, arith, if◌then◌else◌, map, keep, length, Option-cases,
}
use mathlib.Core.List.{append-nil, append_assoc}
use key_hub.Common.Dict.{lookup, lookup-insert}
use key_hub.Models.{LlmKey, UsageLog}
use key_hub.Balancer.Mark.{update_key}
use key_hub.Tracker.{
  Usage, record_usage, is_known, charge, Spent, add_call, provider_of, wanted, aggregate_cost,
}

pub sum_by {ℓ} : {A : Type ℓ} → (A → ℕ) → List A → ℕ
sum_by f [] = 0
sum_by f (x ∷ xs) = f x + sum_by f xs

-- The rows of the log of one key.
abbrev pub of_key : String → List UsageLog → List UsageLog
of_key id logs = keep (λ log. str_eq log.llm_key_id id) logs

pub record_all : Usage → List UsageLog → Usage
record_all u [] = u
record_all u (log ∷ logs) = record_all (record_usage u log) logs

-- What a key's row is after calls, if it was `k` before.
abbrev pub with_calls : LlmKey → List UsageLog → LlmKey
with_calls k logs = record k {
  total_requests = k.total_requests + length (of_key k.id logs);
  total_prompt_tokens =
      k.total_prompt_tokens + sum_by (λ log. log.prompt_tokens) (of_key k.id logs);
  total_completion_tokens =
      k.total_completion_tokens + sum_by (λ log. log.completion_tokens) (of_key k.id logs);
  estimated_cost_usd = k.estimated_cost_usd + sum_by (λ log. log.cost_usd) (of_key k.id logs);
}

with_calls-step :
    (log : UsageLog) (logs : List UsageLog) (rows : List LlmKey)
    → map (λ k. with_calls k logs) (charge log rows) ≡ map (λ k. with_calls k (log ∷ logs)) rows
unfolding charge update_key sum_by
with_calls-step log logs [] = refl
with_calls-step log logs (k ∷ ks) =
    ground
      (arith, with_calls-step log logs ks, eq_iff k.id log.llm_key_id, eq_iff log.llm_key_id k.id)

charge-unknown :
    (log : UsageLog) (rows : List LlmKey) → is_known rows log ≡ false → charge log rows ≡ rows
unfolding charge update_key
charge-unknown log [] e = refl
charge-unknown log (k ∷ ks) e = ground (arith, charge-unknown log ks)

is_known-charge :
    (log l : UsageLog) (rows : List LlmKey) → is_known (charge log rows) l ≡ is_known rows l
unfolding charge update_key
is_known-charge log l [] = refl
is_known-charge log l (k ∷ ks) = ground (arith, is_known-charge log l ks)

record_usage-charge :
    (u : Usage) (log : UsageLog) → (record_usage u log).llm_keys ≡ charge log u.llm_keys
unfolding record_usage
record_usage-charge u log = ground (arith, charge-unknown log u.llm_keys)

record_usage-keep :
    (u : Usage) (log : UsageLog) (logs : List UsageLog)
    → (record_usage u log).logs ++ keep (is_known u.llm_keys) logs
      ≡ u.logs ++ keep (is_known u.llm_keys) (log ∷ logs)
unfolding record_usage
record_usage-keep u log logs = elim (Bool-cases (is_known u.llm_keys log)) [
  | inl there ↦ rw there (append_assoc u.logs (log ∷ []) (keep (is_known u.llm_keys) logs))
  | inr gone ↦ rw gone refl
]

keep-is_known :
    (log : UsageLog) (rows : List LlmKey) (logs : List UsageLog)
    → keep (is_known (charge log rows)) logs ≡ keep (is_known rows) logs
keep-is_known log rows [] = refl
keep-is_known log rows (l ∷ logs) =
    ground (arith, is_known-charge log l rows, keep-is_known log rows logs)

no_calls : (rows : List LlmKey) → rows ≡ map (λ k. with_calls k []) rows
unfolding sum_by
no_calls [] = refl
no_calls (k ∷ ks) = ground (arith, no_calls ks)

-- After any calls are recorded, each key's totals are those before plus the count and the sums of
-- its own rows among the new ones, with nothing else of its row changed but the time of its last
-- change, which is left out; and the log has gained the rows of keys that exist.
pub record_all-with_calls :
    (logs : List UsageLog) (u : Usage)
    → ((record_all u logs).llm_keys ≡ map (λ k. with_calls k logs) u.llm_keys)
      × ((record_all u logs).logs ≡ u.logs ++ keep (is_known u.llm_keys) logs)
unfolding record_all
record_all-with_calls [] u = (no_calls u.llm_keys, sym (append-nil u.logs))
record_all-with_calls (log ∷ logs) u =
    let (rows, all) = record_all-with_calls logs (record_usage u log) in
    let same = record_usage-charge u log in
    (
      rows ∙ ap (map (λ k. with_calls k logs)) same ∙ with_calls-step log logs u.llm_keys,
      all
          ∙ ap (λ ks. (record_usage u log).logs ++ keep (is_known ks) logs) same
          ∙ ap (λ more. (record_usage u log).logs ++ more) (keep-is_known log u.llm_keys logs)
          ∙ record_usage-keep u log logs,
    )

-- The rows that are charged to a provider.
abbrev pub charged_to : List LlmKey → String → UsageLog → Bool
charged_to keys provider log = elim (provider_of keys log) [
  | none ↦ false
  | some p ↦ str_eq p provider
]

-- The sums of some rows; a group with no rows is not there.
pub summed : List UsageLog → Option Spent
summed [] = none
summed (log ∷ logs) = some (record {
  cost_usd = sum_by (λ l. l.cost_usd) (log ∷ logs);
  total_tokens = sum_by (λ l. l.total_tokens) (log ∷ logs);
  calls = length (log ∷ logs);
})

add_call-summed :
    (log : UsageLog) (logs : List UsageLog)
    → some (add_call log (summed logs)) ≡ summed (log ∷ logs)
unfolding sum_by summed
add_call-summed log [] = ground arith
add_call-summed log (l ∷ logs) = ground arith

-- The costs by provider are, for each provider that is asked for, the sums over all rows of the log
-- whose key is one of its keys.
pub aggregate_cost-eq-summed :
    (keys : List LlmKey) (only : Option String) (logs : List UsageLog) (provider : String)
    → lookup provider (aggregate_cost keys only logs)
      ≡ (if wanted only provider then summed (keep (charged_to keys provider) logs) else none)
unfolding aggregate_cost lookup
aggregate_cost-eq-summed keys only [] provider = unfold summed in ground arith
aggregate_cost-eq-summed keys only (log ∷ logs) provider =
    let rest = aggregate_cost keys only logs in
    let ih = aggregate_cost-eq-summed keys only logs provider in
    elim (Option-cases (provider_of keys log)) [
      | inl no_key ↦ ground (arith, no_key, ih)
      | inr (p, there) ↦ ground (
        arith,
        there,
        ih,
        eq_iff p provider,
        lookup-insert p provider (add_call log (lookup p rest)) rest,
        add_call-summed log (keep (charged_to keys provider) logs),
      )
    ]
