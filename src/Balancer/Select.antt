-- ===== src/Balancer/Select.antt =====
-- keyhub/llm/balancer.py: the choice among the keys that may be picked.
use Prim.Native.String.{compare}
use text.Mathlib.Text.{is_lt}
use key_hub.Common.{
  ℕ, ◌%◌, max, String, str_eq, Bool, true, not, ◌&&◌, ◌||◌, Option, none, some, List, [], ◌∷◌, map,
  ltb, ◌==◌, if◌then◌else◌, keep, length, get_elem?,
}
use key_hub.Models.{LlmKey, is_circuit_breaker}
use key_hub.Balancer.State.{Clock, Balancer, count_of, cursor, advance, claim_half_open, acquire}
use key_hub.Balancer.Query.{query_active_keys}

-- `llm_balance_strategy`; any other text means round robin.
pub data Strategy : Type 0 where
  round_robin latency cost weighted least_used : Strategy

unfoldable pub max_priority : List LlmKey → ℕ
max_priority [] = 0
max_priority (k ∷ ks) = max k.priority (max_priority ks)

abbrev pub text_lt : String → String → Bool
text_lt s t = is_lt (compare s t)

-- The order of Python on the pairs `(n, id)`.
abbrev pub pair_lt : ℕ × String → ℕ × String → Bool
pair_lt (m, s) (n, t) = ltb m n || ((m == n) && text_lt s t)

-- `min(xs, key=...)`: the first of the smallest.
unfoldable pub min_by : (LlmKey → ℕ × String) → LlmKey → List LlmKey → LlmKey
min_by f best [] = best
min_by f best (k ∷ ks) = min_by f (if pair_lt (f k) (f best) then k else best) ks

-- `k.avg_latency_ms or 999999`
abbrev pub latency_or_last : LlmKey → ℕ
latency_or_last k = if k.avg_latency_ms == 0 then 999999 else k.avg_latency_ms

abbrev pub top_group : List LlmKey → List LlmKey
top_group candidates = keep (λ k. k.priority == max_priority candidates) candidates

abbrev pub smallest : (LlmKey → ℕ × String) → List LlmKey → Option LlmKey
smallest f [] = none
smallest f (k ∷ ks) = some (min_by f k ks)

-- `sorted({...})`: in order, each once.
unfoldable pub insert_sorted : String → List String → List String
insert_sorted p [] = p ∷ []
insert_sorted p (q ∷ qs) =
    if str_eq p q then q ∷ qs else (if text_lt p q then p ∷ q ∷ qs else q ∷ insert_sorted p qs)

unfoldable pub sorted_set : List String → List String
sorted_set [] = []
sorted_set (p ∷ ps) = insert_sorted p (sorted_set ps)

-- What `pick` does behind the selection.
abbrev pub take_slot : Balancer × Option LlmKey → Balancer × Option LlmKey
take_slot (b, none) = (b, none)
take_slot (b, some k) = (acquire b k.id, some k)

-- `random.choices` of the standard library draws one of the keys that it is given.
module _ (choices : List LlmKey → List ℕ → Option LlmKey) where
  -- The branch of `_select_key` for a group with no key on trial.
  unfoldable pub by_strategy : Strategy → Balancer → List LlmKey → String → Balancer × Option LlmKey
  by_strategy latency b top provider = (b, smallest (λ k. (latency_or_last k, k.id)) top)
  by_strategy cost b top provider = (b, smallest (λ k. (k.estimated_cost_usd, k.id)) top)
  by_strategy weighted b top provider = (b, choices top (map (λ k. max k.weight 1) top))
  by_strategy least_used b top provider = (b, smallest (λ k. (count_of b.inflight k.id, k.id)) top)
  by_strategy round_robin b top provider =
      (advance b provider (length top), get_elem? top (cursor b provider % length top))

  -- `_select_key`; `none` is the `ValueError` of an empty list of candidates. The answer of
  -- `_claim_half_open` is dropped, as in the source.
  unfoldable pub select_key :
      Strategy → Balancer → List LlmKey → String → Clock → Balancer × Option LlmKey
  select_key strategy b candidates provider clock =
      let top = top_group candidates in
      elim (keep (λ k. is_circuit_breaker k.status) top) [
        | [] ↦ by_strategy strategy b top provider
        | chosen ∷ _ ↦ ((claim_half_open b chosen.id clock.mono).0, some chosen)
      ]

  -- `pick` behind the query; `none` is `NoAvailableKeyError`.
  unfoldable pub pick_from :
      Strategy → Balancer → List LlmKey → String → Clock → Balancer × Option LlmKey
  pick_from strategy b [] provider clock = (b, none)
  pick_from strategy b (k ∷ ks) provider clock =
      take_slot (select_key strategy b (k ∷ ks) provider clock)

  -- `pick`: the state, the table, and the key.
  unfoldable pub pick :
      Strategy
      → Bool
      → Balancer
      → List LlmKey
      → Clock
      → String
      → Option String
      → Balancer × List LlmKey × Option LlmKey
  pick strategy db_up b rows clock provider model =
      let (b', rows', actives) = query_active_keys db_up b rows clock (some provider) model in
      let (b'', chosen) = pick_from strategy b' actives provider clock in (b'', rows', chosen)

  -- The loop over the providers of `pick_cross_provider`.
  unfoldable pub first_provider :
      Strategy → Balancer → List LlmKey → Clock → List String → Balancer × Option (String × LlmKey)
  first_provider strategy b actives clock [] = (b, none)
  first_provider strategy b actives clock (prov ∷ provs) =
      let rest = first_provider strategy b actives clock provs in
      elim (keep (λ k. str_eq k.provider prov) actives) [
        | [] ↦ rest
        | k ∷ ks ↦
            let (b', chosen) = take_slot (select_key strategy b (k ∷ ks) prov clock) in
            elim chosen [ none ↦ (b', none) | some c ↦ (b', some (prov, c)) ]
      ]

  -- `pick_cross_provider`
  unfoldable pub pick_cross_provider :
      Strategy
      → Bool
      → Balancer
      → List LlmKey
      → Clock
      → Option String
      → Option String
      → Balancer × List LlmKey × Option (String × LlmKey)
  pick_cross_provider strategy db_up b rows clock model exclude =
      let (b', rows', all_actives) = query_active_keys db_up b rows clock none model in
      let actives =
        keep (λ (k : LlmKey). elim exclude [ none ↦ true | some p ↦ not (str_eq k.provider p) ])
          all_actives in
      let (b'', found) =
        first_provider strategy b' actives clock (sorted_set (map (λ k. k.provider) actives)) in
      (b'', rows', found)
