-- ===== src/Balancer/Chosen.antt =====
-- What the strategies of keyhub/llm/balancer.py choose from.
use mathlib.Core.List.Memᴰ
use key_hub.Common.{
  ℕ, ◌≡◌, refl, inl, inr, String, Option, some, List, [], ◌∷◌, Bool-cases, keep, Memᴰ, mem-keep,
  mem-get_elem?, List-cases,
}
use key_hub.Models.{LlmKey, is_circuit_breaker}
use key_hub.Balancer.State.{Clock, Balancer}
use key_hub.Balancer.Select.{
  Strategy, round_robin, latency, cost, weighted, least_used, min_by, smallest, top_group,
  by_strategy, select_key, pair_lt,
}

-- `random.choices` draws from what it is given.
abbrev pub Draws : (List LlmKey → List ℕ → Option LlmKey) → Type 0
Draws choices = (xs : List LlmKey) (ws : List ℕ) (k : LlmKey) → choices xs ws ≡ some k → Memᴰ k xs

min_by-mem :
    (f : LlmKey → ℕ × String) (best : LlmKey) (ks : List LlmKey)
    → Memᴰ (min_by f best ks) (best ∷ ks)
unfolding min_by
min_by-mem f best [] = Memᴰ.head refl
min_by-mem f best (k ∷ ks) = elim (Bool-cases (pair_lt (f k) (f best))) [
  | inl e ↦ rw e (Memᴰ.tail (min_by-mem f k ks))
  | inr e ↦ rw e (elim (Memᴰ.cases_cons (min_by-mem f best ks)) [
    | inl same ↦ Memᴰ.head same
    | inr later ↦ Memᴰ.tail (Memᴰ.tail later)
  ])
]

smallest-mem :
    (f : LlmKey → ℕ × String) (ks : List LlmKey) (k : LlmKey) → smallest f ks ≡ some k → Memᴰ k ks
smallest-mem f [] k e = cc
smallest-mem f (x ∷ xs) k e = let same : min_by f x xs ≡ k = cc in rw same at (min_by-mem f x xs)

module _ (choices : List LlmKey → List ℕ → Option LlmKey) (draws : Draws choices) where
  pub by_strategy-mem :
      (s : Strategy) (b : Balancer) (top : List LlmKey) (provider : String) (k : LlmKey)
      → (by_strategy choices s b top provider).1 ≡ some k
      → Memᴰ k top
  unfolding by_strategy
  by_strategy-mem round_robin b top provider k e = mem-get_elem? top _ k e
  by_strategy-mem latency b top provider k e = smallest-mem _ top k e
  by_strategy-mem cost b top provider k e = smallest-mem _ top k e
  by_strategy-mem weighted b top provider k e = draws top _ k e
  by_strategy-mem least_used b top provider k e = smallest-mem _ top k e

  pub select_key-top :
      (s : Strategy) (b : Balancer) (candidates : List LlmKey) (provider : String) (clock : Clock)
      (k : LlmKey)
      → (select_key choices s b candidates provider clock).1 ≡ some k
      → Memᴰ k (top_group candidates)
  unfolding select_key
  select_key-top s b candidates provider clock k e =
      elim (List-cases (keep (λ c. is_circuit_breaker c.status) (top_group candidates))) [
        | inl no_trial ↦ by_strategy-mem s b _ provider k (rw (no_trial, select_key) at e)
        | inr (t, ts, trial) ↦
            let same : some t ≡ some k = rw (trial, select_key) at e in
            let found : Memᴰ t (keep (λ c. is_circuit_breaker c.status) (top_group candidates)) =
              rw trial (Memᴰ.head refl) in
            let t_is_k : t ≡ k = cc in
            let there : Memᴰ t (top_group candidates) =
              (mem-keep _ t (top_group candidates) found).0 in
            rw t_is_k at there
      ]
