-- ===== src/Balancer/Rounds.antt =====
-- Round robin of keyhub/llm/balancer.py: the cursor goes through the group in a circle.
use native.Mathlib.Nat.{mod-add-mod, mod-eq_of_lt, mod-lt}
use key_hub.Common.{
  ℕ, zero, suc, ◌+◌, ◌%◌, max, ◌<◌, ◌≡◌, sym, ap, ◌∙◌, String, eq_iff, Option, List, [], arith,
  keep, length, get_elem?,
}
use key_hub.Models.{LlmKey, is_circuit_breaker}
use key_hub.Balancer.State.{Clock, Balancer, count_of, cursor, advance}
use key_hub.Balancer.Select.{round_robin, top_group, by_strategy, select_key}
use key_hub.Balancer.Breaker.{count_of-insert}

module _ (choices : List LlmKey → List ℕ → Option LlmKey) (candidates : List LlmKey)
    (provider : String) (clock : Clock) where
  -- The state after `i` selections from the same candidates.
  pub after_rounds : Balancer → ℕ → Balancer
  after_rounds b zero = b
  after_rounds b (suc i) =
      (select_key choices round_robin (after_rounds b i) candidates provider clock).0

  module _ (no_trial : keep (λ k. is_circuit_breaker k.status) (top_group candidates) ≡ [])
      (some_key : 0 < length (top_group candidates)) where
    select_key-cursor :
        (b : Balancer)
        → cursor (select_key choices round_robin b candidates provider clock).0 provider
          ≡ (cursor b provider + 1) % length (top_group candidates)
    unfolding select_key by_strategy advance
    select_key-cursor b =
        let n = length (top_group candidates) in
        let e : max n 1 ≡ n = omega arith in
        rw (no_trial, select_key)
          (ground (
            arith,
            e,
            eq_iff provider provider,
            count_of-insert b.cursors provider provider
                ((count_of b.cursors provider + 1) % max n 1),
          ))

    select_key-get_elem? :
        (b : Balancer)
        → (select_key choices round_robin b candidates provider clock).1
          ≡ get_elem? (top_group candidates) (cursor b provider % length (top_group candidates))
    unfolding select_key by_strategy
    select_key-get_elem? b = rw (no_trial, select_key)

    after_rounds-cursor :
        (b : Balancer) (i : ℕ)
        → cursor (after_rounds b i) provider % length (top_group candidates)
          ≡ (cursor b provider + i) % length (top_group candidates)
    unfolding after_rounds
    after_rounds-cursor b zero = ap (λ c. c % length (top_group candidates)) (omega arith)
    after_rounds-cursor b (suc i) =
        let n = length (top_group candidates) in
        let c = cursor (after_rounds b i) provider in
        let c0 = cursor b provider in
        let bound : (c + 1) % n < n = mod-lt (c + 1) some_key in
        let same : (c % n + 1) % n ≡ (c + 1) % n = mod-add-mod c n 1 in
        let same0 : ((c0 + i) % n + 1) % n ≡ (c0 + i + 1) % n = mod-add-mod (c0 + i) n 1 in
        let step : (c + 1) % n ≡ (c0 + i + 1) % n =
          sym same ∙ ap (λ x. (x + 1) % n) (after_rounds-cursor b i) ∙ same0 in
        rw select_key-cursor
          (mod-eq_of_lt {m = n} bound ∙ step ∙ ap (λ (x : ℕ). x % n) (omega arith))

    -- Round robin: with no key on trial, the selection after `i` others takes the key of the top
    -- group at the place that the cursor had at first, moved on by `i`, in a circle.
    pub rounds-get_elem? :
        (b : Balancer) (i : ℕ)
        → (select_key choices round_robin (after_rounds b i) candidates provider clock).1
          ≡ get_elem?
              (top_group candidates)
              ((cursor b provider + i) % length (top_group candidates))
    rounds-get_elem? b i = rw select_key-get_elem? (rw (after_rounds-cursor b i))
