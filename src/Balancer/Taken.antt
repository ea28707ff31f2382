-- ===== src/Balancer/Taken.antt =====
-- The slot that a selection of keyhub/llm/balancer.py takes.
use key_hub.Common.{
  ℕ, ◌+◌, ◌≡◌, refl, ap, ◌∙◌, inl, inr, String, str_eq, eq_iff, true, Option, none, some, List, [],
  ◌∷◌, arith, if◌then◌else◌, List-cases, keep,
}
use key_hub.Models.{LlmKey, is_circuit_breaker}
use key_hub.Balancer.State.{Clock, Balancer, count_of, advance, claim_half_open}
use key_hub.Balancer.Query.{query_active_keys, cleanup}
use key_hub.Balancer.Select.{
  top_group, Strategy, round_robin, latency, cost, weighted, least_used, select_key, by_strategy,
  take_slot, pick_from, pick, first_provider, pick_cross_provider,
}
use key_hub.Balancer.Slots.{slots, slots-acquire, forget_all-inflight}

-- One slot more of a key, or as before.
abbrev pub Taken : Option LlmKey → Balancer → Balancer → Type 0
Taken none b b' = (j : String) → slots b' j ≡ slots b j
Taken (some k) b b' =
    (j : String) → slots b' j ≡ (if str_eq k.id j then slots b j + 1 else slots b j)

take_slot-Taken :
    (x : Balancer × Option LlmKey) (b : Balancer)
    → x.0.inflight ≡ b.inflight
    → Taken (take_slot x).1 b (take_slot x).0
take_slot-Taken (a, none) b same = λ j. ap (λ d. count_of d j) same
take_slot-Taken (a, some k) b same = λ j. ground (
  arith,
  slots-acquire a k.id j,
  eq_iff k.id j,
  ap (λ d. count_of d j) same,
  ap (λ d. count_of d k.id) same,
)

module _ (choices : List LlmKey → List ℕ → Option LlmKey) where
  by_strategy-inflight :
      (s : Strategy) (b : Balancer) (top : List LlmKey) (provider : String)
      → (by_strategy choices s b top provider).0.inflight ≡ b.inflight
  unfolding by_strategy advance
  by_strategy-inflight round_robin b top provider = refl
  by_strategy-inflight latency b top provider = refl
  by_strategy-inflight cost b top provider = refl
  by_strategy-inflight weighted b top provider = refl
  by_strategy-inflight least_used b top provider = refl

  claim_half_open-inflight :
      (b : Balancer) (k : String) (t : ℕ) → (claim_half_open b k t).0.inflight ≡ b.inflight
  unfolding claim_half_open
  claim_half_open-inflight b k t = ground arith

  select_key-inflight :
      (s : Strategy) (b : Balancer) (ks : List LlmKey) (provider : String) (clock : Clock)
      → (select_key choices s b ks provider clock).0.inflight ≡ b.inflight
  unfolding select_key
  select_key-inflight s b ks provider clock =
      elim (List-cases (keep (λ k. is_circuit_breaker k.status) (top_group ks))) [
        | inl none_on_trial ↦
            ground (arith, none_on_trial, by_strategy-inflight s b (top_group ks) provider)
        | inr (k, rest, e) ↦ ground (arith, e, claim_half_open-inflight b k.id clock.mono)
      ]

  query-inflight :
      (b : Balancer) (rows : List LlmKey) (clock : Clock) (p m : Option String)
      → (query_active_keys true b rows clock p m).0.inflight ≡ b.inflight
  unfolding query_active_keys cleanup
  query-inflight b rows clock p m = forget_all-inflight _ b

  -- A selection that begins with the slots of `b`.
  select_key-Taken :
      (s : Strategy) (b b0 : Balancer) (ks : List LlmKey) (provider : String) (clock : Clock)
      → b.inflight ≡ b0.inflight
      → let (b', chosen) = take_slot (select_key choices s b ks provider clock) in
        Taken chosen b0 b'
  select_key-Taken s b b0 ks provider clock same =
      take_slot-Taken (select_key choices s b ks provider clock) b0
        (select_key-inflight s b ks provider clock ∙ same)

  pick_from-Taken :
      (s : Strategy) (b b0 : Balancer) (ks : List LlmKey) (provider : String) (clock : Clock)
      → b.inflight ≡ b0.inflight
      → let (b', chosen) = pick_from choices s b ks provider clock in Taken chosen b0 b'
  unfolding pick_from
  pick_from-Taken s b b0 [] provider clock same = λ j. ap (λ d. count_of d j) same
  pick_from-Taken s b b0 (k ∷ ks) provider clock same =
      select_key-Taken s b b0 (k ∷ ks) provider clock same

  -- `pick` takes one slot of the key that it hands out, and none where it finds no key.
  pub pick-Taken :
      (s : Strategy) (b : Balancer) (rows : List LlmKey) (clock : Clock) (provider : String)
      (model : Option String)
      → let (b', _, chosen) = pick choices s true b rows clock provider model in Taken chosen b b'
  unfolding pick
  pick-Taken s b rows clock provider model =
      let (b', _, actives) = query_active_keys true b rows clock (some provider) model in
      pick_from-Taken s b' b actives provider clock
        (query-inflight b rows clock (some provider) model)

  -- The key of a fallback.
  abbrev pub key_of : Option (String × LlmKey) → Option LlmKey
  key_of none = none
  key_of (some (provider, k)) = some k

  with_provider :
      (x : Balancer × Option LlmKey) (b : Balancer) (provider : String)
      → Taken x.1 b x.0
      → let found : Balancer × Option (String × LlmKey) = elim x.1 [
        | none ↦ (x.0, none)
        | some c ↦ (x.0, some (provider, c))
      ] in
        Taken (key_of found.1) b found.0
  with_provider (a, none) b provider h = h
  with_provider (a, some k) b provider h = h

  first_provider-Taken :
      (s : Strategy) (b b0 : Balancer) (actives : List LlmKey) (clock : Clock) (provs : List String)
      → b.inflight ≡ b0.inflight
      → let (b', found) = first_provider choices s b actives clock provs in
        Taken (key_of found) b0 b'
  unfolding first_provider
  first_provider-Taken s b b0 actives clock [] same = λ j. ap (λ d. count_of d j) same
  first_provider-Taken s b b0 actives clock (prov ∷ provs) same =
      elim (keep (λ (k : LlmKey). str_eq k.provider prov) actives)
        as (λ found.
          let out : Balancer × Option (String × LlmKey) = elim found [
            | [] ↦ first_provider choices s b actives clock provs
            | k ∷ ks ↦
                let (b', chosen) = take_slot (select_key choices s b (k ∷ ks) prov clock) in
                elim chosen [ none ↦ (b', none) | some c ↦ (b', some (prov, c)) ]
          ] in
          Taken (key_of out.1) b0 out.0) [
            | [] ↦ first_provider-Taken s b b0 actives clock provs same
            | k ∷ ks ↦
                with_provider (take_slot (select_key choices s b (k ∷ ks) prov clock)) b0 prov
                  (select_key-Taken s b b0 (k ∷ ks) prov clock same)
          ]

  -- `pick_cross_provider` takes one slot of the key that it hands out, and none where it finds none.
  pub pick_cross_provider-Taken :
      (s : Strategy) (b : Balancer) (rows : List LlmKey) (clock : Clock)
      (model exclude : Option String)
      → let (b', _, found) = pick_cross_provider choices s true b rows clock model exclude in
        Taken (key_of found) b b'
  unfolding pick_cross_provider
  pick_cross_provider-Taken s b rows clock model exclude =
      let (b', _, all_actives) = query_active_keys true b rows clock none model in
      first_provider-Taken s b' b _ clock _ (query-inflight b rows clock none model)
