-- ===== src/Balancer/Eligible.antt =====
-- Which keys keyhub/llm/balancer.py hands out.
use key_hub.Common.{
  ℕ, ◌≤◌, ◌≡◌, refl, ap, ◌⊎◌, inl, inr, String, str_eq, eq_iff, Bool, true, false, not, ◌&&◌,
  Option, none, some, List, [], ◌∷◌, arith, ◌==◌, Bool-cases, Option-cases, keep, Memᴰ, mem-keep,
  mem-keep_of,
}
use key_hub.Common.Dict.{keys, lookup, mem-keys}
use key_hub.Models.{LlmKey, is_circuit_breaker}
use key_hub.Balancer.State.{Clock, Balancer, cb_state}
use key_hub.Balancer.Query.{
  is_in, cleanup, model_allowed, provider_matches, cond_active, selected, is_broken, is_half_open,
  query_active_keys,
}
use key_hub.Balancer.Select.{Strategy, max_priority, top_group, take_slot, pick_from, pick}
use key_hub.Balancer.Chosen.{Draws, select_key-top}

is_in-mem : (x : String) (xs : List String) → is_in x xs ≡ true → Memᴰ x xs
is_in-mem x [] e = cc
is_in-mem x (y ∷ ys) e = elim (Bool-cases (str_eq x y)) [
  | inl same ↦ Memᴰ.head ((eq_iff x y).0 same)
  | inr other ↦ Memᴰ.tail (is_in-mem x ys (rw other at e))
]

mem-is_in : (x : String) (xs : List String) → Memᴰ x xs → is_in x xs ≡ true
mem-is_in x [] m = elim m [ ]
mem-is_in x (y ∷ ys) (Memᴰ.head e) = ground (arith, eq_iff x y)
mem-is_in x (y ∷ ys) (Memᴰ.tail m) = ground (arith, mem-is_in x ys m)

-- What makes a row fit for a pick: it is active with no cool-down left, or it is on the
-- breaker's trial.
abbrev pub Usable : Balancer → Clock → LlmKey → Type 0
Usable b clock k =
    (cond_active clock.wall k ≡ true)
    ⊎ ((is_circuit_breaker k.status ≡ true) × (is_half_open (cb_state b k.id clock.mono) ≡ true))

pub record Eligible (b : Balancer) (rows : List LlmKey) (clock : Clock)
    (provider model : Option String) (k : LlmKey) : Type 0 where
  pub listed : Memᴰ k rows
  pub offered : provider_matches provider k ≡ true
  pub allowed : model_allowed model k ≡ true
  pub usable : Usable b clock k
  pub unbroken : is_broken (cb_state b k.id clock.mono) ≡ false

unbroken_of :
    (b : Balancer) (t : ℕ) (id : String)
    → is_in id (keep (λ k. is_broken (cb_state b k t)) (keys b.cb_open_until)) ≡ false
    → is_broken (cb_state b id t) ≡ false
unbroken_of b t id e = elim (Bool-cases (is_broken (cb_state b id t))) [
  | inr sound ↦ sound
  | inl broken ↦ elim (Option-cases (lookup id b.cb_open_until)) [
    | inl none_open ↦ unfold cb_state in cc (rw (none_open, cb_state) at broken)
    | inr (v, open_until) ↦
        let there =
          mem-keep_of (λ k. is_broken (cb_state b k t)) id _
            (mem-keys id v b.cb_open_until open_until) broken in
        let listed = mem-is_in id _ there in cc
  ]
]

keep_of_is_in :
    (p : String → Bool) (x : String) (xs : List String) → is_in x (keep p xs) ≡ true → p x ≡ true
keep_of_is_in p x xs e = (mem-keep p x xs (is_in-mem x (keep p xs) e)).1

eq_false : (c : Bool) → not c ≡ true → c ≡ false
eq_false true e = cc
eq_false false e = refl

&&-both : (a c : Bool) → (a && c) ≡ true → (a ≡ true) × (c ≡ true)
&&-both a c e = ground arith

selected-Usable :
    (b : Balancer) (clock : Clock) (provider : Option String) (k : LlmKey)
    → selected provider clock.wall
        (keep (λ j. is_half_open (cb_state b j clock.mono)) (keys b.cb_open_until))
        k
      ≡ true
    → (provider_matches provider k ≡ true) × Usable b clock k
unfolding selected
selected-Usable b clock provider k e =
    let half = λ (j : String). is_half_open (cb_state b j clock.mono) in
    let (offered, rest) = &&-both _ _ e in
    (
      offered,
      elim (Bool-cases (cond_active clock.wall k)) [
        | inl ready ↦ inl ready
        | inr not_ready ↦
            let trial : (is_circuit_breaker k.status
                  && is_in k.id (keep half (keys b.cb_open_until)))
                ≡ true =
              ground (arith, rest) in
            let (tripped, listed) = &&-both _ _ trial in
            inr (tripped, keep_of_is_in half k.id _ listed)
      ],
    )

-- Every row that the query returns is eligible in the state that the query leaves.
pub query-Eligible :
    (db_up : Bool) (b : Balancer) (rows : List LlmKey) (clock : Clock)
    (provider model : Option String) (k : LlmKey)
    → let (b', rows', found) = query_active_keys db_up b rows clock provider model in
      Memᴰ k found → Eligible b' rows' clock provider model k
unfolding query_active_keys selected
query-Eligible db_up b rows clock provider model k m =
    let b' = (cleanup db_up b rows clock.mono).0 in
    let (m1, may_use) = mem-keep (model_allowed model) k _ m in
    let (m2, sound) = mem-keep _ k _ m1 in
    let half =
      keep (λ (j : String). is_half_open (cb_state b' j clock.mono)) (keys b'.cb_open_until) in
    let (m3, wanted) = mem-keep (selected provider clock.wall half) k _ m2 in
    let (offered, fit) = selected-Usable b' clock provider k wanted in
    record {
      listed = m3;
      offered = offered;
      allowed = may_use;
      usable = fit;
      unbroken = unbroken_of b' clock.mono k.id (eq_false _ sound);
    }

max_priority-ge : (k : LlmKey) (ks : List LlmKey) → Memᴰ k ks → k.priority ≤ max_priority ks
unfolding max_priority
max_priority-ge k [] m = elim m [ ]
max_priority-ge k (x ∷ xs) (Memᴰ.head e) =
    let same : k.priority ≡ x.priority = ap (λ (y : LlmKey). y.priority) e in omega arith
max_priority-ge k (x ∷ xs) (Memᴰ.tail m) = omega (arith, max_priority-ge k xs m)

==-true : (m n : ℕ) → (m == n) ≡ true → m ≡ n
==-true m n e = ground arith

take_slot-some :
    (r : Balancer × Option LlmKey) (k : LlmKey) → (take_slot r).1 ≡ some k → r.1 ≡ some k
take_slot-some (b, none) k e = e
take_slot-some (b, some c) k e = e

module _ (choices : List LlmKey → List ℕ → Option LlmKey) (draws : Draws choices) where
  pick_from-top :
      (s : Strategy) (b : Balancer) (found : List LlmKey) (provider : String) (clock : Clock)
      (k : LlmKey)
      → (pick_from choices s b found provider clock).1 ≡ some k
      → Memᴰ k (top_group found)
  unfolding pick_from
  pick_from-top s b [] provider clock k e = cc
  pick_from-top s b (c ∷ cs) provider clock k e =
      select_key-top choices draws s b (c ∷ cs) provider clock k (take_slot-some _ k e)

  pick-found :
      (s : Strategy) (db_up : Bool) (b : Balancer) (rows : List LlmKey) (clock : Clock)
      (provider : String) (model : Option String) (k : LlmKey)
      → (pick choices s db_up b rows clock provider model).2 ≡ some k
      → Memᴰ k (top_group (query_active_keys db_up b rows clock (some provider) model).2)
  unfolding pick
  pick-found s db_up b rows clock provider model k e = pick_from-top s _ _ provider clock k e

  pub pick_one-Eligible :
      (s : Strategy) (db_up : Bool) (b : Balancer) (rows : List LlmKey) (clock : Clock)
      (provider : String) (model : Option String) (k : LlmKey)
      → (pick choices s db_up b rows clock provider model).2 ≡ some k
      → let (b', rows', found) = query_active_keys db_up b rows clock (some provider) model in
        Eligible b' rows' clock (some provider) model k
  pick_one-Eligible s db_up b rows clock provider model k e =
      query-Eligible db_up b rows clock (some provider) model k
        (mem-keep _ k _ (pick-found s db_up b rows clock provider model k e)).0

  -- A key that `pick` hands out was eligible in the state and the table that the query leaves, and
  -- no key that the query found has a higher priority.
  pub pick-Eligible :
      (s : Strategy) (db_up : Bool) (b : Balancer) (rows : List LlmKey) (clock : Clock)
      (provider : String) (model : Option String) (k other : LlmKey)
      → (pick choices s db_up b rows clock provider model).2 ≡ some k
      → Memᴰ other (query_active_keys db_up b rows clock (some provider) model).2
      → let (b', rows', found) = query_active_keys db_up b rows clock (some provider) model in
        Eligible b' rows' clock (some provider) model k × (other.priority ≤ k.priority)
  pick-Eligible s db_up b rows clock provider model k other e there =
      let found = (query_active_keys db_up b rows clock (some provider) model).2 in
      let (_, top) =
        mem-keep (λ c. c.priority == max_priority found) k found
          (pick-found s db_up b rows clock provider model k e) in
      (
        pick_one-Eligible s db_up b rows clock provider model k e,
        omega (arith, max_priority-ge other found there, ==-true _ _ top),
      )
