-- ===== src/Proxy/Keeps.antt =====
-- The slots and the permits in one round of `chat` in keyhub/llm/proxy.py.
use key_hub.Common.{
  ℕ, zero, suc, ◌+◌, ◌≡◌, refl, sym, ◌∙◌, inl, inr, String, true, false, not, ◌&&◌, Option, none,
  some, arith, if◌then◌else◌, Bool-cases,
}
use mathlib.Core.Path.{subst}
use key_hub.Models.{LlmKey}
use key_hub.Balancer.State.{Balancer}
use key_hub.Balancer.Select.{pick, pick_cross_provider}
use key_hub.Balancer.Slots.{slots}
use key_hub.Balancer.Taken.{Taken, key_of, pick-Taken, pick_cross_provider-Taken}
use key_hub.Providers.{get_provider}
use key_hub.Json.{Fields}
use key_hub.Proxy.Request.{Call}
use key_hub.Proxy.World.{
  round_wait, Env, World, Try, Progress, Step, again, finished, stopped, crashed, take_permit,
  give_permit,
}
use key_hub.Proxy.Attempt.{
  given_model, no_key_error, use_key, with_fallback, fall_back, with_pick, choose_key, with_permit,
  attempt,
}
use key_hub.Proxy.Held.{Ends, use_key-Ends, given_back}

abbrev pub tried : Progress → ℕ
tried p = if p.fallback_tried then 1 else 0

-- From `n` permits and the slots `b0`, the slots are as before, and there is one permit more if the
-- call fell back in between.
abbrev pub Kept : Balancer → ℕ → Progress → World → Progress → Type 0
Kept b0 n p w p' =
    ((j : String) → slots w.balancer j ≡ slots b0 j)
    × ((q : ℕ) × (w.permits ≡ some q) × (q + tried p ≡ n + tried p'))

abbrev pub Keeps : Balancer → ℕ → Progress → Step → Type 0
Keeps b0 n p (again w p') = Kept b0 n p w p'
Keeps b0 n p (finished w p' v) = Kept b0 n p w p'
Keeps b0 n p (stopped w message) = Unit
Keeps b0 n p (crashed w) = Unit

-- A round with a permit and a key, at first or after a fallback.
settled-Keeps :
    (b0 : Balancer) (m : ℕ) (p : Progress) (step : Step)
    → Ends b0 m p step
    → Keeps b0 (m + 1) p step
settled-Keeps b0 m p (again w p') (same, permits, kept) = (same, (m + 1, permits, rw kept refl))
settled-Keeps b0 m p (finished w p' v) (same, permits, kept) =
    (same, (m + 1, permits, rw kept refl))
settled-Keeps b0 m p (stopped w message) h = tt
settled-Keeps b0 m p (crashed w) h = tt

fallback-Keeps :
    (b0 : Balancer) (m : ℕ) (p p' : Progress) (step : Step)
    → p.fallback_tried ≡ false
    → p'.fallback_tried ≡ true
    → Ends b0 (m + 1) p' step
    → Keeps b0 (m + 1) p step
fallback-Keeps b0 m p p' (again w q) not_yet now (same, permits, kept) =
    (same, (m + 1 + 1, permits, ground (arith, not_yet, now, kept)))
fallback-Keeps b0 m p p' (finished w q v) not_yet now (same, permits, kept) =
    (same, (m + 1 + 1, permits, ground (arith, not_yet, now, kept)))
fallback-Keeps b0 m p p' (stopped w message) not_yet now h = tt
fallback-Keeps b0 m p p' (crashed w) not_yet now h = tt

pub Taken-trans :
    (o : Option LlmKey) (b0 b b' : Balancer)
    → Taken o b b'
    → ((j : String) → slots b j ≡ slots b0 j)
    → Taken o b0 b'
Taken-trans none b0 b b' taken same = λ j. taken j ∙ same j
Taken-trans (some k) b0 b b' taken same = λ j. ground (arith, taken j, same j)

module _ (env : Env) where
  with_fallback-Keeps :
      (b0 : Balancer) (m : ℕ) (c : Call) (w : World) (p : Progress) (t : Try) (body : Fields)
      (found : Option (String × LlmKey))
      → p.fallback_tried ≡ false
      → Taken (key_of env.choices found) b0 w.balancer
      → w.permits ≡ some (m + 1)
      → Keeps b0 (m + 1) p (with_fallback env c w p t body found)
  unfolding with_fallback
  with_fallback-Keeps b0 m c w p t body none not_yet taken permits = tt
  with_fallback-Keeps b0 m c w p t body (some (provider, key)) not_yet taken permits =
      elim (get_provider provider)
        as (λ cfg. Keeps b0 (m + 1) p (elim cfg [
          | none ↦ stopped w (no_key_error env c p)
          | some cfg ↦
              use_key env c w
                (record p { current_provider = provider; current_cfg = cfg; fallback_tried = true })
                key t body
        ])) [
          | none ↦ tt
          | some cfg ↦
              let p' : Progress = record p {
                current_provider = provider;
                current_cfg = cfg;
                fallback_tried = true;
              } in
              fallback-Keeps b0 m p p' (use_key env c w p' key t body) not_yet refl
                (use_key-Ends env b0 (m + 1) key c w p' t body taken permits)
        ]

  fall_back-Keeps :
      (b0 : Balancer) (m : ℕ) (c : Call) (w : World) (p : Progress) (t : Try) (body : Fields)
      → p.fallback_tried ≡ false
      → ((j : String) → slots w.balancer j ≡ slots b0 j)
      → w.permits ≡ some (m + 1)
      → Keeps b0 (m + 1) p (fall_back env c w p t body)
  unfolding fall_back
  fall_back-Keeps b0 m c w p t body not_yet same permits =
      let (b, rows, found) =
        pick_cross_provider env.choices env.strategy true w.balancer w.llm_keys t.fallback_at
          (given_model env c.model) (some c.provider) in
      let taken =
        pick_cross_provider-Taken env.choices env.strategy w.balancer w.llm_keys t.fallback_at
          (given_model env c.model) (some c.provider) in
      with_fallback-Keeps b0 m c (record w { balancer = b; llm_keys = rows }) p t body found not_yet
        (Taken-trans (key_of env.choices found) b0 w.balancer b taken same) permits

  with_pick-Keeps :
      (b0 : Balancer) (m : ℕ) (c : Call) (w : World) (p : Progress) (t : Try) (body : Fields)
      (found : Option LlmKey)
      → Taken found b0 w.balancer
      → w.permits ≡ some m
      → Keeps b0 (m + 1) p (with_pick env c w p t body found)
  unfolding with_pick
  with_pick-Keeps b0 m c w p t body (some key) taken permits =
      settled-Keeps b0 m p (use_key env c w p key t body)
        (use_key-Ends env b0 m key c w p t body taken permits)
  with_pick-Keeps b0 m c w p t body none same permits =
      elim (Bool-cases (env.fallback && not p.fallback_tried)) [
        | inl falls ↦
            let not_yet : p.fallback_tried ≡ false = ground arith in
            rw falls (
              fall_back-Keeps b0 m c (give_permit w) p t body not_yet same (given_back m w permits))
        | inr stays ↦ rw stays tt
      ]

  choose_key-Keeps :
      (m : ℕ) (c : Call) (w : World) (p : Progress) (t : Try) (body : Fields)
      → w.permits ≡ some m
      → Keeps w.balancer (m + 1) p (choose_key env c w p t body)
  unfolding choose_key
  choose_key-Keeps m c w p t body permits =
      let (b, rows, found) =
        pick env.choices env.strategy true w.balancer w.llm_keys t.picked_at p.current_provider
          (given_model env c.model) in
      with_pick-Keeps w.balancer m c (record w { balancer = b; llm_keys = rows }) p t body found
        (pick-Taken env.choices env.strategy w.balancer w.llm_keys t.picked_at p.current_provider
          (given_model env c.model))
        permits

  with_permit-Keeps :
      (n : ℕ) (c : Call) (w : World) (p : Progress) (t : Try) (body : Fields)
      → w.permits ≡ some n
      → Keeps w.balancer n p (with_permit env c w p t body (take_permit (some n)))
  unfolding with_permit
  with_permit-Keeps zero c w p t body permits = (λ j. refl, (0, permits, refl))
  with_permit-Keeps (suc m) c w p t body permits =
      let e : m + 1 ≡ suc m = omega arith in
      subst (λ k. Keeps w.balancer k p (choose_key env c (record w { permits = some m }) p t body))
        e (choose_key-Keeps m c (record w { permits = some m }) p t body refl)

  pub attempt-Keeps :
      (n k : ℕ) (c : Call) (w : World) (p : Progress) (t : Try) (body : Fields)
      → w.permits ≡ some n
      → Keeps w.balancer n p (attempt env c w p k t body)
  unfolding attempt
  attempt-Keeps n k c w p t body permits =
      let w' : World = record w { slept = w.slept + round_wait env w.permits k t.jitter } in
      subst (λ o. Keeps w.balancer n p (with_permit env c w' p t body (take_permit o)))
        (sym permits) (with_permit-Keeps n c w' p t body permits)
