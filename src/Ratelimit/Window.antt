-- ===== src/Ratelimit/Window.antt =====
-- The sliding window of `TokenRateLimiter` (keyhub/ratelimit.py) against one that forgets nothing.
use key_hub.Common.{
  ℕ, ◌+◌, ◌-◌, ◌≤◌, ◌≡◌, refl, sym, ap, ◌∙◌, String, str_eq, eq_iff, Bool, true, false, Option,
  none, some, List, [], ◌∷◌, ◌++◌, arith, leb, if◌then◌else◌, keep, length, length-append,
  Bool-cases, inl, inr,
}
use key_hub.Common.Dict.{Dict, insert, lookup-insert}
use key_hub.Ratelimit.{TokenRateLimiter, requests_of, recent, check}

keep-append {ℓ} :
    {A : Type ℓ} (p : A → Bool) (xs ys : List A) → keep p (xs ++ ys) ≡ keep p xs ++ keep p ys
keep-append p [] ys = refl
keep-append p (x ∷ xs) ys = ground (arith, keep-append p xs ys)

-- What a window dropped, a later window would drop too.
keep-keep :
    (now later : ℕ) (xs : List ℕ)
    → now ≤ later
    → keep (recent later) (keep (recent now) xs) ≡ keep (recent later) xs
keep-keep now later [] h = refl
keep-keep now later (x ∷ xs) h = ground (arith, keep-keep now later xs h)

-- A limiter that keeps the time of every request it ever let through.
pub ideal_check : ℕ → Dict (List ℕ) → String → ℕ → Dict (List ℕ) × Bool × Option ℕ
ideal_check rpm d token_id now =
    let used = length (keep (recent now) (requests_of d token_id)) in
    if leb rpm 0
    then (d, true, none)
    else (if leb rpm used then (d, false, some 0) else (
      insert token_id (requests_of d token_id ++ now ∷ []) d,
      true,
      some (rpm - (used + 1)),
    ))

-- A request: the token and the time.
abbrev pub Request : Type 0
Request = String × ℕ

unfoldable pub answers : ℕ → TokenRateLimiter → List Request → List (Bool × Option ℕ)
answers rpm l [] = []
answers rpm l ((token_id, now) ∷ rs) =
    let (l', allowed, left) = check rpm l token_id now in (allowed, left) ∷ answers rpm l' rs

pub ideal_answers : ℕ → Dict (List ℕ) → List Request → List (Bool × Option ℕ)
ideal_answers rpm d [] = []
ideal_answers rpm d ((token_id, now) ∷ rs) =
    let (d', allowed, left) = ideal_check rpm d token_id now in
    (allowed, left) ∷ ideal_answers rpm d' rs

-- The clock does not go back.
abbrev pub InOrder : ℕ → List Request → Type 0
InOrder start [] = Unit
InOrder start ((_, now) ∷ rs) = (start ≤ now) × InOrder now rs

-- From `start` on, both see the same requests in every window.
Agrees : ℕ → Dict (List ℕ) → Dict (List ℕ) → Type 0
Agrees start d full =
    (token_id : String) (now : ℕ)
    → start ≤ now
    → keep (recent now) (requests_of d token_id) ≡ keep (recent now) (requests_of full token_id)

requests_of-insert :
    (d : Dict (List ℕ)) (k j : String) (v : List ℕ)
    → requests_of (insert k v d) j ≡ (if str_eq k j then v else requests_of d j)
requests_of-insert d k j v = ground (arith, lookup-insert k j v d)

Agrees-insert :
    (now : ℕ) (d full : Dict (List ℕ)) (k : String) (v w : List ℕ)
    → Agrees now d full
    → ((later : ℕ) → now ≤ later → keep (recent later) v ≡ keep (recent later) w)
    → Agrees now (insert k v d) (insert k w full)
unfolding Agrees
Agrees-insert now d full k v w h same j later le = elim (Bool-cases (str_eq k j)) [
  | inl e ↦ rw (requests_of-insert, requests_of-insert) (rw e (same later le))
  | inr e ↦ rw (requests_of-insert, requests_of-insert) (rw e (h j later le))
]

Agrees-insert_left :
    (now : ℕ) (d full : Dict (List ℕ)) (k : String) (v : List ℕ)
    → Agrees now d full
    → ((later : ℕ) → now ≤ later → keep (recent later) v ≡ keep (recent later) (requests_of full k))
    → Agrees now (insert k v d) full
unfolding Agrees
Agrees-insert_left now d full k v h same j later le = elim (Bool-cases (str_eq k j)) [
  | inl e ↦ rw requests_of-insert (rw (e, ← (eq_iff k j).0 e) (same later le))
  | inr e ↦ rw requests_of-insert (rw e (h j later le))
]

module _ (rpm : ℕ) (start now : ℕ) (in_order : start ≤ now) (k : String) where
  abbrev Same : TokenRateLimiter × Bool × Option ℕ → Dict (List ℕ) × Bool × Option ℕ → Type 0
  Same (l, allowed, left) (d, allowed', left') =
      Agrees now l.requests d × (allowed ≡ allowed') × (left ≡ left')

  check-Same :
      (l : TokenRateLimiter) (full : Dict (List ℕ))
      → Agrees start l.requests full
      → Same (check rpm l k now) (ideal_check rpm full k now)
  unfolding Agrees check ideal_check
  check-Same l full h =
      let later_h : Agrees now l.requests full = λ j later le. h j later (omega arith) in
      let here = h k now in_order in
      let pruned : (later : ℕ)
          → now ≤ later
          → keep (recent later) (keep (recent now) (requests_of l.requests k))
            ≡ keep (recent later) (requests_of full k) =
        λ later le. keep-keep now later (requests_of l.requests k) le ∙ h k later (omega arith) in
      let grown : (later : ℕ)
          → now ≤ later
          → keep (recent later) (keep (recent now) (requests_of l.requests k) ++ now ∷ [])
            ≡ keep (recent later) (requests_of full k ++ now ∷ []) =
        λ later le.
          keep-append (recent later) _ (now ∷ [])
          ∙ ap (λ xs. xs ++ keep (recent later) (now ∷ [])) (pruned later le)
          ∙ sym (keep-append (recent later) (requests_of full k) (now ∷ [])) in
      let used = length (keep (recent now) (requests_of full k)) in
      let count : length (keep (recent now) (requests_of l.requests k) ++ now ∷ []) ≡ used + 1 =
        length-append _ (now ∷ []) ∙ ap (λ (xs : List ℕ). length xs + 1) here in
      elim (Bool-cases (leb rpm 0)) [
        | inl off ↦ rw off (later_h, refl, refl)
        | inr on ↦ elim (Bool-cases (leb rpm used)) [
          | inl spent ↦
              rw (on, ap (λ (xs : List ℕ). length xs) here, spent)
                (Agrees-insert_left now _ full k _ later_h pruned, refl, refl)
          | inr room ↦
              rw (on, ap (λ (xs : List ℕ). length xs) here, room)
                (
                  Agrees-insert now _ full k _ _ later_h grown,
                  refl,
                  ap (λ (n : ℕ). some (rpm - n)) count,
                )
        ]
      ]

simulate :
    (rpm start : ℕ) (rs : List Request) (l : TokenRateLimiter) (full : Dict (List ℕ))
    → InOrder start rs
    → Agrees start l.requests full
    → answers rpm l rs ≡ ideal_answers rpm full rs
unfolding answers ideal_answers
simulate rpm start [] l full h a = refl
simulate rpm start ((k, now) ∷ rs) l full (first, rest) a =
    let (a', allowed, left) = check-Same rpm start now first k l full a in
    let ih = simulate rpm now rs (check rpm l k now).0 (ideal_check rpm full k now).0 rest a' in
    rw (allowed, left, ih)

-- At requests in order of time, the window that forgets gives the answers, and the quota left, of
-- the one that keeps every request it ever let through.
pub answers-eq-ideal :
    (rpm start : ℕ) (rs : List Request) (l : TokenRateLimiter)
    → InOrder start rs
    → answers rpm l rs ≡ ideal_answers rpm l.requests rs
unfolding Agrees
answers-eq-ideal rpm start rs l h = simulate rpm start rs l l.requests h (λ j now le. refl)
