-- ===== src/Auth/Matches.antt =====
-- What the scopes of keyhub/auth.py cover, without the loop.
use key_hub.Common.{
  ◌≡◌, ◌↔◌, ◌⊎◌, inl, inr, refl, sym, ap, ◌∙◌, true, List, [], ◌∷◌, ◌++◌, Memᴰ, arith, Bool-cases,
}
use key_hub.Auth.Scopes.{
  Text, same_text, starts_with, drop_last, ends_in_star, covers, scope_matches,
}

same_text-eq : (s t : Text) → same_text s t ≡ true → s ≡ t
unfolding same_text
same_text-eq [] [] e = refl
same_text-eq [] (d ∷ t) e = cc
same_text-eq (c ∷ s) [] e = cc
same_text-eq (c ∷ s) (d ∷ t) e = ground (arith, same_text-eq s t)

same_text_refl : (s : Text) → same_text s s ≡ true
unfolding same_text
same_text_refl [] = refl
same_text_refl (c ∷ s) = ground (arith, same_text_refl s)

starts_with-append : (p rest : Text) → starts_with (p ++ rest) p ≡ true
unfolding starts_with
starts_with-append [] rest = refl
starts_with-append (c ∷ p) rest = ground (arith, starts_with-append p rest)

starts_with-split : (r p : Text) → starts_with r p ≡ true → (rest : Text) × (r ≡ p ++ rest)
unfolding starts_with
starts_with-split r [] e = (r, refl)
starts_with-split [] (d ∷ p) e = cc
starts_with-split (c ∷ r) (d ∷ p) e =
    let (rest, same) = starts_with-split r p (ground arith) in (rest, ground arith)

drop_last-star : (p : Text) → drop_last (p ++ 58 ∷ 42 ∷ []) ≡ p ++ 58 ∷ []
unfolding drop_last
drop_last-star [] = refl
drop_last-star (c ∷ []) = refl
drop_last-star (c ∷ d ∷ p) = ap (◌∷◌ c) (drop_last-star (d ∷ p))

ends_in_star-append : (p : Text) → ends_in_star (p ++ 58 ∷ 42 ∷ []) ≡ true
unfolding ends_in_star same_text
ends_in_star-append [] = refl
ends_in_star-append (c ∷ p) = ground (arith, ends_in_star-append p)

ends_in_star-split : (g : Text) → ends_in_star g ≡ true → (p : Text) × (g ≡ p ++ 58 ∷ 42 ∷ [])
unfolding ends_in_star
ends_in_star-split [] e = cc
ends_in_star-split (c ∷ s) e = elim (Bool-cases (same_text (c ∷ s) (58 ∷ 42 ∷ []))) [
  | inl here ↦ ([], same_text-eq (c ∷ s) (58 ∷ 42 ∷ []) here)
  | inr not_here ↦ let (p, same) = ends_in_star-split s (ground arith) in (c ∷ p, ap (◌∷◌ c) same)
]

-- A granted scope covers a required one: it is the wildcard, or the same, or a prefix up to a colon
-- and a star.
pub Covers : Text → Text → Type 0
Covers required g =
    (g ≡ 42 ∷ [])
    ⊎ (g ≡ required)
    ⊎ ((p : Text) × (rest : Text) × (g ≡ p ++ 58 ∷ 42 ∷ []) × (required ≡ (p ++ 58 ∷ []) ++ rest))

covers-Covers : (required g : Text) → covers required g ≡ true → Covers required g
unfolding covers Covers
covers-Covers required g e = elim (Bool-cases (same_text g (42 ∷ []))) [
  | inl star ↦ inl (same_text-eq g (42 ∷ []) star)
  | inr no_star ↦ elim (Bool-cases (same_text g required)) [
    | inl same ↦ inr (inl (same_text-eq g required same))
    | inr different ↦
        let (p, split) = ends_in_star-split g (ground arith) in
        let start : drop_last g ≡ p ++ 58 ∷ [] = ap drop_last split ∙ drop_last-star p in
        let (rest, whole) = starts_with-split required (drop_last g) (ground arith) in
        inr (inr (p, rest, split, whole ∙ ap (λ (q : Text). q ++ rest) start))
  ]
]

Covers-covers : (required g : Text) → Covers required g → covers required g ≡ true
unfolding covers Covers same_text
Covers-covers required g (inl star) = rw star refl
Covers-covers required g (inr (inl same)) = rw same (ground (arith, same_text_refl required))
Covers-covers required g (inr (inr (p, rest, split, whole))) =
    let ends : ends_in_star g ≡ true = ap ends_in_star split ∙ ends_in_star-append p in
    let start : drop_last g ≡ p ++ 58 ∷ [] = ap drop_last split ∙ drop_last-star p in
    let starts : starts_with required (drop_last g) ≡ true =
      rw (whole, start) (starts_with-append (p ++ 58 ∷ []) rest) in
    ground (arith, ends, starts)

forward :
    (required : Text) (granted : List Text)
    → scope_matches required granted ≡ true
    → (g : Text) × (Memᴰ g granted) × Covers required g
unfolding scope_matches
forward required [] e = cc
forward required (g ∷ granted) e = elim (Bool-cases (covers required g)) [
  | inl covered ↦ (g, Memᴰ.head refl, covers-Covers required g covered)
  | inr other ↦ let (x, mem, c) = forward required granted (ground arith) in (x, Memᴰ.tail mem, c)
]

backward :
    (required g : Text) (granted : List Text)
    → Memᴰ g granted
    → Covers required g
    → scope_matches required granted ≡ true
unfolding scope_matches
backward required g [] m c = elim m [ ]
backward required g (x ∷ granted) (Memᴰ.head same) c =
    let here : covers required x ≡ true =
      ap (covers required) (sym same) ∙ Covers-covers required g c in
    rw here refl
backward required g (x ∷ granted) (Memᴰ.tail m) c =
    let later = backward required g granted m c in ground (arith, later)

-- A scope matches exactly when one of the granted scopes covers it.
pub scope_matches_iff :
    (required : Text) (granted : List Text)
    → (scope_matches required granted ≡ true) ↔ ((g : Text) × (Memᴰ g granted) × Covers required g)
scope_matches_iff required granted =
    (forward required granted, λ (g, m, c). backward required g granted m c)
