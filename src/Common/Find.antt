-- ===== src/Common/Find.antt =====
-- The first element that passes a test, and the update of the elements that do.
use mathlib.Core.Path.{◌≡◌, refl}
use mathlib.Core.Bool.{Bool, true, false}
use mathlib.Core.List.{List, [], ◌∷◌, ◌++◌}
use mathlib.Core.Option.{Option, none, some}
use native.Mathlib.Omega.{arith}
use key_hub.Common.Tests.{if◌then◌else◌}
use key_hub.Common.Lists.{keep}

module _ {ℓ} {A : Type ℓ} where
  unfoldable pub find : (A → Bool) → List A → Option A
  find p [] = none
  find p (x ∷ xs) = if p x then some x else find p xs

  -- `UPDATE ... WHERE p`
  unfoldable pub change : (A → Bool) → (A → A) → List A → List A
  change p f [] = []
  change p f (x ∷ xs) = (if p x then f x else x) ∷ change p f xs

  pub find-append :
      (p : A → Bool) (xs : List A) (y : A)
      → find p xs ≡ none
      → find p (xs ++ y ∷ []) ≡ (if p y then some y else none)
  unfolding find
  find-append p [] y h = refl
  find-append p (x ∷ xs) y h = ground (arith, find-append p xs y)

  pub find-holds : (p : A → Bool) (xs : List A) (x : A) → find p xs ≡ some x → p x ≡ true
  unfolding find
  find-holds p [] x h = cc
  find-holds p (y ∷ ys) x h = ground (arith, find-holds p ys x)

  pub find-none :
      (p q : A → Bool) (xs : List A)
      → ((y : A) → p y ≡ false → q y ≡ false)
      → find p xs ≡ none
      → find q xs ≡ none
  unfolding find
  find-none p q [] weaker h = refl
  find-none p q (y ∷ ys) weaker h = ground (arith, weaker y, find-none p q ys weaker)

  -- The first row that passes `p` passes `q` too, and nothing passes `q` alone.
  pub find-both :
      (p q : A → Bool) (xs : List A) (x : A)
      → ((y : A) → p y ≡ false → q y ≡ false)
      → find p xs ≡ some x
      → q x ≡ true
      → find q xs ≡ some x
  unfolding find
  find-both p q [] x weaker h t = cc
  find-both p q (y ∷ ys) x weaker h t = ground (arith, weaker y, find-both p q ys x weaker)

  -- After the rows that `q` selects are replaced by `new`, among them the one that `p` found, the
  -- lookup by `r` finds `new`.
  pub find-change :
      (p q r : A → Bool) (new x : A) (xs : List A)
      → ((y : A) → p y ≡ false → r y ≡ false)
      → find p xs ≡ some x
      → q x ≡ true
      → r new ≡ true
      → find r (change q (λ _. new) xs) ≡ some new
  unfolding find change
  find-change p q r new x [] weaker h t u = cc
  find-change p q r new x (y ∷ ys) weaker h t u =
      ground (arith, weaker y, find-change p q r new x ys weaker)

  -- What `q` drops, `p` did not want.
  pub find-keep :
      (p q : A → Bool) (xs : List A)
      → ((y : A) → q y ≡ false → p y ≡ false)
      → find p (keep q xs) ≡ find p xs
  unfolding find
  find-keep p q [] dropped = refl
  find-keep p q (y ∷ ys) dropped = ground (arith, dropped y, find-keep p q ys dropped)

  -- Nothing passes both tests but what `r` finds.
  pub find-keep-none :
      (p q r : A → Bool) (xs : List A)
      → ((y : A) → q y ≡ true → r y ≡ false → p y ≡ false)
      → find r xs ≡ none
      → find p (keep q xs) ≡ none
  unfolding find
  find-keep-none p q r [] both h = refl
  find-keep-none p q r (y ∷ ys) both h = ground (arith, both y, find-keep-none p q r ys both)

  -- A row at the end that `p` does not want.
  pub find-append_other :
      (p : A → Bool) (xs : List A) (y : A) → p y ≡ false → find p (xs ++ y ∷ []) ≡ find p xs
  unfolding find
  find-append_other p [] y h = ground arith
  find-append_other p (x ∷ xs) y h = ground (arith, find-append_other p xs y)

  pub find-append_some :
      (p : A → Bool) (xs : List A) (y x : A) → find p xs ≡ some x → find p (xs ++ y ∷ []) ≡ some x
  unfolding find
  find-append_some p [] y x h = cc
  find-append_some p (z ∷ zs) y x h = ground (arith, h, find-append_some p zs y x)
