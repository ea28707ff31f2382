-- ===== src/Common/Members.antt =====
-- Membership with a position (`Memᴰ` of the library) through `keep`, `map` and `get_elem?`.
use mathlib.Core.List.Memᴰ
use mathlib.Core.List.{List, [], ◌∷◌, Memᴰ}
use mathlib.Core.Option.{some}
use mathlib.Core.Bool.{Bool, true}
use mathlib.Core.Path.{◌≡◌, refl, sym, subst}
use mathlib.Core.Logic.{◌⊎◌, inl, inr}
use Prim.Native.Nat.{ℕ, zero, suc}
use key_hub.Common.Tests.{Bool-cases}
use key_hub.Common.Lists.{keep, get_elem?, All}

module _ {ℓ} {A : Type ℓ} where
  -- What `keep` keeps was there, and passes the test.
  pub mem-keep :
      (p : A → Bool) (x : A) (xs : List A) → Memᴰ x (keep p xs) → Memᴰ x xs × (p x ≡ true)
  mem-keep p x [] m = elim m [ ]
  mem-keep p x (y ∷ ys) m = elim (Bool-cases (p y)) [
    | inl e ↦
        let m' : Memᴰ x (y ∷ keep p ys) = rw e at m in
        elim (Memᴰ.cases_cons m') [
          | inl same ↦ (Memᴰ.head same, rw same e)
          | inr later ↦ let (l, t) = mem-keep p x ys later in (Memᴰ.tail l, t)
        ]
    | inr e ↦
        let m' : Memᴰ x (keep p ys) = rw e at m in
        let (l, t) = mem-keep p x ys m' in (Memᴰ.tail l, t)
  ]

  pub mem-keep_of :
      (p : A → Bool) (x : A) (xs : List A) → Memᴰ x xs → p x ≡ true → Memᴰ x (keep p xs)
  mem-keep_of p x [] m t = elim m [ ]
  mem-keep_of p x (y ∷ ys) (Memᴰ.head same) t =
      let e : p y ≡ true = subst (λ z. p z ≡ true) same t in rw e (Memᴰ.head same)
  mem-keep_of p x (y ∷ ys) (Memᴰ.tail m) t = elim (Bool-cases (p y)) [
    | inl e ↦ rw e (Memᴰ.tail (mem-keep_of p x ys m t))
    | inr e ↦ rw e (mem-keep_of p x ys m t)
  ]

  pub mem-get_elem? : (xs : List A) (i : ℕ) (x : A) → get_elem? xs i ≡ some x → Memᴰ x xs
  mem-get_elem? [] i x e = cc
  mem-get_elem? (y ∷ ys) zero x e = Memᴰ.head (cc)
  mem-get_elem? (y ∷ ys) (suc i) x e = Memᴰ.tail (mem-get_elem? ys i x e)

  pub All-mem {κ} : (P : A → Type κ) (x : A) (xs : List A) → All P xs → Memᴰ x xs → P x
  All-mem P x [] h m = elim m [ ]
  All-mem P x (y ∷ ys) (h, hs) (Memᴰ.head same) = subst P (sym same) h
  All-mem P x (y ∷ ys) (h, hs) (Memᴰ.tail m) = All-mem P x ys hs m

-- A list is empty, or has a head.
pub List-cases {ℓ} :
    {A : Type ℓ} (xs : List A) → (xs ≡ []) ⊎ ((y : A) × (ys : List A) × (xs ≡ y ∷ ys))
List-cases [] = inl refl
List-cases (y ∷ ys) = inr (y, ys, refl)
