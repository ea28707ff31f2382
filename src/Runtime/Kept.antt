-- ===== src/Runtime/Kept.antt =====
-- What a change of the master password (keyhub/runtime.py) keeps, and what it changes.
use key_hub.Common.{
  ℕ, zero, suc, ◌≡◌, ◌≢◌, ◌⊎◌, inl, inr, refl, sym, ap, ◌∙◌, String, Bool, true, false, some, List,
  [], ◌∷◌, arith, if◌then◌else◌, length, get_elem?, Bool-cases,
}
use key_hub.Models.{Bytes, Credential}
use key_hub.Crypto
use key_hub.Crypto.{CryptoLib}
use key_hub.Store.Defs.{Outcome, ok, fail, make_aad, try_decrypt}
use key_hub.Store.Reveal.{try_decrypt-encrypt}
use key_hub.Runtime.Change.{reencrypt, before, reencrypt_all}

pub Outcome-cases : {A : Type 0} (o : Outcome A) → ((a : A) × (o ≡ ok a)) ⊎ ((e : _) × (o ≡ fail e))
Outcome-cases (ok a) = inl (a, refl)
Outcome-cases (fail e) = inr (e, refl)

same_ok : {A : Type 0} (a b : A) → ok a ≡ ok b → a ≡ b
same_ok a b e = ap (λ (o : Outcome _). elim o [ ok x ↦ x | fail f ↦ a ]) e

-- A row and the rest of a loop that went through.
before-ok :
    (o : Outcome Credential) (os : Outcome (List Credential)) (cs : List Credential)
    → before o os ≡ ok cs
    → (x : Credential) × (xs : List Credential) × (o ≡ ok x) × (os ≡ ok xs) × (x ∷ xs ≡ cs)
unfolding before
before-ok (fail f) os cs e = cc
before-ok (ok x) (fail f) cs e = cc
before-ok (ok x) (ok xs) cs e = (x, xs, refl, refl, same_ok (x ∷ xs) cs e)

before-done :
    (o : Outcome Credential) (os : Outcome (List Credential)) (x : Credential)
    (xs : List Credential)
    → o ≡ ok x
    → os ≡ ok xs
    → before o os ≡ ok (x ∷ xs)
unfolding before
before-done o os x xs e es = rw (e, es) refl

then_of : {A : Type 0} (b : Bool) (x y : A) → b ≡ true → (if b then x else y) ≡ x
then_of b x y e = rw e refl

else_of : {A : Type 0} (b : Bool) (x y : A) → b ≡ false → (if b then x else y) ≡ y
else_of b x y e = rw e refl

module _ (lib : CryptoLib) (old new : Bytes) (nonce : String → Bytes) where
  abbrev pub renewed : Credential → Bytes → Credential
  renewed c v = record c {
    encrypted_value = Crypto.encrypt lib new (nonce c.id) v (some (make_aad c.id c.name));
  }

  reencrypt-renewed :
      (c : Credential) (v : Bytes)
      → try_decrypt lib (some old) c ≡ ok v
      → reencrypt lib old new nonce c ≡ ok (renewed c v)
  unfolding reencrypt
  reencrypt-renewed c v h = ground (arith, h)

  reencrypt-fail :
      (c c' : Credential) (f : _)
      → try_decrypt lib (some old) c ≡ fail f
      → reencrypt lib old new nonce c ≢ ok c'
  unfolding reencrypt
  reencrypt-fail c c' f h = ground (arith, h)

  -- Where every credential that is not deleted decrypts, the loop goes through.
  pub reencrypt_all-done :
      (cs : List Credential)
      → ((i : ℕ) (c : Credential)
          → get_elem? cs i ≡ some c
          → c.deleted ≡ false
          → (v : Bytes) × (try_decrypt lib (some old) c ≡ ok v))
      → (cs' : List Credential) × (reencrypt_all lib old new nonce cs ≡ ok cs')
  unfolding reencrypt_all
  reencrypt_all-done [] h = ([], refl)
  reencrypt_all-done (x ∷ xs) h =
      let (xs', hs) = reencrypt_all-done xs (λ i c. h (suc i) c) in
      let all_rest = reencrypt_all lib old new nonce xs in
      let renew = reencrypt lib old new nonce x in
      elim (Bool-cases x.deleted) [
        | inl gone ↦
            (x ∷ xs', before-done _ all_rest x xs' (then_of x.deleted (ok x) renew gone) hs)
        | inr live ↦
            let (v, e) = h 0 x refl live in
            (
              renewed x v ∷ xs',
              before-done _ all_rest (renewed x v) xs'
                  (else_of x.deleted (ok x) renew live ∙ reencrypt-renewed x v e) hs,
            )
      ]

module _ (lib : CryptoLib) (old new : Bytes) (nonce : String → Bytes)
    (twelve : (id : String) → length (nonce id) ≡ 12) where
  -- The row of a credential after the loop.
  abbrev pub Kept : Credential → Credential → Type 0
  Kept c c' =
      (c'.id ≡ c.id)
      × (c'.name ≡ c.name)
      × (try_decrypt lib (some new) c' ≡ try_decrypt lib (some old) c)

  reencrypt-Kept : (c c' : Credential) → reencrypt lib old new nonce c ≡ ok c' → Kept c c'
  reencrypt-Kept c c' e = elim (Outcome-cases (try_decrypt lib (some old) c)) [
    | inl (v, h) ↦
        let same =
          same_ok (renewed lib old new nonce c v) c'
            (sym (reencrypt-renewed lib old new nonce c v h) ∙ e) in
        rw (← same) (
          refl,
          refl,
          try_decrypt-encrypt lib new (renewed lib old new nonce c v) (nonce c.id) v (twelve c.id)
                refl
              ∙ sym h,
        )
    | inr (f, h) ↦ absurd (reencrypt-fail lib old new nonce c c' f h e)
  ]

  pub reencrypt_all-Kept :
      (cs cs' : List Credential) (i : ℕ) (c : Credential)
      → reencrypt_all lib old new nonce cs ≡ ok cs'
      → get_elem? cs i ≡ some c
      → c.deleted ≡ false
      → (c' : Credential) × (get_elem? cs' i ≡ some c') × Kept c c'
  unfolding reencrypt_all
  reencrypt_all-Kept [] cs' i c e at_i live = cc
  reencrypt_all-Kept (x ∷ xs) cs' zero c e at_i live =
      let (x', xs', h, hs, same) = before-ok _ _ cs' e in
      let first : x ≡ c = ground arith in
      let still : x.deleted ≡ false = ap (λ (r : Credential). r.deleted) first ∙ live in
      let h' : reencrypt lib old new nonce x ≡ ok x' =
        sym (else_of x.deleted (ok x) (reencrypt lib old new nonce x) still) ∙ h in
      let h'' : reencrypt lib old new nonce c ≡ ok x' =
        ap (λ (r : Credential). reencrypt lib old new nonce r) (sym first) ∙ h' in
      (x', rw (← same) refl, reencrypt-Kept c x' h'')
  reencrypt_all-Kept (x ∷ xs) cs' (suc i) c e at_i live =
      let (x', xs', h, hs, same) = before-ok _ _ cs' e in
      let (c', at_i', kept) = reencrypt_all-Kept xs xs' i c hs at_i live in
      (c', rw (← same) at_i', kept)
