-- ===== src/Crypto/Envelope.antt =====
-- Round trips of the vault (keyhub/crypto.py), and the binding of a ciphertext to its context.
use mathlib.Core.List.{append_cancel_left, append_cancel_right}
use key_hub.Common.{
  ℕ, zero, suc, ◌%◌, ◌≤◌, ◌≡◌, ◌≢◌, refl, ap, ◌∙◌, Bool, true, false, Option, none, some, [], ◌∷◌,
  ◌++◌, arith, ltb, ◌==◌, if◌then◌else◌, length, take, drop, length-append,
}
use key_hub.Models.{Bytes}
use key_hub.Crypto.{
  CryptoLib, invalid_tag, ok, err, v1_aad, v1_prefix, pack, encrypt, unpack, open_v1, open_v0,
  decrypt_bytes,
}

pub take_left : (n : ℕ) (xs ys : Bytes) → length xs ≡ n → take n (xs ++ ys) ≡ xs
take_left zero [] ys h = refl
take_left zero (x ∷ xs) ys h = absurd (omega arith)
take_left (suc n) [] ys h = absurd (omega arith)
take_left (suc n) (x ∷ xs) ys h = ap (◌∷◌ x) (take_left n xs ys (omega arith))

pub drop_left : (n : ℕ) (xs ys : Bytes) → length xs ≡ n → drop n (xs ++ ys) ≡ ys
drop_left zero [] ys h = refl
drop_left zero (x ∷ xs) ys h = absurd (omega arith)
drop_left (suc n) [] ys h = absurd (omega arith)
drop_left (suc n) (x ∷ xs) ys h = drop_left n xs ys (omega arith)

not_below : (n m : ℕ) → m ≤ n → ltb n m ≡ false
not_below n m h = ground arith

ne_one : (x : ℕ) → x ≢ 1 → (x == 1) ≡ false
ne_one x h = ground arith

flag_odd : (c : Bool) → ((if c then 1 else 0) % 2 == 1) ≡ c
flag_odd true = refl
flag_odd false = refl

v1_aad-ne : (a a' : Bytes) (flag : ℕ) → a ≢ a' → v1_aad a flag ≢ v1_aad a' flag
unfolding v1_aad
v1_aad-ne a a' flag h e = h (append_cancel_right a a' _ (append_cancel_left v1_prefix _ _ e))

module _ (lib : CryptoLib) (key nonce : Bytes) (twelve : length nonce ≡ 12) where
  unpack-pack : (pt : Bytes) → unpack lib (pack lib pt).1 (some (pack lib pt).0) ≡ ok pt
  unfolding unpack pack
  unpack-pack pt = ground (arith, lib.inflate pt)

  -- What `decrypt_bytes` does with a blob of the new format, under any associated data.
  open_new :
      (pt aad : Bytes) (given : Option Bytes)
      → let flag : ℕ = if (pack lib pt).1 then 1 else 0 in
        decrypt_bytes lib key (encrypt lib key nonce pt (some aad)) given
        ≡ unpack lib (pack lib pt).1 (
            lib.open_box key nonce
              (lib.seal key nonce (pack lib pt).0 (v1_aad aad flag))
              (v1_aad (elim given [ none ↦ [] | some a ↦ a ]) flag))
  unfolding encrypt decrypt_bytes open_v1
  open_new pt aad given =
      let flag : ℕ = if (pack lib pt).1 then 1 else 0 in
      let box = lib.seal key nonce (pack lib pt).0 (v1_aad aad flag) in
      let tag = lib.tag_bytes key nonce (pack lib pt).0 (v1_aad aad flag) in
      let total = length-append nonce box in
      let odd : (flag % 2 == 1) ≡ (pack lib pt).1 = flag_odd (pack lib pt).1 in
      rw (
        not_below (suc (suc (length (nonce ++ box)))) 28 (omega arith),
        not_below (suc (suc (length (nonce ++ box)))) 30 (omega arith),
        take_left 12 nonce box twelve,
        drop_left 12 nonce box twelve,
        odd,
      )

  -- What was encrypted for a context decrypts to itself in that context, compressed or not.
  pub decrypt_bytes-encrypt :
      (pt aad : Bytes)
      → decrypt_bytes lib key (encrypt lib key nonce pt (some aad)) (some aad) ≡ ok pt
  decrypt_bytes-encrypt pt aad =
      open_new pt aad (some aad) ∙ rw (lib.open-seal key nonce) (unpack-pack pt)

  -- What was encrypted for a context that is not empty is refused in any other context, and in a
  -- call without one: swapped ciphertexts do not decrypt.
  pub decrypt_bytes-other :
      (pt aad aad' : Bytes)
      → aad ≢ aad'
      → aad ≢ []
      → (decrypt_bytes lib key (encrypt lib key nonce pt (some aad)) (some aad') ≡ err invalid_tag)
        × (decrypt_bytes lib key (encrypt lib key nonce pt (some aad)) none ≡ err invalid_tag)
  unfolding unpack
  decrypt_bytes-other pt aad aad' other nonempty = (
    open_new pt aad (some aad') ∙ rw (lib.authentic key nonce _ _ _ (v1_aad-ne aad aad' _ other)),
    open_new pt aad none ∙ rw (lib.authentic key nonce _ _ _ (v1_aad-ne aad [] _ nonempty)),
  )

-- The old format decrypts in any context, if its nonce does not begin with the new version byte.
pub decrypt_bytes-legacy :
    (lib : CryptoLib) (key nonce pt : Bytes) (given : Option Bytes)
    → length nonce ≡ 12
    → take 1 nonce ≢ 1 ∷ []
    → decrypt_bytes lib key (encrypt lib key nonce pt none) given ≡ ok pt
unfolding encrypt decrypt_bytes open_v0
decrypt_bytes-legacy lib key [] pt given twelve not_v1 = absurd (omega arith)
decrypt_bytes-legacy lib key (x ∷ []) pt given twelve not_v1 = absurd (omega arith)
decrypt_bytes-legacy lib key (x ∷ y ∷ rest) pt given twelve not_v1 =
    let nonce : Bytes = x ∷ y ∷ rest in
    let box = lib.seal key nonce pt [] in
    let tag = lib.tag_bytes key nonce pt [] in
    let total = length-append rest box in
    let old : (x == 1) ≡ false = ne_one x (λ e. not_v1 (ap (λ n. n ∷ []) e)) in
    rw (
      not_below (suc (suc (length (rest ++ box)))) 28 (omega arith),
      old,
      take_left 12 nonce box twelve,
      drop_left 12 nonce box twelve,
      lib.open-seal key nonce,
    )
