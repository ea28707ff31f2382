-- ===== src/Crypto/Toy.antt =====
-- A cipher that meets the laws of `CryptoLib`: it writes the context in front of the plaintext.
use key_hub.Common.{
  ◌≡◌, ◌≢◌, refl, Bool, true, false, ◌&&◌, Option, none, some, [], ◌∷◌, ◌++◌, arith, ◌==◌,
  if◌then◌else◌, length, take, drop, Bool-cases, inl, inr,
}
use key_hub.Models.{Bytes}
use key_hub.Crypto.{CryptoLib}
use key_hub.Crypto.Envelope.{take_left, drop_left}

abbrev same_bytes : Bytes → Bytes → Bool
same_bytes [] [] = true
same_bytes [] (y ∷ ys) = false
same_bytes (x ∷ xs) [] = false
same_bytes (x ∷ xs) (y ∷ ys) = (x == y) && same_bytes xs ys

same_bytes_refl : (xs : Bytes) → same_bytes xs xs ≡ true
same_bytes_refl [] = refl
same_bytes_refl (x ∷ xs) = ground (arith, same_bytes_refl xs)

same_bytes-eq : (xs ys : Bytes) → same_bytes xs ys ≡ true → xs ≡ ys
same_bytes-eq [] [] e = refl
same_bytes-eq [] (y ∷ ys) e = cc
same_bytes-eq (x ∷ xs) [] e = cc
same_bytes-eq (x ∷ xs) (y ∷ ys) e = ground (arith, same_bytes-eq xs ys)

abbrev zeros : Bytes
zeros = 0 ∷ 0 ∷ 0 ∷ 0 ∷ 0 ∷ 0 ∷ 0 ∷ 0 ∷ 0 ∷ 0 ∷ 0 ∷ 0 ∷ 0 ∷ 0 ∷ 0 ∷ 0 ∷ []

abbrev seal : Bytes → Bytes → Bytes → Bytes → Bytes
seal key nonce pt aad = zeros ++ (length aad ∷ (aad ++ pt))

abbrev read : Bytes → Bytes → Option Bytes
read [] aad = none
read (n ∷ rest) aad = if same_bytes (take n rest) aad then some (drop n rest) else none

abbrev open_box : Bytes → Bytes → Bytes → Bytes → Option Bytes
open_box key nonce box aad = read (drop 16 box) aad

pub open-seal :
    (key nonce pt aad : Bytes) → open_box key nonce (seal key nonce pt aad) aad ≡ some pt
open-seal key nonce pt aad =
    rw (take_left (length aad) aad pt refl, same_bytes_refl aad, drop_left (length aad) aad pt refl)

pub authentic :
    (key nonce pt aad aad' : Bytes)
    → aad ≢ aad'
    → open_box key nonce (seal key nonce pt aad) aad' ≡ none
authentic key nonce pt aad aad' ne = elim (Bool-cases (same_bytes aad aad')) [
  | inl e ↦ absurd (ne (same_bytes-eq aad aad' e))
  | inr e ↦ rw (take_left (length aad) aad pt refl, e)
]

abbrev pub toy : CryptoLib
toy = record {
  seal = seal;
  open_box = open_box;
  compress = λ pt. pt;
  decompress = some;
  open-seal = open-seal;
  authentic = authentic;
  tag_bytes = λ key nonce pt aad. omega arith;
  inflate = λ pt. refl;
}

-- A nonce of 12 bytes.
abbrev pub nonce : Bytes
nonce = 9 ∷ 2 ∷ 3 ∷ 4 ∷ 5 ∷ 6 ∷ 7 ∷ 8 ∷ 9 ∷ 10 ∷ 11 ∷ 12 ∷ []
