-- ===== src/Runtime/Toy.antt =====
-- A concrete instance of the parameters of keyhub/runtime.py: a password is its own hash and, in
-- UTF-8, its own key; the parameters are written in unary.
use Prim.Native.Char.{code}
use key_hub.Common.{
  ℕ, zero, suc, ◌≡◌, refl, ap, ◌∙◌, String, str_eq, eq_iff, Option, none, some, List, [], ◌∷◌, ◌==◌,
  if◌then◌else◌,
}
use key_hub.Runtime.State.{Argon2Params, PasswordLib}

abbrev pub stroke : ℕ → String → String
stroke zero s = s
stroke (suc n) s = String.◌∷◌ "a" (stroke n s)

abbrev shown : List ℕ → String
shown [] = ""
shown (n ∷ ns) = stroke n (String.◌∷◌ "b" (shown ns))

abbrev first_more : List ℕ → List ℕ
first_more [] = []
first_more (n ∷ ns) = suc n ∷ ns

abbrev counted : String → List ℕ
counted String.[] = []
counted (String.◌∷◌ c s) =
    let rest = counted s in if code c == 97 then first_more rest else 0 ∷ rest

abbrev add_first : ℕ → List ℕ → List ℕ
add_first zero ns = ns
add_first (suc n) ns = first_more (add_first n ns)

counted-stroke : (n : ℕ) (s : String) → counted (stroke n s) ≡ add_first n (counted s)
counted-stroke zero s = refl
counted-stroke (suc n) s = ap first_more (counted-stroke n s)

add_first-zero : (n : ℕ) (ns : List ℕ) → add_first n (0 ∷ ns) ≡ n ∷ ns
add_first-zero zero ns = refl
add_first-zero (suc n) ns = ap first_more (add_first-zero n ns)

counted-shown : (ns : List ℕ) → counted (shown ns) ≡ ns
counted-shown [] = refl
counted-shown (n ∷ ns) =
    counted-stroke n (String.◌∷◌ "b" (shown ns))
    ∙ ap (λ (m : List ℕ). add_first n (0 ∷ m)) (counted-shown ns)
    ∙ add_first-zero n ns

abbrev pub dumps : Argon2Params → String
dumps p = shown (p.time_cost ∷ p.memory_cost ∷ p.parallelism ∷ p.salt)

abbrev params_of : List ℕ → Option Argon2Params
params_of (t ∷ m ∷ p ∷ salt) =
    some (record { salt = salt; time_cost = t; memory_cost = m; parallelism = p })
params_of _ = none

abbrev pub loads : String → Option Argon2Params
loads s = params_of (counted s)

pub loads-dumps : (p : Argon2Params) → loads (dumps p) ≡ some p
loads-dumps p = ap params_of (counted-shown (p.time_cost ∷ p.memory_cost ∷ p.parallelism ∷ p.salt))

abbrev pub toy_pw : PasswordLib
toy_pw = record {
  hash_secret_raw = λ password params. password;
  hkdf = λ key. key;
  hash = λ password salt. password;
  verify = str_eq;
  dumps = dumps;
  loads = loads;
  verify-hash = λ password salt. (eq_iff password password).1 refl;
  loads-dumps = loads-dumps;
}
