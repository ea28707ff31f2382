-- ===== src/Auth/Toy.antt =====
-- A concrete `SerializerLib` for keyhub/auth.py: the time and the epoch in unary, then the subject.
use Prim.Native.Char.{code}
use key_hub.Common.{
  ℕ, zero, suc, ◌-◌, ◌≤◌, ◌≡◌, refl, ap, String, Option, none, some, leb, ◌==◌, if◌then◌else◌,
}
use key_hub.Auth.Sessions.{session_max_age, Payload, SerializerLib}
use key_hub.Runtime.Toy.{stroke}

abbrev epoch_code : Option ℕ → ℕ
epoch_code none = 0
epoch_code (some n) = suc n

abbrev epoch_of : ℕ → Option ℕ
epoch_of zero = none
epoch_of (suc n) = some n

epoch_of-epoch_code : (ep : Option ℕ) → epoch_of (epoch_code ep) ≡ ep
epoch_of-epoch_code none = refl
epoch_of-epoch_code (some n) = refl

-- The strokes in front of a text, and what follows the mark after them.
abbrev peel : String → ℕ × String
peel String.[] = (0, String.[])
peel (String.◌∷◌ c s) = let rest = peel s in if code c == 97 then (suc rest.0, rest.1) else (0, s)

peel-stroke : (n : ℕ) (s : String) → peel (stroke n (String.◌∷◌ "b" s)) ≡ (n, s)
peel-stroke zero s = refl
peel-stroke (suc n) s = ap (λ (r : ℕ × String). (suc r.0, r.1)) (peel-stroke n s)

abbrev dumps : Payload → ℕ → String
dumps p signed = stroke signed (String.◌∷◌ "b" (stroke (epoch_code p.ep) (String.◌∷◌ "b" p.sub)))

abbrev checked : ℕ → ℕ × String → Option Payload
checked now (signed, rest) =
    let (ep, sub) = peel rest in
    if leb (now - signed) session_max_age
    then some (record { sub = sub; ep = epoch_of ep })
    else none

pub loads-dumps :
    (p : Payload) (signed now : ℕ)
    → signed ≤ now
    → checked now (peel (dumps p signed))
      ≡ (if leb (now - signed) session_max_age then some p else none)
loads-dumps p signed now le =
    rw
      (
        peel-stroke signed (stroke (epoch_code p.ep) (String.◌∷◌ "b" p.sub)),
        peel-stroke (epoch_code p.ep) p.sub,
        epoch_of-epoch_code p.ep,
      )
      refl

abbrev pub toy_serializer : SerializerLib
toy_serializer = record {
  dumps = dumps;
  loads = λ cookie now. checked now (peel cookie);
  loads-dumps = loads-dumps;
}
