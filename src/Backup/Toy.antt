-- ===== src/Backup/Toy.antt =====
-- A concrete `BackupLib` for keyhub/backup.py: values are written one behind the other, lists and texts
-- behind their length.
use Prim.Native.Nat.{Ordering, compare}
use Prim.Native.Char.{Char, char, code, IsLt, IsScalar}
use key_hub.Common.{
  ℕ, zero, suc, ◌≡◌, refl, ap, ◌∙◌, String, Option, none, some, List, [], ◌∷◌, length,
}
use key_hub.Models.{Bytes}
use key_hub.Runtime.State.{Argon2Params}
use key_hub.Backup.Frame.{ItemLlm, Item, BackupPayload, BackupLib}

abbrev pub Read : Type 0 → Type 0
Read A = Option (A × Bytes)

-- A way to write values of a type in front of other bytes, and to read them back.
pub record Codec (A : Type 0) : Type 0 where
  pub print : A → Bytes → Bytes
  pub parse : Bytes → Read A
  pub parse-print : (a : A) (rest : Bytes) → parse (print a rest) ≡ some (a, rest)

abbrev pub read_number : Bytes → Read ℕ
read_number [] = none
read_number (n ∷ rest) = some (n, rest)

abbrev pub number : Codec ℕ
number = record { print = λ n rest. n ∷ rest; parse = read_number; parse-print = λ n rest. refl }

module _ {A B : Type 0} where
  abbrev pub then_read : Read A → (A → Bytes → Read B) → Read B
  then_read none next = none
  then_read (some (a, rest)) next = next a rest

  abbrev pub read_as : (A → B) → Read A → Read B
  read_as f none = none
  read_as f (some (a, rest)) = some (f a, rest)

  -- The same bytes for another type.
  abbrev along : Codec A → (f : A → B) (g : B → A) → ((b : B) → f (g b) ≡ b) → Codec B
  along ca f g f-g = record {
    print = λ b rest. ca.print (g b) rest;
    parse = λ bytes. read_as f (ca.parse bytes);
    parse-print = λ b rest.
        ap (read_as f) (ca.parse-print (g b) rest) ∙ ap (λ (b' : B). some (b', rest)) (f-g b);
  }

module _ {A B : Type 0} (ca : Codec A) (cb : Codec B) where
  abbrev pub read_both : Bytes → Read (A × B)
  read_both bytes = then_read (ca.parse bytes) (λ a rest. read_as (λ b. (a, b)) (cb.parse rest))

  pub read_both_lem :
      (x : A × B) (rest : Bytes) → read_both (ca.print x.0 (cb.print x.1 rest)) ≡ some (x, rest)
  read_both_lem (a, b) rest =
      ap (λ r. then_read r (λ a rest. read_as (λ b. (a, b)) (cb.parse rest)))
        (ca.parse-print a (cb.print b rest))
      ∙ ap (read_as (λ b. (a, b))) (cb.parse-print b rest)

  abbrev pair : Codec (A × B)
  pair = record {
    print = λ x rest. ca.print x.0 (cb.print x.1 rest);
    parse = read_both;
    parse-print = read_both_lem;
  }

module _ {A : Type 0} (ca : Codec A) where
  abbrev pub put_all : List A → Bytes → Bytes
  put_all [] rest = rest
  put_all (x ∷ xs) rest = ca.print x (put_all xs rest)

  abbrev pub read_all : ℕ → Bytes → Read (List A)
  read_all zero bytes = some ([], bytes)
  read_all (suc n) bytes =
      then_read (ca.parse bytes) (λ a rest. read_as (λ xs. a ∷ xs) (read_all n rest))

  pub read_all-put_all :
      (xs : List A) (rest : Bytes) → read_all (length xs) (put_all xs rest) ≡ some (xs, rest)
  read_all-put_all [] rest = refl
  read_all-put_all (x ∷ xs) rest =
      ap (λ r. then_read r (λ a rest. read_as (λ xs. a ∷ xs) (read_all (length xs) rest)))
        (ca.parse-print x (put_all xs rest))
      ∙ ap (read_as (λ ys. x ∷ ys)) (read_all-put_all xs rest)

  abbrev many : Codec (List A)
  many = record {
    print = λ xs rest. length xs ∷ put_all xs rest;
    parse = λ bytes. then_read (read_number bytes) read_all;
    parse-print = read_all-put_all;
  }

  abbrev listed : Option A → List A
  listed none = []
  listed (some a) = a ∷ []

  abbrev first : List A → Option A
  first [] = none
  first (a ∷ xs) = some a

  pub first-listed : (o : Option A) → first (listed o) ≡ o
  first-listed none = refl
  first-listed (some a) = refl

  abbrev maybe : Codec (Option A)
  maybe = along many first listed first-listed

abbrev pub BothLt : Ordering → Ordering → Type 0
BothLt Ordering.lt o = IsLt o
BothLt Ordering.eq _ = ⊥
BothLt Ordering.gt _ = ⊥

abbrev pub Scalar : Ordering → Ordering → Ordering → Type 0
Scalar Ordering.lt _ _ = Unit
Scalar Ordering.eq o p = BothLt o p
Scalar Ordering.gt o p = BothLt o p

abbrev pub lt? : (o : Ordering) → Option (IsLt o)
lt? Ordering.lt = some tt
lt? Ordering.eq = none
lt? Ordering.gt = none

abbrev pub both_lt? : (o p : Ordering) → Option (BothLt o p)
both_lt? Ordering.lt p = lt? p
both_lt? Ordering.eq p = none
both_lt? Ordering.gt p = none

abbrev pub scalar? : (n o p : Ordering) → Option (Scalar n o p)
scalar? Ordering.lt o p = some tt
scalar? Ordering.eq o p = both_lt? o p
scalar? Ordering.gt o p = both_lt? o p

pub lt?-some : (o : Ordering) (x : IsLt o) → lt? o ≡ some x
lt?-some Ordering.lt x = refl
lt?-some Ordering.eq x = elim x [ ]
lt?-some Ordering.gt x = elim x [ ]

pub both_lt?-some : (o p : Ordering) (x : BothLt o p) → both_lt? o p ≡ some x
both_lt?-some Ordering.lt p x = lt?-some p x
both_lt?-some Ordering.eq p x = elim x [ ]
both_lt?-some Ordering.gt p x = elim x [ ]

pub scalar?-some : (n o p : Ordering) (x : Scalar n o p) → scalar? n o p ≡ some x
scalar?-some Ordering.lt o p x = refl
scalar?-some Ordering.eq o p x = both_lt?-some o p x
scalar?-some Ordering.gt o p x = both_lt?-some o p x

abbrev pub is_scalar? : (n : ℕ) → Option (IsScalar n)
is_scalar? n = scalar? (compare n 55296) (compare 57343 n) (compare n 1114112)

abbrev pub with_scalar : (n : ℕ) → Bytes → Option (IsScalar n) → Read Char
with_scalar n rest none = none
with_scalar n rest (some p) = some (char n p, rest)

abbrev pub read_char : Bytes → Read Char
read_char [] = none
read_char (n ∷ rest) = with_scalar n rest (is_scalar? n)

pub read_char_lem : (c : Char) (rest : Bytes) → read_char (code c ∷ rest) ≡ some (c, rest)
read_char_lem (char n p) rest =
    ap (with_scalar n rest) (scalar?-some (compare n 55296) (compare 57343 n) (compare n 1114112) p)

abbrev pub character : Codec Char
character = record {
  print = λ c rest. code c ∷ rest;
  parse = read_char;
  parse-print = read_char_lem;
}

abbrev pub chars : String → List Char
chars String.[] = []
chars (String.◌∷◌ c s) = c ∷ chars s

abbrev pub joined : List Char → String
joined [] = String.[]
joined (c ∷ cs) = String.◌∷◌ c (joined cs)

pub joined-chars : (s : String) → joined (chars s) ≡ s
joined-chars String.[] = refl
joined-chars (String.◌∷◌ c s) = ap (λ t. String.◌∷◌ c t) (joined-chars s)

abbrev pub text : Codec String
text = along (many character) joined chars joined-chars

abbrev params : Codec Argon2Params
params =
    along (pair (many number) (pair number (pair number number)))
      (λ (salt, (t, (m, p))). record {
        salt = salt;
        time_cost = t;
        memory_cost = m;
        parallelism = p;
      })
      (λ q. (q.salt, (q.time_cost, (q.memory_cost, q.parallelism)))) (λ q. refl)

abbrev pub item_llm : Codec ItemLlm
item_llm =
    along (pair text (pair text (pair (many text) number)))
      (λ (provider, (label, (models, priority))). record {
        provider = provider;
        label = label;
        allowed_models = models;
        priority = priority;
      })
      (λ l. (l.provider, (l.label, (l.allowed_models, l.priority)))) (λ l. refl)

abbrev pub item : Codec Item
item =
    along
      (pair text (
        pair text (
          pair (many number) (
            pair (many (pair text text))
              (pair (maybe number) (pair (maybe number) (pair (maybe number) (maybe item_llm))))))))
      (λ (name, (type, (value, (metadata, (expires_at, (rotation_days, (last_rotated_at, llm))))))).
        record {
          name = name;
          type = type;
          value = value;
          metadata = metadata;
          expires_at = expires_at;
          rotation_days = rotation_days;
          last_rotated_at = last_rotated_at;
          llm = llm;
        })
      (λ i. (
        i.name,
        (
          i.type,
          (i.value, (i.metadata, (i.expires_at, (i.rotation_days, (i.last_rotated_at, i.llm))))),
        ),
      ))
      (λ i. refl)

abbrev payload : Codec BackupPayload
payload =
    along (pair number (pair number (many item)))
      (λ (exported_at, (count, credentials)). record {
        exported_at = exported_at;
        count = count;
        credentials = credentials;
      })
      (λ p. (p.exported_at, (p.count, p.credentials))) (λ p. refl)

abbrev pub value_of : {A : Type 0} → Read A → Option A
value_of none = none
value_of (some (a, rest)) = some a

abbrev pub toy_backup : BackupLib
toy_backup = record {
  dump_params = λ p. params.print p [];
  load_params = λ bytes. value_of (params.parse bytes);
  dump_payload = λ p. payload.print p [];
  load_payload = λ bytes. value_of (payload.parse bytes);
  load-dump_params = λ p. ap value_of (params.parse-print p []);
  load-dump_payload = λ p. ap value_of (payload.parse-print p []);
}
