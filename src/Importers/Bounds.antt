-- ===== src/Importers/Bounds.antt =====
-- What the importers of keyhub/importers.py let through, and what they refuse as a whole.
use mathlib.Core.Path.{subst}
use mathlib.Core.List.{append-nil, append_assoc}
use key_hub.Common.{
  ◌∙◌, sym, ℕ, zero, suc, ◌+◌, ◌≤◌, ◌≡◌, ◌⊎◌, inl, inr, refl, ap, String, Bool, true, false, Option,
  none, some, List, [], ◌∷◌, ◌++◌, arith, leb, any, map, if◌then◌else◌, length, length-append,
  text_length, first_chars, All,
}
use key_hub.Common.Dict.{Dict, lookup}
use key_hub.Models.{CredentialType}
use key_hub.Store.Defs.{utf8}
use key_hub.Store.Rows.{CredentialCreate}
use key_hub.Backup.Import.{is_valid}
use key_hub.Json.{Value, arr, obj, text, num, bool, null, Items, Fields, get_field}
use key_hub.Importers.{
  truncate, max_field_length, max_import_items, Entry, left_out, refused, taken, create_password,
  entry_of, with_text, metadata_of, filled, login_of, url_of, login_entry, bitwarden_entry,
  stripped, parts_of, row_entry, keepass_entry, read_entries, read_values, values_of, looped,
  import_bitwarden_json, import_keepass_csv,
}

length-first_chars : (n : ℕ) (s : String) → text_length (first_chars n s) ≤ n
unfolding first_chars
length-first_chars zero s = omega arith
length-first_chars (suc n) String.[] = omega arith
length-first_chars (suc n) (String.◌∷◌ c s) = omega (arith, length-first_chars n s)

length-truncate : (s : String) → text_length (truncate s) ≤ max_field_length
length-truncate s = ground (arith, length-first_chars max_field_length s)

abbrev pub AreShort : Dict String → Type 0
AreShort metadata = All (λ (entry : String × String). text_length entry.1 ≤ 4096) metadata

-- A password whose name and value are within the limits of the fields, with short texts beside it.
abbrev pub IsWithin : CredentialCreate → Type 0
IsWithin c =
    (c.type ≡ CredentialType.password) × (is_valid c.name c.value ≡ true) × AreShort c.metadata

with_text-AreShort :
    (k : String) (o : Option String) (metadata : Dict String)
    → AreShort metadata
    → AreShort (with_text k o metadata)
with_text-AreShort k none metadata short = short
with_text-AreShort k (some s) metadata short = (length-truncate s, short)

metadata_of-AreShort :
    (username url notes : Option String) → AreShort (metadata_of username url notes)
metadata_of-AreShort username url notes =
    with_text-AreShort "username" username (with_text "url" url (with_text "notes" notes [])) (
      with_text-AreShort "url" url (with_text "notes" notes [])
        (with_text-AreShort "notes" notes [] tt))

abbrev IsFine : Entry → Type 0
IsFine left_out = Unit
IsFine refused = Unit
IsFine (taken c) = IsWithin c

entry_of-IsFine :
    (name password : String) (username url notes : Option String) (tags : List String)
    → IsFine (entry_of name password (metadata_of username url notes) tags)
entry_of-IsFine name password username url notes tags =
    elim (is_valid name (utf8 password))
        as (λ b.
          is_valid name (utf8 password) ≡ b
          → IsFine (
              if b
              then taken (create_password name password (metadata_of username url notes) tags)
              else refused)) [
                | true ↦ λ valid. (refl, valid, metadata_of-AreShort username url notes)
                | false ↦ λ other. tt
              ]
      refl

module _ (strip : String → String) where
  login_entry-IsFine :
      (name password : Option String) (login : Fields) (notes : Option Value)
      → IsFine (login_entry strip name password login notes)
  login_entry-IsFine none password login notes = tt
  login_entry-IsFine (some name) none login notes = tt
  login_entry-IsFine (some name) (some password) login notes =
      entry_of-IsFine (truncate (strip name)) password (filled (get_field "username" login))
        (url_of (get_field "uris" login)) (filled notes) []

  bitwarden_entry-IsFine : (v : Value) → IsFine (bitwarden_entry strip v)
  unfolding bitwarden_entry
  bitwarden_entry-IsFine (obj fs) =
      let login = login_of (get_field "login" fs) in
      login_entry-IsFine (filled (get_field "name" fs)) (filled (get_field "password" login)) login
        (get_field "notes" fs)
  bitwarden_entry-IsFine (arr vs) = tt
  bitwarden_entry-IsFine (text s) = tt
  bitwarden_entry-IsFine (num n) = tt
  bitwarden_entry-IsFine (bool b) = tt
  bitwarden_entry-IsFine null = tt

  row_entry-IsFine :
      (name password : Option String) (row : Dict String)
      → IsFine (row_entry strip name password row)
  row_entry-IsFine none password row = tt
  row_entry-IsFine (some name) none row = tt
  row_entry-IsFine (some name) (some password) row =
      entry_of-IsFine (truncate name) password (stripped strip (lookup "Username" row))
        (stripped strip (lookup "URL" row)) (stripped strip (lookup "Notes" row))
        (parts_of strip (stripped strip (lookup "Tags" row)))

  keepass_entry-IsFine : (row : Dict String) → IsFine (keepass_entry strip row)
  unfolding keepass_entry
  keepass_entry-IsFine row =
      row_entry-IsFine (stripped strip (lookup "Title" row))
        (stripped strip (lookup "Password" row)) row

All-IsFine :
    {A : Type 0}
    → (f : A → Entry) → ((x : A) → IsFine (f x))
    → (xs : List A) → All IsFine (map f xs)
All-IsFine f fine [] = tt
All-IsFine f fine (x ∷ xs) = (fine x, All-IsFine f fine xs)

All-append :
    (cs : List CredentialCreate) (c : CredentialCreate)
    → All IsWithin cs
    → IsWithin c
    → All IsWithin (cs ++ c ∷ [])
All-append [] c all one = (one, tt)
All-append (x ∷ xs) c (a, all) one = (a, All-append xs c all one)

abbrev AreWithin : Option (List CredentialCreate) → Type 0
AreWithin none = Unit
AreWithin (some cs) = (length cs ≤ 5000) × All IsWithin cs

if_enough :
    (b : Bool) (results : List CredentialCreate) (rest : Option (List CredentialCreate))
    → leb max_import_items (length results) ≡ b
    → length results ≤ 5000
    → All IsWithin results
    → (b ≡ false → AreWithin rest)
    → AreWithin (if b then some results else rest)
if_enough true results rest e size within later = (size, within)
if_enough false results rest e size within later = later refl

read_entries-AreWithin :
    (es : List Entry) (results : List CredentialCreate)
    → All IsFine es
    → length results ≤ 5000
    → All IsWithin results
    → AreWithin (read_entries es results)
unfolding read_entries
read_entries-AreWithin [] results fine size within = (size, within)
read_entries-AreWithin (left_out ∷ es) results (f, fine) size within =
    if_enough (leb max_import_items (length results)) results (read_entries es results) refl size
      within (λ few. read_entries-AreWithin es results fine size within)
read_entries-AreWithin (refused ∷ es) results (f, fine) size within =
    if_enough (leb max_import_items (length results)) results none refl size within (λ few. tt)
read_entries-AreWithin (taken c ∷ es) results (f, fine) size within =
    if_enough (leb max_import_items (length results)) results (read_entries es (results ++ c ∷ []))
      refl size within
      (λ few.
        read_entries-AreWithin es (results ++ c ∷ []) fine
          (ground (arith, few, length-append results (c ∷ []))) (All-append results c within f))

values-AreWithin :
    (strip : String → String) (o : Option (List Value)) → AreWithin (read_values strip o)
values-AreWithin strip none = tt
values-AreWithin strip (some vs) =
    read_entries-AreWithin (map (bitwarden_entry strip) vs) []
      (All-IsFine (bitwarden_entry strip) (bitwarden_entry-IsFine strip) vs) (omega arith) tt

bitwarden-AreWithin :
    (strip : String → String) (given : Value) → AreWithin (import_bitwarden_json strip given)
unfolding import_bitwarden_json
bitwarden-AreWithin strip given = values-AreWithin strip (looped given)

keepass-AreWithin :
    (strip : String → String) (rows : List (Dict String))
    → AreWithin (import_keepass_csv strip rows)
unfolding import_keepass_csv
keepass-AreWithin strip rows =
    read_entries-AreWithin (map (keepass_entry strip) rows) []
      (All-IsFine (keepass_entry strip) (keepass_entry-IsFine strip) rows) (omega arith) tt

-- What is read of an export of either program is at most 5000 passwords, whatever `strip` is, each with a
-- name and a value within the limits of a credential, and no text of its metadata longer than 4096
-- characters.
pub imports-AreWithin :
    (strip : String → String) (given : Value) (rows : List (Dict String))
    (cs : List CredentialCreate)
    → (import_bitwarden_json strip given ≡ some cs) ⊎ (import_keepass_csv strip rows ≡ some cs)
    → (length cs ≤ 5000) × All IsWithin cs
imports-AreWithin strip given rows cs (inl e) = subst AreWithin e (bitwarden-AreWithin strip given)
imports-AreWithin strip given rows cs (inr e) = subst AreWithin e (keepass-AreWithin strip rows)

abbrev pub is_refused : Entry → Bool
is_refused refused = true
is_refused _ = false

-- The credentials that the turns take, in their order.
abbrev pub all_taken : List Entry → List CredentialCreate
all_taken [] = []
all_taken (left_out ∷ es) = all_taken es
all_taken (refused ∷ es) = all_taken es
all_taken (taken c ∷ es) = c ∷ all_taken es

abbrev unless_refused : List Entry → List CredentialCreate → Option (List CredentialCreate)
unless_refused es cs = if any is_refused es then none else some cs

-- A turn that goes on with `next`.
goes_on :
    (es : List Entry) (results next cs : List CredentialCreate)
    → leb max_import_items (length results) ≡ false
    → read_entries es next ≡ unless_refused es cs
    → (if leb max_import_items (length results) then some results else read_entries es next)
      ≡ unless_refused es cs
goes_on es results next cs few rest = ground (arith, few, rest)

read_entries_lem :
    (es : List Entry) (results : List CredentialCreate)
    → length results + length es ≤ 5000
    → read_entries es results ≡ unless_refused es (results ++ all_taken es)
unfolding read_entries
read_entries_lem [] results few = ap some (sym (append-nil results))
read_entries_lem (left_out ∷ es) results few =
    goes_on es results results (results ++ all_taken es) (ground (arith, few))
      (read_entries_lem es results (omega (arith, few)))
read_entries_lem (refused ∷ es) results few = ground (arith, few)
read_entries_lem (taken c ∷ es) results few =
    goes_on es results (results ++ c ∷ []) (results ++ c ∷ all_taken es) (ground (arith, few)) (
      read_entries_lem es (results ++ c ∷ []) (omega (arith, few, length-append results (c ∷ [])))
      ∙ ap (unless_refused es) (append_assoc results (c ∷ []) (all_taken es)))

length-map_entry : (f : Value → Entry) (vs : List Value) → length (map f vs) ≡ length vs
length-map_entry f [] = refl
length-map_entry f (v ∷ vs) = ap suc (length-map_entry f vs)

-- Of an export of Bitwarden with at most 5000 items, the import raises where the validation of one of them
-- does; otherwise it gives, in their order, just the credentials of the items that are not left out.
pub import_bitwarden_json-all_taken :
    (strip : String → String) (items : Items)
    → length (values_of items) ≤ 5000
    → let entries = map (bitwarden_entry strip) (values_of items) in
      import_bitwarden_json strip (arr items)
      ≡ (if any is_refused entries then none else some (all_taken entries))
unfolding import_bitwarden_json
import_bitwarden_json-all_taken strip items few =
    read_entries_lem (map (bitwarden_entry strip) (values_of items)) []
      (omega (arith, few, length-map_entry (bitwarden_entry strip) (values_of items)))
