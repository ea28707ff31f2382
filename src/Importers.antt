-- ===== src/Importers.antt =====
-- keyhub/importers.py: what is read of the exports of Bitwarden and KeePass. `str.strip` is a parameter, and
-- so are the rows that `csv.DictReader` gives: each a dictionary without the columns that are missing.
pub mod Endpoint
mod Bounds
mod Accounted
mod Tests
use Prim.Native.Char.{code}
use key_hub.Common.{
  ℕ, suc, String, str_eq, Bool, true, false, not, ◌&&◌, Option, none, some, List, [], ◌∷◌, ◌++◌,
  ◌==◌, ltb, leb, if◌then◌else◌, length, text_length, first_chars, append, map, keep,
}
use key_hub.Common.Dict.{Dict, lookup}
use key_hub.Models.{Bytes, CredentialType}
use key_hub.Store.Defs.{utf8}
use key_hub.Store.Rows.{CredentialCreate}
use key_hub.Backup.Import.{is_valid}
use key_hub.Json.{
  Value, null, bool, num, text, arr, obj, Items, no_items, item, Fields, end, get_field,
}

-- `MAX_IMPORT_ITEMS` and `MAX_FIELD_LENGTH`
abbrev pub max_import_items : ℕ
max_import_items = 5000

abbrev pub max_field_length : ℕ
max_field_length = 4096

-- `_truncate`
abbrev pub truncate : String → String
truncate s = if ltb max_field_length (text_length s) then first_chars max_field_length s else s

-- What a turn of the loop comes to: `continue`, a `ValidationError`, or a credential.
pub data Entry : Type 0 where
  left_out refused : Entry
  taken : CredentialCreate → Entry

abbrev pub create_password : String → String → Dict String → List String → CredentialCreate
create_password name password metadata tags = record {
  name = name;
  type = CredentialType.password;
  value = utf8 password;
  metadata = metadata;
  expires_at = none;
  rotation_days = none;
  tags = tags;
  provider = none;
  label = none;
  allowed_models = [];
  priority = 0;
  weight = 1;
  monthly_budget_usd = 0;
}

-- `CredentialCreate(...)`
abbrev pub entry_of : String → String → Dict String → List String → Entry
entry_of name password metadata tags =
    if is_valid name (utf8 password)
    then taken (create_password name password metadata tags)
    else refused

-- A field of the metadata, where there is a text for it.
abbrev pub with_text : String → Option String → Dict String → Dict String
with_text k none metadata = metadata
with_text k (some s) metadata = (k, truncate s) ∷ metadata

abbrev pub metadata_of : Option String → Option String → Option String → Dict String
metadata_of username url notes =
    with_text "username" username (with_text "url" url (with_text "notes" notes []))

-- A text that is not empty.
abbrev pub filled : Option Value → Option String
filled (some (text s)) = if str_eq s "" then none else some s
filled _ = none

abbrev pub login_of : Option Value → Fields
login_of (some (obj fs)) = fs
login_of _ = end

-- `uris[0].get("uri")`, where that can be taken.
abbrev pub url_of : Option Value → Option String
url_of (some (arr (item (obj fs) others))) = filled (get_field "uri" fs)
url_of _ = none

-- `s.split(",")`
abbrev pub put_first : String → List String → List String
put_first c [] = c ∷ []
put_first c (t ∷ ts) = append c t ∷ ts

unfoldable pub split_commas : String → List String
split_commas String.[] = "" ∷ []
split_commas (String.◌∷◌ c s) =
    let rest = split_commas s in
    if code c == 44 then "" ∷ rest else put_first (String.◌∷◌ c "") rest

module _ (strip : String → String) where
  abbrev pub login_entry : Option String → Option String → Fields → Option Value → Entry
  login_entry none password login notes = left_out
  login_entry (some name) none login notes = left_out
  login_entry (some name) (some password) login notes =
      entry_of (truncate (strip name)) password
        (metadata_of (filled (get_field "username" login)) (url_of (get_field "uris" login))
          (filled notes))
        []

  -- A turn of the loop of `import_bitwarden_json`.
  unfoldable pub bitwarden_entry : Value → Entry
  bitwarden_entry (obj fs) =
      let login = login_of (get_field "login" fs) in
      login_entry (filled (get_field "name" fs)) (filled (get_field "password" login)) login
        (get_field "notes" fs)
  bitwarden_entry _ = left_out

  -- `(row.get(k) or "").strip()`, if it is not empty.
  abbrev pub stripped : Option String → Option String
  stripped none = if str_eq (strip "") "" then none else some (strip "")
  stripped (some s) = if str_eq (strip s) "" then none else some (strip s)

  abbrev pub parts_of : Option String → List String
  parts_of none = []
  parts_of (some s) = keep (λ t. not (str_eq t "")) (map strip (split_commas s))

  abbrev pub row_entry : Option String → Option String → Dict String → Entry
  row_entry none password row = left_out
  row_entry (some name) none row = left_out
  row_entry (some name) (some password) row =
      entry_of (truncate name) password
        (metadata_of (stripped (lookup "Username" row)) (stripped (lookup "URL" row))
          (stripped (lookup "Notes" row)))
        (parts_of (stripped (lookup "Tags" row)))

  -- A turn of the loop of `import_keepass_csv`.
  unfoldable pub keepass_entry : Dict String → Entry
  keepass_entry row =
      row_entry (stripped (lookup "Title" row)) (stripped (lookup "Password" row)) row

-- The end of a turn; a `ValidationError` ends the import.
abbrev pub with_entry {ℓ} :
    {A : Type ℓ} → Entry → List CredentialCreate → (List CredentialCreate → Option A) → Option A
with_entry left_out results next = next results
with_entry refused results next = none
with_entry (taken c) results next = next (results ++ c ∷ [])

-- The loop of both, over what comes in, until there are enough.
unfoldable pub read_entries : List Entry → List CredentialCreate → Option (List CredentialCreate)
read_entries [] results = some results
read_entries (e ∷ es) results =
    if leb max_import_items (length results)
    then some results
    else with_entry e results (λ results'. read_entries es results')

abbrev pub values_of : Items → List Value
values_of no_items = []
values_of (item v vs) = v ∷ values_of vs

-- What a loop runs through: the keys of an object and the characters of a text are no objects; other values
-- raise.
abbrev pub looped : Value → Option (List Value)
looped (arr vs) = some (values_of vs)
looped (obj fs) = some []
looped (text s) = some []
looped _ = none

abbrev pub read_values : (String → String) → Option (List Value) → Option (List CredentialCreate)
read_values strip none = none
read_values strip (some vs) = read_entries (map (bitwarden_entry strip) vs) []

-- `import_bitwarden_json`; `none` where it raises.
unfoldable pub import_bitwarden_json : (String → String) → Value → Option (List CredentialCreate)
import_bitwarden_json strip given = read_values strip (looped given)

-- `import_keepass_csv`, of the rows of the text.
unfoldable pub import_keepass_csv :
    (String → String) → List (Dict String) → Option (List CredentialCreate)
import_keepass_csv strip rows = read_entries (map (keepass_entry strip) rows) []
