-- ===== src/Importers/Endpoint.antt =====
-- keyhub/api/credentials.py: `import_credentials`. What `csv.DictReader` and the validation of an item make of
-- their input are parameters, `none` where they raise. A text in a validation error that says "already
-- exists" is left out.
use key_hub.Common.{
  ℕ, suc, ◌+◌, String, str_eq, true, Option, none, some, List, [], ◌∷◌, ◌++◌, ltb, if◌then◌else◌,
  length, map,
}
use key_hub.Common.Dict.{Dict}
use key_hub.Models.{Bytes, Credential, audit, credential_import}
use key_hub.Crypto.{CryptoLib}
use key_hub.Store.Defs.{Db, StoreError, already_exists, Outcome, ok, fail}
use key_hub.Store.Rows.{CredentialCreate, Draw}
use key_hub.Store.Ops.{create_credential}
use key_hub.Json.{Value, text, arr, obj, Fields, get_field, get_or}
use key_hub.Importers.{max_import_items, values_of, import_bitwarden_json, import_keepass_csv}

pub record ReadLib : Type 0 where
  pub strip : String → String
  pub reader : Value → Option (List (Dict String))
  pub validate : Fields → Option CredentialCreate

-- An item with the name that an error of it would have.
abbrev pub Incoming : Type 0
Incoming = Value × Option CredentialCreate

-- Why an item is among the errors.
pub data ItemError : Type 0 where
  invalid : ItemError
  stored : StoreError → ItemError

-- `results`
pub record Tally : Type 0 where
  pub imported : ℕ
  pub skipped : ℕ
  pub errors : List (Value × ItemError)

abbrev pub tallied : Value → Tally → Outcome Credential → Tally
tallied name n (ok c) = record n { imported = n.imported + 1 }
tallied name n (fail already_exists) = record n { skipped = n.skipped + 1 }
tallied name n (fail e) = record n { errors = n.errors ++ (name, stored e) ∷ [] }

module _ (lib : CryptoLib) (fingerprint : Bytes → String) (vault : Option Bytes) where
  -- A turn of the loop.
  unfoldable pub import_one : Draw → Incoming → Db → Tally → Db × Tally
  import_one draw (name, none) db n = (db, record n { errors = n.errors ++ (name, invalid) ∷ [] })
  import_one draw (name, some input) db n =
      let (db', made) = create_credential lib fingerprint vault db input draw in
      (db', tallied name n made)

  -- The loop over the items; the `k`-th has the `k`-th draw.
  unfoldable pub import_all : (ℕ → Draw) → ℕ → List Incoming → Db → Tally → Db × Tally
  import_all draws k [] db n = (db, n)
  import_all draws k (x ∷ xs) db n =
      let (db', n') = import_one (draws k) x db n in import_all draws (suc k) xs db' n'

abbrev pub no_tally : Tally
no_tally = record { imported = 0; skipped = 0; errors = [] }

-- What is to be imported, or the status of an `HTTPException`.
pub data ReadBody : Type 0 where
  incoming : List Incoming → ReadBody
  http_error : ℕ → ReadBody

pub data ImportAnswer : Type 0 where
  answered : Tally → ImportAnswer
  raised : ℕ → ImportAnswer

abbrev pub known : CredentialCreate → Incoming
known c = (text c.name, some c)

abbrev pub if_few {ℓ} : {A : Type ℓ} → (A → Incoming) → List A → ReadBody
if_few f xs = if ltb max_import_items (length xs) then http_error 413 else incoming (map f xs)

abbrev pub parsed : Option (List CredentialCreate) → ReadBody
parsed none = http_error 400
parsed (some cs) = if_few known cs

module _ (read : ReadLib) where
  abbrev pub checked_item : Value → Incoming
  checked_item (obj fs) = (get_or "name" (text "?") fs, read.validate fs)
  checked_item v = (text "?", none)

  abbrev pub read_json : Value → ReadBody
  read_json (arr vs) = if_few checked_item (values_of vs)
  read_json v = http_error 400

  abbrev pub read_items : Option Value → ReadBody
  read_items none = http_error 400
  read_items (some v) = parsed (import_bitwarden_json read.strip v)

  abbrev pub read_bitwarden : Value → ReadBody
  read_bitwarden (obj fs) = read_items (get_field "items" fs)
  read_bitwarden (arr vs) = parsed (import_bitwarden_json read.strip (arr vs))
  read_bitwarden v = http_error 400

  abbrev pub read_rows : Option (List (Dict String)) → ReadBody
  read_rows none = http_error 400
  read_rows (some rows) = parsed (import_keepass_csv read.strip rows)

  abbrev pub read_csv : Option Value → ReadBody
  read_csv none = http_error 400
  read_csv (some v) = read_rows (read.reader v)

  abbrev pub read_keepass : Value → ReadBody
  read_keepass (obj fs) = read_csv (get_field "csv" fs)
  read_keepass v = http_error 400

  -- The branches on the format.
  unfoldable pub read_body : String → Value → ReadBody
  read_body format body =
      if str_eq format "json"
      then read_json body
      else (if str_eq format "bitwarden"
          then read_bitwarden body
          else (if str_eq format "keepass_csv" then read_keepass body else http_error 400))

module _ (lib : CryptoLib) (fingerprint : Bytes → String) (vault : Option Bytes) where
  abbrev pub import_audited : String → ℕ → Db × Tally → Db × ImportAnswer
  import_audited actor now (db, n) = (
    record db { audit_logs = audit credential_import actor none true now db.audit_logs },
    answered n,
  )

  unfoldable pub import_incoming : (ℕ → Draw) → String → ℕ → Db → ReadBody → Db × ImportAnswer
  import_incoming draws actor now db (http_error status) = (db, raised status)
  import_incoming draws actor now db (incoming xs) =
      import_audited actor now (import_all lib fingerprint vault draws 0 xs db no_tally)

  -- `import_credentials`
  unfoldable pub import_credentials :
      ReadLib → Db → Value → String → (ℕ → Draw) → String → ℕ → Db × ImportAnswer
  import_credentials read db body format draws actor now =
      import_incoming draws actor now db (read_body read format body)
