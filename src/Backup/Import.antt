-- ===== src/Backup/Import.antt =====
-- keyhub/backup.py: `import_backup`, with the rows that it deletes for good and their cascade. Each
-- item is a transaction of its own, or two.
use key_hub.Common.{
  ℕ, suc, ◌+◌, String, str_eq, Bool, true, not, ◌&&◌, Option, none, some, List, [], ◌∷◌, leb,
  if◌then◌else◌, length, text_length, find, keep, any,
}
use key_hub.Models.{Bytes, Credential, CredentialType, audit, backup_import}
use key_hub.Crypto.{CryptoLib}
use key_hub.Store.Defs.{Db, StoreError, ok, fail, is_live}
use key_hub.Store.Rows.{CredentialCreate, Draw}
use key_hub.Store.Ops.{create_credential}
use key_hub.Runtime.State.{Argon2Params, PasswordLib, derive_master_key}
use key_hub.Backup.Frame.{
  Item, BackupPayload, BackupLib, BackupFile, ReadFile, file, bad_magic, bad_version, cut_short,
  read_file,
}

-- The exceptions: a locked vault, what the checks of the file raise, bytes that are no file of this
-- form, an item that is no credential, and what `create_credential` raises.
pub data BackupError : Type 0 where
  locked not_a_backup wrong_password unreadable invalid : BackupError
  unsupported : ℕ → BackupError
  store_error : StoreError → BackupError

-- `CredentialType(...)`, where no value of another text raises.
unfoldable pub type_of : String → Option CredentialType
type_of s =
    if str_eq s "password"
    then some CredentialType.password
    else (if str_eq s "token"
        then some CredentialType.token
        else (if str_eq s "ssh_key"
            then some CredentialType.ssh_key
            else (if str_eq s "database"
                then some CredentialType.database
                else (if str_eq s "llm"
                    then some CredentialType.llm
                    else (if str_eq s "other" then some CredentialType.other else none)))))

-- The row that `s.delete` takes out, its keys and its versions.
abbrev pub owned : (Credential → Bool) → List Credential → String → Bool
owned p cs id = any (λ c. p c && str_eq c.id id) cs

unfoldable pub delete_rows : (Credential → Bool) → Db → Db
delete_rows p db = record db {
  credentials = keep (λ c. not (p c)) db.credentials;
  llm_keys = keep (λ k. not (owned p db.credentials k.credential_id)) db.llm_keys;
  rotations = keep (λ r. not (owned p db.credentials r.credential_id)) db.rotations;
}

abbrev pub is_stale : String → Credential → Bool
is_stale name c = str_eq c.name name && c.deleted

abbrev pub is_id : String → Credential → Bool
is_id id c = str_eq c.id id

-- The limits of the fields of `CredentialCreate`.
abbrev pub is_valid : String → Bytes → Bool
is_valid name value =
    leb 1 (text_length name) && (leb (text_length name) 128 && leb 1 (length value))

abbrev pub create_of : Item → CredentialType → CredentialCreate
create_of item type = record {
  name = item.name;
  type = type;
  value = item.value;
  metadata = item.metadata;
  expires_at = none;
  rotation_days = item.rotation_days;
  tags = [];
  provider = elim item.llm [ none ↦ none | some l ↦ some l.provider ];
  label = elim item.llm [ none ↦ none | some l ↦ some l.label ];
  allowed_models = elim item.llm [ none ↦ [] | some l ↦ l.allowed_models ];
  priority = elim item.llm [ none ↦ 0 | some l ↦ l.priority ];
  weight = 1;
  monthly_budget_usd = 0;
}

-- `CredentialCreate(...)` of an item, where it raises no error of validation.
unfoldable pub to_create : Item → Option CredentialCreate
to_create item = elim (type_of item.type) [
  | none ↦ none
  | some type ↦ if is_valid item.name item.value then some (create_of item type) else none
]

-- How an item ends.
pub data Fate : Type 0 where
  created replaced skipped : Fate
  raised : BackupError → Fate

pub record Counts : Type 0 where
  pub imported : ℕ
  pub skipped : ℕ
  pub overwritten : ℕ

abbrev pub with_fate : Fate → Counts → Counts
with_fate created n = record n { imported = n.imported + 1 }
with_fate replaced n = record n { overwritten = n.overwritten + 1 }
with_fate skipped n = record n { skipped = n.skipped + 1 }
with_fate (raised e) n = n

pub data Imported : Type 0 where
  done : Counts → Imported
  stopped : BackupError → Imported

module _ (lib : CryptoLib) (fingerprint : Bytes → String) (vault : Option Bytes) where
  -- The end of a loop's turn; what `fate` says if `create_credential` goes through.
  unfoldable pub create_item : Db → Option CredentialCreate → Draw → Fate → Db × Fate
  create_item db none draw fate = (db, raised invalid)
  create_item db (some input) draw fate =
      let (db', made) = create_credential lib fingerprint vault db input draw in
      (db', elim made [ fail e ↦ raised (store_error e) | ok c ↦ fate ])

  -- An item whose name is taken or not.
  unfoldable pub import_found : Bool → Item → Draw → Db → Option Credential → Db × Fate
  import_found overwrite item draw db none = create_item db (to_create item) draw created
  import_found overwrite item draw db (some c) =
      if overwrite
      then create_item (delete_rows (is_id c.id) db) (to_create item) draw replaced
      else (db, skipped)

  -- A turn of the loop.
  unfoldable pub import_item : Bool → Item → Draw → Db → Db × Fate
  import_item overwrite item draw db =
      import_found overwrite item draw (delete_rows (is_stale item.name) db)
        (find (is_live item.name) db.credentials)

  -- An exception ends the loop.
  abbrev pub go_on : Db × Fate → Counts → (Db → Counts → Db × Imported) → Db × Imported
  go_on (db, raised e) n next = (db, stopped e)
  go_on (db, created) n next = next db (with_fate created n)
  go_on (db, replaced) n next = next db (with_fate replaced n)
  go_on (db, skipped) n next = next db (with_fate skipped n)

  -- The loop; the `k`-th item has the `k`-th draw.
  unfoldable pub import_items : Bool → (ℕ → Draw) → ℕ → List Item → Db → Counts → Db × Imported
  import_items overwrite draws k [] db n = (db, done n)
  import_items overwrite draws k (item ∷ items) db n =
      go_on (import_item overwrite item (draws k) db) n
        (λ db' n'. import_items overwrite draws (suc k) items db' n')

abbrev pub no_counts : Counts
no_counts = record { imported = 0; skipped = 0; overwritten = 0 }

-- The audit row of an import that went through.
abbrev pub audited : String → ℕ → Db × Imported → Db × Imported
audited actor now (db, stopped e) = (db, stopped e)
audited actor now (db, done n) =
    (record db { audit_logs = audit backup_import actor none true now db.audit_logs }, done n)

-- The payload of a file, or the error.
pub data Opened : Type 0 where
  opened : BackupPayload → Opened
  refused : BackupError → Opened

module _ (lib : CryptoLib) (passwords : PasswordLib) (json : BackupLib) where
  abbrev pub payload_of : Option Bytes → Opened
  payload_of none = refused wrong_password
  payload_of (some bytes) = elim (json.load_payload bytes) [
    | none ↦ refused unreadable
    | some payload ↦ opened payload
  ]

  -- The key of the file's parameters.
  abbrev pub open_with : String → BackupFile → Option Argon2Params → Opened
  open_with password f none = refused unreadable
  open_with password f (some params) =
      payload_of
        (lib.open_box (derive_master_key passwords password params) f.nonce f.ciphertext [])

  unfoldable pub open_file : String → ReadFile → Opened
  open_file password bad_magic = refused not_a_backup
  open_file password cut_short = refused unreadable
  open_file password (bad_version v) = refused (unsupported v)
  open_file password (file f) = open_with password f (json.load_params f.params_json)

module _ (lib : CryptoLib) (fingerprint : Bytes → String) where
  -- The items of an opened file.
  unfoldable pub import_payload :
      Bytes → Bool → (ℕ → Draw) → String → ℕ → Db → Opened → Db × Imported
  import_payload key overwrite draws actor now db (refused e) = (db, stopped e)
  import_payload key overwrite draws actor now db (opened payload) =
      audited actor now
        (import_items lib fingerprint (some key) overwrite draws 0 payload.credentials db no_counts)

  -- `import_backup` of the bytes of a file.
  unfoldable pub import_backup :
      PasswordLib
      → BackupLib
      → Option Bytes
      → Db
      → Bytes
      → String
      → Bool
      → (ℕ → Draw)
      → String
      → ℕ
      → Db × Imported
  import_backup passwords json none db bytes password overwrite draws actor now =
      (db, stopped locked)
  import_backup passwords json (some key) db bytes password overwrite draws actor now =
      import_payload key overwrite draws actor now db
        (open_file lib passwords json password (read_file bytes))
