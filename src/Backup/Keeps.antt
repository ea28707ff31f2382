-- ===== src/Backup/Keeps.antt =====
-- An import (keyhub/backup.py) that is not to overwrite leaves the live credentials alone.
use key_hub.Common.{
  ℕ, suc, ◌≡◌, ◌∙◌, String, false, not, Option, none, some, List, [], ◌∷◌, arith, find, find-keep,
  find-append_some,
}
use key_hub.Models.{Bytes, Credential}
use key_hub.Crypto.{CryptoLib}
use key_hub.Store.Defs.{Db, is_live}
use key_hub.Store.Rows.{CredentialCreate, Draw}
use key_hub.Store.Ops.{create_credential}
use key_hub.Runtime.State.{PasswordLib}
use key_hub.Backup.Frame.{Item, BackupLib, read_file}
use key_hub.Backup.Import.{
  to_create, delete_rows, is_stale, Fate, created, replaced, skipped, raised, Counts, no_counts,
  Imported, done, stopped, go_on, with_fate, create_item, import_found, import_item, import_items,
  audited, Opened, opened, refused, open_file, import_payload, import_backup,
}

-- The live credential of the name is the row.
abbrev pub IsHere : String → Credential → Db → Type 0
IsHere name c db = find (is_live name) db.credentials ≡ some c

delete_rows-IsHere :
    (name : String) (c : Credential) (other : String) (db : Db)
    → IsHere name c db
    → IsHere name c (delete_rows (is_stale other) db)
unfolding delete_rows
delete_rows-IsHere name c other db here =
    find-keep (is_live name) (λ r. not (is_stale other r)) db.credentials
      (λ r dropped. ground arith)
    ∙ here

audited-IsHere :
    (name : String) (c : Credential) (actor : String) (now : ℕ) (x : Db × Imported)
    → IsHere name c x.0
    → IsHere name c (audited actor now x).0
audited-IsHere name c actor now (db, done n) here = here
audited-IsHere name c actor now (db, stopped e) here = here

module _ (lib : CryptoLib) (fingerprint : Bytes → String) (vault : Option Bytes) (name : String)
    (c : Credential) where
  create_credential-IsHere :
      (db : Db) (input : CredentialCreate) (draw : Draw)
      → IsHere name c db
      → IsHere name c (create_credential lib fingerprint vault db input draw).0
  unfolding create_credential
  create_credential-IsHere db input draw here =
      grind
        (arith, here, λ (y : Credential). find-append_some (is_live name) db.credentials y c here)

  create_item-IsHere :
      (db : Db) (input : Option CredentialCreate) (draw : Draw) (fate : Fate)
      → IsHere name c db
      → IsHere name c (create_item lib fingerprint vault db input draw fate).0
  unfolding create_item
  create_item-IsHere db none draw fate here = here
  create_item-IsHere db (some input) draw fate here = create_credential-IsHere db input draw here

  import_found-IsHere :
      (item : Item) (draw : Draw) (db : Db) (found : Option Credential)
      → IsHere name c db
      → IsHere name c (import_found lib fingerprint vault false item draw db found).0
  unfolding import_found
  import_found-IsHere item draw db none here =
      create_item-IsHere db (to_create item) draw created here
  import_found-IsHere item draw db (some row) here = here

  import_item-IsHere :
      (item : Item) (draw : Draw) (db : Db)
      → IsHere name c db
      → IsHere name c (import_item lib fingerprint vault false item draw db).0
  unfolding import_item
  import_item-IsHere item draw db here =
      import_found-IsHere item draw (delete_rows (is_stale item.name) db)
        (find (is_live item.name) db.credentials) (delete_rows-IsHere name c item.name db here)

  go_on-IsHere :
      (x : Db × Fate) (n : Counts) (next : Db → Counts → Db × Imported)
      → IsHere name c x.0
      → ((db : Db) (m : Counts) → IsHere name c db → IsHere name c (next db m).0)
      → IsHere name c (go_on lib fingerprint vault x n next).0
  go_on-IsHere (db, created) n next here rest = rest db (with_fate created n) here
  go_on-IsHere (db, replaced) n next here rest = rest db (with_fate replaced n) here
  go_on-IsHere (db, skipped) n next here rest = rest db (with_fate skipped n) here
  go_on-IsHere (db, raised e) n next here rest = here

  import_items-IsHere :
      (draws : ℕ → Draw) (k : ℕ) (items : List Item) (db : Db) (n : Counts)
      → IsHere name c db
      → IsHere name c (import_items lib fingerprint vault false draws k items db n).0
  unfolding import_items
  import_items-IsHere draws k [] db n here = here
  import_items-IsHere draws k (item ∷ items) db n here =
      go_on-IsHere (import_item lib fingerprint vault false item (draws k) db) n
        (λ db' m. import_items lib fingerprint vault false draws (suc k) items db' m)
        (import_item-IsHere item (draws k) db here)
        (λ db' m here'. import_items-IsHere draws (suc k) items db' m here')

module _ (lib : CryptoLib) (fingerprint : Bytes → String) (passwords : PasswordLib)
    (json : BackupLib) where
  import_payload-IsHere :
      (key : Bytes) (name : String) (c : Credential) (draws : ℕ → Draw) (actor : String) (now : ℕ)
      (db : Db) (o : Opened)
      → IsHere name c db
      → IsHere name c (import_payload lib fingerprint key false draws actor now db o).0
  unfolding import_payload
  import_payload-IsHere key name c draws actor now db (refused e) here = here
  import_payload-IsHere key name c draws actor now db (opened payload) here =
      audited-IsHere name c actor now
        (import_items lib fingerprint (some key) false draws 0 payload.credentials db no_counts)
        (import_items-IsHere lib fingerprint (some key) name c draws 0 payload.credentials db
          no_counts here)

  -- An import that is not to overwrite leaves each live credential just as it was, in a vault that is
  -- locked or not, whatever bytes and password it is given and however it ends.
  pub import_backup-keeps :
      (vault : Option Bytes) (db : Db) (bytes : Bytes) (password : String) (draws : ℕ → Draw)
      (actor : String) (now : ℕ) (name : String) (c : Credential)
      → find (is_live name) db.credentials ≡ some c
      → find
          (is_live name)
          (import_backup lib fingerprint passwords json vault db bytes password false draws actor
            now).0.credentials
        ≡ some c
  unfolding import_backup
  import_backup-keeps none db bytes password draws actor now name c here = here
  import_backup-keeps (some key) db bytes password draws actor now name c here =
      import_payload-IsHere key name c draws actor now db
        (open_file lib passwords json password (read_file bytes)) here
