-- ===== src/Backup/Lost.antt =====
-- What an import that overwrites (keyhub/backup.py) loses where it raises.
use key_hub.Common.{
  ℕ, suc, ◌≡◌, refl, sym, ap, ◌∙◌, String, eq_iff, Bool, true, false, not, Option, none, some, List,
  [], ◌∷◌, arith, find, keep, Memᴰ,
}
use key_hub.Models.{Bytes, Credential}
use key_hub.Crypto.{CryptoLib}
use key_hub.Store.Defs.{Db, is_live}
use key_hub.Store.Rows.{CredentialCreate, Draw}
use key_hub.Store.Ops.{create_credential}
use key_hub.Backup.Frame.{Item}
use key_hub.Backup.Import.{
  BackupError, to_create, delete_rows, is_stale, is_id, Fate, created, replaced, skipped, raised,
  Counts, Imported, stopped, go_on, create_item, import_found, import_item, import_items,
}

find-keep_removed :
    (p q r : Credential → Bool) (xs : List Credential)
    → ((y : Credential) → Memᴰ y xs → p y ≡ true → q y ≡ false)
    → find p (keep q (keep r xs)) ≡ none
unfolding find
find-keep_removed p q r [] removed = refl
find-keep_removed p q r (y ∷ ys) removed =
    let rest = find-keep_removed p q r ys (λ z m. removed z (Memᴰ.tail m)) in
    ground (arith, rest, removed y (Memᴰ.head refl))

removed_lem :
    (db : Db) (name : String) (c : Credential)
    → ((y : Credential) → Memᴰ y db.credentials → is_live name y ≡ true → y.id ≡ c.id)
    → find (is_live name) (delete_rows (is_id c.id) (delete_rows (is_stale name) db)).credentials
      ≡ none
unfolding delete_rows
removed_lem db name c one =
    find-keep_removed (is_live name) (λ y. not (is_id c.id y)) (λ y. not (is_stale name y))
      db.credentials (λ y m live. ground (arith, one y m live, eq_iff y.id c.id))

module _ (lib : CryptoLib) (fingerprint : Bytes → String) (vault : Option Bytes) where
  create_item-raised :
      (db : Db) (input : Option CredentialCreate) (draw : Draw) (error : BackupError)
      → (create_item lib fingerprint vault db input draw replaced).1 ≡ raised error
      → (create_item lib fingerprint vault db input draw replaced).0.credentials ≡ db.credentials
  unfolding create_item create_credential
  create_item-raised db none draw error e = refl
  create_item-raised db (some input) draw error e = ground arith

  go_on-raised :
      (x : Db × Fate) (n : Counts) (next : Db → Counts → Db × Imported) (error : BackupError)
      → x.1 ≡ raised error
      → (go_on lib fingerprint vault x n next).1 ≡ stopped error
  go_on-raised (db, created) n next error e = cc
  go_on-raised (db, replaced) n next error e = cc
  go_on-raised (db, skipped) n next error e = cc
  go_on-raised (db, raised error') n next error e = ground arith

  go_on-raised_db :
      (x : Db × Fate) (n : Counts) (next : Db → Counts → Db × Imported) (error : BackupError)
      → x.1 ≡ raised error
      → (go_on lib fingerprint vault x n next).0 ≡ x.0
  go_on-raised_db (db, created) n next error e = cc
  go_on-raised_db (db, replaced) n next error e = cc
  go_on-raised_db (db, skipped) n next error e = cc
  go_on-raised_db (db, raised error') n next error e = refl

  import_item-lost :
      (db : Db) (item : Item) (draw : Draw) (c : Credential) (error : BackupError)
      → find (is_live item.name) db.credentials ≡ some c
      → ((y : Credential) → Memᴰ y db.credentials → is_live item.name y ≡ true → y.id ≡ c.id)
      → (import_item lib fingerprint vault true item draw db).1 ≡ raised error
      → find (is_live item.name) (import_item lib fingerprint vault true item draw db).0.credentials
        ≡ none
  unfolding import_item import_found
  import_item-lost db item draw c error found one e =
      let db2 = delete_rows (is_id c.id) (delete_rows (is_stale item.name) db) in
      let same : import_item lib fingerprint vault true item draw db
          ≡ create_item lib fingerprint vault db2 (to_create item) draw replaced =
        ap (import_found lib fingerprint vault true item draw (delete_rows (is_stale item.name) db))
          found in
      ap (λ (x : Db × Fate). find (is_live item.name) x.0.credentials) same
      ∙ ap (find (is_live item.name)) (
          create_item-raised db2 (to_create item) draw error
            (ap (λ (x : Db × Fate). x.1) (sym same) ∙ e))
      ∙ removed_lem db item.name c one

  -- Where an import that is to overwrite comes to an item that raises, whose name is that of a live
  -- credential and of no other live row, it ends with that error, and the name has no live credential any
  -- more.
  pub import_items-lost :
      (draws : ℕ → Draw) (k : ℕ) (item : Item) (items : List Item) (db : Db) (n : Counts)
      (c : Credential) (error : BackupError)
      → find (is_live item.name) db.credentials ≡ some c
      → ((y : Credential) → Memᴰ y db.credentials → is_live item.name y ≡ true → y.id ≡ c.id)
      → (import_item lib fingerprint vault true item (draws k) db).1 ≡ raised error
      → let (db', end) = import_items lib fingerprint vault true draws k (item ∷ items) db n in
        (end ≡ stopped error) × (find (is_live item.name) db'.credentials ≡ none)
  unfolding import_items
  import_items-lost draws k item items db n c error found one e =
      let x = import_item lib fingerprint vault true item (draws k) db in
      let next = λ (db' : Db) (m : Counts).
        import_items lib fingerprint vault true draws (suc k) items db' m in
      (
        go_on-raised x n next error e,
        ap (λ (after : Db). find (is_live item.name) after.credentials)
              (go_on-raised_db x n next error e)
            ∙ import_item-lost db item (draws k) c error found one e,
      )
