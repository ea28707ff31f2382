-- ===== src/Backup/Full.antt =====
-- keyhub/backup.py: `export_encrypted_backup` and `import_encrypted_backup`, on the file of the database and
-- the copy beside it. What SQLite reads of a file is a parameter.
use key_hub.Common.{
  ℕ, ◌≡◌, String, true, not, Option, none, some, List, [], ◌∷◌, ◌++◌, ltb, if◌then◌else◌, length,
  take, drop, keep,
}
use key_hub.Models.{Bytes, AuditAction, AuditLog, backup_export, backup_import}
use key_hub.Crypto.{CryptoLib}
use key_hub.Store.Defs.{Db, utf8}
use key_hub.Runtime.State.{PasswordLib}
use key_hub.Backup.Frame.{bytes_eq}
use key_hub.Backup.Export.{ExportDraw}

-- The tables of a file, where it is one of a database, and the file after a row was added to the audit log,
-- which leaves the other tables.
pub record SqliteLib : Type 0 where
  pub read : Bytes → Option Db
  pub log : Bytes → AuditLog → Bytes
  pub read-log :
      (old : Bytes) (row : AuditLog) (db : Db)
      → read old ≡ some db
      → (logs : List AuditLog) × (read (log old row) ≡ some (record db { audit_logs = logs }))

-- `db_path`, and the copy with the suffix `.db.bak`.
pub record Disk : Type 0 where
  pub db_file : Option Bytes
  pub bak_file : Option Bytes

-- The exceptions: a locked vault, no file, the refusals of the checks, and a file that is no database.
pub data FullError : Type 0 where
  locked no_file too_short bad_magic wrong_password corrupted no_database : FullError

pub data Full (A : Type 0) : Type 0 where
  got : A → Full A
  refused : FullError → Full A

-- b"KHBK01"
abbrev pub full_magic : Bytes
full_magic = 75 ∷ 72 ∷ 66 ∷ 75 ∷ 48 ∷ 49 ∷ []

-- `shutil.copy2`, where there is a file.
abbrev pub copied : Option Bytes → Option Bytes → Option Bytes
copied none bak = bak
copied (some old) bak = some old

module _ (lib : CryptoLib) (passwords : PasswordLib) (sqlite : SqliteLib) where
  -- `_derive_full_backup_key`
  unfoldable pub derive_full_backup_key : String → Bytes → Bytes
  derive_full_backup_key password salt =
      passwords.hash_secret_raw (utf8 password)
        (record { salt = salt; time_cost = 3; memory_cost = 65536; parallelism = 4 })

  -- An audit row in the file, if it is a database.
  unfoldable pub audit_file : AuditAction → String → ℕ → Bytes → Bytes
  audit_file action actor now bytes = elim (sqlite.read bytes) [
    | none ↦ bytes
    | some db ↦
        sqlite.log bytes (record {
          action = action;
          actor = actor;
          target = none;
          success = true;
          created_at = now;
        })
  ]

  abbrev pub sealed_file : String → ExportDraw → Bytes → Bytes
  sealed_file password draw db_data =
      full_magic
      ++ (draw.salt
          ++ (draw.nonce
              ++ lib.seal (derive_full_backup_key password draw.salt) draw.nonce
                  (lib.compress db_data) []))

  abbrev pub export_file : Disk → String → ExportDraw → Option Bytes → Disk × Full Bytes
  export_file disk password draw none = (disk, refused no_file)
  export_file disk password draw (some db_data) = (
    record disk { db_file = some (audit_file backup_export draw.actor draw.now db_data) },
    got (sealed_file password draw db_data),
  )

  -- `export_encrypted_backup`
  unfoldable pub export_encrypted_backup :
      Option Bytes → Disk → String → ExportDraw → Disk × Full Bytes
  export_encrypted_backup none disk password draw = (disk, refused locked)
  export_encrypted_backup (some key) disk password draw =
      export_file disk password draw disk.db_file

  -- The count and the audit row, in the new database.
  abbrev pub count_rows : Disk → String → ℕ → Bytes → Option Db → Disk × Full ℕ
  count_rows disk actor now bytes none = (disk, refused no_database)
  count_rows disk actor now bytes (some db) = (
    record disk { db_file = some (audit_file backup_import actor now bytes) },
    got (length (keep (λ c. not c.deleted) db.credentials)),
  )

  abbrev pub replace_file : Disk → String → ℕ → Option Bytes → Disk × Full ℕ
  replace_file disk actor now none = (disk, refused corrupted)
  replace_file disk actor now (some db_data) =
      count_rows (record { db_file = some db_data; bak_file = copied disk.db_file disk.bak_file })
        actor now db_data (sqlite.read db_data)

  abbrev pub inflate_file : Disk → String → ℕ → Option Bytes → Disk × Full ℕ
  inflate_file disk actor now none = (disk, refused wrong_password)
  inflate_file disk actor now (some compressed) =
      replace_file disk actor now (lib.decompress compressed)

  -- What is behind the magic.
  abbrev pub open_rest : Disk → Bytes → String → String → ℕ → Disk × Full ℕ
  open_rest disk rest password actor now =
      let salt = take 16 rest in
      let nonce = take 12 (drop 16 rest) in
      let ciphertext = drop 12 (drop 16 rest) in
      inflate_file disk actor now
        (lib.open_box (derive_full_backup_key password salt) nonce ciphertext [])

  -- `import_encrypted_backup`
  unfoldable pub import_encrypted_backup :
      Option Bytes → Disk → Bytes → String → String → ℕ → Disk × Full ℕ
  import_encrypted_backup none disk bytes password actor now = (disk, refused locked)
  import_encrypted_backup (some key) disk bytes password actor now =
      if ltb (length bytes) 50
      then (disk, refused too_short)
      else (if bytes_eq (take 6 bytes) full_magic
          then open_rest disk (drop 6 bytes) password actor now
          else (disk, refused bad_magic))
