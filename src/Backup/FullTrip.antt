-- ===== src/Backup/FullTrip.antt =====
-- A backup of the whole database (keyhub/backup.py) restores it, and what a refused one leaves.
use key_hub.Common.{
  ℕ, ◌≤◌, ◌≡◌, ◌≢◌, refl, ap, ◌∙◌, String, Bool, true, false, Option, none, some, List, [], ◌++◌,
  arith, ltb, if◌then◌else◌, length, length-append,
}
use key_hub.Models.{Bytes, AuditAction, AuditLog, backup_import}
use key_hub.Crypto.{CryptoLib}
use key_hub.Store.Defs.{Db}
use key_hub.Runtime.State.{PasswordLib}
use key_hub.Backup.Export.{ExportDraw}
use key_hub.Backup.Full.{
  SqliteLib, Disk, FullError, no_database, Full, got, refused, full_magic, derive_full_backup_key,
  audit_file, sealed_file, export_file, export_encrypted_backup, copied, count_rows, replace_file,
  inflate_file, open_rest, import_encrypted_backup,
}
use key_hub.Backup.Framing.{cut}
use key_hub.Backup.RoundTrip.{live}

module _ (lib : CryptoLib) (passwords : PasswordLib) (sqlite : SqliteLib) where
  read-audit_file :
      (action : AuditAction) (actor : String) (now : ℕ) (bytes : Bytes) (db : Db)
      → sqlite.read bytes ≡ some db
      → (logs : List AuditLog) × (sqlite.read
            (audit_file lib passwords sqlite action actor now bytes)
          ≡ some (record db { audit_logs = logs }))
  unfolding audit_file
  read-audit_file action actor now bytes db e =
      let row : AuditLog = record {
        action = action;
        actor = actor;
        target = none;
        success = true;
        created_at = now;
      } in
      let (logs, reads) = sqlite.read-log bytes row db e in
      (
        logs,
        ap
              (λ (o : Option Db).
                sqlite.read
                  (elim o as (λ _. Bytes) [ none ↦ bytes | some d ↦ sqlite.log bytes row ]))
              e
            ∙ reads,
      )

  open_rest-sealed_file :
      (disk : Disk) (salt nonce db_data : Bytes) (password actor : String) (now : ℕ) (db : Db)
      → length salt ≡ 16
      → length nonce ≡ 12
      → sqlite.read db_data ≡ some db
      → open_rest lib passwords sqlite disk
          (salt
            ++ (nonce
                ++ lib.seal
                    (derive_full_backup_key lib passwords sqlite password salt)
                    nonce
                    (lib.compress db_data)
                    []))
          password
          actor
          now
        ≡ (
          record {
            db_file = some (audit_file lib passwords sqlite backup_import actor now db_data);
            bak_file = copied disk.db_file disk.bak_file;
          },
          got (length (live db)),
        )
  open_rest-sealed_file disk salt nonce db_data password actor now db sixteen twelve readable =
      let key = derive_full_backup_key lib passwords sqlite password salt in
      let box = lib.seal key nonce (lib.compress db_data) [] in
      let (p, q, r) = cut 16 salt nonce box sixteen twelve in
      let open_at = λ (s n c : Bytes).
        inflate_file lib passwords sqlite disk actor now
          (lib.open_box (derive_full_backup_key lib passwords sqlite password s) n c []) in
      (λ i. open_at (p i) (q i) (r i))
      ∙ ap (inflate_file lib passwords sqlite disk actor now)
          (lib.open-seal key nonce (lib.compress db_data) [])
      ∙ ap (replace_file lib passwords sqlite disk actor now) (lib.inflate db_data)
      ∙ ap
          (count_rows lib passwords sqlite
            (record { db_file = some db_data; bak_file = copied disk.db_file disk.bak_file }) actor
            now db_data)
          readable

  long_enough :
      (salt nonce box : Bytes)
      → length salt ≡ 16
      → length nonce ≡ 12
      → 16 ≤ length box
      → ltb (length (full_magic ++ (salt ++ (nonce ++ box)))) 50 ≡ false
  long_enough salt nonce box sixteen twelve tag =
      let all = length-append salt (nonce ++ box) in
      let tail = length-append nonce box in ground (arith, all, tail)

  import-sealed_file :
      (key : Bytes) (disk : Disk) (draw : ExportDraw) (db_data : Bytes) (password actor : String)
      (now : ℕ) (db : Db)
      → length draw.salt ≡ 16
      → length draw.nonce ≡ 12
      → sqlite.read db_data ≡ some db
      → import_encrypted_backup lib passwords sqlite
          (some key)
          disk
          (sealed_file lib passwords sqlite password draw db_data)
          password
          actor
          now
        ≡ (
          record {
            db_file = some (audit_file lib passwords sqlite backup_import actor now db_data);
            bak_file = copied disk.db_file disk.bak_file;
          },
          got (length (live db)),
        )
  unfolding import_encrypted_backup
  import-sealed_file key disk draw db_data password actor now db sixteen twelve readable =
      let master = derive_full_backup_key lib passwords sqlite password draw.salt in
      let box = lib.seal master draw.nonce (lib.compress db_data) [] in
      let tag = lib.tag_bytes master draw.nonce (lib.compress db_data) [] in
      ap
        (λ (short : Bool).
          if short
          then (disk, refused FullError.too_short)
          else open_rest lib passwords sqlite disk (draw.salt ++ (draw.nonce ++ box)) password actor
              now)
        (long_enough draw.salt draw.nonce box sixteen twelve tag)
      ∙ open_rest-sealed_file disk draw.salt draw.nonce db_data password actor now db sixteen twelve
          readable

  -- Where the file of the database holds tables and the vault is unlocked, an export (whose salt has 16 bytes
  -- and whose nonce has 12) gives bytes; and under the same password any unlocked KeyHub that imports them
  -- counts the live credentials of those tables, then has a file with those tables but for the audit log, and
  -- has the file it had before, if there was one, as the copy.
  pub restore-export_encrypted_backup :
      (key key' : Bytes) (disk disk' : Disk) (password : String) (draw : ExportDraw)
      (actor : String) (now : ℕ) (db_data : Bytes) (db : Db)
      → disk.db_file ≡ some db_data
      → sqlite.read db_data ≡ some db
      → length draw.salt ≡ 16
      → length draw.nonce ≡ 12
      → (bytes : Bytes) × ((export_encrypted_backup lib passwords sqlite
            (some key)
            disk
            password
            draw).1
          ≡ got bytes)
        × let (after, answer) =
            import_encrypted_backup lib passwords sqlite
              (some key')
              disk'
              bytes
              password
              actor
              now in
          (answer ≡ got (length (live db)))
          × ((file : Bytes) × (after.db_file ≡ some file)
              × (logs : List AuditLog) × (sqlite.read file
                  ≡ some (record db { audit_logs = logs })))
          × (after.bak_file ≡ copied disk'.db_file disk'.bak_file)
  unfolding export_encrypted_backup
  restore-export_encrypted_backup key key' disk disk' password draw actor now db_data db there
        readable sixteen twelve =
      let logged = read-audit_file backup_import actor now db_data db readable in
      let same =
        import-sealed_file key' disk' draw db_data password actor now db sixteen twelve readable in
      (
        sealed_file lib passwords sqlite password draw db_data,
        ap (λ o. (export_file lib passwords sqlite disk password draw o).1) there,
        (
          ap (λ (x : Disk × Full ℕ). x.1) same,
          (
            audit_file lib passwords sqlite backup_import actor now db_data,
            ap (λ (x : Disk × Full ℕ). x.0.db_file) same,
            logged.0,
            logged.1,
          ),
          ap (λ (x : Disk × Full ℕ). x.0.bak_file) same,
        ),
      )

  -- An import that is refused, but for a file that decrypts to something that is no database, leaves the
  -- database and the copy as they were.
  pub import_encrypted_backup-refused :
      (vault : Option Bytes) (disk : Disk) (bytes : Bytes) (password actor : String) (now : ℕ)
      (e : FullError)
      → (import_encrypted_backup lib passwords sqlite vault disk bytes password actor now).1
        ≡ refused e
      → e ≢ no_database
      → (import_encrypted_backup lib passwords sqlite vault disk bytes password actor now).0 ≡ disk
  unfolding import_encrypted_backup
  import_encrypted_backup-refused none disk bytes password actor now e h other = refl
  import_encrypted_backup-refused (some key) disk bytes password actor now e h other = ground arith
