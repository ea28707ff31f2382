-- ===== src/Backup/Tests.antt =====
-- Tests and instances for the backups (keyhub/backup.py), with the concrete parameters.
use key_hub.Common.{
  ℕ, ◌≡◌, ◌≢◌, refl, ap, String, str_eq, eq_iff, true, false, Option, none, some, List, [], ◌∷◌,
  ◌==◌, if◌then◌else◌, arith, find, change, Memᴰ,
}
use key_hub.Models.{Bytes, CredentialType, Credential, AuditLog}
use key_hub.Crypto
use key_hub.Crypto.Envelope.{decrypt_bytes-encrypt}
use key_hub.Crypto.Toy.{toy, nonce}
use key_hub.Store.Defs.{Db, or_else, lift, rt_decrypt, ok, make_aad, is_live}
use key_hub.Store.Rows.{CredentialCreate, Draw, add_llm_key, new_credential}
use key_hub.Store.Ops.{create_credential}
use key_hub.Runtime.Toy.{toy_pw}
use key_hub.Backup.Frame.{
  type_value, magic, Item, pack_length, write_file, read_file, read_version, read_parts,
}
use key_hub.Backup.Export.{
  ExportDraw, decrypt_with_aad_fallback, collect_items, seal_payload, export_backup,
}
use key_hub.Backup.Import.{
  type_of, delete_rows, to_create, create_item, import_found, import_item, import_items, raised,
  invalid, done, stopped, no_counts, open_file, import_payload, import_backup,
}
use key_hub.Backup.Full.{
  SqliteLib, Disk, got, refused, too_short, export_encrypted_backup, import_encrypted_backup,
}
use key_hub.Backup.RoundTrip.{live, AreRevealed, restore-export}
use key_hub.Backup.Keeps.{import_backup-keeps}
use key_hub.Backup.Lost.{import_items-lost}
use key_hub.Backup.FullTrip.{restore-export_encrypted_backup}
use key_hub.Backup.Toy.{toy_backup}

program : Unit {0}
unfolding add_llm_key create_credential find change type_value pack_length write_file read_file
    read_version read_parts decrypt_with_aad_fallback collect_items seal_payload export_backup
    type_of delete_rows to_create create_item import_found import_item import_items open_file
    import_payload import_backup
program = tt

abbrev key : Bytes
key = 1 ∷ []

abbrev other_key : Bytes
other_key = 2 ∷ []

abbrev print_of : Bytes → String
print_of v = "f"

abbrev empty : Db
empty = record { credentials = []; llm_keys = []; rotations = []; audit_logs = [] }

abbrev draw : Draw
draw = record { id = "d"; llm_id = "k"; nonce = nonce; now = 7; actor = "backup.import" }

abbrev draws : ℕ → Draw
draws k = draw

abbrev input : String → CredentialCreate
input name = record {
  name = name;
  type = CredentialType.password;
  value = 5 ∷ 6 ∷ [];
  metadata = [];
  expires_at = none;
  rotation_days = none;
  tags = [];
  provider = none;
  label = none;
  allowed_models = [];
  priority = 0;
  weight = 1;
  monthly_budget_usd = 0;
}

abbrev row : String → Credential
row name =
    new_credential (input name) draw
      (Crypto.encrypt toy key nonce (5 ∷ 6 ∷ []) (some (make_aad "d" name)))

abbrev db : Db
db = record empty { credentials = row "mail" ∷ row "bank" ∷ [] }

abbrev export_draw : ExportDraw
export_draw = record { salt = nonce; nonce = nonce; now = 3; actor = "master" }

decrypts :
    (name : String)
    → decrypt_with_aad_fallback toy toy_pw toy_backup (some key) (row name) ≡ ok (5 ∷ 6 ∷ [])
unfolding decrypt_with_aad_fallback
decrypts name =
    ap
      (λ (r : Crypto.Result Bytes). or_else (lift r) (
        or_else (rt_decrypt toy (some key) (row name).encrypted_value none)
          (rt_decrypt toy (some key) (row name).encrypted_value none)))
      (decrypt_bytes-encrypt toy key nonce refl (5 ∷ 6 ∷ []) (make_aad "d" name))

others_differ : str_eq "bank" "mail" ≡ false
others_differ = refl

differs : (row "bank").name ≢ (row "mail").name
differs e = ground (arith, others_differ, eq_iff "bank" "mail", e)

none_there : (name : String) → find (is_live name) empty.credentials ≡ none
unfolding find
none_there name = refl

restore-export_example :
    (bytes : Bytes) × ((export_backup toy toy_pw toy_backup (some key) db "pw" export_draw).1
      ≡ ok bytes)
    × let (after, end) =
        import_backup toy print_of toy_pw toy_backup
          (some other_key)
          empty
          bytes
          "pw"
          false
          draws
          "master"
          9 in
      (end ≡ done (record { imported = 2; skipped = 0; overwritten = 0 }))
      × AreRevealed toy toy_pw toy_backup key other_key print_of after draw (live db)
restore-export_example =
    restore-export toy toy_pw toy_backup print_of key other_key db empty "pw" export_draw false
      draws "master" 9 draw refl (omega arith) (λ k. refl)
      (
        (5 ∷ 6 ∷ [], decrypts "mail", refl),
        refl,
        (differs, tt),
        ((5 ∷ 6 ∷ [], decrypts "bank", refl), refl, tt, tt),
      )
      (none_there "mail", (none_there "bank", tt))

has_mail : find (is_live "mail") db.credentials ≡ some (row "mail")
unfolding program
has_mail = refl

import_backup-keeps_example :
    find
      (is_live "mail")
      (import_backup toy print_of toy_pw toy_backup
        (some key)
        db
        magic
        "pw"
        false
        draws
        "master"
        9).0.credentials
    ≡ some (row "mail")
import_backup-keeps_example =
    import_backup-keeps toy print_of toy_pw toy_backup (some key) db magic "pw" draws "master" 9
      "mail" (row "mail") has_mail

-- An item of a type that is none.
abbrev bad : Item
bad = record {
  name = "mail";
  type = "pass";
  value = 7 ∷ [];
  metadata = [];
  expires_at = none;
  rotation_days = none;
  last_rotated_at = none;
  llm = none;
}

same_id :
    (y : Credential) → Memᴰ y db.credentials → is_live "mail" y ≡ true → y.id ≡ (row "mail").id
same_id y (Memᴰ.head e) live = ap (λ (c : Credential). c.id) e
same_id y (Memᴰ.tail (Memᴰ.head e)) live = ap (λ (c : Credential). c.id) e
same_id y (Memᴰ.tail (Memᴰ.tail m)) live = elim m [ ]

raises : (import_item toy print_of (some key) true bad draw db).1 ≡ raised invalid
unfolding program
raises = refl

import_items-lost_example :
    let (after, end) = import_items toy print_of (some key) true draws 0 (bad ∷ []) db no_counts in
    (end ≡ stopped invalid) × (find (is_live "mail") after.credentials ≡ none)
import_items-lost_example =
    import_items-lost toy print_of (some key) draws 0 bad [] db no_counts (row "mail") invalid
      has_mail same_id raises

-- A file that starts with 7 is a database, whose log is not kept.
abbrev read_tables : Bytes → Option Db
read_tables [] = none
read_tables (n ∷ rest) = if n == 7 then some db else none

abbrev sqlite : SqliteLib
sqlite = record {
  read = read_tables;
  log = λ old entry. old;
  read-log = λ old entry tables e. (tables.audit_logs, e);
}

abbrev disk : Disk
disk = record { db_file = some (7 ∷ []); bak_file = none }

abbrev salt : Bytes
salt = 1 ∷ 2 ∷ 3 ∷ 4 ∷ nonce

restore-export_encrypted_backup_example :
    (bytes : Bytes) × ((export_encrypted_backup toy toy_pw sqlite
        (some key)
        disk
        "pw"
        (record export_draw { salt = salt })).1
      ≡ got bytes)
    × let (after, answer) =
        import_encrypted_backup toy toy_pw sqlite (some other_key) disk bytes "pw" "master" 9 in
      (answer ≡ got 2)
      × ((file : Bytes) × (after.db_file ≡ some file)
          × (logs : List AuditLog) × (sqlite.read file ≡ some (record db { audit_logs = logs })))
      × (after.bak_file ≡ some (7 ∷ []))
restore-export_encrypted_backup_example =
    restore-export_encrypted_backup toy toy_pw sqlite key other_key disk disk "pw"
      (record export_draw { salt = salt }) "master" 9 (7 ∷ []) db refl refl refl refl

is_short :
    (import_encrypted_backup toy toy_pw sqlite (some key) disk magic "pw" "master" 9).1
    ≡ refused too_short
unfolding import_encrypted_backup
is_short = refl
