-- ===== src/Backup/RoundTrip.antt =====
-- An import (keyhub/backup.py) of what an export wrote, under the same password.
use mathlib.Core.Path.{subst}
use key_hub.Common.{
  ℕ, suc, ◌+◌, ◌<◌, ◌≡◌, ◌≢◌, refl, sym, ap, ◌∙◌, String, Bool, true, false, not, Option, none,
  some, List, [], ◌∷◌, arith, length, find, keep, All,
}
use key_hub.Models.{Bytes, Credential, CredentialType, LlmKey}
use key_hub.Crypto.{CryptoLib}
use key_hub.Store.Defs.{Db, Outcome, ok, fail, is_live}
use key_hub.Store.Rows.{Draw, is_llm}
use key_hub.Store.Ops.{reveal_credential}
use key_hub.Store.Reveal.{reveal_found}
use key_hub.Runtime.State.{PasswordLib, derive_master_key}
use key_hub.Backup.Frame.{Item, BackupPayload, BackupLib, type_value, BackupFile, read_file}
use key_hub.Backup.Export.{
  ExportDraw, backup_params, item_of, decrypt_with_aad_fallback, item_then, collect_items,
  seal_payload, export_items, export_backup,
}
use key_hub.Backup.Import.{
  type_of, is_valid, Counts, no_counts, Imported, done, stopped, audited, Opened, opened, refused,
  unreadable, payload_of, open_with, open_file, import_items, import_payload, import_backup,
}
use key_hub.Backup.Framing.{read-write_file}
use key_hub.Backup.Restored.{ArePlain, AreFree, AreHeld, import_items-plain}

type_of-type_value : (t : CredentialType) → type_of (type_value t) ≡ some t
unfolding type_of type_value
type_of-type_value CredentialType.password = refl
type_of-type_value CredentialType.token = refl
type_of-type_value CredentialType.ssh_key = refl
type_of-type_value CredentialType.database = refl
type_of-type_value CredentialType.llm = refl
type_of-type_value CredentialType.other = refl

abbrev pub live : Db → List Credential
live db = keep (λ c. not c.deleted) db.credentials

module _ (lib : CryptoLib) (passwords : PasswordLib) (json : BackupLib) where
  -- Credentials that decrypt, of other types than LLM ones, within the limits of the fields and no two
  -- with the same name.
  abbrev pub AreSound : Bytes → List Credential → Type 0
  AreSound key [] = Unit
  AreSound key (c ∷ cs) =
      ((value : Bytes) × (decrypt_with_aad_fallback lib passwords json (some key) c ≡ ok value)
        × (is_valid c.name value ≡ true))
      × (is_llm c.type ≡ false)
      × All (λ (later : Credential). later.name ≢ c.name) cs
      × AreSound key cs

  -- The items of credentials.
  abbrev Match : Bytes → List Credential → List Item → Type 0
  Match key [] [] = Unit
  Match key [] (i ∷ is) = ⊥
  Match key (c ∷ cs) [] = ⊥
  Match key (c ∷ cs) (i ∷ is) =
      (i.name ≡ c.name)
      × (decrypt_with_aad_fallback lib passwords json (some key) c ≡ ok i.value)
      × Match key cs is

  names_differ :
      (key : Bytes) (name : String) (cs : List Credential) (is : List Item)
      → Match key cs is
      → All (λ (later : Credential). later.name ≢ name) cs
      → All (λ (later : Item). later.name ≢ name) is
  names_differ key name [] [] m distinct = tt
  names_differ key name [] (i ∷ is) m distinct = elim m [ ]
  names_differ key name (c ∷ cs) [] m distinct = elim m [ ]
  names_differ key name (c ∷ cs) (i ∷ is) (same, value, m) (differs, distinct) =
      (λ e. differs (sym same ∙ e), names_differ key name cs is m distinct)

  collect-AreSound :
      (key : Bytes) (keys : List LlmKey) (cs : List Credential)
      → AreSound key cs
      → (items : List Item) × (collect_items lib passwords json (some key) keys cs ≡ ok items)
        × Match key cs items
        × ArePlain items
        × (length items ≡ length cs)
  unfolding collect_items
  collect-AreSound key keys [] sound = ([], refl, tt, tt, refl)
  collect-AreSound key keys (c ∷ cs) ((value, decrypts, valid), plain, distinct, sound) =
      let (items, collected, matches, plains, sizes) = collect-AreSound key keys cs sound in
      let item = item_of keys c value in
      (
        item ∷ items,
        ap
              (λ (o : Outcome Bytes). elim o as (λ _. Outcome (List Item)) [
                | fail e ↦ fail e
                | ok v ↦
                    item_then lib passwords json (item_of keys c v)
                      (collect_items lib passwords json (some key) keys cs)
              ])
              decrypts
            ∙ ap (item_then lib passwords json item) collected,
        (refl, decrypts, matches),
        (
          (c.type, (type_of-type_value c.type, plain, valid)),
          names_differ key c.name cs items matches distinct,
          plains,
        ),
        ap suc sizes,
      )

  free_items :
      (key : Bytes) (db : Db) (cs : List Credential) (items : List Item)
      → Match key cs items
      → All (λ (c : Credential). find (is_live c.name) db.credentials ≡ none) cs
      → AreFree db items
  free_items key db [] [] m free = tt
  free_items key db [] (i ∷ is) m free = elim m [ ]
  free_items key db (c ∷ cs) [] m free = elim m [ ]
  free_items key db (c ∷ cs) (i ∷ is) (same, value, m) (f, free) =
      (ap (λ name. find (is_live name) db.credentials) same ∙ f, free_items key db cs is m free)

  -- What the other store reveals of the credentials of this one.
  abbrev pub AreRevealed : Bytes → Bytes → (Bytes → String) → Db → Draw → List Credential → Type 0
  AreRevealed key key' fingerprint db later cs =
      All
        (λ (c : Credential).
          (reveal_credential lib fingerprint (some key') db c.name later).1
          ≡ decrypt_with_aad_fallback lib passwords json (some key) c)
        cs

  revealed :
      (key key' : Bytes) (fingerprint : Bytes → String) (db : Db) (later : Draw)
      (cs : List Credential) (items : List Item)
      → Match key cs items
      → AreHeld lib fingerprint key' db items
      → AreRevealed key key' fingerprint db later cs
  revealed key key' fingerprint db later [] [] m held = tt
  revealed key key' fingerprint db later [] (i ∷ is) m held = elim m [ ]
  revealed key key' fingerprint db later (c ∷ cs) [] m held = elim m [ ]
  revealed key key' fingerprint db later (c ∷ cs) (i ∷ is) (same, value, m)
        ((row, found, opens), held) =
      (
        reveal_found lib fingerprint (some key') db c.name later row
              (ap (λ name. find (is_live name) db.credentials) (sym same) ∙ found)
            ∙ opens
            ∙ sym value,
        revealed key key' fingerprint db later cs is m held,
      )

  -- A file that was written opens under its password.
  open-seal_payload :
      (password : String) (e : ExportDraw) (payload : BackupPayload)
      → length e.nonce ≡ 12
      → length (json.dump_params (backup_params e.salt)) < 4294967296
      → open_file lib passwords json password
          (read_file (seal_payload lib passwords json password e payload))
        ≡ opened payload
  unfolding seal_payload open_file
  open-seal_payload password e payload twelve small =
      let params = backup_params e.salt in
      let master = derive_master_key passwords password params in
      let box = lib.seal master e.nonce (json.dump_payload payload) [] in
      let f : BackupFile = record {
        params_json = json.dump_params params;
        nonce = e.nonce;
        ciphertext = box;
      } in
      ap (open_file lib passwords json password) (read-write_file f small twelve)
      ∙ ap (open_with lib passwords json password f) (json.load-dump_params params)
      ∙ ap (payload_of lib passwords json)
          (lib.open-seal master e.nonce (json.dump_payload payload) [])
      ∙ ap
          (λ (o : Option BackupPayload). elim o as (λ _. Opened) [
            | none ↦ refused unreadable
            | some p ↦ opened p
          ])
          (json.load-dump_payload payload)

  audited-AreHeld :
      (key : Bytes) (fingerprint : Bytes → String) (items : List Item) (actor : String) (now : ℕ)
      (n : Counts) (x : Db × Imported)
      → x.1 ≡ done n
      → AreHeld lib fingerprint key x.0 items
      → ((audited actor now x).1 ≡ done n)
        × AreHeld lib fingerprint key (audited actor now x).0 items
  audited-AreHeld key fingerprint items actor now n (db, done m) e held = (e, held)
  audited-AreHeld key fingerprint items actor now n (db, stopped error) e held = (cc, held)

  import_payload-opened :
      (key : Bytes) (fingerprint : Bytes → String) (db : Db) (payload : BackupPayload)
      (overwrite : Bool) (draws : ℕ → Draw) (actor : String) (now : ℕ)
      → ((i : ℕ) → length (draws i).nonce ≡ 12)
      → ArePlain payload.credentials
      → AreFree db payload.credentials
      → let (db', end) =
          import_payload lib fingerprint key overwrite draws actor now db (opened payload) in
        (end
          ≡ done (record { imported = length payload.credentials; skipped = 0; overwritten = 0 }))
        × AreHeld lib fingerprint key db' payload.credentials
  unfolding import_payload
  import_payload-opened key fingerprint db payload overwrite draws actor now twelve plain free =
      let items = payload.credentials in
      let from_zero : 0 + length items ≡ length items = omega arith in
      let (counts, held, others) =
        import_items-plain lib fingerprint key overwrite draws 0 items db no_counts twelve plain
          free in
      audited-AreHeld key fingerprint items actor now
        (record { imported = length items; skipped = 0; overwritten = 0 })
        (import_items lib fingerprint (some key) overwrite draws 0 items db no_counts)
        (counts ∙ ap (λ k. done (record { imported = k; skipped = 0; overwritten = 0 })) from_zero)
        held

  export_backup_lem :
      (key : Bytes) (db : Db) (password : String) (e : ExportDraw) (items : List Item)
      → collect_items lib passwords json (some key) db.llm_keys (live db) ≡ ok items
      → (export_backup lib passwords json (some key) db password e).1
        ≡ ok (
            seal_payload lib passwords json password e
              (record { exported_at = e.now; count = length items; credentials = items }))
  unfolding export_backup
  export_backup_lem key db password e items collected =
      ap (λ o. (export_items lib passwords json db password e o).1) collected

  import_backup_lem :
      (key : Bytes) (fingerprint : Bytes → String) (db : Db) (bytes : Bytes) (password : String)
      (payload : BackupPayload) (overwrite : Bool) (draws : ℕ → Draw) (actor : String) (now : ℕ)
      → open_file lib passwords json password (read_file bytes) ≡ opened payload
      → import_backup lib fingerprint passwords json
          (some key)
          db
          bytes
          password
          overwrite
          draws
          actor
          now
        ≡ import_payload lib fingerprint key overwrite draws actor now db (opened payload)
  unfolding import_backup
  import_backup_lem key fingerprint db bytes password payload overwrite draws actor now e =
      ap (import_payload lib fingerprint key overwrite draws actor now db) e

  -- Where every live credential of an unlocked store decrypts, has a name and a value within the limits, is
  -- no LLM key and no two of them share a name, an export gives a file (with a nonce of 12 bytes, the JSON
  -- of the parameters shorter than 4 GB). Under the same password, an unlocked store in which none of those
  -- names is live imports it: all of them, none skipped or overwritten; and then it reveals for each of the
  -- names what the first store decrypts.
  pub restore-export :
      (fingerprint : Bytes → String) (key key' : Bytes) (db db' : Db) (password : String)
      (e : ExportDraw) (overwrite : Bool) (draws : ℕ → Draw) (actor : String) (now : ℕ)
      (later : Draw)
      → length e.nonce ≡ 12
      → length (json.dump_params (backup_params e.salt)) < 4294967296
      → ((i : ℕ) → length (draws i).nonce ≡ 12)
      → AreSound key (live db)
      → All (λ (c : Credential). find (is_live c.name) db'.credentials ≡ none) (live db)
      → (bytes : Bytes) × ((export_backup lib passwords json (some key) db password e).1 ≡ ok bytes)
        × let (after, end) =
            import_backup lib fingerprint passwords json
              (some key')
              db'
              bytes
              password
              overwrite
              draws
              actor
              now in
          (end ≡ done (record { imported = length (live db); skipped = 0; overwritten = 0 }))
          × AreRevealed key key' fingerprint after later (live db)
  restore-export fingerprint key key' db db' password e overwrite draws actor now later twelve small
        twelves sound free =
      let (items, collected, matches, plain, sizes) =
        collect-AreSound key db.llm_keys (live db) sound in
      let payload : BackupPayload = record {
        exported_at = e.now;
        count = length items;
        credentials = items;
      } in
      let bytes = seal_payload lib passwords json password e payload in
      let (counts, held) =
        import_payload-opened key' fingerprint db' payload overwrite draws actor now twelves plain
          (free_items key db' (live db) items matches free) in
      (
        bytes,
        export_backup_lem key db password e items collected,
        subst
            (λ (x : Db × Imported).
              (x.1 ≡ done (record { imported = length (live db); skipped = 0; overwritten = 0 }))
              × AreRevealed key key' fingerprint x.0 later (live db))
            (sym (
              import_backup_lem key' fingerprint db' bytes password payload overwrite draws actor
                now (open-seal_payload password e payload twelve small)))
            (
              counts ∙ ap (λ k. done (record { imported = k; skipped = 0; overwritten = 0 })) sizes,
              revealed key key' fingerprint
                  (import_payload lib fingerprint key' overwrite draws actor now db'
                    (opened payload)).0
                  later (live db) items matches held,
            ),
      )
