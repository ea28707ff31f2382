-- ===== src/Backup/Export.antt =====
-- keyhub/backup.py: `export_backup`. The file is its answer.
use key_hub.Common.{
  ℕ, String, str_eq, true, not, Option, none, some, List, [], ◌∷◌, length, find, keep,
}
use key_hub.Models.{Bytes, Credential, LlmKey, audit, backup_export}
use key_hub.Crypto.{CryptoLib}
use key_hub.Store.Defs.{Db, StoreError, Outcome, ok, fail, or_else, make_aad, rt_decrypt}
use key_hub.Runtime.State.{Argon2Params, PasswordLib, derive_master_key}
use key_hub.Backup.Frame.{ItemLlm, Item, BackupPayload, BackupLib, type_value, write_file}

-- What an export draws.
pub record ExportDraw : Type 0 where
  pub salt : Bytes
  pub nonce : Bytes
  pub now : ℕ
  pub actor : String

-- `new_argon2_params(time_cost=2, memory_cost=32768, parallelism=2)`
abbrev pub backup_params : Bytes → Argon2Params
backup_params salt = record { salt = salt; time_cost = 2; memory_cost = 32768; parallelism = 2 }

abbrev pub item_llm : LlmKey → ItemLlm
item_llm k = record {
  provider = k.provider;
  label = k.label;
  allowed_models = k.allowed_models;
  priority = k.priority;
}

-- An item, of a credential and its plaintext.
abbrev pub item_of : List LlmKey → Credential → Bytes → Item
item_of keys c value = record {
  name = c.name;
  type = type_value c.type;
  value = value;
  metadata = c.metadata;
  expires_at = c.expires_at;
  rotation_days = c.rotation_days;
  last_rotated_at = c.last_rotated_at;
  llm = elim (find (λ (k : LlmKey). str_eq k.credential_id c.id) keys) [
    | none ↦ none
    | some k ↦ some (item_llm k)
  ];
}

module _ (lib : CryptoLib) (passwords : PasswordLib) (json : BackupLib) where
  -- `_decrypt_with_aad_fallback`
  unfoldable pub decrypt_with_aad_fallback : Option Bytes → Credential → Outcome Bytes
  decrypt_with_aad_fallback vault c =
      or_else (rt_decrypt lib vault c.encrypted_value (some (make_aad c.id c.name))) (
        or_else (rt_decrypt lib vault c.encrypted_value none)
          (rt_decrypt lib vault c.encrypted_value none))

  abbrev pub item_then : Item → Outcome (List Item) → Outcome (List Item)
  item_then item (fail e) = fail e
  item_then item (ok items) = ok (item ∷ items)

  -- The loop over the credentials; the first that does not decrypt raises.
  unfoldable pub collect_items : Option Bytes → List LlmKey → List Credential → Outcome (List Item)
  collect_items vault keys [] = ok []
  collect_items vault keys (c ∷ cs) =
      let rest = collect_items vault keys cs in
      elim (decrypt_with_aad_fallback vault c) [
        | fail e ↦ fail e
        | ok value ↦ item_then (item_of keys c value) rest
      ]

  -- The file of a payload.
  unfoldable pub seal_payload : String → ExportDraw → BackupPayload → Bytes
  seal_payload password draw payload =
      let params = backup_params draw.salt in
      write_file (record {
        params_json = json.dump_params params;
        nonce = draw.nonce;
        ciphertext =
            lib.seal (derive_master_key passwords password params) draw.nonce
              (json.dump_payload payload) [];
      })

  -- What `export_backup` does with the items.
  abbrev pub export_items : Db → String → ExportDraw → Outcome (List Item) → Db × Outcome Bytes
  export_items db password draw (fail e) = (db, fail e)
  export_items db password draw (ok items) = (
    record db { audit_logs = audit backup_export draw.actor none true draw.now db.audit_logs },
    ok (
        seal_payload password draw
          (record { exported_at = draw.now; count = length items; credentials = items })),
  )

  -- `export_backup`
  unfoldable pub export_backup : Option Bytes → Db → String → ExportDraw → Db × Outcome Bytes
  export_backup none db password draw = (db, fail StoreError.locked)
  export_backup (some key) db password draw =
      export_items db password draw
        (collect_items (some key) db.llm_keys (keep (λ c. not c.deleted) db.credentials))
