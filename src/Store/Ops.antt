-- ===== src/Store/Ops.antt =====
-- keyhub/store.py: the operations on credentials. Each works in a transaction of its own, and one that
-- raises has the tables as they were: what it had written is rolled back by `session_scope`
-- (keyhub/db.py), and that is taken for granted here.
use Prim.Native.String.{◌++◌ as str_append}
use key_hub.Common.{String, str_eq, Bool, true, ◌&&◌, Option, none, some, [], ◌∷◌, ◌++◌, find}
use key_hub.Models.{
  Bytes, Credential, RotationLog, credential_create, credential_reveal, credential_update,
  credential_rotate, credential_delete, credential_rollback,
}
use key_hub.Crypto.{CryptoLib}
use key_hub.Store.Defs.{
  Db, already_exists, no_stored_value, not_found, Outcome, ok, fail, has_name, is_live, make_aad,
  rt_encrypt, try_decrypt,
}
use key_hub.Store.Rows.{
  CredentialCreate, CredentialUpdate, Draw, text_or, add_llm_key, new_credential, logged, put_row,
  overwrite,
}

module _ (lib : CryptoLib) (fingerprint : Bytes → String) where
  -- `create_credential`
  unfoldable pub create_credential :
      Option Bytes → Db → CredentialCreate → Draw → Db × Outcome Credential
  create_credential vault db input draw = elim (find (has_name input.name) db.credentials) [
    | some _ ↦ (db, fail already_exists)
    | none ↦ elim (rt_encrypt lib vault draw.nonce input.value (make_aad draw.id input.name)) [
      | fail e ↦ (db, fail e)
      | ok blob ↦ elim (add_llm_key db.llm_keys input draw) [
        | fail e ↦ (db, fail e)
        | ok keys ↦ (
          logged credential_create draw input.name (record db {
            credentials = db.credentials ++ new_credential input draw blob ∷ [];
            llm_keys = keys;
          }),
          ok (new_credential input draw blob),
        )
      ]
    ]
  ]

  -- `get_credential`
  unfoldable pub get_credential : Db → String → Outcome Credential
  get_credential db name = elim (find (is_live name) db.credentials) [
    | none ↦ fail not_found
    | some c ↦ ok c
  ]

  -- `reveal_credential`, whose answer is the value.
  unfoldable pub reveal_credential : Option Bytes → Db → String → Draw → Db × Outcome Bytes
  reveal_credential vault db name draw = elim (find (is_live name) db.credentials) [
    | none ↦ (db, fail not_found)
    | some c ↦ elim (try_decrypt lib vault c) [
      | fail e ↦ (db, fail e)
      | ok value ↦ (logged credential_reveal draw name db, ok value)
    ]
  ]

  -- `old_fp`: the fingerprint of the value that is there, if it decrypts.
  unfoldable pub fingerprint_of : Option Bytes → Credential → Option String
  fingerprint_of vault c = elim (try_decrypt lib vault c) [
    | fail e ↦ none
    | ok value ↦ some (fingerprint value)
  ]

  abbrev pub version_of : Option Bytes → Credential → Draw → String → RotationLog
  version_of vault c draw note = record {
    id = draw.id;
    credential_id = c.id;
    rotated_at = draw.now;
    note = some note;
    old_fingerprint = fingerprint_of vault c;
    encrypted_value = some c.encrypted_value;
  }

  -- `update_credential`; it finds deleted rows too, as the source does.
  unfoldable pub update_credential :
      Option Bytes → Db → String → CredentialUpdate → Draw → Db × Outcome Credential
  update_credential vault db name d draw = elim (find (has_name name) db.credentials) [
    | none ↦ (db, fail not_found)
    | some c ↦ elim d.value [
      | none ↦ (
        logged credential_update draw name
            (record db { credentials = put_row (overwrite d c) db.credentials }),
        ok (overwrite d c),
      )
      | some value ↦ elim (rt_encrypt lib vault draw.nonce value (make_aad c.id c.name)) [
        | fail e ↦ (db, fail e)
        | ok blob ↦
            let c' =
              overwrite d (record c { encrypted_value = blob; last_rotated_at = some draw.now }) in
            (
              logged credential_rotate draw name (record db {
                credentials = put_row c' db.credentials;
                rotations =
                    db.rotations
                    ++ version_of vault c draw (text_or d.rotation_note "manual rotation") ∷ [];
              }),
              ok c',
            )
      ]
    ]
  ]

  -- `rotate_credential`
  unfoldable pub rotate_credential :
      Option Bytes → Db → String → Bytes → Option String → Draw → Db × Outcome Credential
  rotate_credential vault db name value note draw =
      update_credential vault db name
        (record {
          value = some value;
          metadata = none;
          expires_at = none;
          rotation_days = none;
          tags = none;
          rotation_note = some (text_or note "manual rotation");
        })
        draw

  -- `delete_credential`: a soft delete.
  unfoldable pub delete_credential : Db → String → Draw → Db × Outcome Credential
  delete_credential db name draw = elim (find (has_name name) db.credentials) [
    | none ↦ (db, fail not_found)
    | some c ↦ (
      logged credential_delete draw name
          (record db { credentials = put_row (record c { deleted = true }) db.credentials }),
      ok (record c { deleted = true }),
    )
  ]

  -- The version with the id, among those of the credential.
  abbrev pub is_version : String → String → RotationLog → Bool
  is_version rotation_id cred_id log = str_eq log.id rotation_id && str_eq log.credential_id cred_id

  -- `rollback_credential`
  unfoldable pub rollback_credential :
      Option Bytes → Db → String → String → Draw → Db × Outcome Credential
  rollback_credential vault db name rotation_id draw = elim (find (has_name name) db.credentials) [
    | none ↦ (db, fail not_found)
    | some c ↦ elim (find (is_version rotation_id c.id) db.rotations) [
      | none ↦ (db, fail not_found)
      | some log ↦ elim log.encrypted_value [
        | none ↦ (db, fail no_stored_value)
        | some blob ↦
            let c' = record c { encrypted_value = blob; last_rotated_at = some draw.now } in
            (
              logged credential_rollback draw name (record db {
                credentials = put_row c' db.credentials;
                rotations =
                    db.rotations
                    ++ version_of vault c draw (str_append "rollback to rotation " rotation_id)
                      ∷ [];
              }),
              ok c',
            )
      ]
    ]
  ]
