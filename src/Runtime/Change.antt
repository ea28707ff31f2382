-- ===== src/Runtime/Change.antt =====
-- keyhub/runtime.py: `change_master_password`. The credentials, their versions and the rows of the
-- password change in one transaction, which `session_scope` rolls back if it raises. The nonce of
-- each new ciphertext is a function of the id of its row.
use key_hub.Common.{
  ℕ, suc, String, str_eq, Bool, true, not, ◌&&◌, none, some, List, [], ◌∷◌, ltb, if◌then◌else◌,
  find, map, text_length,
}
use key_hub.Common.Dict.{lookup, insert, contains}
use key_hub.Models.{Bytes, Credential, RotationLog}
use key_hub.Crypto
use key_hub.Crypto.{CryptoLib}
use key_hub.Store.Defs.{Outcome, ok, fail, make_aad, or_else, rt_decrypt, try_decrypt}
use key_hub.Runtime.State.{
  PasswordLib, Vault, Server, Settings, Attempt, done, raised, not_initialized, locked, too_short,
  incorrect, no_row, undecryptable, not_committed, is_initialized, noted, new_argon2_params,
  derive_master_key, new_vault, bump_session_epoch,
}

-- What `os.urandom` draws: the salt of the parameters, that of the hash, and the nonces.
pub record Random : Type 0 where
  pub salt : Bytes
  pub hash_salt : Bytes
  pub nonce : String → Bytes

-- A row more, or the first failure.
unfoldable pub before : Outcome Credential → Outcome (List Credential) → Outcome (List Credential)
before (fail e) rest = fail e
before (ok c) (fail e) = fail e
before (ok c) (ok cs) = ok (c ∷ cs)

module _ (lib : CryptoLib) (old new : Bytes) (nonce : String → Bytes) where
  -- The loop's body for a credential. The three ways to decrypt are those of `_try_decrypt`.
  unfoldable pub reencrypt : Credential → Outcome Credential
  reencrypt c = elim (try_decrypt lib (some old) c) [
    | fail e ↦ fail e
    | ok plaintext ↦ ok (record c {
      encrypted_value = Crypto.encrypt lib new (nonce c.id) plaintext (some (make_aad c.id c.name));
    })
  ]

  -- The loop over the credentials that are not deleted.
  unfoldable pub reencrypt_all : List Credential → Outcome (List Credential)
  reencrypt_all [] = ok []
  reencrypt_all (c ∷ cs) = before (if c.deleted then ok c else reencrypt c) (reencrypt_all cs)

  -- The loop over the old versions of a credential; what does not decrypt stays.
  unfoldable pub reencrypt_version : Bytes → Bytes → RotationLog → RotationLog
  reencrypt_version aad blob r =
      elim (or_else (rt_decrypt lib (some old) blob (some aad))
        (rt_decrypt lib (some old) blob none)) [
          | fail e ↦ r
          | ok old_pt ↦ record r {
            encrypted_value = some (Crypto.encrypt lib new (nonce r.id) old_pt (some aad));
          }
        ]

  unfoldable pub reencrypt_rotation : List Credential → RotationLog → RotationLog
  reencrypt_rotation creds r =
      elim (find (λ (c : Credential). str_eq c.id r.credential_id && not c.deleted) creds) [
        | none ↦ r
        | some c ↦ elim r.encrypted_value [
          | none ↦ r
          | some [] ↦ r
          | some (b ∷ blob) ↦ reencrypt_version (make_aad c.id c.name) (b ∷ blob) r
        ]
      ]

-- `reencrypted`, the number of rows that the loop takes.
unfoldable pub live_count : List Credential → ℕ
live_count [] = 0
live_count (c ∷ cs) = if c.deleted then live_count cs else suc (live_count cs)

module _ (lib : CryptoLib) (old new : Bytes) (nonce : String → Bytes) where
  -- The credentials that the loop gets through before one that does not decrypt.
  unfoldable pub rows_done : List Credential → List Credential
  rows_done [] = []
  rows_done (c ∷ cs) =
      let rest = rows_done cs in
      elim (if c.deleted then ok c else reencrypt lib old new nonce c) [
        | fail e ↦ []
        | ok c' ↦ c ∷ rest
      ]

  -- The credentials as the loop leaves them, which stops at one that does not decrypt.
  unfoldable pub rows_so_far : List Credential → List Credential
  rows_so_far [] = []
  rows_so_far (c ∷ cs) =
      let rest = rows_so_far cs in
      elim (if c.deleted then ok c else reencrypt lib old new nonce c) [
        | fail e ↦ c ∷ cs
        | ok c' ↦ c' ∷ rest
      ]

-- `session_scope` (keyhub/db.py) from `s`, around a body that has changed the tables and may have
-- raised. The flag says whether the database takes the commit.
unfoldable pub session_scope : Bool → Server → Server × Attempt ℕ → Server × Attempt ℕ
session_scope commits s (s', done n) =
    if commits then (s', done n) else (record s' { kv = s.kv; db = s.db }, raised not_committed)
session_scope commits s (s', raised f) = (record s' { kv = s.kv; db = s.db }, raised f)

-- Behind the transaction: the new vault and the next epoch.
unfoldable pub swap_vault : Vault → Server × Attempt ℕ → Server × Attempt ℕ
swap_vault new_v (s, done n) = (bump_session_epoch (record s { vault = some new_v }), done n)
swap_vault new_v (s, raised f) = (s, raised f)

module _ (lib : CryptoLib) (pw : PasswordLib) where
  -- The rows of the new password; `scalar_one` raises where one is missing.
  unfoldable pub write_rows : Server → Vault → String → ℕ → Server × Attempt ℕ
  write_rows s new_v pw_hash count =
      if contains "argon2_params" s.kv
      then (let kv = insert "argon2_params" (pw.dumps new_v.params) s.kv in
          if contains "master_pw_hash" s.kv
          then (record s { kv = insert "master_pw_hash" pw_hash kv }, done count)
          else (record s { kv = kv }, raised no_row))
      else (s, raised no_row)

  -- The tables with these credentials and versions.
  abbrev pub with_rows : Server → List Credential → List RotationLog → Server
  with_rows s creds rotations = record s {
    db = record s.db { credentials = creds; rotations = rotations };
  }

  -- The body of the transaction.
  unfoldable pub reencrypt_body :
      Server → Bytes → Vault → String → Random → Bool → Server × Attempt ℕ
  reencrypt_body s old new_v pw_hash draw reencrypts =
      let rotated = λ (creds : List Credential).
        map (reencrypt_rotation lib old new_v.key draw.nonce creds) s.db.rotations in
      if reencrypts
      then elim (reencrypt_all lib old new_v.key draw.nonce s.db.credentials) [
        | fail e ↦ (
          with_rows s (rows_so_far lib old new_v.key draw.nonce s.db.credentials)
              (rotated (rows_done lib old new_v.key draw.nonce s.db.credentials)),
          raised undecryptable,
        )
        | ok creds ↦
            write_rows (with_rows s creds (rotated s.db.credentials)) new_v pw_hash
              (live_count s.db.credentials)
      ]
      else write_rows s new_v pw_hash 0

  -- The critical region.
  unfoldable pub reencrypt_with :
      Bool → Server → Bytes → Vault → String → Random → Bool → Server × Attempt ℕ
  reencrypt_with commits s old new_v pw_hash draw reencrypts =
      swap_vault new_v
        (session_scope commits s (reencrypt_body s old new_v pw_hash draw reencrypts))

  -- `change_master_password`. The first flag says whether the database takes the commit.
  unfoldable pub change_master_password_on :
      Bool → Settings → Server → String → String → Random → Bool → Server × Attempt ℕ
  change_master_password_on commits settings s old_password new_password draw reencrypts =
      let params = new_argon2_params settings draw.salt in
      let new_v =
        new_vault pw params (derive_master_key pw new_password params) settings.secret_key in
      if is_initialized s
      then elim s.vault [
        | none ↦ (noted s, raised locked)
        | some v ↦
            if ltb (text_length new_password) 8
            then (noted s, raised too_short)
            else elim (lookup "master_pw_hash" s.kv) [
              | none ↦ (noted s, raised no_row)
              | some pw_hash ↦
                  if pw.verify pw_hash old_password
                  then reencrypt_with commits (noted s) v.key new_v
                      (pw.hash new_password draw.hash_salt) draw reencrypts
                  else (noted s, raised incorrect)
            ]
      ]
      else (noted s, raised not_initialized)

  -- `change_master_password` with a database that takes the commit.
  unfoldable pub change_master_password :
      Settings → Server → String → String → Random → Bool → Server × Attempt ℕ
  change_master_password settings s old_password new_password draw reencrypts =
      change_master_password_on true settings s old_password new_password draw reencrypts
