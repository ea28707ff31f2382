-- ===== src/Runtime/Password.antt =====
-- The change of the master password in keyhub/runtime.py, as a whole.
use key_hub.Common.{
  Option-cases, ℕ, suc, ◌≤◌, ◌≡◌, inl, inr, ap, ◌∙◌, String, eq_iff, Bool, true, false, none, some,
  List, arith, map, length, get_elem?, text_length,
}
use key_hub.Common.Dict.{lookup, insert, lookup-insert}
use key_hub.Models.{Bytes, Credential, RotationLog}
use key_hub.Crypto.{CryptoLib}
use key_hub.Store.Defs.{ok, try_decrypt}
use key_hub.Runtime.State.{
  PasswordLib, Vault, Server, Settings, RuntimeError, Attempt, done, raised, is_initialized, noted,
  new_argon2_params, derive_master_key, new_vault, bump_session_epoch, get_session_epoch,
  open_vault, unlock,
}
use key_hub.Runtime.Change.{
  Random, reencrypt_all, reencrypt_rotation, live_count, session_scope, swap_vault, write_rows,
  with_rows, reencrypt_body, reencrypt_with, change_master_password_on, change_master_password,
}
use key_hub.Runtime.Kept.{Outcome-cases, reencrypt_all-Kept, reencrypt_all-done}

-- The vault of the new password.
abbrev pub next : PasswordLib → Settings → String → Random → Vault
next pw settings password draw =
    let params = new_argon2_params settings draw.salt in
    new_vault pw params (derive_master_key pw password params) settings.secret_key

module _ (lib : CryptoLib) (pw : PasswordLib) where
  -- The transaction on these rows, and what follows it.
  abbrev pub commit :
      Server → List Credential → List RotationLog → Vault → String → ℕ → Server × Attempt ℕ
  commit s creds rotations v pw_hash count = swap_vault v (
      session_scope true s (write_rows lib pw (with_rows lib pw s creds rotations) v pw_hash count))

  pub commit-back :
      (s s' : Server) (creds : List Credential) (rots : List RotationLog) (v : Vault) (h : String)
      (n m : ℕ)
      → commit s creds rots v h n ≡ (s', done m)
      → (s'.vault ≡ some v)
        × (s'.db.credentials ≡ creds)
        × (s'.db.rotations ≡ rots)
        × (lookup "argon2_params" s'.kv ≡ some (pw.dumps v.params))
        × (lookup "master_pw_hash" s'.kv ≡ some h)
        × (lookup "initialized" s'.kv ≡ lookup "initialized" s.kv)
        × (get_session_epoch s' ≡ suc (get_session_epoch s))
        × (m ≡ n)
  unfolding write_rows session_scope swap_vault bump_session_epoch
  commit-back s s' creds rots v h n m e =
      let kv = insert "argon2_params" (pw.dumps v.params) s.kv in
      ground (
        arith,
        lookup-insert "master_pw_hash" "argon2_params" h kv,
        lookup-insert "master_pw_hash" "master_pw_hash" h kv,
        lookup-insert "master_pw_hash" "initialized" h kv,
        lookup-insert "argon2_params" "argon2_params" (pw.dumps v.params) s.kv,
        lookup-insert "argon2_params" "initialized" (pw.dumps v.params) s.kv,
      )

  -- A change that went through: the region's own effect.
  pub change-back :
      (settings : Settings) (s s' : Server) (v : Vault) (old_pw new_pw : String) (draw : Random)
      (n : ℕ)
      → s.vault ≡ some v
      → change_master_password lib pw settings s old_pw new_pw draw true ≡ (s', done n)
      → (creds : List Credential) × (reencrypt_all lib v.key
            (next pw settings new_pw draw).key
            draw.nonce
            s.db.credentials
          ≡ ok creds)
        × (commit
              (noted s)
              creds
              (map
                (reencrypt_rotation lib v.key
                  (next pw settings new_pw draw).key
                  draw.nonce
                  s.db.credentials)
                s.db.rotations)
              (next pw settings new_pw draw)
              (pw.hash new_pw draw.hash_salt)
              (live_count s.db.credentials)
            ≡ (s', done n))
  unfolding change_master_password change_master_password_on reencrypt_with reencrypt_body
      session_scope swap_vault
  change-back settings s s' v old_pw new_pw draw n is_open e =
      let new_v = next pw settings new_pw draw in
      elim (Outcome-cases (reencrypt_all lib v.key new_v.key draw.nonce s.db.credentials)) [
        | inl (creds, h) ↦ (creds, h, ground (arith, is_open, h, e))
        | inr (f, h) ↦ absurd (ground (arith, is_open, h, e))
      ]

  -- After a change that encrypts anew (the default, which every caller takes) and went through, with
  -- nonces of 12 bytes, the process has the vault of the new
  -- password, and each credential that is not deleted keeps its place, id and name and decrypts in
  -- the new vault to just what it did in the old one.
  pub change_master_password-decrypts :
      (settings : Settings) (s s' : Server) (v : Vault) (old_pw new_pw : String) (draw : Random)
      (n i : ℕ) (c : Credential)
      → ((id : String) → length (draw.nonce id) ≡ 12)
      → s.vault ≡ some v
      → change_master_password lib pw settings s old_pw new_pw draw true ≡ (s', done n)
      → get_elem? s.db.credentials i ≡ some c
      → c.deleted ≡ false
      → (s'.vault ≡ some (next pw settings new_pw draw))
        × ((c' : Credential) × (get_elem? s'.db.credentials i ≡ some c')
            × (c'.id ≡ c.id)
            × (c'.name ≡ c.name)
            × (try_decrypt lib (some (next pw settings new_pw draw).key) c'
                ≡ try_decrypt lib (some v.key) c))
  change_master_password-decrypts settings s s' v old_pw new_pw draw n i c twelve is_open e at_i
        live =
      let new_v = next pw settings new_pw draw in
      let (creds, h, went) = change-back settings s s' v old_pw new_pw draw n is_open e in
      let (vault, rows, _, _, _, _, _, _) = commit-back (noted s) s' creds _ new_v _ _ n went in
      let (c', at', (same_id, same_name, dec)) =
        reencrypt_all-Kept lib v.key new_v.key draw.nonce twelve s.db.credentials creds i c h at_i
          live in
      (
        vault,
        (c', ap (λ (cs : List Credential). get_elem? cs i) rows ∙ at', same_id, same_name, dec),
      )

  -- After a change that went through in an initialized store, a process that starts anew is
  -- unlocked by the new password, and has the vault that the changing process has; and the session
  -- epoch has moved on by one.
  pub unlock-change_master_password :
      (settings : Settings) (s s' : Server) (v : Vault) (old_pw new_pw : String) (draw : Random)
      (n : ℕ)
      → s.vault ≡ some v
      → lookup "initialized" s.kv ≡ some "1"
      → change_master_password lib pw settings s old_pw new_pw draw true ≡ (s', done n)
      → let (s'', answer) =
          unlock pw settings (record s' { vault = none; initialized = none }) new_pw in
        (answer ≡ done true)
        × (s''.vault ≡ s'.vault)
        × (get_session_epoch s' ≡ suc (get_session_epoch s))
  unfolding unlock open_vault is_initialized
  unlock-change_master_password settings s s' v old_pw new_pw draw n is_open init e =
      let new_v = next pw settings new_pw draw in
      let (creds, h, went) = change-back settings s s' v old_pw new_pw draw n is_open e in
      let (vault, rows, _, params_row, hash_row, init_row, epoch, _) =
        commit-back (noted s) s' creds _ new_v _ _ n went in
      ground (
        arith,
        params_row,
        hash_row,
        init_row,
        init,
        vault,
        epoch,
        pw.verify-hash new_pw draw.hash_salt,
        pw.loads-dumps new_v.params,
        eq_iff "1" "1",
      )

  -- The critical region, if it raises.
  reencrypt_with-raised :
      (s s' : Server) (old : Bytes) (v : Vault) (h : String) (draw : Random)
      (commits reencrypts : Bool) (f : RuntimeError)
      → reencrypt_with lib pw commits s old v h draw reencrypts ≡ (s', raised f)
      → (s'.vault ≡ s.vault)
        × (s'.kv ≡ s.kv)
        × (s'.session_epoch ≡ s.session_epoch)
        × (s'.db ≡ s.db)
  unfolding reencrypt_with reencrypt_body session_scope swap_vault write_rows
  reencrypt_with-raised s s' old v h draw commits reencrypts f e = ground arith

  -- A change that raises, also where the database does not take the commit, leaves the vault, the
  -- rows of the password, the session epoch and the tables as they were, whatever the transaction
  -- had written.
  pub change_master_password-raised :
      (settings : Settings) (s s' : Server) (old_pw new_pw : String) (draw : Random)
      (commits reencrypts : Bool) (f : RuntimeError)
      → change_master_password_on lib pw commits settings s old_pw new_pw draw reencrypts
        ≡ (s', raised f)
      → (s'.vault ≡ s.vault)
        × (s'.kv ≡ s.kv)
        × (s'.session_epoch ≡ s.session_epoch)
        × (s'.db ≡ s.db)
  unfolding change_master_password_on
  change_master_password-raised settings s s' old_pw new_pw draw commits reencrypts f e =
      let new_v = next pw settings new_pw draw in
      elim (Option-cases s.vault) [
        | inl closed ↦ ground (arith, closed, e)
        | inr (v, is_open) ↦ ground (
          arith,
          is_open,
          e,
          reencrypt_with-raised (noted s) s' v.key new_v (pw.hash new_pw draw.hash_salt) draw
              commits reencrypts f,
        )
      ]

  -- A change that encrypts anew (the default, which every caller takes), with a database that takes the
  -- commit, goes through, and counts the credentials that are not deleted, where the process is
  -- initialized and unlocked, the new password has 8 characters, the old one passes, the row of the
  -- parameters is there, and each credential that is not deleted decrypts.
  pub change_master_password-done :
      (settings : Settings) (s : Server) (v : Vault) (old_pw new_pw : String) (draw : Random)
      (params_row hash_row : String)
      → is_initialized s ≡ true
      → s.vault ≡ some v
      → 8 ≤ text_length new_pw
      → lookup "argon2_params" s.kv ≡ some params_row
      → lookup "master_pw_hash" s.kv ≡ some hash_row
      → pw.verify hash_row old_pw ≡ true
      → ((i : ℕ) (c : Credential)
          → get_elem? s.db.credentials i ≡ some c
          → c.deleted ≡ false
          → (value : Bytes) × (try_decrypt lib (some v.key) c ≡ ok value))
      → (change_master_password lib pw settings s old_pw new_pw draw true).1
        ≡ done (live_count s.db.credentials)
  unfolding change_master_password change_master_password_on reencrypt_with reencrypt_body
      session_scope swap_vault write_rows
  change_master_password-done settings s v old_pw new_pw draw params_row hash_row init is_open long
        params_at hash_at passes readable =
      let new_v = next pw settings new_pw draw in
      let (creds, h) =
        reencrypt_all-done lib v.key new_v.key draw.nonce s.db.credentials readable in
      ground (arith, init, is_open, params_at, hash_at, passes, h)
