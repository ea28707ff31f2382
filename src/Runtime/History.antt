-- ===== src/Runtime/History.antt =====
-- The old versions of a credential under a change of the master password (keyhub/runtime.py).
use key_hub.Common.{
  ℕ, zero, suc, ◌≡◌, refl, ap, ◌∙◌, String, str_eq, Bool, true, not, ◌&&◌, Option, none, some, List,
  [], ◌∷◌, arith, find, map, length, get_elem?,
}
use key_hub.Models.{Bytes, Credential, RotationLog}
use key_hub.Crypto
use key_hub.Crypto.{CryptoLib}
use key_hub.Crypto.Envelope.{decrypt_bytes-encrypt}
use key_hub.Store.Defs.{Outcome, ok, make_aad, or_else, rt_decrypt}
use key_hub.Runtime.State.{PasswordLib, Vault, Server, Settings, done, noted}
use key_hub.Runtime.Change.{Random, reencrypt_version, reencrypt_rotation, change_master_password}
use key_hub.Runtime.Password.{next, commit-back, change-back}

get_elem?-map :
    (f : RotationLog → RotationLog) (rs : List RotationLog) (i : ℕ) (r : RotationLog)
    → get_elem? rs i ≡ some r
    → get_elem? (map f rs) i ≡ some (f r)
get_elem?-map f [] i r e = cc
get_elem?-map f (x ∷ rs) zero r e =
    ap (λ (o : Option RotationLog). elim o [ none ↦ none | some y ↦ some (f y) ]) e
get_elem?-map f (x ∷ rs) (suc i) r e = get_elem?-map f rs i r e

-- The credential of a version, for the loop.
abbrev pub owns : RotationLog → Credential → Bool
owns r c = str_eq c.id r.credential_id && not c.deleted

-- How a version is decrypted before the change: for its credential, or with no context.
abbrev pub readable : CryptoLib → Bytes → Bytes → Bytes → Outcome Bytes
readable lib key blob aad =
    or_else (rt_decrypt lib (some key) blob (some aad)) (rt_decrypt lib (some key) blob none)

module _ (lib : CryptoLib) (old new : Bytes) (nonce : String → Bytes) where
  reencrypt_version-some :
      (aad blob v : Bytes) (r : RotationLog)
      → readable lib old blob aad ≡ ok v
      → (reencrypt_version lib old new nonce aad blob r).encrypted_value
        ≡ some (Crypto.encrypt lib new (nonce r.id) v (some aad))
  unfolding reencrypt_version
  reencrypt_version-some aad blob v r h = ground (arith, h)

  reencrypt_rotation-version :
      (creds : List Credential) (r : RotationLog) (c : Credential) (b : ℕ) (blob : Bytes)
      → find (owns r) creds ≡ some c
      → r.encrypted_value ≡ some (b ∷ blob)
      → reencrypt_rotation lib old new nonce creds r
        ≡ reencrypt_version lib old new nonce (make_aad c.id c.name) (b ∷ blob) r
  unfolding reencrypt_rotation
  reencrypt_rotation-version creds r c b blob found there = ground (arith, found, there)

module _ (lib : CryptoLib) (pw : PasswordLib) where
  -- After a change that went through, with nonces of 12 bytes, an old version that the old vault
  -- decrypts, for its credential or with no context, is in its place with a ciphertext that the new
  -- vault decrypts for the credential to the same value.
  pub change_master_password-versions :
      (settings : Settings) (s s' : Server) (v : Vault) (old_pw new_pw : String) (draw : Random)
      (n i : ℕ) (r : RotationLog) (c : Credential) (b : ℕ) (blob value : Bytes)
      → ((id : String) → length (draw.nonce id) ≡ 12)
      → s.vault ≡ some v
      → change_master_password lib pw settings s old_pw new_pw draw true ≡ (s', done n)
      → get_elem? s.db.rotations i ≡ some r
      → find (owns r) s.db.credentials ≡ some c
      → r.encrypted_value ≡ some (b ∷ blob)
      → readable lib v.key (b ∷ blob) (make_aad c.id c.name) ≡ ok value
      → (r' : RotationLog) × (blob' : Bytes) × (get_elem? s'.db.rotations i ≡ some r')
        × (r'.encrypted_value ≡ some blob')
        × (rt_decrypt lib
              (some (next pw settings new_pw draw).key)
              blob'
              (some (make_aad c.id c.name))
            ≡ ok value)
  change_master_password-versions settings s s' v old_pw new_pw draw n i r c b blob value twelve
        is_open e at_i found there reads =
      let new_key = (next pw settings new_pw draw).key in
      let aad = make_aad c.id c.name in
      let renew = reencrypt_rotation lib v.key new_key draw.nonce s.db.credentials in
      let (creds, _, went) = change-back lib pw settings s s' v old_pw new_pw draw n is_open e in
      let (_, _, rows, _, _, _, _, _) = commit-back lib pw (noted s) s' creds _ _ _ _ n went in
      (
        renew r,
        Crypto.encrypt lib new_key (draw.nonce r.id) value (some aad),
        ap (λ (rs : List RotationLog). get_elem? rs i) rows
            ∙ get_elem?-map renew s.db.rotations i r at_i,
        ap (λ (x : RotationLog). x.encrypted_value)
              (reencrypt_rotation-version lib v.key new_key draw.nonce s.db.credentials r c b blob
                found there)
            ∙ reencrypt_version-some lib v.key new_key draw.nonce aad (b ∷ blob) value r reads,
        rw (decrypt_bytes-encrypt lib new_key (draw.nonce r.id) (twelve r.id) value aad) refl,
      )
