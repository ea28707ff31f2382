-- ===== src/Store/Versions.antt =====
-- The versions of a credential (keyhub/store.py): rotation keeps the old one, rollback restores it.
use text.Mathlib.TextPositions.{eq_refl}
use key_hub.Common.{
  ◌≡◌, refl, sym, ◌∙◌, String, false, Option, none, some, [], ◌∷◌, ◌++◌, arith, find, find-append,
  length,
}
use key_hub.Models.{Bytes, Credential}
use key_hub.Crypto
use key_hub.Crypto.{CryptoLib}
use key_hub.Store.Defs.{Db, ok, has_name, make_aad, try_decrypt}
use key_hub.Store.Rows.{Draw, put_row, text_or}
use key_hub.Store.Ops.{
  reveal_credential, update_credential, rotate_credential, rollback_credential, is_version,
  version_of,
}
use key_hub.Store.Reveal.{put_row-find, reveal_before, reveal_found, try_decrypt-encrypt}

module _ (lib : CryptoLib) (fingerprint : Bytes → String) (key : Bytes) (db : Db) (name : String)
    (c : Credential) (found : find (has_name name) db.credentials ≡ some c)
    (live : c.deleted ≡ false) (value : Bytes) (note : Option String) (draw : Draw) where
  abbrev blob : Bytes
  blob = Crypto.encrypt lib key draw.nonce value (some (make_aad c.id c.name))

  abbrev rotated : Credential
  rotated = record c { encrypted_value = blob; last_rotated_at = some draw.now }

  abbrev after : Db
  after = (rotate_credential lib fingerprint (some key) db name value note draw).0

  rotate-after :
      (n : String)
      → text_or (some (text_or note "manual rotation")) "manual rotation" ≡ n
      → (after.credentials ≡ put_row rotated db.credentials)
        × (after.rotations ≡ db.rotations ++ version_of lib fingerprint (some key) c draw n ∷ [])
  unfolding rotate_credential update_credential
  rotate-after n e = ground (arith, found, e)

  -- After a rotation the new value is revealed, and the credential is found as before.
  pub reveal-rotate :
      (later : Draw)
      → length draw.nonce ≡ 12
      → (reveal_credential lib fingerprint (some key) after name later).1 ≡ ok value
  reveal-rotate later twelve =
      let (creds, _) = rotate-after _ refl in
      let (here, _) =
        put_row-find lib fingerprint (some key) db name c found live rotated refl refl live in
      reveal_found lib fingerprint (some key) after name later rotated (rw creds here)
      ∙ try_decrypt-encrypt lib key rotated draw.nonce value twelve refl

  rollback-credentials :
      (back : Draw)
      → find (is_version lib fingerprint draw.id c.id) db.rotations ≡ none
      → (rollback_credential lib fingerprint (some key) after name draw.id back).0.credentials
        ≡ put_row
            (record rotated {
              encrypted_value = c.encrypted_value;
              last_rotated_at = some back.now;
            })
            after.credentials
  unfolding rollback_credential
  rollback-credentials back fresh =
      let (creds, rots) = rotate-after _ refl in
      let (_, here) =
        put_row-find lib fingerprint (some key) db name c found live rotated refl refl live in
      let n = text_or (some (text_or note "manual rotation")) "manual rotation" in
      let v = version_of lib fingerprint (some key) c draw n in
      let there : find (is_version lib fingerprint draw.id c.id) after.rotations ≡ some v =
        rw rots (
          find-append (is_version lib fingerprint draw.id c.id) db.rotations v fresh
          ∙ rw (eq_refl draw.id, eq_refl c.id)) in
      let row : find (has_name name) after.credentials ≡ some rotated = rw creds here in
      ground (arith, row, there)

  -- Rolling back to the version that the rotation stored brings back what was revealed before the
  -- rotation: the old value, or the old failure to decrypt it.
  pub reveal-rollback :
      (before back later : Draw)
      → find (is_version lib fingerprint draw.id c.id) db.rotations ≡ none
      → (reveal_credential lib fingerprint
          (some key)
          (rollback_credential lib fingerprint (some key) after name draw.id back).0
          name
          later).1
        ≡ (reveal_credential lib fingerprint (some key) db name before).1
  unfolding try_decrypt
  reveal-rollback before back later fresh =
      let restored : Credential = record rotated {
        encrypted_value = c.encrypted_value;
        last_rotated_at = some back.now;
      } in
      let (creds, _) = rotate-after _ refl in
      let (_, again) =
        put_row-find lib fingerprint (some key) db name c found live rotated refl refl live in
      let row : find (has_name name) after.credentials ≡ some rotated = rw creds again in
      let (here, _) =
        put_row-find lib fingerprint (some key) after name rotated row live restored refl refl
          live in
      reveal_found lib fingerprint (some key) _ name later restored
        (rw (rollback-credentials back fresh) here)
      ∙ sym (reveal_before lib fingerprint (some key) db name c found live before)
