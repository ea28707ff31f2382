-- ===== src/Store/Reveal.antt =====
-- What can be read back from the store (keyhub/store.py) after it was written.
use text.Mathlib.TextPositions.{eq_refl}
use key_hub.Common.{
  ◌≡◌, refl, ◌∙◌, String, str_eq, eq_iff, true, false, Option, some, arith, find, find-append,
  find-holds, find-none, find-both, find-change, length,
}
use key_hub.Models.{Bytes, Credential}
use key_hub.Crypto.Envelope.{decrypt_bytes-encrypt}
use key_hub.Crypto
use key_hub.Crypto.{CryptoLib}
use key_hub.Store.Defs.{Db, ok, has_name, is_live, make_aad, try_decrypt}
use key_hub.Store.Rows.{CredentialCreate, Draw, new_credential, put_row}
use key_hub.Store.Ops.{create_credential, reveal_credential}

module _ (lib : CryptoLib) (key : Bytes) where
  -- A credential whose value was encrypted for it decrypts to that value.
  pub try_decrypt-encrypt :
      (c : Credential) (nonce value : Bytes)
      → length nonce ≡ 12
      → c.encrypted_value ≡ Crypto.encrypt lib key nonce value (some (make_aad c.id c.name))
      → try_decrypt lib (some key) c ≡ ok value
  unfolding try_decrypt
  try_decrypt-encrypt c nonce value twelve e =
      rw e (rw (decrypt_bytes-encrypt lib key nonce twelve))

live_weaker : (name : String) (c : Credential) → has_name name c ≡ false → is_live name c ≡ false
live_weaker name c h = ground arith

module _ (lib : CryptoLib) (fingerprint : Bytes → String) (vault : Option Bytes) where
  -- Reading a row that the lookup finds.
  pub reveal_found :
      (db : Db) (name : String) (draw : Draw) (c : Credential)
      → find (is_live name) db.credentials ≡ some c
      → (reveal_credential lib fingerprint vault db name draw).1 ≡ try_decrypt lib vault c
  unfolding reveal_credential
  reveal_found db name draw c e = ground arith

module _ (lib : CryptoLib) (fingerprint : Bytes → String) (key : Bytes) where
  create-row :
      (db : Db) (input : CredentialCreate) (draw : Draw) (c : Credential)
      → (create_credential lib fingerprint (some key) db input draw).1 ≡ ok c
      → (find
            (is_live input.name)
            (create_credential lib fingerprint (some key) db input draw).0.credentials
          ≡ some c)
        × (c
            ≡ new_credential input draw (
                Crypto.encrypt lib key draw.nonce input.value (some (make_aad draw.id input.name))))
  unfolding create_credential
  create-row db input draw c e =
      let blob =
        Crypto.encrypt lib key draw.nonce input.value (some (make_aad draw.id input.name)) in
      ground (
        arith,
        find-none (has_name input.name) (is_live input.name) db.credentials
            (live_weaker input.name),
        find-append (is_live input.name) db.credentials (new_credential input draw blob),
        eq_iff input.name input.name,
      )

  -- A credential that was created reveals the value it was created with.
  pub reveal-create :
      (db : Db) (input : CredentialCreate) (draw later : Draw) (c : Credential)
      → length draw.nonce ≡ 12
      → (create_credential lib fingerprint (some key) db input draw).1 ≡ ok c
      → (reveal_credential lib fingerprint
          (some key)
          (create_credential lib fingerprint (some key) db input draw).0
          input.name
          later).1
        ≡ ok input.value
  reveal-create db input draw later c twelve e =
      let (found, row) = create-row db input draw c e in
      reveal_found lib fingerprint (some key) _ input.name later c found
      ∙ try_decrypt-encrypt lib key c draw.nonce input.value twelve (rw row refl)

module _ (lib : CryptoLib) (fingerprint : Bytes → String) (vault : Option Bytes) (db : Db)
    (name : String) (c : Credential) (found : find (has_name name) db.credentials ≡ some c)
    (live : c.deleted ≡ false) where
  pub named : str_eq c.name name ≡ true
  named = find-holds (has_name name) db.credentials c found

  pub reveal_before :
      (d : Draw) → (reveal_credential lib fingerprint vault db name d).1 ≡ try_decrypt lib vault c
  reveal_before d = reveal_found lib fingerprint vault db name d c (
      find-both (has_name name) (is_live name) db.credentials c (live_weaker name) found
        (rw (named, live)))

  -- The row is found again, by name and among the live ones, after it was replaced.
  pub put_row-find :
      (c' : Credential)
      → c'.id ≡ c.id
      → c'.name ≡ c.name
      → c'.deleted ≡ false
      → (find (is_live name) (put_row c' db.credentials) ≡ some c')
        × (find (has_name name) (put_row c' db.credentials) ≡ some c')
  put_row-find c' same_id same_name alive = (
    find-change (has_name name) (λ r. str_eq r.id c'.id) (is_live name) c' c db.credentials
        (live_weaker name) found (rw same_id (eq_refl c.id)) (rw (same_name, named, alive)),
    find-change (has_name name) (λ r. str_eq r.id c'.id) (has_name name) c' c db.credentials
        (λ y e. e) found (rw same_id (eq_refl c.id)) (rw (same_name, named)),
  )
