-- ===== src/Store/Failures.antt =====
-- Failures of the store (keyhub/store.py): a deleted credential, and the wrong context of a value.
use mathlib.Core.List.{append_cancel_right}
use text.Mathlib.TextPositions.{eq_refl}
use key_hub.Common.{
  ℕ, ◌≡◌, ◌≢◌, refl, ap, ◌∙◌, String, str_eq, Bool, true, false, Option, none, some, List, [], ◌∷◌,
  ◌++◌, arith, find, change, find-holds, find-change, length, Memᴰ,
}
use key_hub.Models.{Bytes, Credential}
use key_hub.Crypto
use key_hub.Crypto.{CryptoLib, invalid_tag}
use key_hub.Crypto.Envelope.{decrypt_bytes-other}
use key_hub.Store.Defs.{
  Db, fail, not_found, already_exists, undecryptable, has_name, is_live, utf8, make_aad, reveal_raw,
}
use key_hub.Store.Rows.{CredentialCreate, Draw, put_row}
use key_hub.Store.Ops.{create_credential, get_credential, reveal_credential, delete_credential}

find-gone :
    (p q : Credential → Bool) (new : Credential) (xs : List Credential)
    → ((y : Credential) → Memᴰ y xs → q y ≡ false → p y ≡ false)
    → p new ≡ false
    → find p (change q (λ _. new) xs) ≡ none
unfolding find change
find-gone p q new [] other out = refl
find-gone p q new (y ∷ ys) other out =
    let rest = find-gone p q new ys (λ z m. other z (Memᴰ.tail m)) out in
    ground (arith, rest, other y (Memᴰ.head refl))

module _ (lib : CryptoLib) (fingerprint : Bytes → String) (vault : Option Bytes) (db : Db)
    (name : String) (c : Credential) (found : find (has_name name) db.credentials ≡ some c)
    (unique : (y : Credential)
      → Memᴰ y db.credentials
      → str_eq y.id c.id ≡ false
      → has_name name y ≡ false)
    (draw : Draw) where
  abbrev deleted_db : Db
  deleted_db = (delete_credential lib fingerprint db name draw).0

  deleted_rows : deleted_db.credentials ≡ put_row (record c { deleted = true }) db.credentials
  unfolding delete_credential
  deleted_rows = ground (arith, found)

  gone : find (is_live name) deleted_db.credentials ≡ none
  gone = rw deleted_rows (
      find-gone (is_live name) (λ y. str_eq y.id c.id) (record c { deleted = true }) db.credentials
        (λ y m e. ground (arith, unique y m e)) (ground arith))

  taken : find (has_name name) deleted_db.credentials ≡ some (record c { deleted = true })
  taken = rw deleted_rows (
      find-change (has_name name) (λ y. str_eq y.id c.id) (has_name name)
        (record c { deleted = true }) c db.credentials (λ y e. e) found (eq_refl c.id)
        (find-holds (has_name name) db.credentials c found))

  -- A deleted credential, whose name no other row has, can be neither read nor revealed, and no
  -- credential can be created under its name.
  pub delete_credential-hides :
      (later : Draw) (input : CredentialCreate)
      → input.name ≡ name
      → (get_credential lib fingerprint deleted_db name ≡ fail not_found)
        × ((reveal_credential lib fingerprint vault deleted_db name later).1 ≡ fail not_found)
        × ((create_credential lib fingerprint vault deleted_db input later).1 ≡ fail already_exists)
  unfolding get_credential reveal_credential create_credential
  delete_credential-hides later input e =
      let still : find (has_name input.name) deleted_db.credentials
          ≡ some (record c { deleted = true }) =
        ap (λ n. find (has_name n) deleted_db.credentials) e ∙ taken in
      (rw (gone, get_credential), rw (gone, reveal_credential), rw (still, create_credential))

append-ne-nil : (xs ys : Bytes) (x : ℕ) → xs ++ x ∷ ys ≢ []
append-ne-nil [] ys x e = cc
append-ne-nil (y ∷ xs) ys x e = cc

make_aad-ne-nil : (cred_id name : String) → make_aad cred_id name ≢ []
unfolding make_aad
make_aad-ne-nil cred_id name = append-ne-nil (utf8 cred_id) (utf8 name) 58

-- The proxy hands the id of the LLM key, not of the credential, to `reveal_raw`. Where the two ids
-- differ in UTF-8, no value that the store encrypted is revealed by that call.
pub reveal_raw-other_id :
    (lib : CryptoLib) (key nonce value : Bytes) (cred_id llm_key_id name : String)
    → length nonce ≡ 12
    → utf8 cred_id ≢ utf8 llm_key_id
    → reveal_raw lib
        (some key)
        llm_key_id
        (Crypto.encrypt lib key nonce value (some (make_aad cred_id name)))
        name
      ≡ fail (undecryptable invalid_tag)
unfolding reveal_raw make_aad
reveal_raw-other_id lib key nonce value cred_id llm_key_id name twelve other =
    let (wrong, bare) =
      decrypt_bytes-other lib key nonce twelve value (make_aad cred_id name)
        (make_aad llm_key_id name)
        (λ e. other (append_cancel_right (utf8 cred_id) (utf8 llm_key_id) (58 ∷ utf8 name) e))
        (make_aad-ne-nil cred_id name) in
    rw (wrong, bare)
