-- ===== src/Store/Defs.antt =====
-- keyhub/store.py: the tables, the errors and the decryption of a credential.
use Prim.Native.Char.{code}
use key_hub.Common.{
  ℕ, ◌+◌, ◌/◌, ◌%◌, String, str_eq, Bool, not, ◌&&◌, Option, none, some, List, [], ◌∷◌, ◌++◌, ltb,
  if◌then◌else◌,
}
use key_hub.Models.{Bytes, Credential, LlmKey, RotationLog, AuditLog}
use key_hub.Crypto
use key_hub.Crypto.{CryptoLib, CryptoError}

pub record Db : Type 0 where
  pub credentials : List Credential
  pub llm_keys : List LlmKey
  pub rotations : List RotationLog
  pub audit_logs : List AuditLog

-- The exceptions: `ValueError`, `KeyError`, the locked vault, what decryption raises, and
-- a violated constraint.
pub data StoreError : Type 0 where
  already_exists requires_provider no_stored_value not_found locked integrity : StoreError
  undecryptable : CryptoError → StoreError

pub data Outcome (A : Type 0) : Type 0 where
  ok : A → Outcome A
  fail : StoreError → Outcome A

abbrev pub utf8_char : ℕ → Bytes
utf8_char c =
    if ltb c 0x80
    then c ∷ []
    else (if ltb c 0x800
        then (0xc0 + c / 64) ∷ (0x80 + c % 64) ∷ []
        else (if ltb c 0x10000
            then (0xe0 + c / 4096) ∷ (0x80 + c / 64 % 64) ∷ (0x80 + c % 64) ∷ []
            else (0xf0 + c / 262144)
              ∷ (0x80 + c / 4096 % 64)
              ∷ (0x80 + c / 64 % 64)
              ∷ (0x80 + c % 64)
              ∷ []))

-- `s.encode("utf-8")`
unfoldable pub utf8 : String → Bytes
utf8 String.[] = []
utf8 (String.◌∷◌ c s) = utf8_char (code c) ++ utf8 s

-- `_make_aad`: f"{cred_id}:{name}" in UTF-8.
unfoldable pub make_aad : String → String → Bytes
make_aad cred_id name = utf8 cred_id ++ (58 ∷ utf8 name)

abbrev pub has_name : String → Credential → Bool
has_name name c = str_eq c.name name

-- `.where(Credential.name == name).where(Credential.deleted == False)`
abbrev pub is_live : String → Credential → Bool
is_live name c = str_eq c.name name && not c.deleted

abbrev pub lift : Crypto.Result Bytes → Outcome Bytes
lift (Crypto.ok pt) = ok pt
lift (Crypto.err e) = fail (undecryptable e)

-- `try: ... except Exception: ...`
abbrev pub or_else : Outcome Bytes → Outcome Bytes → Outcome Bytes
or_else (ok pt) other = ok pt
or_else (fail e) other = other

module _ (lib : CryptoLib) where
  -- `Runtime.encrypt` and `Runtime.decrypt`; the vault's key is `none` while it is locked.
  abbrev pub rt_encrypt : Option Bytes → Bytes → Bytes → Bytes → Outcome Bytes
  rt_encrypt none nonce pt aad = fail locked
  rt_encrypt (some key) nonce pt aad = ok (Crypto.encrypt lib key nonce pt (some aad))

  abbrev pub rt_decrypt : Option Bytes → Bytes → Option Bytes → Outcome Bytes
  rt_decrypt none blob aad = fail locked
  rt_decrypt (some key) blob aad = lift (Crypto.decrypt_bytes lib key blob aad)

  -- `reveal_raw`: the context, then none, then none again.
  unfoldable pub reveal_raw : Option Bytes → String → Bytes → String → Outcome Bytes
  reveal_raw vault cred_id blob name =
      or_else (rt_decrypt vault blob (some (make_aad cred_id name)))
        (or_else (rt_decrypt vault blob none) (rt_decrypt vault blob none))

  -- `_try_decrypt`
  unfoldable pub try_decrypt : Option Bytes → Credential → Outcome Bytes
  try_decrypt vault c =
      or_else (rt_decrypt vault c.encrypted_value (some (make_aad c.id c.name))) (
        or_else (rt_decrypt vault c.encrypted_value none) (rt_decrypt vault c.encrypted_value none))
