-- ===== src/Runtime/State.antt =====
-- keyhub/runtime.py: the state of the process, `initialize`, `unlock` and `lock`, with the
-- derivation of keys in keyhub/crypto.py. Argon2, HKDF and JSON are parameters, and so are the
-- salts that `os.urandom` draws. The database always answers here, and the lock is free. The row of
-- the session epoch (keyhub/auth.py) is a field: no row, a row whose text is no number, a number.
use key_hub.Common.{
  ℕ, ◌+◌, ◌≡◌, String, str_eq, Bool, true, false, ◌||◌, Option, none, some, ◌++◌, if◌then◌else◌,
}
use key_hub.Common.Dict.{Dict, lookup, insert, contains}
use key_hub.Models.{Bytes}
use key_hub.Store.Defs.{Db, utf8}

-- `Argon2Params` of keyhub/crypto.py
pub record Argon2Params : Type 0 where
  pub salt : Bytes
  pub time_cost : ℕ
  pub memory_cost : ℕ
  pub parallelism : ℕ

-- `hash_secret_raw` and `PasswordHasher` of argon2 (the hash takes the salt that it draws), `HKDF`
-- of `cryptography`, and the JSON text of the parameters; `loads` is `none` where it raises.
pub record PasswordLib : Type 0 where
  pub hash_secret_raw : Bytes → Argon2Params → Bytes
  pub hkdf : Bytes → Bytes
  pub hash : String → Bytes → String
  pub verify : String → String → Bool
  pub dumps : Argon2Params → String
  pub loads : String → Option Argon2Params
  pub verify-hash : (password : String) (salt : Bytes) → verify (hash password salt) password ≡ true
  pub loads-dumps : (params : Argon2Params) → loads (dumps params) ≡ some params

-- What the vault holds; its key is a copy that `zero` overwrites.
pub record Vault : Type 0 where
  pub params : Argon2Params
  pub key : Bytes

pub record Server : Type 0 where
  pub vault : Option Vault
  pub initialized : Option Bool
  pub kv : Dict String
  pub session_epoch : Option (Option ℕ)
  pub db : Db

pub record Settings : Type 0 where
  pub argon2_time_cost : ℕ
  pub argon2_memory_cost : ℕ
  pub argon2_parallelism : ℕ
  pub secret_key : String

pub data RuntimeError : Type 0 where
  already_initialized not_initialized locked too_short incorrect : RuntimeError
  integrity no_row bad_params undecryptable not_committed : RuntimeError

pub data Attempt (A : Type 0) : Type 0 where
  done : A → Attempt A
  raised : RuntimeError → Attempt A

abbrev pub is_one : Option String → Bool
is_one none = false
is_one (some v) = str_eq v "1"

-- `is_initialized`: what it answers, and what it keeps of it.
unfoldable pub is_initialized : Server → Bool
is_initialized s = elim s.initialized [
  | some known ↦ known
  | none ↦ is_one (lookup "initialized" s.kv)
]

abbrev pub noted : Server → Server
noted s = record s { initialized = some (is_initialized s) }

-- `new_argon2_params`
abbrev pub new_argon2_params : Settings → Bytes → Argon2Params
new_argon2_params settings salt = record {
  salt = salt;
  time_cost = settings.argon2_time_cost;
  memory_cost = settings.argon2_memory_cost;
  parallelism = settings.argon2_parallelism;
}

-- `get_session_epoch`
abbrev pub get_session_epoch : Server → ℕ
get_session_epoch s = elim s.session_epoch [ none ↦ 0 | some none ↦ 0 | some (some n) ↦ n ]

-- `bump_session_epoch`
unfoldable pub bump_session_epoch : Server → Server
bump_session_epoch s = record s { session_epoch = some (some (get_session_epoch s + 1)) }

-- `lock`
unfoldable pub lock : Server → Server
lock s = bump_session_epoch (record s { vault = none })

module _ (lib : PasswordLib) where
  -- `derive_master_key`
  abbrev pub derive_master_key : String → Argon2Params → Bytes
  derive_master_key password params = lib.hash_secret_raw (utf8 password) params

  -- `_mix_pepper`
  unfoldable pub mix_pepper : Bytes → String → Bytes
  mix_pepper master_key pepper =
      if str_eq pepper "" then master_key else lib.hkdf (master_key ++ utf8 pepper)

  -- `CryptoVault.__init__`; Argon2 gives the 32 bytes that it asks for.
  abbrev pub new_vault : Argon2Params → Bytes → String → Vault
  new_vault params master_key pepper = record {
    params = params;
    key = mix_pepper master_key pepper;
  }

  -- `initialize`, with the salts of the parameters and of the hash.
  unfoldable pub initialize :
      Settings → Server → String → Bytes → Bytes → Server × Attempt (Unit {0})
  initialize settings s password salt hash_salt =
      let params = new_argon2_params settings salt in
      if is_initialized s
      then (noted s, raised already_initialized)
      else (if contains "argon2_params" s.kv
            || contains "master_pw_hash" s.kv
            || contains "initialized" s.kv
          then (noted s, raised integrity)
          else (
            record s {
              kv = insert "initialized" "1" (
                  insert "master_pw_hash" (lib.hash password hash_salt)
                    (insert "argon2_params" (lib.dumps params) s.kv));
              vault =
                  some (new_vault params (derive_master_key password params) settings.secret_key);
              initialized = some true;
            },
            done tt,
          ))

  -- The part of `unlock` after both rows are read.
  unfoldable pub open_vault : Settings → Server → String → String → String → Server × Attempt Bool
  open_vault settings s password params_text pw_hash =
      if lib.verify pw_hash password
      then elim (lib.loads params_text) [
        | none ↦ (s, raised bad_params)
        | some params ↦ (
          record s {
            vault = some (new_vault params (derive_master_key password params) settings.secret_key);
          },
          done true,
        )
      ]
      else (s, done false)

  -- `unlock`
  unfoldable pub unlock : Settings → Server → String → Server × Attempt Bool
  unlock settings s password =
      if is_initialized s
      then elim (lookup "argon2_params" s.kv) [
        | none ↦ (noted s, raised no_row)
        | some params_text ↦ elim (lookup "master_pw_hash" s.kv) [
          | none ↦ (noted s, raised no_row)
          | some pw_hash ↦ open_vault settings (noted s) password params_text pw_hash
        ]
      ]
      else (noted s, raised not_initialized)
