-- ===== src/Runtime/Tests.antt =====
-- Tests and instances for keyhub/runtime.py, with the concrete cipher and password hash.
use key_hub.Common.{
  ℕ, zero, suc, ◌≤◌, ◌≡◌, ◌⊎◌, refl, sym, ap, ◌∙◌, true, false, Option, none, some, [], ◌∷◌, arith,
  get_elem?, find,
}
use key_hub.Common.Dict.{lookup, insert}
use key_hub.Models.{Bytes, CredentialType, Credential, RotationLog}
use key_hub.Crypto
use key_hub.Crypto.Toy.{toy, nonce}
use key_hub.Store.Defs.{ok, utf8, make_aad, try_decrypt}
use key_hub.Runtime.State.{
  Vault, Server, Settings, done, raised, undecryptable, not_committed, already_initialized,
  is_initialized, initialize, unlock, lock, open_vault, mix_pepper, bump_session_epoch,
}
use key_hub.Runtime.Change.{
  Random, reencrypt, before, reencrypt_all, reencrypt_version, reencrypt_rotation, live_count,
  write_rows, rows_done, rows_so_far, session_scope, swap_vault, reencrypt_body, reencrypt_with,
  change_master_password_on, change_master_password,
}
use key_hub.Runtime.RwLock.{RwLock, start, later, read}
use key_hub.Runtime.Exclusion.{Reachable-exclusive}
use key_hub.Runtime.Toy.{toy_pw}
use key_hub.Runtime.History.{owns, readable}
use key_hub.Runtime.Password.{
  next, change_master_password-decrypts, change_master_password-raised, change_master_password-done,
}

abbrev one_reader : RwLock
one_reader = record { readers = 1; writers = 0 }

Reachable-exclusive_example :
    (one_reader.writers ≤ 1) × ((one_reader.writers ≡ 0) ⊎ (one_reader.readers ≡ 0))
Reachable-exclusive_example = Reachable-exclusive one_reader (later start (read refl))

abbrev settings : Settings
settings = record {
  argon2_time_cost = 3;
  argon2_memory_cost = 2;
  argon2_parallelism = 1;
  secret_key = "";
}

abbrev fresh : Server
fresh = record {
  vault = none;
  initialized = none;
  kv = [];
  session_epoch = none;
  db = record { credentials = []; llm_keys = []; rotations = []; audit_logs = [] };
}

program : Unit {0}
unfolding is_initialized initialize unlock lock open_vault mix_pepper bump_session_epoch reencrypt
    before reencrypt_all reencrypt_version reencrypt_rotation live_count write_rows rows_done
    rows_so_far session_scope swap_vault reencrypt_body reencrypt_with change_master_password_on
    change_master_password lookup insert find utf8 make_aad try_decrypt Crypto.encrypt
    Crypto.decrypt_bytes Crypto.open_v1 Crypto.open_v0 Crypto.unpack Crypto.pack Crypto.v1_aad
program = tt

abbrev old_vault : Vault
old_vault = record {
  params = record { salt = 7 ∷ []; time_cost = 3; memory_cost = 2; parallelism = 1 };
  key = 111 ∷ 108 ∷ 100 ∷ [];
}

abbrev mail : Credential
mail = record {
  id = "c";
  name = "mail";
  type = CredentialType.password;
  encrypted_value =
      Crypto.encrypt toy (111 ∷ 108 ∷ 100 ∷ []) nonce (5 ∷ []) (some (make_aad "c" "mail"));
  metadata = [];
  expires_at = none;
  rotation_days = none;
  last_rotated_at = none;
  deleted = false;
  tags = [];
}

-- An initialized store with one credential.
abbrev running : Server
running = record fresh {
  vault = some old_vault;
  initialized = some true;
  kv = ("argon2_params", "aaabaabab") ∷ ("master_pw_hash", "old") ∷ ("initialized", "1") ∷ [];
  db = record { credentials = mail ∷ []; llm_keys = []; rotations = []; audit_logs = [] };
}

abbrev draw : Random
draw = record { salt = 8 ∷ []; hash_salt = 9 ∷ []; nonce = λ id. nonce }

abbrev changed : Server
changed = (change_master_password toy toy_pw settings running "old" "new secret" draw true).0

went_through :
    change_master_password toy toy_pw settings running "old" "new secret" draw true
    ≡ (changed, done 1)
unfolding program
went_through = refl

change_master_password-decrypts_example :
    (changed.vault ≡ some (next toy_pw settings "new secret" draw))
    × ((c' : Credential) × (get_elem? changed.db.credentials 0 ≡ some c')
        × (c'.id ≡ "c")
        × (c'.name ≡ "mail")
        × (try_decrypt toy (some (next toy_pw settings "new secret" draw).key) c'
            ≡ try_decrypt toy (some old_vault.key) mail))
change_master_password-decrypts_example =
    change_master_password-decrypts toy toy_pw settings running changed old_vault "old" "new secret"
      draw 1 0 mail (λ id. refl) refl went_through refl refl

initialized_row : lookup "initialized" running.kv ≡ some "1"
unfolding program
initialized_row = refl

-- Behind the first credential is one that does not decrypt.
abbrev broken : Server
broken = record running {
  db = record running.db {
    credentials = mail ∷ record mail { id = "z"; encrypted_value = 9 ∷ [] } ∷ [];
  };
}

refused :
    change_master_password_on toy toy_pw true settings broken "old" "new secret" draw true
    ≡ (broken, raised undecryptable)
unfolding program
refused = refl

not_taken :
    change_master_password_on toy toy_pw false settings running "old" "new secret" draw true
    ≡ (running, raised not_committed)
unfolding program
not_taken = refl

change_master_password-raised_example :
    (broken.vault ≡ broken.vault)
    × (broken.kv ≡ broken.kv)
    × (broken.session_epoch ≡ broken.session_epoch)
    × (broken.db ≡ broken.db)
change_master_password-raised_example =
    change_master_password-raised toy toy_pw settings broken broken "old" "new secret" draw true
      true undecryptable refused

is_initialized-running : is_initialized running ≡ true
unfolding program
is_initialized-running = refl

params_there : lookup "argon2_params" running.kv ≡ some "aaabaabab"
unfolding program
params_there = refl

hash_there : lookup "master_pw_hash" running.kv ≡ some "old"
unfolding program
hash_there = refl

all_read :
    (i : ℕ) (c : Credential)
    → get_elem? running.db.credentials i ≡ some c
    → c.deleted ≡ false
    → (value : Bytes) × (try_decrypt toy (some old_vault.key) c ≡ ok value)
unfolding program
all_read zero c e live =
    let same : mail ≡ c = ap (λ (o : Option Credential). elim o [ none ↦ mail | some x ↦ x ]) e in
    (5 ∷ [], ap (λ (x : Credential). try_decrypt toy (some old_vault.key) x) (sym same) ∙ refl)
all_read (suc i) c e live = cc

change_master_password-done_example :
    (change_master_password toy toy_pw settings running "old" "new secret" draw true).1
    ≡ done (live_count (mail ∷ []))
change_master_password-done_example =
    change_master_password-done toy toy_pw settings running old_vault "old" "new secret" draw
      "aaabaabab" "old" is_initialized-running refl (omega arith) params_there hash_there refl
      all_read

-- The first start, a lock, and unlocking with the wrong and the right password.
abbrev first : Server
first = (initialize toy_pw settings fresh "a password" (8 ∷ []) (9 ∷ [])).0

starts :
    ((unlock toy_pw settings (lock first) "a passwort").1 ≡ done false)
    × ((unlock toy_pw settings (lock first) "a password").0.vault ≡ first.vault)
    × ((initialize toy_pw settings first "again" [] []).1 ≡ raised already_initialized)
unfolding program
starts = (refl, refl, refl)

-- The same store with an old version of the credential.
abbrev version : RotationLog
version = record {
  id = "r";
  credential_id = "c";
  rotated_at = 5;
  note = none;
  old_fingerprint = none;
  encrypted_value = some mail.encrypted_value;
}

abbrev with_version : Server
with_version = record running { db = record running.db { rotations = version ∷ [] } }

abbrev changed_too : Server
changed_too =
    (change_master_password toy toy_pw settings with_version "old" "new secret" draw true).0

went_too :
    change_master_password toy toy_pw settings with_version "old" "new secret" draw true
    ≡ (changed_too, done 1)
unfolding program
went_too = refl

owner : find (owns version) with_version.db.credentials ≡ some mail
unfolding program
owner = refl

abbrev blob : Bytes
blob = elim mail.encrypted_value [ [] ↦ [] | b ∷ rest ↦ rest ]

stored : version.encrypted_value ≡ some (1 ∷ blob)
unfolding program
stored = refl

reads : readable toy old_vault.key (1 ∷ blob) (make_aad "c" "mail") ≡ ok (5 ∷ [])
unfolding program
reads = refl
