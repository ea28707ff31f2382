-- ===== src/Backup/Frame.antt =====
-- keyhub/backup.py: the file of a backup, `magic | version | length | parameters | nonce | ciphertext`,
-- and what is in it. The JSON of the parameters and of the payload is a parameter.
use key_hub.Common.{
  ℕ, ◌+◌, ◌*◌, ◌/◌, ◌%◌, ◌≡◌, String, Bool, true, false, ◌&&◌, Option, some, List, [], ◌∷◌, ◌++◌,
  ◌==◌, if◌then◌else◌, length, take, drop,
}
use key_hub.Common.Dict.{Dict}
use key_hub.Models.{Bytes, CredentialType}
use key_hub.Runtime.State.{Argon2Params}

-- The LLM part of an item.
pub record ItemLlm : Type 0 where
  pub provider : String
  pub label : String
  pub allowed_models : List String
  pub priority : ℕ

-- An item of `credentials`.
pub record Item : Type 0 where
  pub name : String
  pub type : String
  pub value : Bytes
  pub metadata : Dict String
  pub expires_at : Option ℕ
  pub rotation_days : Option ℕ
  pub last_rotated_at : Option ℕ
  pub llm : Option ItemLlm

pub record BackupPayload : Type 0 where
  pub exported_at : ℕ
  pub count : ℕ
  pub credentials : List Item

-- The JSON of the parameters of Argon2 and of the payload, in UTF-8; a read is `none` where it raises.
pub record BackupLib : Type 0 where
  pub dump_params : Argon2Params → Bytes
  pub load_params : Bytes → Option Argon2Params
  pub dump_payload : BackupPayload → Bytes
  pub load_payload : Bytes → Option BackupPayload
  pub load-dump_params : (p : Argon2Params) → load_params (dump_params p) ≡ some p
  pub load-dump_payload : (p : BackupPayload) → load_payload (dump_payload p) ≡ some p

-- The values of `CredentialType`.
unfoldable pub type_value : CredentialType → String
type_value CredentialType.password = "password"
type_value CredentialType.token = "token"
type_value CredentialType.ssh_key = "ssh_key"
type_value CredentialType.database = "database"
type_value CredentialType.llm = "llm"
type_value CredentialType.other = "other"

abbrev pub bytes_eq : Bytes → Bytes → Bool
bytes_eq [] [] = true
bytes_eq [] (y ∷ ys) = false
bytes_eq (x ∷ xs) [] = false
bytes_eq (x ∷ xs) (y ∷ ys) = (x == y) && bytes_eq xs ys

-- b"KHBP"
abbrev pub magic : Bytes
magic = 75 ∷ 72 ∷ 66 ∷ 80 ∷ []

-- `struct.pack(">I", n)`, for a number of 32 bits.
unfoldable pub pack_length : ℕ → Bytes
pack_length n = n / 16777216 ∷ n / 65536 % 256 ∷ n / 256 % 256 ∷ n % 256 ∷ []

abbrev pub unpack_length : ℕ → ℕ → ℕ → ℕ → ℕ
unpack_length a b c d = ((a * 256 + b) * 256 + c) * 256 + d

pub record BackupFile : Type 0 where
  pub params_json : Bytes
  pub nonce : Bytes
  pub ciphertext : Bytes

-- What `export_backup` writes.
unfoldable pub write_file : BackupFile → Bytes
write_file f =
    magic
    ++ (1 ∷ (pack_length (length f.params_json) ++ (f.params_json ++ (f.nonce ++ f.ciphertext))))

-- A file that was read; no backup, another version, or too short for its numbers.
pub data ReadFile : Type 0 where
  file : BackupFile → ReadFile
  bad_magic cut_short : ReadFile
  bad_version : ℕ → ReadFile

unfoldable pub read_parts : Bytes → ReadFile
read_parts (a ∷ b ∷ c ∷ d ∷ rest) =
    let n = unpack_length a b c d in
    file (record {
      params_json = take n rest;
      nonce = take 12 (drop n rest);
      ciphertext = drop 12 (drop n rest);
    })
read_parts _ = cut_short

unfoldable pub read_version : Bytes → ReadFile
read_version [] = cut_short
read_version (v ∷ rest) = if v == 1 then read_parts rest else bad_version v

-- What `import_backup` reads.
unfoldable pub read_file : Bytes → ReadFile
read_file bytes = if bytes_eq (take 4 bytes) magic then read_version (drop 4 bytes) else bad_magic
