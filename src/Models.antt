-- ===== src/Models.antt =====
-- keyhub/models.py: the tables. Text columns are `String`, binary columns lists of bytes, and times
-- milliseconds. Money is counted in millionths of a dollar. Counts, priorities and weights are
-- natural numbers: negative ones have no row here. The bookkeeping columns that the code only shows
-- (`created_at` and `updated_at` of a credential, ids of log rows) are left out.
use key_hub.Common.{ℕ, String, Bool, true, false, Option, List, [], ◌∷◌, ◌++◌}
use key_hub.Common.Dict.{Dict}

abbrev pub Bytes : Type 0
Bytes = List ℕ

-- `KVStore`
pub record KvRow : Type 0 where
  pub key : String
  pub value : String

pub data CredentialType : Type 0 where
  password token ssh_key database llm other : CredentialType

-- `Credential`; its LLM key and its rotations are the rows that name its id.
pub record Credential : Type 0 where
  pub id : String
  pub name : String
  pub type : CredentialType
  pub encrypted_value : Bytes
  pub metadata : Dict String
  pub expires_at : Option ℕ
  pub rotation_days : Option ℕ
  pub last_rotated_at : Option ℕ
  pub deleted : Bool
  pub tags : List String

pub data LlmKeyStatus : Type 0 where
  active disabled rate_limited exhausted error circuit_breaker : LlmKeyStatus

abbrev pub is_active : LlmKeyStatus → Bool
is_active active = true
is_active _ = false

abbrev pub is_circuit_breaker : LlmKeyStatus → Bool
is_circuit_breaker circuit_breaker = true
is_circuit_breaker _ = false

-- `LLMKey`, without `created_at` and `updated_at`.
pub record LlmKey : Type 0 where
  pub id : String
  pub credential_id : String
  pub provider : String
  pub label : String
  pub allowed_models : List String
  pub status : LlmKeyStatus
  pub cooldown_until : Option ℕ
  pub priority : ℕ
  pub weight : ℕ
  pub monthly_budget_usd : ℕ
  pub avg_latency_ms : ℕ
  pub total_requests : ℕ
  pub total_prompt_tokens : ℕ
  pub total_completion_tokens : ℕ
  pub estimated_cost_usd : ℕ

-- `UsageLog`
pub record UsageLog : Type 0 where
  pub llm_key_id : String
  pub model : String
  pub prompt_tokens : ℕ
  pub completion_tokens : ℕ
  pub total_tokens : ℕ
  pub cost_usd : ℕ
  pub latency_ms : ℕ
  pub success : Bool
  pub error : Option String
  pub created_at : ℕ

-- `RotationLog`
pub record RotationLog : Type 0 where
  pub id : String
  pub credential_id : String
  pub rotated_at : ℕ
  pub note : Option String
  pub old_fingerprint : Option String
  pub encrypted_value : Option Bytes

-- `APIToken`
pub record ApiToken : Type 0 where
  pub id : String
  pub name : String
  pub token_hash : String
  pub scopes : List (List ℕ)
  pub created_at : ℕ
  pub expires_at : Option ℕ
  pub last_used_at : Option ℕ
  pub revoked : Bool

pub data AuditAction : Type 0 where
  credential_create credential_reveal credential_update credential_rotate : AuditAction
  credential_delete auth_unlock auth_lock auth_unlock_failed auth_init : AuditAction
  auth_password_change token_create token_revoke token_rate_limited : AuditAction
  credential_import credential_rollback backup_export backup_import : AuditAction
  llm_proxy_call llm_budget_exceeded llm_cache_hit llm_cache_clear : AuditAction
  llm_key_status llm_key_test auth_auto_lock system_notify_test : AuditAction

-- `AuditLog`, without the free-form detail.
pub record AuditLog : Type 0 where
  pub action : AuditAction
  pub actor : String
  pub target : Option String
  pub success : Bool
  pub created_at : ℕ

-- `record` of keyhub/audit.py: a row at the end of the table.
unfoldable pub audit :
    AuditAction → String → Option String → Bool → ℕ → List AuditLog → List AuditLog
audit action actor target success now logs =
    logs
    ++ record {
      action = action;
      actor = actor;
      target = target;
      success = success;
      created_at = now;
    }
      ∷ []
