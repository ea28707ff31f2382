-- ===== src/Store/Rows.antt =====
-- keyhub/store.py: what the calls are given, and the rows that they write.
use key_hub.Common.{
  ℕ, String, str_eq, Bool, true, false, ◌&&◌, Option, none, some, List, [], ◌∷◌, ◌++◌,
  if◌then◌else◌, change, any,
}
use key_hub.Common.Dict.{Dict}
use key_hub.Models.{Bytes, Credential, CredentialType, LlmKey, active, AuditAction, audit}
use key_hub.Store.Defs.{Db, requires_provider, integrity, Outcome, ok, fail}

-- `CredentialCreate`
pub record CredentialCreate : Type 0 where
  pub name : String
  pub type : CredentialType
  pub value : Bytes
  pub metadata : Dict String
  pub expires_at : Option ℕ
  pub rotation_days : Option ℕ
  pub tags : List String
  pub provider : Option String
  pub label : Option String
  pub allowed_models : List String
  pub priority : ℕ
  pub weight : ℕ
  pub monthly_budget_usd : ℕ

-- `CredentialUpdate`
pub record CredentialUpdate : Type 0 where
  pub value : Option Bytes
  pub metadata : Option (Dict String)
  pub expires_at : Option ℕ
  pub rotation_days : Option ℕ
  pub tags : Option (List String)
  pub rotation_note : Option String

-- What a call draws: the ids of new rows, the nonce, the time, and who calls.
pub record Draw : Type 0 where
  pub id : String
  pub llm_id : String
  pub nonce : Bytes
  pub now : ℕ
  pub actor : String

abbrev pub non_empty : Option String → Option String
non_empty none = none
non_empty (some s) = if str_eq s "" then none else some s

-- `a or b`
abbrev pub text_or : Option String → String → String
text_or a b = elim (non_empty a) [ none ↦ b | some s ↦ s ]

abbrev pub is_llm : CredentialType → Bool
is_llm CredentialType.llm = true
is_llm _ = false

-- The unique key over provider and label.
abbrev pub same_slot : String → String → LlmKey → Bool
same_slot provider label k = str_eq k.provider provider && str_eq k.label label

abbrev pub new_llm_key : CredentialCreate → Draw → String → LlmKey
new_llm_key input draw provider = record {
  id = draw.llm_id;
  credential_id = draw.id;
  provider = provider;
  label = text_or input.label input.name;
  allowed_models = input.allowed_models;
  status = active;
  cooldown_until = none;
  priority = input.priority;
  weight = input.weight;
  monthly_budget_usd = input.monthly_budget_usd;
  avg_latency_ms = 0;
  total_requests = 0;
  total_prompt_tokens = 0;
  total_completion_tokens = 0;
  estimated_cost_usd = 0;
}

-- The LLM part of `create_credential`: the keys after it.
unfoldable pub add_llm_key : List LlmKey → CredentialCreate → Draw → Outcome (List LlmKey)
add_llm_key keys input draw =
    if is_llm input.type
    then (elim (non_empty input.provider) [
      | none ↦ fail requires_provider
      | some provider ↦
          if any (same_slot provider (text_or input.label input.name)) keys
          then fail integrity
          else ok (keys ++ new_llm_key input draw provider ∷ [])
    ])
    else ok keys

-- The row that `create_credential` adds.
abbrev pub new_credential : CredentialCreate → Draw → Bytes → Credential
new_credential input draw blob = record {
  id = draw.id;
  name = input.name;
  type = input.type;
  encrypted_value = blob;
  metadata = input.metadata;
  expires_at = input.expires_at;
  rotation_days = input.rotation_days;
  last_rotated_at = none;
  deleted = false;
  tags = input.tags;
}

abbrev pub logged : AuditAction → Draw → String → Db → Db
logged action draw target db = record db {
  audit_logs = audit action draw.actor (some target) true draw.now db.audit_logs;
}

-- `UPDATE credentials ... WHERE id = ...` of a row that is at hand.
abbrev pub put_row : Credential → List Credential → List Credential
put_row c creds = change (λ r. str_eq r.id c.id) (λ _. c) creds

abbrev pub if_given {ℓ} : {A : Type ℓ} → Option A → A → A
if_given none old = old
if_given (some new) old = new

-- The fields of `update_credential` that are overwritten where they are given.
abbrev pub overwrite : CredentialUpdate → Credential → Credential
overwrite d c = record c {
  metadata = if_given d.metadata c.metadata;
  expires_at = elim d.expires_at [ none ↦ c.expires_at | some t ↦ some t ];
  rotation_days = elim d.rotation_days [ none ↦ c.rotation_days | some n ↦ some n ];
  tags = if_given d.tags c.tags;
}

-- `_fingerprint` over SHA-256, which the standard library gives.
