-- ===== src/Proxy/Toy.antt =====
-- Concrete values for the calls of keyhub/llm/proxy.py: a cipher, keys, a world and an answer.
use key_hub.Common.{
  ℕ, ◌+◌, ◌*◌, ◌/◌, ◌≤◌, String, true, false, Option, none, some, List, [], ◌∷◌, arith, append,
}
use key_hub.Models.{Bytes, CredentialType, Credential, LlmKey, active}
use key_hub.Crypto
use key_hub.Crypto.Toy.{toy, nonce}
use key_hub.Store.Defs.{make_aad}
use key_hub.Balancer.State.{Clock}
use key_hub.Balancer.Select.{round_robin}
use key_hub.Aliases.Toy.{toy_json}
use key_hub.Providers.{Rounding, ProviderConfig, compatible}
use key_hub.Json.{Value, num, arr, obj, no_items, end, field}
use key_hub.Proxy.Request.{Call}
use key_hub.Proxy.World.{Env, World, answered, Try}

pub from_below : (x : ℕ) → (x + 500000) / 1000000 * 1000000 ≤ x + 500000
from_below x = omega arith

pub from_above : (x : ℕ) → x ≤ (x + 500000) / 1000000 * 1000000 + 500000
from_above x = omega arith

abbrev pub half_up : Rounding
half_up = record {
  nearest = λ x. (x + 500000) / 1000000;
  from_below = from_below;
  from_above = from_above;
}

abbrev pub first_key : List LlmKey → List ℕ → Option LlmKey
first_key [] ws = none
first_key (k ∷ ks) ws = some k

abbrev pub env : Env
env = record {
  fallback = true;
  cache_ttl = 60;
  connect_timeout = 10000;
  limits = record { rpm = 5; tpm = 0 };
  strategy = round_robin;
  crypto = toy;
  json = toy_json;
  rounding = half_up;
  choices = first_key;
  make_key = λ c. append c.provider c.model;
  lower = λ s. s;
  int_text = λ s. none;
}

abbrev pub key : LlmKey
key = record {
  id = "k";
  credential_id = "c";
  provider = "deepseek";
  label = "main";
  allowed_models = [];
  status = active;
  cooldown_until = none;
  priority = 0;
  weight = 1;
  monthly_budget_usd = 0;
  avg_latency_ms = 0;
  total_requests = 0;
  total_prompt_tokens = 0;
  total_completion_tokens = 0;
  estimated_cost_usd = 0;
}

abbrev pub sealed : Bytes → Credential
sealed blob = record {
  id = "c";
  name = "main";
  type = CredentialType.password;
  encrypted_value = blob;
  metadata = [];
  expires_at = none;
  rotation_days = none;
  last_rotated_at = none;
  deleted = false;
  tags = [];
}

abbrev pub world : Bytes → World
world blob = record {
  balancer = record {
    cursors = [];
    fail_counts = [];
    cb_open_until = [];
    half_open = [];
    inflight = [];
  };
  llm_keys = key ∷ [];
  credentials = sealed blob ∷ [];
  logs = [];
  audit_logs = [];
  limiter = record { requests = []; tokens = [] };
  cache = [];
  aliases = record { aliases = []; loaded = true; row = none };
  latency = record { windows = [] };
  vault = some (1 ∷ []);
  permits = some 1;
  notices = [];
  sent = [];
  slept = 0;
}

-- In the old format, which the proxy decrypts.
abbrev pub old : World
old = world (Crypto.encrypt toy (1 ∷ []) nonce (65 ∷ []) none)

-- As the store encrypts.
abbrev pub new : World
new = world (Crypto.encrypt toy (1 ∷ []) nonce (65 ∷ []) (some (make_aad "c" "main")))

abbrev pub answer : Value
answer = obj (
    field "usage" (obj (field "prompt_tokens" (num 7) (field "completion_tokens" (num 2) end))) end)

abbrev pub noon : Clock
noon = record { wall = 1000; mono = 500 }

abbrev pub try : Try
try = record {
  jitter = 10;
  picked_at = noon;
  fallback_at = noon;
  checked_at = 500;
  reply = answered 200 none (some answer) "";
  latency_ms = 90;
  marked_at = noon;
  counted_at = 600;
  cached_at = 1000;
  parse_error = "";
}

abbrev pub call : String → Call
call provider = record {
  provider = provider;
  model = "deepseek-chat";
  messages = arr no_items;
  temperature = none;
  max_tokens = none;
  extra = end;
}

abbrev pub openai : ProviderConfig
openai = compatible "openai" "https://api.openai.com"

abbrev pub deepseek : ProviderConfig
deepseek = compatible "deepseek" "https://api.deepseek.com"
