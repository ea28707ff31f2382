-- ===== src/Proxy/Request.antt =====
-- keyhub/llm/proxy.py: the request that is built, the usage in the answer, the waiting time and the
-- text of an error. What raises is `none`. A secret is the UTF-8 bytes of its text.
use key_hub.Common.{
  ℕ, ◌+◌, ◌*◌, ◌^◌, min, String, str_eq, Bool, true, false, ◌||◌, Option, none, some, List, [], ◌∷◌,
  ◌++◌, ltb, if◌then◌else◌, append, has_part, text_length, first_chars, strip_slashes,
}
use key_hub.Common.Dict.{Dict, insert}
use key_hub.Models.{Bytes}
use key_hub.Store.Defs.{utf8}
use key_hub.Json.{
  Value, null, bool, num, text, arr, obj, Items, no_items, item, Fields, end, field, get_field,
  get_or, is_truthy,
}
use key_hub.Providers.{ProviderConfig}

-- The arguments of a call, by its provider and model.
pub record Call : Type 0 where
  pub provider : String
  pub model : String
  pub messages : Value
  pub temperature : Option Value
  pub max_tokens : Option Value
  pub extra : Fields

-- `body[k] = v`
unfoldable pub set_field : String → Value → Fields → Fields
set_field k v end = field k v end
set_field k v (field j w fs) = if str_eq j k then field k v fs else field j w (set_field k v fs)

-- `body.update(extra)`
unfoldable pub update_fields : Fields → Fields → Fields
update_fields body end = body
update_fields body (field k v fs) = update_fields (set_field k v body) fs

abbrev pub set_given : String → Option Value → Fields → Fields
set_given k none body = body
set_given k (some v) body = set_field k v body

-- The body that `chat` and `chat_stream` set up; the stream has one more field from the start.
unfoldable pub call_body : Call → Fields → Fields
call_body c more =
    update_fields
      (set_given "max_tokens" c.max_tokens (
        set_given "temperature" c.temperature
          (field "model" (text c.model) (field "messages" c.messages more))))
      c.extra

abbrev pub is_system : Option Value → Bool
is_system (some (text role)) = str_eq role "system"
is_system _ = false

-- The system messages' contents and the other messages; `none` where `.get` or `["content"]` raises.
unfoldable pub split_messages : Items → Option (List Value × Items)
split_messages no_items = some ([], no_items)
split_messages (item (obj fs) ms) = elim (split_messages ms) [
  | none ↦ none
  | some (sys, user) ↦
      if is_system (get_field "role" fs)
      then elim (get_field "content" fs) [ none ↦ none | some content ↦ some (content ∷ sys, user) ]
      else some (sys, item (obj fs) user)
]
split_messages (item m ms) = none

-- What a loop over a value runs through, as far as its elements may have a `get`.
abbrev pub elements : Value → Option Items
elements (arr ms) = some ms
elements (text String.[]) = some no_items
elements (obj end) = some no_items
elements _ = none

-- `"\n\n".join(...)`, of texts only.
unfoldable pub join_texts : List Value → Option String
join_texts [] = some ""
join_texts (text s ∷ []) = some s
join_texts (text s ∷ v ∷ vs) = elim (join_texts (v ∷ vs)) [
  | none ↦ none
  | some rest ↦ some (append s (append "\n\n" rest))
]
join_texts (v ∷ vs) = none

abbrev pub is_null : Value → Bool
is_null null = true
is_null _ = false

-- `if body.get("temperature") is not None`
abbrev pub with_temperature : Fields → Fields → Fields
with_temperature body anth = elim (get_field "temperature" body) [
  | none ↦ anth
  | some v ↦ if is_null v then anth else set_field "temperature" v anth
]

abbrev pub with_system : List Value → Fields → Option Fields
with_system [] anth = some anth
with_system (v ∷ vs) anth = elim (join_texts (v ∷ vs)) [
  | none ↦ none
  | some s ↦ some (set_field "system" (text s) anth)
]

-- The body for Anthropic, of the messages in two parts.
abbrev pub anthropic_of : Fields → Option (List Value × Items) → Option Fields
anthropic_of body none = none
anthropic_of body (some (sys, user)) =
    elim (with_system sys (
      field "model" (get_or "model" null body) (
        field "messages" (arr user)
          (field "max_tokens" (get_or "max_tokens" (num 1024) body) end)))) [
            | none ↦ none
            | some anth ↦ some (with_temperature body anth)
          ]

unfoldable pub anthropic_body : Fields → Option Fields
anthropic_body body = anthropic_of body (elim (elements (get_or "messages" (arr no_items) body)) [
  | none ↦ none
  | some ms ↦ split_messages ms
])

pub record HttpRequest : Type 0 where
  pub url : String
  pub headers : Dict Bytes
  pub body : Fields

abbrev pub key_header : ProviderConfig → Bytes → Dict Bytes → Dict Bytes
key_header cfg api_key headers =
    if str_eq cfg.header_name ""
    then headers
    else insert cfg.header_name (utf8 cfg.header_prefix ++ api_key) headers

abbrev pub headers_of : ProviderConfig → Bytes → Dict Bytes
headers_of cfg api_key =
    let headers = key_header cfg api_key (("Content-Type", utf8 "application/json") ∷ []) in
    if str_eq cfg.name "anthropic"
    then insert "anthropic-version" (utf8 "2023-06-01") headers
    else headers

-- The body in the provider's own form.
abbrev pub body_for : ProviderConfig → Fields → Option Fields
body_for cfg body =
    if cfg.openai_compatible
    then some body
    else (if str_eq cfg.name "anthropic" then anthropic_body body else some body)

abbrev pub request_with : ProviderConfig → Bytes → Option Fields → Option HttpRequest
request_with cfg api_key none = none
request_with cfg api_key (some body) = some (record {
  url = append (strip_slashes cfg.base_url) cfg.chat_path;
  headers = headers_of cfg api_key;
  body = body;
})

-- `_build_request`
unfoldable pub build_request : ProviderConfig → Bytes → Fields → Option HttpRequest
build_request cfg api_key body = request_with cfg api_key (body_for cfg body)

-- The tokens in and out; or the `ValueError` of `int`, which `chat` catches, or another exception.
pub data Counted : Type 0 where
  tokens : ℕ → ℕ → Counted
  value_error other_error : Counted

-- What `int` makes of a value; `int_text` is its result for a text, if it is one of a number.
pub data Parsed : Type 0 where
  int : ℕ → Parsed
  no_number wrong_type : Parsed

unfoldable pub int_of : (String → Option ℕ) → Value → Parsed
int_of int_text null = wrong_type
int_of int_text (bool b) = if b then int 1 else int 0
int_of int_text (num n) = int n
int_of int_text (text s) = elim (int_text s) [ none ↦ no_number | some n ↦ int n ]
int_of int_text (arr vs) = wrong_type
int_of int_text (obj fs) = wrong_type

unfoldable pub both : Parsed → Parsed → Counted
both (int p) (int c) = tokens p c
both (int p) no_number = value_error
both (int p) wrong_type = other_error
both no_number c = value_error
both wrong_type c = other_error

-- `resp_json.get("usage", {}) or {}`, where `.get` needs an object.
abbrev pub usage_fields : Value → Option Fields
usage_fields (obj fs) =
    let u = get_or "usage" (obj end) fs in
    if is_truthy u then elim u [ obj us ↦ some us | _ ↦ none ] else some end
usage_fields _ = none

abbrev pub counts : (String → Option ℕ) → String → String → Option Fields → Counted
counts int_text prompt completion none = other_error
counts int_text prompt completion (some u) =
    both (int_of int_text (get_or prompt (num 0) u)) (int_of int_text (get_or completion (num 0) u))

-- `_parse_usage`
unfoldable pub parse_usage : (String → Option ℕ) → ProviderConfig → Value → Counted
parse_usage int_text cfg resp_json =
    if cfg.openai_compatible
    then counts int_text "prompt_tokens" "completion_tokens" (usage_fields resp_json)
    else (if str_eq cfg.name "anthropic"
        then counts int_text "input_tokens" "output_tokens" (usage_fields resp_json)
        else tokens 0 0)

-- `_backoff_wait`, in milliseconds; `jitter` is drawn.
unfoldable pub backoff_wait : ℕ → ℕ → ℕ
backoff_wait attempt jitter = if ltb attempt 2 then 0 else min 5000 (200 * 2 ^ attempt) + jitter

-- The first test that holds decides on the text.
unfoldable pub first_of : List (Bool × String) → String → String
first_of [] other = other
first_of ((test, answer) ∷ rest) other = if test then answer else first_of rest other

-- `_friendly_error`; `lower` is that of the texts.
unfoldable pub friendly_error : (String → String) → String → String
friendly_error lower msg =
    let has = λ (part : String). has_part part msg in
    let has_lower = λ (part : String). has_part part (lower msg) in
    first_of
      ((has "UNEXPECTED_EOF" || has "EOF in violation", "上游连接异常断开，请检查网络或 LLM 服务可用性")
        ∷ (has "SSLError" || has_lower "ssl", "SSL 握手失败，可能是网络代理或上游证书问题")
        ∷ (has "ConnectError" || has "ConnectionRefused", "无法连接到 LLM 上游服务，请检查网络")
        ∷ (has_lower "timeout" || has_lower "timed out", "LLM 调用超时，请稍后重试或调整超时设置")
        ∷ (has "ConnectTimeout" || has "ReadTimeout", "LLM 调用超时，请稍后重试或调整超时设置")
        ∷ (has "rate_limited" || has "429", "LLM 上游限流（429），请稍后重试")
        ∷ (has "401" || has "Unauthorized", "LLM API Key 无效或已失效（401），请检查 key")
        ∷ (has "403" || has "Forbidden", "LLM API Key 无权限（403），请检查 key 配置")
        ∷ (has "all keys exhausted" || has "all retries failed", "所有可用 key 已耗尽或全部失败，请检查 key 状态与网络")
        ∷ (has "upstream 5", "LLM 上游服务异常（5xx），请稍后重试")
        ∷ (has "upstream 4", "LLM 上游拒绝请求（4xx），请检查模型名与参数")
        ∷ [])
      (if ltb 120 (text_length msg) then append (first_chars 120 msg) "…" else msg)
