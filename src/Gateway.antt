-- ===== src/Gateway.antt =====
-- keyhub/api/v1.py: the endpoints in the form of OpenAI's, which read the body of a request, infer its
-- provider and pass it on. A provider that a body names is a text, as the endpoint documents. The check of
-- the token and its scope is that of Auth.
pub mod Embed
mod Slots
mod Listed
mod Tests
use key_hub.Common.{
  ℕ, String, str_eq, Bool, true, false, not, ◌&&◌, ◌||◌, Option, none, some, List, [], ◌∷◌, ◌++◌,
  if◌then◌else◌, starts_with, map, is_some, find, append,
}
use key_hub.Common.Dict.{Dict, lookup, keys}
use key_hub.Models.{LlmKey, audit, llm_proxy_call}
use key_hub.Aliases.{resolve}
use key_hub.Providers.{Price, pricing, table_of}
use key_hub.Json.{
  Value, null, text, arr, no_items, Fields, end, field, get_field, get_or, is_truthy,
}
use key_hub.Proxy.Request.{Call}
use key_hub.Proxy.World.{Env, World, Try}
use key_hub.Proxy.Chat.{Result, returned, raised, uncaught, Ended, ended, chat}
use key_hub.Proxy.Lines.{StreamLib, Chunk}
use key_hub.Proxy.Stream.{Flow, End, returns, closed, closed_in_handler}
use key_hub.Proxy.StreamRounds.{Outlet, gone, raises, chat_stream}

-- `_PROVIDER_PREFIXES`
abbrev pub provider_prefixes : Dict String
provider_prefixes =
    ("gpt-", "openai")
    ∷ ("claude-", "anthropic")
    ∷ ("deepseek-", "deepseek")
    ∷ ("qwen-", "qwen")
    ∷ ("glm-", "glm")
    ∷ ("moonshot-", "moonshot")
    ∷ []

-- The loop of `infer_provider`.
unfoldable pub first_prefix : Dict String → String → String
first_prefix [] model = "openai"
first_prefix ((prefix, provider) ∷ rest) model =
    if starts_with model prefix then provider else first_prefix rest model

-- `infer_provider`; no prefix is empty.
abbrev pub infer_provider : String → String
infer_provider model = first_prefix provider_prefixes model

-- The answer of an endpoint: JSON, an error in OpenAI's form (its status, message and type), what the
-- provider sent (its status and content), or the chunks of a stream and how it ends.
pub data Tail : Type 0 where
  done_line cut_off : Tail
  error_line : String → Tail

pub data Response : Type 0 where
  json : Value → Response
  openai_error : ℕ → String → String → Response
  upstream : ℕ → String → Response
  streaming : List Chunk → Tail → Response

abbrev pub internal_error : Response
internal_error = openai_error 500 "internal error" "internal_error"

abbrev pub no_model : Response
no_model = openai_error 400 "you must provide a model parameter" "invalid_request_error"

-- A text that is not empty.
abbrev pub text_given : Option Value → Option String
text_given (some (text s)) = if str_eq s "" then none else some s
text_given _ = none

abbrev pub not_null : Option Value → Option Value
not_null (some null) = none
not_null o = o

abbrev pub or_else_text : Option String → String → String
or_else_text none other = other
or_else_text (some s) other = s

-- `explicit_provider or infer_provider(model)`
abbrev pub initial_provider : Fields → String → String
initial_provider body model =
    or_else_text (text_given (get_field "keyhub_provider" body)) (infer_provider model)

-- `body.get("messages") or []`
abbrev pub messages_of : Fields → Value
messages_of body = let v = get_or "messages" null body in if is_truthy v then v else arr no_items

-- The fields that a test keeps.
unfoldable pub keep_fields : (String → Bool) → Fields → Fields
keep_fields p end = end
keep_fields p (field k v fs) = let rest = keep_fields p fs in if p k then field k v rest else rest

-- `_CHAT_RESERVED_KEYS`
abbrev pub is_reserved : String → Bool
is_reserved k =
    str_eq k "model"
    || (str_eq k "messages"
        || (str_eq k "temperature"
            || (str_eq k "max_tokens" || (str_eq k "stream" || str_eq k "keyhub_provider"))))

abbrev pub call_of : Fields → String × String → Call
call_of body (provider, model) = record {
  provider = provider;
  model = model;
  messages = messages_of body;
  temperature = not_null (get_field "temperature" body);
  max_tokens = not_null (get_field "max_tokens" body);
  extra = keep_fields (λ k. not (is_reserved k)) body;
}

-- The row of the audit log that a call leaves.
abbrev pub proxied : World → String → String → ℕ → World
proxied w actor provider now = record w {
  audit_logs = audit llm_proxy_call actor (some provider) true now w.audit_logs;
}

abbrev pub answer_of : Result → Response
answer_of (returned v) = json v
answer_of (raised message) = openai_error 502 message "upstream_error"
answer_of uncaught = internal_error

abbrev pub answered_chat : Ended → World × Response
answered_chat (ended w p r) = (w, answer_of r)

abbrev pub tail_of : End → Tail
tail_of returns = done_line
tail_of closed = cut_off
tail_of closed_in_handler = cut_off

module _ (env : Env) (lib : StreamLib) where
  abbrev pub answered_stream : Outlet env lib → World × Response
  answered_stream (gone w out how) = (w, streaming out (tail_of how))
  answered_stream (raises w message) = (w, streaming [] (error_line message))

  -- What follows the aliases.
  unfoldable pub complete :
      Fields → World → String × String → List Try → List Flow → String → ℕ → World × Response
  complete body w target tries flows actor now =
      let w' = proxied w actor target.0 now in
      if is_truthy (get_or "stream" null body)
      then answered_stream (chat_stream env lib (call_of body target) w' flows)
      else answered_chat (chat env (call_of body target) w' now tries)

  -- `chat_completions`
  unfoldable pub chat_completions :
      Fields → World → List Try → List Flow → String → ℕ → World × Response
  chat_completions body w tries flows actor now = elim (text_given (get_field "model" body)) [
    | none ↦ (w, no_model)
    | some model ↦
        let (aliases, target) =
          resolve env.json true w.aliases (initial_provider body model) model in
        complete body (record w { aliases = aliases }) target tries flows actor now
  ]

-- An entry of the list of models.
pub record ModelEntry : Type 0 where
  pub id : String
  pub owned_by : String

abbrev pub candidates_of : List String → List String → List String
candidates_of [] priced = priced
candidates_of (m ∷ ms) priced = m ∷ ms

-- `candidates`
abbrev pub candidates : LlmKey → List String
candidates k = candidates_of k.allowed_models (keys (table_of k.provider))

abbrev pub seen_in : List ModelEntry → String → Bool
seen_in entries m = is_some (find (λ (e : ModelEntry). str_eq e.id m) entries)

-- The loop over the candidates of a key; `seen` holds the ids in `entries`.
unfoldable pub add_models : String → List String → List ModelEntry → List ModelEntry
add_models provider [] entries = entries
add_models provider (m ∷ ms) entries =
    add_models provider ms (
      if seen_in entries m then entries else entries ++ record { id = m; owned_by = provider } ∷ [])

unfoldable pub add_keys : List LlmKey → List ModelEntry → List ModelEntry
add_keys [] entries = entries
add_keys (k ∷ ks) entries = add_keys ks (add_models k.provider (candidates k) entries)

-- `list_models`
abbrev pub list_models : List LlmKey → List ModelEntry
list_models rows = add_keys rows []
