-- ===== src/Proxy/Payload.antt =====
-- The body of the request that `_build_request` of keyhub/llm/proxy.py makes of the call's.
use mathlib.Core.Path.{subst}
use key_hub.Common.{
  ◌≡◌, ◌≢◌, refl, sym, ap, ◌∙◌, String, str_eq, eq_iff, Bool, true, false, Option, none, some, List,
  [], ◌∷◌, arith, if◌then◌else◌,
}
use key_hub.Models.{Bytes}
use key_hub.Providers.{ProviderConfig}
use key_hub.Json.{
  Value, null, num, text, arr, Items, no_items, Fields, end, field, get_field, get_or,
}
use key_hub.Proxy.Request.{
  set_field, split_messages, join_texts, elements, is_null, with_temperature, with_system,
  anthropic_body, anthropic_of, body_for, request_with, HttpRequest, build_request,
}

pub get_field-set_field :
    (j k : String) (v : Value) (fs : Fields)
    → get_field j (set_field k v fs) ≡ (if str_eq k j then some v else get_field j fs)
unfolding get_field set_field
get_field-set_field j k v end = refl
get_field-set_field j k v (field i w fs) =
    ground (arith, get_field-set_field j k v fs, eq_iff i k, eq_iff k j, eq_iff i j)

-- A field of another name than the one that is set.
unset :
    (k j : String) (v : Value) (fs : Fields)
    → k ≢ j
    → get_field k (set_field j v fs) ≡ get_field k fs
unset k j v fs other = ground (arith, get_field-set_field k j v fs, eq_iff j k, other)

with_temperature-get_field :
    (k : String) (body fs : Fields)
    → k ≢ "temperature"
    → get_field k (with_temperature body fs) ≡ get_field k fs
with_temperature-get_field k body fs other =
    elim (get_field "temperature" body)
      as (λ found.
        get_field k (elim found [
          | none ↦ fs
          | some v ↦ if is_null v then fs else set_field "temperature" v fs
        ])
        ≡ get_field k fs) [
          | none ↦ refl
          | some v ↦
              elim (is_null v)
                as (λ (b : Bool).
                  get_field k (if b then fs else set_field "temperature" v fs) ≡ get_field k fs) [
                    | true ↦ refl
                    | false ↦ unset k "temperature" v fs other
                  ]
        ]

-- A field that the result, if there is one, has not.
abbrev pub Lacks : String → Option Fields → Type 0
Lacks k none = Unit
Lacks k (some fs) = get_field k fs ≡ none

with_system-Lacks :
    (k : String) (sys : List Value) (body fs : Fields)
    → k ≢ "system"
    → k ≢ "temperature"
    → get_field k fs ≡ none
    → Lacks k
        (elim (with_system sys fs) [ none ↦ none | some anth ↦ some (with_temperature body anth) ])
with_system-Lacks k [] body fs not_system not_temperature e =
    with_temperature-get_field k body fs not_temperature ∙ e
with_system-Lacks k (v ∷ vs) body fs not_system not_temperature e =
    elim (join_texts (v ∷ vs))
      as (λ joined.
        Lacks k
          (elim (elim joined as (λ _. Option Fields) [
            | none ↦ none
            | some s ↦ some (set_field "system" (text s) fs)
          ])
            as (λ _. Option Fields) [
              | none ↦ none
              | some anth ↦ some (with_temperature body anth)
            ])) [
              | none ↦ tt
              | some s ↦
                  with_temperature-get_field k body (set_field "system" (text s) fs) not_temperature
                  ∙ unset k "system" (text s) fs not_system
                  ∙ e
            ]

three :
    (k : String) (a b c : Value)
    → k ≢ "model"
    → k ≢ "messages"
    → k ≢ "max_tokens"
    → get_field k (field "model" a (field "messages" b (field "max_tokens" c end))) ≡ none
unfolding get_field
three k a b c not_model not_messages not_max = ground (
  arith,
  eq_iff "model" k,
  eq_iff "messages" k,
  eq_iff "max_tokens" k,
  not_model,
  not_messages,
  not_max,
)

anthropic_of-Lacks :
    (k : String) (body : Fields) (halves : Option (List Value × Items))
    → k ≢ "model"
    → k ≢ "messages"
    → k ≢ "max_tokens"
    → k ≢ "system"
    → k ≢ "temperature"
    → Lacks k (anthropic_of body halves)
anthropic_of-Lacks k body none not_model not_messages not_max not_system not_temperature = tt
anthropic_of-Lacks k body (some (sys, user)) not_model not_messages not_max not_system
      not_temperature =
    with_system-Lacks k sys body _ not_system not_temperature (
      three k (get_or "model" null body) (arr user) (get_or "max_tokens" (num 1024) body) not_model
        not_messages not_max)

-- The request of `build_request`, if there is one.
abbrev pub sent_body : Option HttpRequest → Option Fields
sent_body none = none
sent_body (some r) = some r.body

sent-Lacks :
    (cfg : ProviderConfig) (api_key : Bytes) (k : String) (body : Option Fields)
    → Lacks k body
    → Lacks k (sent_body (request_with cfg api_key body))
sent-Lacks cfg api_key k none h = tt
sent-Lacks cfg api_key k (some body) h = h

-- A request for Anthropic has no field but the model, the messages, the tokens' limit, the system text
-- and the temperature: whatever else the call's body has, the wish for a stream too, is left out.
pub build_request-Lacks :
    (cfg : ProviderConfig) (api_key : Bytes) (body : Fields) (k : String)
    → cfg.openai_compatible ≡ false
    → cfg.name ≡ "anthropic"
    → k ≢ "model"
    → k ≢ "messages"
    → k ≢ "max_tokens"
    → k ≢ "system"
    → k ≢ "temperature"
    → Lacks k (sent_body (build_request cfg api_key body))
unfolding build_request anthropic_body
build_request-Lacks cfg api_key body k other named not_model not_messages not_max not_system
      not_temperature =
    let same : str_eq cfg.name "anthropic" ≡ true =
      ground (arith, named, eq_iff cfg.name "anthropic") in
    let for_anthropic : body_for cfg body ≡ anthropic_body body =
      ap
        (λ b.
          if b
          then some body
          else (if str_eq cfg.name "anthropic" then anthropic_body body else some body))
        other
      ∙ ap (λ b. if b then anthropic_body body else some body) same in
    let lacking =
      anthropic_of-Lacks k body
        (elim (elements (get_or "messages" (arr no_items) body)) [
          | none ↦ none
          | some ms ↦ split_messages ms
        ])
        not_model not_messages not_max not_system not_temperature in
    sent-Lacks cfg api_key k (body_for cfg body) (subst (Lacks k) (sym for_anthropic) lacking)
