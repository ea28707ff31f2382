-- ===== src/Balancer/Query.antt =====
-- keyhub/llm/balancer.py: which keys may be picked (`_cleanup`, `_query_active_keys`). A query
-- returns the rows in the order of the table.
use key_hub.Common.{
  ℕ, String, str_eq, Bool, true, false, not, ◌&&◌, ◌||◌, Option, none, some, List, [], ◌∷◌, map,
  ltb, if◌then◌else◌, keep, any,
}
use key_hub.Common.Dict.{keys}
use key_hub.Models.{LlmKey, LlmKeyStatus, is_active, is_circuit_breaker}
use key_hub.Balancer.State.{
  Clock, Balancer, CbState, opened, half_opened, probing, cb_state, expired_keys, forget_all,
}

-- `x in xs`
abbrev pub is_in : String → List String → Bool
is_in x xs = any (λ y. str_eq x y) xs

-- The row after `UPDATE ... SET status = 'active'` of `_cleanup`.
unfoldable pub heal : List String → LlmKey → LlmKey
heal expired k =
    if is_in k.id expired && is_circuit_breaker k.status
    then record k { status = LlmKeyStatus.active; cooldown_until = none }
    else k

-- `_cleanup`. A database that is down leaves the rows as they are (`except Exception: pass`).
unfoldable pub cleanup : Bool → Balancer → List LlmKey → ℕ → Balancer × List LlmKey
unfolding expired_keys
cleanup db_up b rows now_ts =
    let expired = expired_keys b.cb_open_until now_ts in
    (forget_all expired b, if db_up then map (heal expired) rows else rows)

abbrev pub is_broken : CbState → Bool
is_broken opened = true
is_broken probing = true
is_broken _ = false

abbrev pub is_half_open : CbState → Bool
is_half_open half_opened = true
is_half_open _ = false

-- `cooldown_until IS NULL OR cooldown_until < now`
abbrev pub cooled : Option ℕ → ℕ → Bool
cooled none now = true
cooled (some t) now = ltb t now

abbrev pub cond_active : ℕ → LlmKey → Bool
cond_active now k = is_active k.status && cooled k.cooldown_until now

abbrev pub provider_matches : Option String → LlmKey → Bool
provider_matches none k = true
provider_matches (some p) k = str_eq k.provider p

-- `not r.allowed_models or model in r.allowed_models`; `none` is a model that is absent or empty.
abbrev pub model_allowed : Option String → LlmKey → Bool
model_allowed none k = true
model_allowed (some m) k = elim k.allowed_models [ [] ↦ true | x ∷ r ↦ is_in m (x ∷ r) ]

-- The `SELECT` of `_query_active_keys`, as a test on a row.
unfoldable pub selected : Option String → ℕ → List String → LlmKey → Bool
selected provider now half_open k =
    provider_matches provider k
    && (cond_active now k || (is_circuit_breaker k.status && is_in k.id half_open))

-- `_query_active_keys`. `cleanup` runs first, so its changes stay.
unfoldable pub query_active_keys :
    Bool
    → Balancer
    → List LlmKey
    → Clock
    → Option String
    → Option String
    → Balancer × List LlmKey × List LlmKey
query_active_keys db_up b rows clock provider model =
    let (b', rows') = cleanup db_up b rows clock.mono in
    let broken = λ (k : String). is_broken (cb_state b' k clock.mono) in
    let half = λ (k : String). is_half_open (cb_state b' k clock.mono) in
    let fully_broken = keep broken (keys b'.cb_open_until) in
    let half_open_available = keep half (keys b'.cb_open_until) in
    let found = keep (selected provider clock.wall half_open_available) rows' in
    let sound = keep (λ r. not (is_in r.id fully_broken)) found in
    (b', rows', keep (model_allowed model) sound)
