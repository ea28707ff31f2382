-- ===== src/Balancer/Mark.antt =====
-- keyhub/llm/balancer.py: what a finished call reports. `db_up` is false where the database raises;
-- the source swallows that, and gives the slot back in `finally`.
use key_hub.Common.{
  ℕ, ◌+◌, ◌*◌, ◌/◌, String, str_eq, Bool, Option, none, some, List, map, ltb, ◌==◌, if◌then◌else◌,
}
use key_hub.Models.{LlmKey, LlmKeyStatus, active, rate_limited, error, circuit_breaker}
use key_hub.Balancer.State.{
  rate_limit_cooldown, error_cooldown, circuit_breaker_cooldown, Clock, Balancer, on_failure,
  on_success, release,
}

-- `UPDATE llm_keys ... WHERE id = key_id`
unfoldable pub update_key : Bool → String → (LlmKey → LlmKey) → List LlmKey → List LlmKey
update_key db_up key_id f rows =
    if db_up then map (λ (r : LlmKey). if str_eq r.id key_id then f r else r) rows else rows

abbrev pub cool_down : LlmKeyStatus → ℕ → LlmKey → LlmKey
cool_down status until r = record r { status = status; cooldown_until = some until }

-- `retry_after if (retry_after is not None and retry_after > 0) else RATE_LIMIT_COOLDOWN`
abbrev pub retry_cooldown : Option ℕ → ℕ
retry_cooldown none = rate_limit_cooldown
retry_cooldown (some n) = if ltb 0 n then n else rate_limit_cooldown

unfoldable pub mark_rate_limited :
    Bool → Balancer → List LlmKey → Clock → String → Option ℕ → Balancer × List LlmKey
mark_rate_limited db_up b rows clock key_id retry_after =
    let (b', triggered_cb) = on_failure b key_id clock.mono in
    let row =
      if triggered_cb
      then cool_down circuit_breaker (clock.wall + circuit_breaker_cooldown)
      else cool_down rate_limited (clock.wall + retry_cooldown retry_after) in
    (release b' key_id, update_key db_up key_id row rows)

unfoldable pub mark_error : Bool → Balancer → List LlmKey → Clock → String → Balancer × List LlmKey
mark_error db_up b rows clock key_id =
    let (b', triggered_cb) = on_failure b key_id clock.mono in
    let row =
      if triggered_cb
      then cool_down circuit_breaker (clock.wall + circuit_breaker_cooldown)
      else cool_down error (clock.wall + error_cooldown) in
    (release b' key_id, update_key db_up key_id row rows)

-- `int(0.7 * old + 0.3 * latency_ms)`, in tenths.
unfoldable pub smoothed_latency : ℕ → ℕ → ℕ
smoothed_latency old latency = if old == 0 then latency else (7 * old + 3 * latency) / 10

abbrev pub revive : Option ℕ → LlmKey → LlmKey
revive none r = record r { status = active; cooldown_until = none }
revive (some latency) r = record r {
  status = active;
  cooldown_until = none;
  avg_latency_ms = smoothed_latency r.avg_latency_ms latency;
}

unfoldable pub mark_ok : Bool → Balancer → List LlmKey → String → Option ℕ → Balancer × List LlmKey
mark_ok db_up b rows key_id latency =
    (release (on_success b key_id) key_id, update_key db_up key_id (revive latency) rows)
