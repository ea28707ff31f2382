-- ===== src/Balancer/State.antt =====
-- keyhub/llm/balancer.py: the counters and the circuit breaker in memory.
use key_hub.Common.{
  ℕ, ◌+◌, ◌-◌, ◌%◌, max, String, Bool, true, false, none, some, List, [], ◌∷◌, map, ltb, leb,
  if◌then◌else◌, keep,
}
use key_hub.Common.Dict.{Dict, lookup, contains, insert, erase}

abbrev pub rate_limit_cooldown : ℕ
rate_limit_cooldown = 60000

abbrev pub error_cooldown : ℕ
error_cooldown = 30000

abbrev pub circuit_breaker_threshold : ℕ
circuit_breaker_threshold = 5

abbrev pub circuit_breaker_cooldown : ℕ
circuit_breaker_cooldown = 300000

-- `CIRCUIT_BREAKER_COOLDOWN / 2`
abbrev pub half_cooldown : ℕ
half_cooldown = 150000

pub record Clock : Type 0 where
  pub wall : ℕ
  pub mono : ℕ

pub record Balancer : Type 0 where
  pub cursors : Dict ℕ
  pub fail_counts : Dict ℕ
  pub cb_open_until : Dict ℕ
  pub half_open : Dict ℕ
  pub inflight : Dict ℕ

-- `d.get(k, 0)`
unfoldable pub count_of : Dict ℕ → String → ℕ
count_of d k = elim (lookup k d) [ none ↦ 0 | some n ↦ n ]

abbrev pub cursor : Balancer → String → ℕ
cursor b provider = count_of b.cursors provider

unfoldable pub advance : Balancer → String → ℕ → Balancer
advance b provider n = record b {
  cursors = insert provider ((count_of b.cursors provider + 1) % max n 1) b.cursors;
}

pub data CbState : Type 0 where
  closed opened half_opened probing : CbState

-- `_cb_state`; the float subtraction may go below 0, so the half time is compared by a sum.
unfoldable pub cb_state : Balancer → String → ℕ → CbState
cb_state b key_id now_ts = elim (lookup key_id b.cb_open_until) [
  | none ↦ closed
  | some open_until ↦
      if leb open_until now_ts
      then closed
      else (if ltb (now_ts + half_cooldown) open_until
          then opened
          else (if contains key_id b.half_open then probing else half_opened))
]

-- `_on_failure`: whether the breaker was tripped.
unfoldable pub on_failure : Balancer → String → ℕ → Balancer × Bool
on_failure b key_id now_ts =
    let count = count_of b.fail_counts key_id + 1 in
    let counted = record b { fail_counts = insert key_id count b.fail_counts } in
    if leb circuit_breaker_threshold count
    then (
      record counted {
        cb_open_until = insert key_id (now_ts + circuit_breaker_cooldown) b.cb_open_until;
        half_open = erase key_id b.half_open;
      },
      true,
    )
    else (counted, false)

unfoldable pub on_success : Balancer → String → Balancer
on_success b key_id = record b {
  fail_counts = erase key_id b.fail_counts;
  cb_open_until = erase key_id b.cb_open_until;
  half_open = erase key_id b.half_open;
}

unfoldable pub claim_half_open : Balancer → String → ℕ → Balancer × Bool
claim_half_open b key_id now_ts =
    if contains key_id b.half_open
    then (b, false)
    else (record b { half_open = insert key_id now_ts b.half_open }, true)

unfoldable pub acquire : Balancer → String → Balancer
acquire b key_id = record b { inflight = insert key_id (count_of b.inflight key_id + 1) b.inflight }

unfoldable pub release : Balancer → String → Balancer
release b key_id =
    let current = count_of b.inflight key_id in
    if ltb 0 current
    then record b { inflight = insert key_id (current - 1) b.inflight }
    else record b { inflight = insert key_id 0 b.inflight }

-- The keys whose breaker has run out.
unfoldable pub expired_keys : Dict ℕ → ℕ → List String
expired_keys d now_ts = map (λ e. e.0) (keep (λ e. leb e.1 now_ts) d)

-- The loop of `_cleanup` over the expired keys.
unfoldable pub forget_all : List String → Balancer → Balancer
forget_all [] b = b
forget_all (k ∷ ks) b = forget_all ks (record b {
  fail_counts = erase k b.fail_counts;
  cb_open_until = erase k b.cb_open_until;
  half_open = erase k b.half_open;
})
