-- ===== src/Balancer/Breaker.antt =====
-- The circuit breaker of keyhub/llm/balancer.py: when it trips, and how it closes again.
use key_hub.Common.{
  ℕ, ◌+◌, ◌≡◌, String, str_eq, eq_iff, true, false, List, [], ◌∷◌, arith, ltb, leb, if◌then◌else◌,
}
use key_hub.Common.Dict.{Dict, insert, erase, lookup-insert, lookup-erase}
use key_hub.Balancer.State.{
  half_cooldown, circuit_breaker_cooldown, circuit_breaker_threshold, Balancer, count_of, closed,
  opened, half_opened, probing, cb_state, on_failure, on_success, claim_half_open,
}

pub count_of-insert :
    (d : Dict ℕ) (k j : String) (n : ℕ)
    → count_of (insert k n d) j ≡ (if str_eq k j then n else count_of d j)
unfolding count_of
count_of-insert d k j n = ground (arith, lookup-insert k j n d)

pub count_of-erase :
    (d : Dict ℕ) (k j : String) → count_of (erase k d) j ≡ (if str_eq k j then 0 else count_of d j)
unfolding count_of
count_of-erase d k j = ground (arith, lookup-erase k j d)

-- A failure that trips the breaker at `t0` opens it for half of the cool-down; from then to the
-- end of the cool-down it is half open, and after that closed.
pub on_failure-cb_state :
    (b : Balancer) (key_id : String) (t0 t : ℕ)
    → (on_failure b key_id t0).1 ≡ true
    → cb_state (on_failure b key_id t0).0 key_id t ≡ (
        if leb (t0 + circuit_breaker_cooldown) t
        then closed
        else (if ltb t (t0 + half_cooldown) then opened else half_opened))
unfolding on_failure cb_state
on_failure-cb_state b k t0 t h = ground (
  arith,
  lookup-insert k k (t0 + circuit_breaker_cooldown) b.cb_open_until,
  lookup-erase k k b.half_open,
  eq_iff k k,
)

-- Once the trial of a half-open key is claimed, the key is on probation and a second claim fails.
pub claim_half_open-probing :
    (b : Balancer) (key_id : String) (t : ℕ)
    → cb_state b key_id t ≡ half_opened
    → ((claim_half_open b key_id t).1 ≡ true)
      × (cb_state (claim_half_open b key_id t).0 key_id t ≡ probing)
      × ((claim_half_open (claim_half_open b key_id t).0 key_id t).1 ≡ false)
unfolding claim_half_open cb_state
claim_half_open-probing b k t h = ground (arith, lookup-insert k k t b.half_open, eq_iff k k)

-- What the proxy reports of one key, in order.
pub data Outcome : Type 0 where
  failure : ℕ → Outcome
  success : Outcome

abbrev pub report : Balancer → String → Outcome → Balancer
report b key_id (failure t) = (on_failure b key_id t).0
report b key_id success = on_success b key_id

pub report_all : Balancer → String → List Outcome → Balancer
report_all b key_id [] = b
report_all b key_id (o ∷ os) = report_all (report b key_id o) key_id os

-- The failures since the last success, after `n` before.
pub trailing : ℕ → List Outcome → ℕ
trailing n [] = n
trailing n (failure t ∷ os) = trailing (n + 1) os
trailing n (success ∷ os) = trailing 0 os

report_all-count :
    (b : Balancer) (key_id : String) (n : ℕ) (os : List Outcome)
    → count_of b.fail_counts key_id ≡ n
    → count_of (report_all b key_id os).fail_counts key_id ≡ trailing n os
unfolding report_all trailing
report_all-count b k n [] h = h
report_all-count b k n (failure t ∷ os) h =
    report_all-count (on_failure b k t).0 k (n + 1) os
      (unfold on_failure in ground (arith, count_of-insert b.fail_counts k k (n + 1), eq_iff k k))
report_all-count b k n (success ∷ os) h =
    report_all-count (on_success b k) k 0 os
      (unfold on_success in ground (arith, count_of-erase b.fail_counts k k, eq_iff k k))

-- After any history of a key that starts with no failure on record, one more failure trips the
-- breaker exactly when the failures since the last success, with this one, reach the threshold.
pub on_failure-report_all :
    (b : Balancer) (key_id : String) (os : List Outcome) (t : ℕ)
    → count_of b.fail_counts key_id ≡ 0
    → (on_failure (report_all b key_id os) key_id t).1
      ≡ leb circuit_breaker_threshold (trailing 0 os + 1)
unfolding on_failure
on_failure-report_all b k os t h = ground (arith, report_all-count b k 0 os h)
