-- ===== src/Balancer/Slots.antt =====
-- The in-flight counts of keyhub/llm/balancer.py: each pick takes a slot, each report gives it back.
use key_hub.Common.{
  ℕ, ◌+◌, ◌-◌, ◌≡◌, refl, String, str_eq, Bool, Option, List, [], ◌∷◌, arith, if◌then◌else◌,
}
use key_hub.Models.{LlmKey}
use key_hub.Balancer.State.{
  Clock, Balancer, count_of, on_failure, on_success, acquire, release, forget_all,
}
use key_hub.Balancer.Mark.{mark_ok, mark_error, mark_rate_limited}
use key_hub.Balancer.Breaker.{count_of-insert}

-- The slots of a key that are taken.
abbrev pub slots : Balancer → String → ℕ
slots b k = count_of b.inflight k

pub slots-acquire :
    (b : Balancer) (k j : String)
    → slots (acquire b k) j ≡ (if str_eq k j then slots b k + 1 else slots b j)
unfolding acquire
slots-acquire b k j = count_of-insert b.inflight k j (count_of b.inflight k + 1)

pub slots-release :
    (b : Balancer) (k j : String)
    → slots (release b k) j ≡ (if str_eq k j then slots b k - 1 else slots b j)
unfolding release
slots-release b k j = ground (
  arith,
  count_of-insert b.inflight k j (count_of b.inflight k - 1),
  count_of-insert b.inflight k j 0,
)

on_failure-inflight :
    (b : Balancer) (k : String) (t : ℕ) → (on_failure b k t).0.inflight ≡ b.inflight
unfolding on_failure
on_failure-inflight b k t = ground arith

pub forget_all-inflight :
    (ks : List String) (b : Balancer) → (forget_all ks b).inflight ≡ b.inflight
unfolding forget_all
forget_all-inflight [] b = refl
forget_all-inflight (k ∷ ks) b = forget_all-inflight ks _

-- What is left of the slots after each kind of report.
abbrev pub Freed : Balancer → Balancer → String → Type 0
Freed b b' k = (j : String) → slots b' j ≡ (if str_eq k j then slots b k - 1 else slots b j)

-- Each of the three reports gives back one slot of its key and touches no other, whether or not
-- the database is up and the breaker trips.
pub mark-Freed :
    (db_up : Bool) (b : Balancer) (rows : List LlmKey) (clock : Clock) (k : String)
    (retry_after elapsed : Option ℕ)
    → Freed b (mark_ok db_up b rows k elapsed).0 k
      × Freed b (mark_error db_up b rows clock k).0 k
      × Freed b (mark_rate_limited db_up b rows clock k retry_after).0 k
unfolding mark_ok mark_error mark_rate_limited on_success
mark-Freed db_up b rows clock k retry_after elapsed = (
  λ j. slots-release _ k j,
  λ j.
      ground (
        arith,
        on_failure-inflight b k clock.mono,
        slots-release (on_failure b k clock.mono).0 k j,
      ),
  λ j.
      ground (
        arith,
        on_failure-inflight b k clock.mono,
        slots-release (on_failure b k clock.mono).0 k j,
      ),
)
