-- ===== src/Balancer/Tests.antt =====
-- Tests and instances for the modules of keyhub/llm/balancer.py.
use key_hub.Common.{
  ℕ, ◌≡◌, ◌≤◌, refl, String, eq_iff, true, Option, none, some, List, [], ◌∷◌, arith, All, Memᴰ,
}
use key_hub.Common.Dict.{lookup, insert, erase}
use key_hub.Models.{LlmKey, active}
use key_hub.Balancer.State.{
  Clock, Balancer, count_of, advance, half_opened, cb_state, on_failure, on_success,
  claim_half_open, acquire, release, expired_keys, forget_all,
}
use key_hub.Balancer.Query.{heal, cleanup, selected, query_active_keys}
use key_hub.Balancer.Select.{
  round_robin, max_priority, min_by, by_strategy, select_key, pick_from, pick,
}
use key_hub.Balancer.Mark.{update_key, mark_ok, mark_error, mark_rate_limited}
use key_hub.Balancer.Breaker.{Outcome, failure, success}
use key_hub.Balancer.Chosen.{Draws}
use key_hub.Balancer.Eligible.{Eligible, pick-Eligible}
use key_hub.Balancer.Parked.{Event, Avoids, run, run-mark_error}

program : Unit {0}
unfolding count_of advance cb_state on_failure on_success claim_half_open acquire release
    expired_keys forget_all heal cleanup selected query_active_keys max_priority min_by by_strategy
    select_key pick_from pick update_key mark_ok mark_error mark_rate_limited lookup insert erase
program = tt

abbrev first_of : List LlmKey → List ℕ → Option LlmKey
first_of [] ws = none
first_of (k ∷ ks) ws = some k

first_of-Draws : Draws first_of
first_of-Draws [] ws k e = cc
first_of-Draws (x ∷ xs) ws k e = Memᴰ.head (cc)

abbrev empty : Balancer
empty = record { cursors = []; fail_counts = []; cb_open_until = []; half_open = []; inflight = [] }

abbrev row : String → ℕ → LlmKey
row id priority = record {
  id = id;
  credential_id = "c";
  provider = "openai";
  label = id;
  allowed_models = [];
  status = active;
  cooldown_until = none;
  priority = priority;
  weight = 1;
  monthly_budget_usd = 0;
  avg_latency_ms = 0;
  total_requests = 0;
  total_prompt_tokens = 0;
  total_completion_tokens = 0;
  estimated_cost_usd = 0;
}

abbrev table : List LlmKey
table = row "a" 1 ∷ row "b" 2 ∷ row "d" 2 ∷ []

abbrev noon : Clock
noon = record { wall = 1000; mono = 500 }

picks_best : (pick first_of round_robin true empty table noon "openai" none).2 ≡ some (row "b" 2)
unfolding program
picks_best = refl

pick-Eligible_example :
    let (b', rows', found) = query_active_keys true empty table noon (some "openai") none in
    Eligible b' rows' noon (some "openai") none (row "b" 2) × (1 ≤ 2)
unfolding program
pick-Eligible_example =
    pick-Eligible first_of first_of-Draws round_robin true empty table noon "openai" none
      (row "b" 2) (row "a" 1) picks_best (Memᴰ.head refl)

-- Four failures before the fifth.
abbrev failing : Balancer
failing = record empty { fail_counts = ("a", 4) ∷ [] }

trips : (on_failure failing "a" 500).1 ≡ true
unfolding program
trips = refl

abbrev tripped : Balancer
tripped = record empty { cb_open_until = ("a", 300500) ∷ [] }

tripped_half : cb_state tripped "a" 200000 ≡ half_opened
unfolding program
tripped_half = refl

abbrev history : List Outcome
history = failure 1 ∷ success ∷ failure 2 ∷ failure 3 ∷ failure 4 ∷ failure 5 ∷ []

abbrev much_later : Clock
much_later = record { wall = 90000000; mono = 90000000 }

abbrev events : List Event
events =
    Event.picks true much_later "openai" none
    ∷ Event.errs true much_later "d"
    ∷ Event.picks true much_later "openai" none
    ∷ []

run-mark_error_example :
    (let (b', rows') = mark_error true empty table noon "b" in
      All (Avoids first_of round_robin "b") (run first_of round_robin events b' rows').2)
    × (let (b', rows') = mark_rate_limited true empty table noon "b" none in
        All (Avoids first_of round_robin "b") (run first_of round_robin events b' rows').2)
unfolding program
run-mark_error_example =
    run-mark_error first_of round_robin first_of-Draws "b" noon none events empty table refl
      (tt, (ground (arith, eq_iff "d" "b"), (tt, tt)))
