-- ===== src/Events/Tests.antt =====
-- Tests and instances for keyhub/api/events.py.
use key_hub.Common.{◌≡◌, refl, true, false, some, List, [], ◌∷◌, get_elem?}
use key_hub.Events.{
  Subscriber, new_subscriber, count_joined, subscribe, schedule, enqueue_first, yield_first,
  BusEvent, subscribes, broadcasts, enqueues, takes, leaves, closes, act, act_from, happen, run,
}
use key_hub.Events.Bounded.{IsBounded, run-IsBounded}
use key_hub.Events.InOrder.{heard, run-heard}

program : Unit {0}
unfolding count_joined subscribe schedule enqueue_first yield_first act act_from happen run
program = tt

-- A message is yielded, one is in the queue, and one is still with the loop.
abbrev events : List BusEvent
events =
    broadcasts "a"
    ∷ enqueues 0
    ∷ subscribes
    ∷ broadcasts "b"
    ∷ takes 0
    ∷ enqueues 0
    ∷ leaves 1
    ∷ broadcasts "c"
    ∷ []

abbrev after : Subscriber
after = record {
  joined = true;
  loop_open = true;
  pending = "c" ∷ [];
  queue = "b" ∷ [];
  yielded = "a" ∷ [];
}

ends_there : get_elem? (run events (new_subscriber ∷ [])) 0 ≡ some after
unfolding program
ends_there = refl

run-heard_example : "a" ∷ "b" ∷ "c" ∷ [] ≡ heard events
run-heard_example = run-heard events (new_subscriber ∷ []) 0 after refl ends_there refl

-- A loop that is closed is found out by the next broadcast.
found_out :
    get_elem? (run (closes 0 ∷ broadcasts "a" ∷ []) (new_subscriber ∷ [])) 0
    ≡ some (record new_subscriber { joined = false; loop_open = false })
unfolding program
found_out = refl

run-IsBounded_example : IsBounded (run (subscribes ∷ events) [])
run-IsBounded_example = run-IsBounded (subscribes ∷ events)
