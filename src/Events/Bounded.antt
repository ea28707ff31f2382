-- ===== src/Events/Bounded.antt =====
-- The bounds of the broadcaster (keyhub/api/events.py).
use key_hub.Common.{
  ℕ, suc, ◌+◌, ◌≤◌, ◌≡◌, refl, String, Bool, true, false, none, some, List, [], ◌∷◌, ◌++◌, arith,
  leb, if◌then◌else◌, length, length-append, All,
}
use key_hub.Events.{
  max_sse_subscribers, Subscriber, Broadcaster, new_subscriber, count_joined, subscribe, schedule,
  enqueue_first, yield_first, BusEvent, subscribes, broadcasts, enqueues, takes, leaves, closes,
  act, act_from, or_same, happen, run,
}

abbrev pub IsSmall : Subscriber → Type 0
IsSmall s = length s.queue ≤ 100

-- A queue with its bound, and no way back into the set.
abbrev Tamed : Subscriber → Subscriber → Type 0
Tamed s s' = (IsSmall s → IsSmall s') × (s.joined ≡ false → s'.joined ≡ false)

enqueue-Tamed : (s : Subscriber) (msgs : List String) → Tamed s (enqueue_first s msgs)
unfolding enqueue_first
enqueue-Tamed s [] = (λ small. small, λ out. out)
enqueue-Tamed s (msg ∷ msgs) =
    (λ small. ground (arith, small, length-append s.queue (msg ∷ [])), λ out. ground (arith, out))

yield-Tamed : (s : Subscriber) (q : List String) → s.queue ≡ q → Tamed s (yield_first s q)
unfolding yield_first
yield-Tamed s [] e = (λ small. small, λ out. out)
yield-Tamed s (msg ∷ msgs) e = (λ small. ground (arith, small, e), λ out. out)

act-Tamed : (e : BusEvent) (k : ℕ) (s : Subscriber) → Tamed s (act e k s)
unfolding act schedule
act-Tamed subscribes k s = (λ small. small, λ out. out)
act-Tamed (broadcasts msg) k s = (λ small. ground (arith, small), λ out. ground (arith, out))
act-Tamed (enqueues i) k s =
    let (small, out) = enqueue-Tamed s s.pending in
    (λ h. ground (arith, h, small h), λ h. ground (arith, h, out h))
act-Tamed (takes i) k s =
    let (small, out) = yield-Tamed s s.queue refl in
    (λ h. ground (arith, h, small h), λ h. ground (arith, h, out h))
act-Tamed (leaves i) k s = (λ small. ground (arith, small), λ out. ground (arith, out))
act-Tamed (closes i) k s = (λ small. ground (arith, small), λ out. ground (arith, out))

-- What holds of the broadcaster at all times.
abbrev pub IsBounded : Broadcaster → Type 0
IsBounded b = (count_joined b ≤ 50) × All IsSmall b

act_from-count :
    (e : BusEvent) (k : ℕ) (b : Broadcaster) → count_joined (act_from e k b) ≤ count_joined b
unfolding act_from count_joined
act_from-count e k [] = omega arith
act_from-count e k (s ∷ ss) =
    let (small, out) = act-Tamed e k s in
    let rest = act_from-count e (suc k) ss in
    elim s.joined
        as (λ j.
          s.joined ≡ j
          → (if (act e k s).joined
              then suc (count_joined (act_from e (suc k) ss))
              else count_joined (act_from e (suc k) ss))
            ≤ (if j then suc (count_joined ss) else count_joined ss)) [
              | true ↦ λ h. ground (arith, rest)
              | false ↦ λ h. ground (arith, rest, out h)
            ]
      refl

act_from-IsSmall :
    (e : BusEvent) (k : ℕ) (b : Broadcaster) → All IsSmall b → All IsSmall (act_from e k b)
unfolding act_from
act_from-IsSmall e k [] small = tt
act_from-IsSmall e k (s ∷ ss) (one, small) =
    ((act-Tamed e k s).0 one, act_from-IsSmall e (suc k) ss small)

act_from-IsBounded : (e : BusEvent) (b : Broadcaster) → IsBounded b → IsBounded (act_from e 0 b)
act_from-IsBounded e b (few, small) =
    (omega (arith, few, act_from-count e 0 b), act_from-IsSmall e 0 b small)

count_fresh : (b : Broadcaster) → count_joined (b ++ new_subscriber ∷ []) ≡ count_joined b + 1
unfolding count_joined
count_fresh [] = omega arith
count_fresh (s ∷ ss) = ground (arith, count_fresh ss)

IsSmall-new_subscriber : (b : Broadcaster) → All IsSmall b → All IsSmall (b ++ new_subscriber ∷ [])
IsSmall-new_subscriber [] small = (omega arith, tt)
IsSmall-new_subscriber (s ∷ ss) (one, small) = (one, IsSmall-new_subscriber ss small)

if_room :
    (full : Bool) (b : Broadcaster)
    → leb max_sse_subscribers (count_joined b) ≡ full
    → IsBounded b
    → IsBounded (or_same (if full then none else some (b ++ new_subscriber ∷ [])) b)
if_room true b e bounded = bounded
if_room false b e (few, small) = (ground (arith, e, count_fresh b), IsSmall-new_subscriber b small)

happen-IsBounded : (e : BusEvent) (b : Broadcaster) → IsBounded b → IsBounded (happen e b)
unfolding happen subscribe
happen-IsBounded subscribes b bounded =
    if_room (leb max_sse_subscribers (count_joined b)) b refl bounded
happen-IsBounded (broadcasts msg) b bounded = act_from-IsBounded (broadcasts msg) b bounded
happen-IsBounded (enqueues i) b bounded = act_from-IsBounded (enqueues i) b bounded
happen-IsBounded (takes i) b bounded = act_from-IsBounded (takes i) b bounded
happen-IsBounded (leaves i) b bounded = act_from-IsBounded (leaves i) b bounded
happen-IsBounded (closes i) b bounded = act_from-IsBounded (closes i) b bounded

run_from : (es : List BusEvent) (b : Broadcaster) → IsBounded b → IsBounded (run es b)
unfolding run
run_from [] b bounded = bounded
run_from (e ∷ es) b bounded = run_from es (happen e b) (happen-IsBounded e b bounded)

-- Whatever happens in whatever order, no more than 50 subscribers are in the set, and no queue, of one that is
-- in it or not, holds more than 100 messages.
pub run-IsBounded : (es : List BusEvent) → IsBounded (run es [])
unfolding count_joined
run-IsBounded es = run_from es [] (omega arith, tt)
