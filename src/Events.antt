-- ===== src/Events.antt =====
-- keyhub/api/events.py: the broadcaster of audit events. A message is put into the queue of a subscriber by
-- its own loop, some time after the broadcast; the history of calls says when.
mod Bounded
mod InOrder
mod Tests
use key_hub.Common.{
  ℕ, zero, suc, ◌+◌, String, Bool, true, false, Option, none, some, List, [], ◌∷◌, ◌++◌, ◌==◌, ltb,
  leb, if◌then◌else◌, length, map,
}

-- `MAX_SSE_SUBSCRIBERS` and the size of a queue.
abbrev pub max_sse_subscribers : ℕ
max_sse_subscribers = 50

abbrev pub queue_size : ℕ
queue_size = 100

-- A `_Subscriber`: whether it is in the set, whether its loop is open, what the loop has yet to put into the
-- queue, the queue, and what its generator has yielded of it.
pub record Subscriber : Type 0 where
  pub joined : Bool
  pub loop_open : Bool
  pub pending : List String
  pub queue : List String
  pub yielded : List String

-- The subscribers that there ever were, by their order.
abbrev pub Broadcaster : Type 0
Broadcaster = List Subscriber

abbrev pub new_subscriber : Subscriber
new_subscriber = record { joined = true; loop_open = true; pending = []; queue = []; yielded = [] }

unfoldable pub count_joined : Broadcaster → ℕ
count_joined [] = 0
count_joined (s ∷ ss) = let rest = count_joined ss in if s.joined then suc rest else rest

-- `subscribe`; `none` where it raises.
unfoldable pub subscribe : Broadcaster → Option Broadcaster
subscribe b =
    if leb max_sse_subscribers (count_joined b) then none else some (b ++ new_subscriber ∷ [])

-- `unsubscribe`
abbrev pub unsubscribe : Subscriber → Subscriber
unsubscribe s = record s { joined = false }

-- What `broadcast` does with a subscriber; `call_soon_threadsafe` raises where the loop is closed.
unfoldable pub schedule : String → Subscriber → Subscriber
schedule msg s =
    if s.joined
    then (if s.loop_open then record s { pending = s.pending ++ msg ∷ [] } else unsubscribe s)
    else s

-- `_enqueue` of the first message that was scheduled.
unfoldable pub enqueue_first : Subscriber → List String → Subscriber
enqueue_first s [] = s
enqueue_first s (msg ∷ msgs) =
    if ltb (length s.queue) queue_size
    then record s { pending = msgs; queue = s.queue ++ msg ∷ [] }
    else record s { pending = msgs; joined = false }

abbrev pub enqueue : Subscriber → Subscriber
enqueue s = enqueue_first s s.pending

-- `sub.queue.get()` and the `yield` of the generator.
unfoldable pub yield_first : Subscriber → List String → Subscriber
yield_first s [] = s
yield_first s (msg ∷ msgs) = record s { queue = msgs; yielded = s.yielded ++ msg ∷ [] }

-- What happens: a new client, a broadcast, and for the subscriber with a number a turn of its loop, a turn
-- of its generator, its end, or the end of its loop.
pub data BusEvent : Type 0 where
  subscribes : BusEvent
  broadcasts : String → BusEvent
  enqueues takes leaves closes : ℕ → BusEvent

-- What an event does to the subscriber number `k`.
unfoldable pub act : BusEvent → ℕ → Subscriber → Subscriber
act subscribes k s = s
act (broadcasts msg) k s = schedule msg s
act (enqueues i) k s = if i == k then enqueue s else s
act (takes i) k s = if i == k then yield_first s s.queue else s
act (leaves i) k s = if i == k then unsubscribe s else s
act (closes i) k s = if i == k then record s { loop_open = false } else s

unfoldable pub act_from : BusEvent → ℕ → Broadcaster → Broadcaster
act_from e k [] = []
act_from e k (s ∷ ss) = act e k s ∷ act_from e (suc k) ss

abbrev pub or_same : Option Broadcaster → Broadcaster → Broadcaster
or_same none b = b
or_same (some b') b = b'

unfoldable pub happen : BusEvent → Broadcaster → Broadcaster
happen subscribes b = or_same (subscribe b) b
happen e b = act_from e 0 b

unfoldable pub run : List BusEvent → Broadcaster → Broadcaster
run [] b = b
run (e ∷ es) b = run es (happen e b)
