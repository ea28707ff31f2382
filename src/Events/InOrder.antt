-- ===== src/Events/InOrder.antt =====
-- What a subscriber of keyhub/api/events.py hears.
use mathlib.Core.List.{append_assoc, append-nil}
use key_hub.Common.{
  ℕ, zero, suc, ◌≡◌, refl, sym, ap, ◌∙◌, String, Bool, true, false, Option, none, some, List, [],
  ◌∷◌, ◌++◌, arith, ◌==◌, ltb, leb, if◌then◌else◌, length, get_elem?,
}
use key_hub.Events.{
  queue_size, max_sse_subscribers, count_joined, Subscriber, Broadcaster, new_subscriber, subscribe,
  unsubscribe, schedule, enqueue_first, enqueue, yield_first, BusEvent, subscribes, broadcasts,
  enqueues, takes, leaves, closes, act, act_from, or_same, happen, run,
}

abbrev pub told : BusEvent → List String
told (broadcasts msg) = msg ∷ []
told _ = []

-- The messages that were broadcast.
abbrev pub heard : List BusEvent → List String
heard [] = []
heard (e ∷ es) = told e ++ heard es

abbrev all_of : Subscriber → List String
all_of s = s.yielded ++ (s.queue ++ s.pending)

abbrev OnTrack : List String → Subscriber → Type 0
OnTrack h s = s.joined ≡ true → all_of s ≡ h

one_more :
    (a b c : List String) (msg : String) → a ++ (b ++ (c ++ msg ∷ [])) ≡ (a ++ (b ++ c)) ++ msg ∷ []
one_more a b c msg =
    sym (append_assoc a (b ++ c) (msg ∷ []) ∙ ap (λ d. a ++ d) (append_assoc b c (msg ∷ [])))

moved : (b c : List String) (msg : String) → (b ++ msg ∷ []) ++ c ≡ b ++ msg ∷ c
moved b c msg = append_assoc b (msg ∷ []) c

if_here :
    (here : Bool) (h : List String) (s s' : Subscriber)
    → OnTrack h s
    → OnTrack h s'
    → OnTrack h (if here then s' else s)
if_here true h s s' a b = b
if_here false h s s' a b = a

scheduled :
    (j open_loop : Bool) (msg : String) (s : Subscriber) (h : List String)
    → s.joined ≡ j
    → OnTrack h s
    → OnTrack (h ++ msg ∷ []) (
        if j
        then (if open_loop then record s { pending = s.pending ++ msg ∷ [] } else unsubscribe s)
        else s)
scheduled true true msg s h e track =
    λ j. one_more s.yielded s.queue s.pending msg ∙ ap (λ d. d ++ msg ∷ []) (track e)
scheduled true false msg s h e track = λ off. ground arith
scheduled false open_loop msg s h e track = λ j. ground (arith, e, j)

schedule-OnTrack :
    (msg : String) (s : Subscriber) (h : List String)
    → OnTrack h s
    → OnTrack (h ++ msg ∷ []) (schedule msg s)
unfolding schedule
schedule-OnTrack msg s h track = scheduled s.joined s.loop_open msg s h refl track

enqueue-OnTrack :
    (s : Subscriber) (msgs h : List String)
    → s.pending ≡ msgs
    → OnTrack h s
    → OnTrack h (enqueue_first s msgs)
unfolding enqueue_first
enqueue-OnTrack s [] h e track = track
enqueue-OnTrack s (msg ∷ msgs) h e track =
    if_here (ltb (length s.queue) queue_size) h (record s { pending = msgs; joined = false })
      (record s { pending = msgs; queue = s.queue ++ msg ∷ [] }) (λ off. ground arith)
      (λ j.
        ap (λ d. s.yielded ++ d) (moved s.queue msgs msg)
        ∙ ap (λ d. s.yielded ++ (s.queue ++ d)) (sym e)
        ∙ track j)

yield-OnTrack :
    (s : Subscriber) (q h : List String) → s.queue ≡ q → OnTrack h s → OnTrack h (yield_first s q)
unfolding yield_first
yield-OnTrack s [] h e track = track
yield-OnTrack s (msg ∷ msgs) h e track = λ j.
    append_assoc s.yielded (msg ∷ []) (msgs ++ s.pending)
    ∙ ap (λ d. s.yielded ++ (d ++ s.pending)) (sym e)
    ∙ track j

act-OnTrack :
    (e : BusEvent) (k : ℕ) (s : Subscriber) (h : List String)
    → OnTrack h s
    → OnTrack (h ++ told e) (act e k s)
unfolding act
act-OnTrack subscribes k s h track = λ j. track j ∙ sym (append-nil h)
act-OnTrack (broadcasts msg) k s h track = schedule-OnTrack msg s h track
act-OnTrack (enqueues i) k s h track = λ j.
    if_here (i == k) h s (enqueue s) track (enqueue-OnTrack s s.pending h refl track) j
    ∙ sym (append-nil h)
act-OnTrack (takes i) k s h track = λ j.
    if_here (i == k) h s (yield_first s s.queue) track (yield-OnTrack s s.queue h refl track) j
    ∙ sym (append-nil h)
act-OnTrack (leaves i) k s h track =
    λ j. if_here (i == k) h s (unsubscribe s) track (λ off. ground arith) j ∙ sym (append-nil h)
act-OnTrack (closes i) k s h track =
    λ j. if_here (i == k) h s (record s { loop_open = false }) track track j ∙ sym (append-nil h)

abbrev act_option : BusEvent → ℕ → Option Subscriber → Option Subscriber
act_option e k none = none
act_option e k (some s) = some (act e k s)

-- The subscriber number `i` after an event.
elem-act_from :
    (e : BusEvent) (k i : ℕ) (b : Broadcaster) (s : Subscriber)
    → get_elem? b i ≡ some s
    → (n : ℕ) × (get_elem? (act_from e k b) i ≡ some (act e n s))
unfolding act_from
elem-act_from e k i [] s there = (k, cc)
elem-act_from e k zero (x ∷ b) s there = (k, ap (act_option e k) there)
elem-act_from e k (suc i) (x ∷ b) s there = elem-act_from e (suc k) i b s there

elem-append :
    (b : Broadcaster) (i : ℕ) (s x : Subscriber)
    → get_elem? b i ≡ some s
    → get_elem? (b ++ x ∷ []) i ≡ some s
elem-append [] i s x there = cc
elem-append (y ∷ b) zero s x there = there
elem-append (y ∷ b) (suc i) s x there = elem-append b i s x there

if_room :
    (full : Bool) (b : Broadcaster) (i : ℕ) (s : Subscriber)
    → get_elem? b i ≡ some s
    → get_elem? (or_same (if full then none else some (b ++ new_subscriber ∷ [])) b) i ≡ some s
if_room true b i s there = there
if_room false b i s there = elem-append b i s new_subscriber there

elem-happen :
    (e : BusEvent) (i : ℕ) (b : Broadcaster) (s : Subscriber)
    → get_elem? b i ≡ some s
    → (n : ℕ) × (get_elem? (happen e b) i ≡ some (act e n s))
unfolding happen subscribe act
elem-happen subscribes i b s there =
    (0, if_room (leb max_sse_subscribers (count_joined b)) b i s there)
elem-happen (broadcasts msg) i b s there = elem-act_from (broadcasts msg) 0 i b s there
elem-happen (enqueues j) i b s there = elem-act_from (enqueues j) 0 i b s there
elem-happen (takes j) i b s there = elem-act_from (takes j) 0 i b s there
elem-happen (leaves j) i b s there = elem-act_from (leaves j) 0 i b s there
elem-happen (closes j) i b s there = elem-act_from (closes j) 0 i b s there

same_elem : (o : Option Subscriber) (s s' : Subscriber) → o ≡ some s → o ≡ some s' → s ≡ s'
same_elem none s s' a b = cc
same_elem (some x) s s' a b = cc

run-OnTrack :
    (es : List BusEvent) (b : Broadcaster) (i : ℕ) (s s' : Subscriber) (h : List String)
    → get_elem? b i ≡ some s
    → OnTrack h s
    → get_elem? (run es b) i ≡ some s'
    → OnTrack (h ++ heard es) s'
unfolding run
run-OnTrack [] b i s s' h there track later = λ j.
    ap all_of (sym (same_elem (get_elem? b i) s s' there later))
    ∙ track (ap (λ (x : Subscriber). x.joined) (same_elem (get_elem? b i) s s' there later) ∙ j)
    ∙ sym (append-nil h)
run-OnTrack (e ∷ es) b i s s' h there track later =
    let (n, there') = elem-happen e i b s there in
    λ j.
      run-OnTrack es (happen e b) i (act e n s) s' (h ++ told e) there' (act-OnTrack e n s h track)
        later j
      ∙ append_assoc h (told e) (heard es)

-- A subscriber that is new, whatever happens from then on in whatever order, and that is still in the set, has
-- been given every message that was broadcast since, in order and without a gap: what its generator has
-- yielded, then its queue, then what its loop has yet to put there.
pub run-heard :
    (es : List BusEvent) (b : Broadcaster) (i : ℕ) (s : Subscriber)
    → get_elem? b i ≡ some new_subscriber
    → get_elem? (run es b) i ≡ some s
    → s.joined ≡ true
    → s.yielded ++ (s.queue ++ s.pending) ≡ heard es
run-heard es b i s there later j = run-OnTrack es b i new_subscriber s [] there (λ on. refl) later j
