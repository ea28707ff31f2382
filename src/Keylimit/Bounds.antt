-- ===== src/Keylimit/Bounds.antt =====
-- The limits of keyhub/llm/keylimit.py are kept.
use key_hub.Common.{
  ℕ, ◌-◌, ◌≤◌, ◌<◌, ◌≡◌, ◌≢◌, refl, sym, ap, ◌∙◌, inl, inr, String, str_eq, eq_iff, false, none,
  some, List, [], ◌∷◌, ◌++◌, arith, ltb, leb, if◌then◌else◌, length, length-append, Bool-cases,
  Option-cases, keep, not,
}
use key_hub.Common.Dict.{Dict, lookup, lookup-insert, lookup-erase}
use key_hub.Keylimit.{
  KeyRateLimiter, is_old, drop_old, update_at, prune, or_empty, request_queue, cleanup_if_empty,
  Limits, check, record_tokens, drop_last, release_rpm_slot,
}

drop_old-le : (now : ℕ) (q : List ℕ) → length (drop_old now q) ≤ length q
unfolding drop_old
drop_old-le now [] = omega arith
drop_old-le now (t ∷ q) = ground (arith, drop_old-le now q)

drop_last-le : (q : List ℕ) → length (drop_last q) ≤ length q
unfolding drop_last
drop_last-le [] = omega arith
drop_last-le (t ∷ []) = omega arith
drop_last-le (t ∷ u ∷ q) = omega (arith, drop_last-le (u ∷ q))

queue-update_at :
    (f : List ℕ → List ℕ) (k j : String) (d : Dict (List ℕ))
    → f [] ≡ []
    → or_empty (lookup j (update_at f k d))
      ≡ (if str_eq k j then f (or_empty (lookup j d)) else or_empty (lookup j d))
queue-update_at f k j d nil = elim (Option-cases (lookup k d)) [
  | inl no_entry ↦ ground (arith, eq_iff k j)
  | inr (q, e) ↦ ground (arith, eq_iff k j, lookup-insert k j (f q) d)
]

-- No key has more than `rpm` requests on record.
pub Bounded : ℕ → KeyRateLimiter → Type 0
Bounded rpm l = (k : String) → length (request_queue l k) ≤ rpm

queue-prune :
    (l : KeyRateLimiter) (k j : String) (now : ℕ)
    → request_queue (prune l k now) j
      ≡ (if str_eq k j then drop_old now (request_queue l j) else request_queue l j)
unfolding prune
queue-prune l k j now = queue-update_at (drop_old now) k j l.requests (unfold drop_old in refl)

queue-cleanup :
    (l : KeyRateLimiter) (k j : String) → request_queue (cleanup_if_empty l k) j ≡ request_queue l j
unfolding cleanup_if_empty
queue-cleanup l k j = ground (arith, lookup-erase k j l.requests, eq_iff k j)

prune-Bounded :
    (rpm : ℕ) (l : KeyRateLimiter) (k : String) (now : ℕ)
    → Bounded rpm l
    → Bounded rpm (prune l k now)
unfolding Bounded
prune-Bounded rpm l k now h j =
    ground (arith, queue-prune l k j now, drop_old-le now (request_queue l j), h j)

-- A call of the limiter.
pub data Call : Type 0 where
  checks : String → ℕ → ℕ → Call
  records : String → ℕ → ℕ → Call
  releases : String → Call

abbrev pub step : Limits → KeyRateLimiter → Call → KeyRateLimiter
step s l (checks k tokens now) = (check s l k tokens now).0
step s l (records k tokens now) = record_tokens l k tokens now
step s l (releases k) = release_rpm_slot l k

pub run : Limits → KeyRateLimiter → List Call → KeyRateLimiter
run s l [] = l
run s l (c ∷ cs) = run s (step s l c) cs

check-Bounded :
    (s : Limits) (l : KeyRateLimiter) (k : String) (tokens now : ℕ)
    → 0 < s.rpm
    → Bounded s.rpm l
    → Bounded s.rpm (check s l k tokens now).0
unfolding Bounded check
check-Bounded s l k tokens now pos h j =
    let q = request_queue (prune l k now) k in
    ground (
      arith,
      prune-Bounded s.rpm l k now h j,
      lookup-insert k j (q ++ now ∷ []) (prune l k now).requests,
      length-append q (now ∷ []),
      h j,
    )

record_tokens-Bounded :
    (rpm : ℕ) (l : KeyRateLimiter) (k : String) (tokens now : ℕ)
    → Bounded rpm l
    → Bounded rpm (record_tokens l k tokens now)
unfolding Bounded record_tokens
record_tokens-Bounded rpm l k tokens now h j = elim (Bool-cases (leb tokens 0)) [
  | inl none_given ↦ rw none_given (h j)
  | inr given ↦ rw given (rw queue-cleanup (prune-Bounded rpm l k now h j))
]

release_rpm_slot-Bounded :
    (rpm : ℕ) (l : KeyRateLimiter) (k : String) → Bounded rpm l → Bounded rpm (release_rpm_slot l k)
unfolding Bounded release_rpm_slot
release_rpm_slot-Bounded rpm l k h j = rw queue-cleanup (
    ground (
      arith,
      queue-update_at drop_last k j l.requests (unfold drop_last in refl),
      drop_last-le (request_queue l j),
      h j,
    ))

step-Bounded :
    (s : Limits) (l : KeyRateLimiter) (c : Call)
    → 0 < s.rpm
    → Bounded s.rpm l
    → Bounded s.rpm (step s l c)
step-Bounded s l (checks k tokens now) pos h = check-Bounded s l k tokens now pos h
step-Bounded s l (records k tokens now) pos h = record_tokens-Bounded s.rpm l k tokens now h
step-Bounded s l (releases k) pos h = release_rpm_slot-Bounded s.rpm l k h

keeps :
    (s : Limits) (pos : 0 < s.rpm) (cs : List Call) (l : KeyRateLimiter)
    → Bounded s.rpm l
    → Bounded s.rpm (run s l cs)
unfolding run
keeps s pos [] l h = h
keeps s pos (c ∷ cs) l h = keeps s pos cs (step s l c) (step-Bounded s l c pos h)

-- Under a limit on requests, whatever is called in whatever order and at whatever times, no key
-- has more requests on record than the limit.
pub run-Bounded :
    (s : Limits) (cs : List Call) (k : String)
    → 0 < s.rpm
    → length (request_queue (run s (record { requests = []; tokens = [] }) cs) k) ≤ s.rpm
unfolding Bounded lookup
run-Bounded s cs k pos = keeps s pos cs (record { requests = []; tokens = [] }) (λ j. omega arith) k

-- The times of a queue, oldest first, none before `start`.
abbrev pub Ascending : ℕ → List ℕ → Type 0
Ascending start [] = Unit
Ascending start (t ∷ q) = (start ≤ t) × Ascending t q

in_window :
    (now : ℕ) (t : ℕ) (q : List ℕ)
    → Ascending t q
    → is_old now t ≡ false
    → keep (λ u. not (is_old now u)) q ≡ q
in_window now t [] h young = refl
in_window now t (u ∷ q) (le, rest) young =
    let still : is_old now u ≡ false = ground arith in
    rw still (ap (◌∷◌ u) (in_window now u q rest still))

-- On a queue in order of time, dropping from the front leaves just the times in the window.
drop_old-eq-keep :
    (now start : ℕ) (q : List ℕ)
    → Ascending start q
    → drop_old now q ≡ keep (λ t. not (is_old now t)) q
unfolding drop_old
drop_old-eq-keep now start [] h = refl
drop_old-eq-keep now start (t ∷ q) (le, rest) = elim (Bool-cases (is_old now t)) [
  | inl old ↦ rw old (drop_old-eq-keep now t q rest)
  | inr young ↦ rw young (ap (◌∷◌ t) (sym (in_window now t q rest young)))
]

-- Under a limit on requests and none on tokens, and with the requests of the key in order of time,
-- a request passes exactly when fewer than the limit passed within the last minute; the answer
-- says how many are left, and the requests of other keys stay.
pub check_window :
    (s : Limits) (l : KeyRateLimiter) (k other : String) (tokens now : ℕ)
    → 0 < s.rpm
    → s.tpm ≡ 0
    → Ascending 0 (request_queue l k)
    → other ≢ k
    → let used = length (keep (λ t. not (is_old now t)) (request_queue l k)) in
      let (l', allowed, left, tokens_left) = check s l k tokens now in
      (allowed ≡ ltb used s.rpm)
      × (left ≡ some (s.rpm - used))
      × (tokens_left ≡ none)
      × (request_queue l' other ≡ request_queue l other)
unfolding check
check_window s l k other tokens now pos off asc ne =
    let e : request_queue (prune l k now) k ≡ keep (λ t. not (is_old now t)) (request_queue l k) =
      ground (arith, queue-prune l k k now, eq_iff k k)
      ∙ drop_old-eq-keep now 0 (request_queue l k) asc in
    let n = ap (λ (q : List ℕ). length q) e in
    let q' = request_queue (prune l k now) k ++ now ∷ [] in
    (
      ground (arith, n),
      ground (arith, n),
      ground arith,
      ground (
        arith,
        lookup-insert k other q' (prune l k now).requests,
        queue-prune l k other now,
        eq_iff k other,
      ),
    )
