-- ===== src/Notify/Quiet.antt =====
-- What keyhub/notify.py holds back, and how often it tries.
use mathlib.Core.Path.{subst}
use key_hub.Common.{
  none, zero, ltb, suc, ◌<◌, ◌⊎◌, inl, inr, sym, Bool-cases, ℕ, ◌+◌, ◌-◌, ◌≤◌, ◌≡◌, refl, ap, ◌∙◌,
  String, eq_iff, Bool, true, false, Option, some, List, [], ◌∷◌, arith, All,
}
use key_hub.Common.Dict.{Dict, lookup, lookup-insert}
use key_hub.Json.{Value, Fields}
use key_hub.Notify.{
  Notifier, dedup_key, cleanup_dedup, remember, is_duplicate, Channels, channels_of, sent_to,
  notify, is_good, send_from, send_webhook_with_retry,
}

-- A notification: its event, its payload and its time.
abbrev pub Notice : Type 0
Notice = String × (Fields × ℕ)

-- The notifier after notifications.
unfoldable pub notify_all : (Value → String) → Channels → List Notice → Notifier → Notifier
notify_all shown c [] n = n
notify_all shown c ((event, (payload, now)) ∷ ns) n =
    notify_all shown c ns (notify shown c n event payload now).0

lookup-cleanup_dedup :
    (k : String) (t now : ℕ) (d : Dict ℕ)
    → now - t ≤ 300000
    → lookup k d ≡ some t
    → lookup k (cleanup_dedup now d) ≡ some t
unfolding lookup cleanup_dedup
lookup-cleanup_dedup k t now [] young there = cc
lookup-cleanup_dedup k t now ((j, u) ∷ d) young there =
    ground (arith, young, there, lookup-cleanup_dedup k t now d young)

lookup-remember :
    (k j : String) (t now : ℕ) (d : Dict ℕ)
    → lookup k d ≡ some t
    → lookup k (remember j now d).0.dedup_cache ≡ some t
lookup-remember k j t now d there = ground (arith, there, lookup-insert j k now d, eq_iff j k)

sent_to_lem : (c : Channels) (x : Notifier × Bool) → (sent_to c x).0 ≡ x.0
sent_to_lem c (n, true) = refl
sent_to_lem c (n, false) = refl

lookup-notify :
    (shown : Value → String) (c : Channels) (n : Notifier) (event : String) (payload : Fields)
    (now : ℕ) (k : String) (t : ℕ)
    → now - t ≤ 300000
    → lookup k n.dedup_cache ≡ some t
    → lookup k (notify shown c n event payload now).0.dedup_cache ≡ some t
unfolding notify is_duplicate
lookup-notify shown c n event payload now k t young there =
    let key = dedup_key shown event payload in
    let d = cleanup_dedup now n.dedup_cache in
    ap (λ (m : Notifier). lookup k m.dedup_cache) (sent_to_lem c (remember key now d))
    ∙ lookup-remember k key t now d (lookup-cleanup_dedup k t now n.dedup_cache young there)

lookup-notify_all :
    (shown : Value → String) (c : Channels) (ns : List Notice) (n : Notifier) (k : String) (t : ℕ)
    → All (λ (x : Notice). x.1.1 - t ≤ 300000) ns
    → lookup k n.dedup_cache ≡ some t
    → lookup k (notify_all shown c ns n).dedup_cache ≡ some t
unfolding notify_all
lookup-notify_all shown c [] n k t young there = there
lookup-notify_all shown c ((event, (payload, now)) ∷ ns) n k t (y, young) there =
    lookup-notify_all shown c ns (notify shown c n event payload now).0 k t young
      (lookup-notify shown c n event payload now k t y there)

-- What went out is remembered.
remember-sent :
    (c : Channels) (key : String) (now : ℕ) (d : Dict ℕ)
    → (sent_to c (remember key now d)).1 ≡ channels_of c
    → lookup key (sent_to c (remember key now d)).0.dedup_cache ≡ some now
remember-sent c key now d sent = ground (arith, sent, lookup-insert key key now d, eq_iff key key)

lookup-sent :
    (shown : Value → String) (c : Channels) (n : Notifier) (event : String) (payload : Fields)
    (now : ℕ)
    → (notify shown c n event payload now).1 ≡ channels_of c
    → lookup (dedup_key shown event payload) (notify shown c n event payload now).0.dedup_cache
      ≡ some now
unfolding notify is_duplicate
lookup-sent shown c n event payload now sent =
    remember-sent c (dedup_key shown event payload) now (cleanup_dedup now n.dedup_cache) sent

held_back :
    (shown : Value → String) (c : Channels) (n : Notifier) (event : String) (payload : Fields)
    (now t : ℕ)
    → now - t ≤ 300000
    → lookup (dedup_key shown event payload) n.dedup_cache ≡ some t
    → (notify shown c n event payload now).1 ≡ []
unfolding notify is_duplicate
held_back shown c n event payload now t young there =
    ground
      (arith, lookup-cleanup_dedup (dedup_key shown event payload) t now n.dedup_cache young there)

-- After a notification went out, another of the same key that comes no more than 300 seconds later goes
-- nowhere, whatever notifications there were in between, all of them within these 300 seconds.
pub notify-suppressed :
    (shown : Value → String) (c : Channels) (n : Notifier) (event event' : String)
    (payload payload' : Fields) (t t' : ℕ) (between : List Notice)
    → (notify shown c n event payload t).1 ≡ channels_of c
    → dedup_key shown event' payload' ≡ dedup_key shown event payload
    → t' - t ≤ 300000
    → All (λ (x : Notice). x.1.1 - t ≤ 300000) between
    → (notify shown c
        (notify_all shown c between (notify shown c n event payload t).0)
        event'
        payload'
        t').1
      ≡ []
notify-suppressed shown c n event event' payload payload' t t' between sent same soon young =
    let later = notify_all shown c between (notify shown c n event payload t).0 in
    held_back shown c later event' payload' t' t soon (
      ap (λ key. lookup key later.dedup_cache) same
      ∙ lookup-notify_all shown c between (notify shown c n event payload t).0
          (dedup_key shown event payload) t young (lookup-sent shown c n event payload t sent))

-- The webhook took the post: it answered with a status below 400.
abbrev pub IsTaken : Option ℕ → Type 0
IsTaken answer = (status : ℕ) × (answer ≡ some status) × (status < 400)

-- It took none of the first `n` posts.
abbrev pub AreMissed : (ℕ → Option ℕ) → ℕ → Type 0
AreMissed answers zero = Unit
AreMissed answers (suc n) = (IsTaken (answers n) → ⊥) × AreMissed answers n

abbrev pub Stops : (ℕ → Option ℕ) → ℕ × ℕ → Type 0
Stops answers (posts, slept) =
    (posts ≤ 3)
    × (slept + 1 ≡ posts)
    × AreMissed answers (posts - 1)
    × ((posts ≡ 3) ⊎ IsTaken (answers (posts - 1)))

is_good-cases :
    (o : Option ℕ) → ((is_good o ≡ true) × IsTaken o) ⊎ ((is_good o ≡ false) × (IsTaken o → ⊥))
is_good-cases none = inr (refl, λ (status, e, low). ground (arith, e))
is_good-cases (some status) = elim (Bool-cases (ltb status 400)) [
  | inl low ↦ inl (low, (status, refl, ground (arith, low)))
  | inr high ↦ inr (high, λ (other, e, low). ground (arith, high, e, low))
]

one_post :
    (answers : ℕ → Option ℕ) → is_good (answers 0) ≡ true → send_webhook_with_retry answers ≡ (1, 0)
unfolding send_from
one_post answers good = ground (arith, good)

two_posts :
    (answers : ℕ → Option ℕ)
    → is_good (answers 0) ≡ false
    → is_good (answers 1) ≡ true
    → send_webhook_with_retry answers ≡ (2, 1)
unfolding send_from
two_posts answers bad good = ground (arith, bad, good)

three_posts :
    (answers : ℕ → Option ℕ)
    → is_good (answers 0) ≡ false
    → is_good (answers 1) ≡ false
    → send_webhook_with_retry answers ≡ (3, 2)
unfolding send_from
three_posts answers bad worse = ground (arith, bad, worse)

-- Whatever answers or exceptions the webhook meets, `_send_webhook_with_retry` ends after at most three
-- posts, with one second of sleep between any two; each post but the last got an exception or a status
-- from 400 on, and the last one is the third or got a status below 400.
pub send_webhook_with_retry-Stops :
    (answers : ℕ → Option ℕ) → Stops answers (send_webhook_with_retry answers)
send_webhook_with_retry-Stops answers = elim (is_good-cases (answers 0)) [
  | inl (good, taken) ↦
      subst (Stops answers) (sym (one_post answers good)) (omega arith, refl, tt, inr taken)
  | inr (bad, missed) ↦ elim (is_good-cases (answers 1)) [
    | inl (good, taken) ↦
        subst (Stops answers) (sym (two_posts answers bad good))
          (omega arith, refl, (missed, tt), inr taken)
    | inr (worse, again) ↦
        subst (Stops answers) (sym (three_posts answers bad worse))
          (omega arith, refl, (again, (missed, tt)), inl refl)
  ]
]
