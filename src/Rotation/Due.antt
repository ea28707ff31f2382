-- ===== src/Rotation/Due.antt =====
-- The reminders of keyhub/rotation.py, described by moments of time.
use key_hub.Common.{
  ℕ, zero, suc, ◌+◌, ◌*◌, ◌≡◌, refl, ap, ◌∙◌, Bool, true, false, not, ◌&&◌, ◌||◌, Option, none,
  some, List, [], ◌∷◌, arith, ltb, leb, if◌then◌else◌, keep, map,
}
use key_hub.Models.{Credential}
use key_hub.Rotation.{
  day, days_between, RotationChecker, expires, overdue, never_rotated, need_remind, reminder_of,
  collect, check_once, get_reminders,
}

-- The moment is less than `warn_days` and one more days away, or past.
abbrev pub runs_out : ℕ → ℕ → Option ℕ → Bool
runs_out warn_days now none = false
runs_out warn_days now (some e) = ltb e (now + (warn_days + 1) * day)

-- A period is set, and its end has come since the last rotation, or there was none.
abbrev pub is_over : ℕ → Option ℕ → Option ℕ → Bool
is_over now none last = false
is_over now (some zero) last = false
is_over now (some (suc n)) none = true
is_over now (some (suc n)) (some r) = leb (r + suc n * day) now

abbrev pub is_due : ℕ → ℕ → Credential → Bool
is_due warn_days now c =
    not c.deleted
    && (runs_out warn_days now c.expires_at || is_over now c.rotation_days c.last_rotated_at)

expires-eq-runs_out :
    (warn_days now : ℕ) (e : Option ℕ)
    → expires warn_days (elim e [ none ↦ none | some e ↦ some (days_between e now) ])
      ≡ runs_out warn_days now e
unfolding days_between
expires-eq-runs_out warn_days now none = refl
expires-eq-runs_out warn_days now (some e) = ground arith

overdue-eq-is_over :
    (now : ℕ) (period last : Option ℕ)
    → (overdue period (elim last [ none ↦ none | some r ↦ some (days_between now r) ])
        || never_rotated period last)
      ≡ is_over now period last
unfolding days_between
overdue-eq-is_over now none none = refl
overdue-eq-is_over now none (some r) = refl
overdue-eq-is_over now (some zero) none = refl
overdue-eq-is_over now (some zero) (some r) = ground arith
overdue-eq-is_over now (some (suc n)) none = refl
overdue-eq-is_over now (some (suc n)) (some r) = ground arith

need_remind-eq-is_due :
    (warn_days now : ℕ) (c : Credential)
    → (not c.deleted && need_remind warn_days now c) ≡ is_due warn_days now c
unfolding need_remind
need_remind-eq-is_due warn_days now c = ground (
  arith,
  expires-eq-runs_out warn_days now c.expires_at,
  overdue-eq-is_over now c.rotation_days c.last_rotated_at,
)

collect-if :
    (warn_days now : ℕ) (c : Credential) (alive due : Bool) (cs kept : List Credential)
    → (alive && need_remind warn_days now c) ≡ due
    → collect warn_days now cs ≡ map (reminder_of now) kept
    → collect warn_days now (if alive then c ∷ cs else cs)
      ≡ map (reminder_of now) (if due then c ∷ kept else kept)
unfolding collect
collect-if warn_days now c true true cs kept e rest =
    ap (λ b. if b then reminder_of now c ∷ collect warn_days now cs else collect warn_days now cs) e
    ∙ ap (λ rs. reminder_of now c ∷ rs) rest
collect-if warn_days now c true false cs kept e rest =
    ap (λ b. if b then reminder_of now c ∷ collect warn_days now cs else collect warn_days now cs) e
    ∙ rest
collect-if warn_days now c false true cs kept e rest = cc
collect-if warn_days now c false false cs kept e rest = rest

collect-keep :
    (warn_days now : ℕ) (cs : List Credential)
    → collect warn_days now (keep (λ c. not c.deleted) cs)
      ≡ map (reminder_of now) (keep (is_due warn_days now) cs)
unfolding collect
collect-keep warn_days now [] = refl
collect-keep warn_days now (c ∷ cs) =
    collect-if warn_days now c (not c.deleted) (is_due warn_days now c)
      (keep (λ c. not c.deleted) cs) (keep (is_due warn_days now) cs)
      (need_remind-eq-is_due warn_days now c) (collect-keep warn_days now cs)

-- A check names, in their order, just the credentials that are not deleted and that run out before the
-- days of warning and one more are over, or whose rotation period has ended since the last rotation, or
-- that have a period and were never rotated; and until the next check these are the reminders.
pub get_reminders-check_once :
    (checker : RotationChecker) (cs later_cs : List Credential)
    (warn_days later_warn_days now later : ℕ)
    → let (checker', found) = check_once checker cs warn_days now in
      (found ≡ map (reminder_of now) (keep (is_due warn_days now) cs))
      × (get_reminders checker' later_cs later_warn_days later ≡ (checker', found))
unfolding check_once get_reminders
get_reminders-check_once checker cs later_cs warn_days later_warn_days now later =
    (collect-keep warn_days now cs, refl)
