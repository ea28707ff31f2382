-- ===== src/Rotation.antt =====
-- keyhub/rotation.py: which credentials a reminder names. Times are milliseconds; the rotation period of
-- 0 days stands for every one that is not set, and negative periods are left out. The thread that calls `check_once` is left out.
mod Due
mod Tests
use key_hub.Common.{
  ℕ, zero, suc, ◌+◌, ◌-◌, ◌*◌, ◌/◌, String, Bool, true, false, not, ◌&&◌, ◌||◌, Option, none, some,
  List, [], ◌∷◌, ltb, leb, if◌then◌else◌, keep, map,
}
use key_hub.Models.{CredentialType, Credential}

abbrev pub day : ℕ
day = 86400000

-- The days of a difference of times, rounded down: so many, or that many below nothing, at least one.
pub data Days : Type 0 where
  ahead : ℕ → Days
  behind : ℕ → Days

-- `(later - earlier).days`
unfoldable pub days_between : ℕ → ℕ → Days
days_between later earlier =
    if leb earlier later
    then ahead ((later - earlier) / day)
    else behind ((earlier - later + (day - 1)) / day)

pub record RotationReminder : Type 0 where
  pub credential_id : String
  pub name : String
  pub type : CredentialType
  pub expires_at : Option ℕ
  pub last_rotated_at : Option ℕ
  pub days_until_expire : Option Days
  pub days_since_rotation : Option Days

-- `_reminders` and `_last_check`
pub record RotationChecker : Type 0 where
  pub reminders : List RotationReminder
  pub last_check : Option ℕ

abbrev pub days_until : ℕ → Credential → Option Days
days_until now c = elim c.expires_at [ none ↦ none | some e ↦ some (days_between e now) ]

abbrev pub days_since : ℕ → Credential → Option Days
days_since now c = elim c.last_rotated_at [ none ↦ none | some r ↦ some (days_between now r) ]

abbrev pub is_set : Option ℕ → Bool
is_set none = false
is_set (some zero) = false
is_set (some (suc n)) = true

-- 1) and 2), soon or already out of date.
abbrev pub expires : ℕ → Option Days → Bool
expires warn_days none = false
expires warn_days (some (ahead n)) = leb n warn_days
expires warn_days (some (behind n)) = true

-- 3), the period is over.
abbrev pub overdue : Option ℕ → Option Days → Bool
overdue (some period) (some (ahead n)) = ltb 0 period && leb period n
overdue _ _ = false

-- 4), never rotated.
abbrev pub never_rotated : Option ℕ → Option ℕ → Bool
never_rotated period none = is_set period
never_rotated period (some r) = false

-- `need_remind`
unfoldable pub need_remind : ℕ → ℕ → Credential → Bool
need_remind warn_days now c =
    (expires warn_days (days_until now c) || overdue c.rotation_days (days_since now c))
    || never_rotated c.rotation_days c.last_rotated_at

abbrev pub reminder_of : ℕ → Credential → RotationReminder
reminder_of now c = record {
  credential_id = c.id;
  name = c.name;
  type = c.type;
  expires_at = c.expires_at;
  last_rotated_at = c.last_rotated_at;
  days_until_expire = days_until now c;
  days_since_rotation = days_since now c;
}

-- The loop over the rows that are not deleted.
unfoldable pub collect : ℕ → ℕ → List Credential → List RotationReminder
collect warn_days now [] = []
collect warn_days now (c ∷ cs) =
    let rest = collect warn_days now cs in
    if need_remind warn_days now c then reminder_of now c ∷ rest else rest

-- `check_once`
unfoldable pub check_once :
    RotationChecker → List Credential → ℕ → ℕ → RotationChecker × List RotationReminder
check_once checker credentials warn_days now =
    let found = collect warn_days now (keep (λ c. not c.deleted) credentials) in
    (record { reminders = found; last_check = some now }, found)

-- `get_reminders`
unfoldable pub get_reminders :
    RotationChecker → List Credential → ℕ → ℕ → RotationChecker × List RotationReminder
get_reminders checker credentials warn_days now = elim checker.last_check [
  | none ↦ check_once checker credentials warn_days now
  | some t ↦ (checker, checker.reminders)
]
