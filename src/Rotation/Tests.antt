-- ===== src/Rotation/Tests.antt =====
-- Tests and instances for keyhub/rotation.py.
use key_hub.Common.{
  ℕ, ◌+◌, ◌*◌, ◌≡◌, refl, String, true, false, Option, none, some, List, [], ◌∷◌, keep, map,
}
use key_hub.Models.{CredentialType, Credential}
use key_hub.Rotation.{
  day, RotationChecker, days_between, need_remind, reminder_of, collect, check_once, get_reminders,
}
use key_hub.Rotation.Due.{is_due, get_reminders-check_once}

abbrev row : String → Option ℕ → Option ℕ → Option ℕ → Credential
row id expires_at rotation_days last_rotated_at = record {
  id = id;
  name = id;
  type = CredentialType.password;
  encrypted_value = [];
  metadata = [];
  expires_at = expires_at;
  rotation_days = rotation_days;
  last_rotated_at = last_rotated_at;
  deleted = false;
  tags = [];
}

-- At the end of the tenth day: one that runs out in seven days and some, one that runs out in eight,
-- one that is overdue, one that was never rotated, one that is deleted.
abbrev rows : List Credential
rows =
    row "soon" (some (17 * day + 5)) none none
    ∷ row "fine" (some (18 * day)) none none
    ∷ row "overdue" none (some 3) (some (7 * day))
    ∷ row "never" none (some 3) none
    ∷ record (row "gone" (some 0) none none) { deleted = true }
    ∷ []

abbrev checker : RotationChecker
checker = record { reminders = []; last_check = none }

get_reminders-check_once_example :
    let (checker', found) = check_once checker rows 7 (10 * day) in
    (found ≡ map (reminder_of (10 * day)) (keep (is_due 7 (10 * day)) rows))
    × (get_reminders checker' [] 0 (11 * day) ≡ (checker', found))
get_reminders-check_once_example =
    get_reminders-check_once checker rows [] 7 0 (10 * day) (11 * day)

names :
    map (λ r. r.name) (check_once checker rows 7 (10 * day)).1 ≡ "soon" ∷ "overdue" ∷ "never" ∷ []
unfolding check_once collect need_remind days_between
names = refl
