-- ===== src/Auth/Scopes.antt =====
-- `_scope_matches` of keyhub/auth.py. A scope is the list of its characters' numbers.
use key_hub.Common.{ℕ, Bool, true, false, ◌&&◌, ◌||◌, List, [], ◌∷◌, ◌==◌, if◌then◌else◌}

abbrev pub Text : Type 0
Text = List ℕ

unfoldable pub same_text : Text → Text → Bool
same_text [] [] = true
same_text [] (d ∷ t) = false
same_text (c ∷ s) [] = false
same_text (c ∷ s) (d ∷ t) = (c == d) && same_text s t

-- `required.startswith(prefix)`
unfoldable pub starts_with : Text → Text → Bool
starts_with required [] = true
starts_with [] (d ∷ prefix) = false
starts_with (c ∷ required) (d ∷ prefix) = (c == d) && starts_with required prefix

-- `g[:-1]`
unfoldable pub drop_last : Text → Text
drop_last [] = []
drop_last (c ∷ []) = []
drop_last (c ∷ d ∷ s) = c ∷ drop_last (d ∷ s)

-- `g.endswith(":*")`
unfoldable pub ends_in_star : Text → Bool
ends_in_star [] = false
ends_in_star (c ∷ s) = same_text (c ∷ s) (58 ∷ 42 ∷ []) || ends_in_star s

-- The loop's body for one granted scope.
unfoldable pub covers : Text → Text → Bool
covers required g =
    same_text g (42 ∷ [])
    || same_text g required
    || ends_in_star g && starts_with required (drop_last g)

-- `_scope_matches`
unfoldable pub scope_matches : Text → List Text → Bool
scope_matches required [] = false
scope_matches required (g ∷ granted) =
    if covers required g then true else scope_matches required granted
