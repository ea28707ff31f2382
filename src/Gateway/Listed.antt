-- ===== src/Gateway/Listed.antt =====
-- The list of models of keyhub/api/v1.py.
use mathlib.Core.Path.{subst}
use key_hub.Common.{
  ◌≡◌, ◌≢◌, refl, sym, ap, ◌∙◌, String, str_eq, eq_iff, Bool, false, Option, none, some, List, [],
  ◌∷◌, ◌++◌, arith, any, if◌then◌else◌, is_some, find, find-append, find-append_other, Bool-cases,
  inl, inr, All,
}
use key_hub.Models.{LlmKey}
use key_hub.Gateway.{ModelEntry, candidates, seen_in, add_models, add_keys, list_models}

abbrev is_entry : String → ModelEntry → Bool
is_entry m e = str_eq e.id m

abbrev pub entry : String → String → ModelEntry
entry m provider = record { id = m; owned_by = provider }

-- The key offers the model.
abbrev pub offers : String → LlmKey → Bool
offers m k = any (λ c. str_eq c m) (candidates k)

abbrev first_of : Option ModelEntry → Option ModelEntry → Option ModelEntry
first_of (some e) o = some e
first_of none o = o

abbrev pub entry_by : String → Option LlmKey → Option ModelEntry
entry_by m none = none
entry_by m (some k) = some (entry m k.provider)

abbrev add_model : String → String → List ModelEntry → List ModelEntry
add_model provider c entries =
    if seen_in entries c then entries else entries ++ entry c provider ∷ []

first_of-none : (o : Option ModelEntry) → first_of o none ≡ o
first_of-none none = refl
first_of-none (some e) = refl

first_of_assoc : (a b c : Option ModelEntry) → first_of (first_of a b) c ≡ first_of a (first_of b c)
first_of_assoc none b c = refl
first_of_assoc (some e) b c = refl

add_same :
    (provider c : String) (entries : List ModelEntry)
    → find (is_entry c) (add_model provider c entries)
      ≡ first_of (find (is_entry c) entries) (some (entry c provider))
add_same provider c entries =
    ground (arith, find-append (is_entry c) entries (entry c provider), eq_iff c c)

add_other :
    (provider c m : String) (entries : List ModelEntry)
    → str_eq c m ≡ false
    → find (is_entry m) (add_model provider c entries) ≡ first_of (find (is_entry m) entries) none
add_other provider c m entries differs = ground (
  arith,
  differs,
  find-append_other (is_entry m) entries (entry c provider) differs,
  first_of-none (find (is_entry m) entries),
)

add_model_lem :
    (provider c m : String) (entries : List ModelEntry)
    → find (is_entry m) (add_model provider c entries)
      ≡ first_of (find (is_entry m) entries) (if str_eq c m then some (entry m provider) else none)
add_model_lem provider c m entries = elim (Bool-cases (str_eq c m)) [
  | inl same ↦
      let e : c ≡ m = (eq_iff c m).0 same in
      subst
        (λ n.
          find (is_entry n) (add_model provider c entries)
          ≡ first_of (find (is_entry n) entries)
              (if str_eq c n then some (entry n provider) else none))
        e (add_same provider c entries ∙ ground (arith, eq_iff c c))
  | inr differs ↦ add_other provider c m entries differs ∙ ground (arith, differs)
]

add_models_lem :
    (provider m : String) (cs : List String) (entries : List ModelEntry)
    → find (is_entry m) (add_models provider cs entries)
      ≡ first_of
          (find (is_entry m) entries)
          (if any (λ c. str_eq c m) cs then some (entry m provider) else none)
unfolding add_models
add_models_lem provider m [] entries = sym (first_of-none (find (is_entry m) entries))
add_models_lem provider m (c ∷ cs) entries =
    let later = if any (λ d. str_eq d m) cs then some (entry m provider) else none in
    let now = if str_eq c m then some (entry m provider) else none in
    add_models_lem provider m cs (add_model provider c entries)
    ∙ ap (λ o. first_of o later) (add_model_lem provider c m entries)
    ∙ first_of_assoc (find (is_entry m) entries) now later
    ∙ ap (first_of (find (is_entry m) entries)) (ground arith)

add_keys_lem :
    (m : String) (ks : List LlmKey) (entries : List ModelEntry)
    → find (is_entry m) (add_keys ks entries)
      ≡ first_of (find (is_entry m) entries) (entry_by m (find (offers m) ks))
unfolding add_keys find
add_keys_lem m [] entries = sym (first_of-none (find (is_entry m) entries))
add_keys_lem m (k ∷ ks) entries =
    add_keys_lem m ks (add_models k.provider (candidates k) entries)
    ∙ ap (λ o. first_of o (entry_by m (find (offers m) ks)))
        (add_models_lem k.provider m (candidates k) entries)
    ∙ first_of_assoc (find (is_entry m) entries)
        (if offers m k then some (entry m k.provider) else none) (entry_by m (find (offers m) ks))
    ∙ ap (first_of (find (is_entry m) entries)) (ground arith)

-- No two entries have the same id.
abbrev pub AreDistinct : List ModelEntry → Type 0
AreDistinct [] = Unit
AreDistinct (e ∷ es) = All (λ (later : ModelEntry). later.id ≢ e.id) es × AreDistinct es

others_differ :
    (x y : ModelEntry) (es : List ModelEntry)
    → All (λ (later : ModelEntry). later.id ≢ x.id) es
    → y.id ≢ x.id
    → All (λ (later : ModelEntry). later.id ≢ x.id) (es ++ y ∷ [])
others_differ x y [] all one = (one, tt)
others_differ x y (e ∷ es) (a, all) one = (a, others_differ x y es all one)

append-AreDistinct :
    (c provider : String) (es : List ModelEntry)
    → AreDistinct es
    → find (is_entry c) es ≡ none
    → AreDistinct (es ++ entry c provider ∷ [])
unfolding find
append-AreDistinct c provider [] distinct new = (tt, tt)
append-AreDistinct c provider (e ∷ es) (differ, distinct) new =
    let other : str_eq e.id c ≡ false = ground (arith, new) in
    let rest : find (is_entry c) es ≡ none = ground (arith, new) in
    (
      others_differ e (entry c provider) es differ
          (λ same. ground (arith, other, same, eq_iff e.id c)),
      append-AreDistinct c provider es distinct rest,
    )

add_model-AreDistinct :
    (provider c : String) (es : List ModelEntry)
    → AreDistinct es
    → AreDistinct (add_model provider c es)
add_model-AreDistinct provider c es distinct =
    elim (find (is_entry c) es)
        as (λ o.
          find (is_entry c) es ≡ o
          → AreDistinct (if is_some o then es else es ++ entry c provider ∷ [])) [
            | none ↦ λ new. append-AreDistinct c provider es distinct new
            | some e ↦ λ old. distinct
          ]
      refl

add_models-AreDistinct :
    (provider : String) (cs : List String) (es : List ModelEntry)
    → AreDistinct es
    → AreDistinct (add_models provider cs es)
unfolding add_models
add_models-AreDistinct provider [] es distinct = distinct
add_models-AreDistinct provider (c ∷ cs) es distinct =
    add_models-AreDistinct provider cs (add_model provider c es)
      (add_model-AreDistinct provider c es distinct)

add_keys-AreDistinct :
    (ks : List LlmKey) (es : List ModelEntry) → AreDistinct es → AreDistinct (add_keys ks es)
unfolding add_keys
add_keys-AreDistinct [] es distinct = distinct
add_keys-AreDistinct (k ∷ ks) es distinct =
    add_keys-AreDistinct ks (add_models k.provider (candidates k) es)
      (add_models-AreDistinct k.provider (candidates k) es distinct)

-- The list of models has no id twice, and for any id its entry, if there is one, is that of the first key
-- that offers the model: by the key's own list, or, where that is empty, by the prices of its provider.
pub list_models-entries :
    (rows : List LlmKey) (m : String)
    → AreDistinct (list_models rows)
      × (find (λ (e : ModelEntry). str_eq e.id m) (list_models rows)
          ≡ entry_by m (find (offers m) rows))
unfolding find
list_models-entries rows m = (add_keys-AreDistinct rows [] tt, add_keys_lem m rows [])
