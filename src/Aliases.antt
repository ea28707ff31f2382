-- ===== src/Aliases.antt =====
-- keyhub/llm/aliases.py: the table of model aliases, in memory and in its row of the key-value
-- table. JSON is a parameter. A call says whether the database answers it; where it does not,
-- `session_scope` raises.
mod Restart
pub mod Toy
mod Tests
use Prim.Native.Char.{code}
use key_hub.Common.{
  ℕ, ◌≡◌, String, Bool, true, false, Option, none, some, List, [], ◌==◌, if◌then◌else◌, is_some,
}
use key_hub.Common.Dict.{Dict, lookup, insert, erase, contains}

-- A provider and a model.
abbrev pub Target : Type 0
Target = String × String

-- What reading the row's text comes to: the table, one of the errors that the inner `except`
-- catches, or another exception (a text that is JSON of some other kind).
pub data Parsed : Type 0 where
  table : Dict Target → Parsed
  bad_json other_json : Parsed

pub record JsonLib : Type 0 where
  pub dumps : Dict Target → String
  pub loads : String → Parsed
  pub loads-dumps : (d : Dict Target) → loads (dumps d) ≡ table d

-- The manager, and the value of its row in the database.
pub record ModelAliasManager : Type 0 where
  pub aliases : Dict Target
  pub loaded : Bool
  pub row : Option String

-- `model.split("/", 1)`, if there is a slash.
unfoldable pub split_slash : String → Option (String × String)
split_slash String.[] = none
split_slash (String.◌∷◌ c s) =
    let rest = split_slash s in
    if code c == 47
    then some (String.[], s)
    else elim rest [ none ↦ none | some (before, after) ↦ some (String.◌∷◌ c before, after) ]

abbrev pub or_given : Option Target → Target → Target
or_given none given = given
or_given (some t) given = t

module _ (lib : JsonLib) where
  unfoldable pub load_row : ModelAliasManager → String → ModelAliasManager
  load_row m value = elim (lib.loads value) [
    | table d ↦ record m { aliases = d; loaded = true }
    | bad_json ↦ record m { aliases = []; loaded = true }
    | other_json ↦ record m { aliases = [] }
  ]

  -- `_load`
  unfoldable pub load : Bool → ModelAliasManager → ModelAliasManager
  load answers m =
      if m.loaded
      then m
      else (if answers
          then elim m.row [
            | none ↦ record m { aliases = []; loaded = true }
            | some value ↦ load_row m value
          ]
          else record m { aliases = [] })

  -- `_save`
  unfoldable pub save {ℓ} :
      {A : Type ℓ} → Bool → ModelAliasManager → A → ModelAliasManager × Option A
  save answers m result =
      if answers then (record m { row = some (lib.dumps m.aliases) }, some result) else (m, none)

  -- What `resolve` looks up in the loaded table.
  unfoldable pub resolve_in : Dict Target → String → String → Target
  resolve_in aliases provider model = elim (split_slash model) [
    | some (alias_provider, alias_model) ↦
        or_given (lookup alias_model aliases) (alias_provider, alias_model)
    | none ↦ or_given (lookup model aliases) (provider, model)
  ]

  -- `resolve`
  unfoldable pub resolve : Bool → ModelAliasManager → String → String → ModelAliasManager × Target
  resolve answers m provider model =
      let m' = load answers m in (m', resolve_in m'.aliases provider model)

  -- `add_alias`; `none` where `_save` raises.
  unfoldable pub add_alias :
      Bool → ModelAliasManager → String → String → String → ModelAliasManager × Option (Unit {0})
  add_alias answers m alias_name provider model =
      let m' = load answers m in
      save answers (record m' { aliases = insert alias_name (provider, model) m'.aliases }) tt

  -- `remove_alias`
  unfoldable pub remove_alias : Bool → ModelAliasManager → String → ModelAliasManager × Option Bool
  remove_alias answers m alias_name =
      let m' = load answers m in
      if contains alias_name m'.aliases
      then save answers (record m' { aliases = erase alias_name m'.aliases }) true
      else (m', some false)

  -- `list_aliases`
  unfoldable pub list_aliases : Bool → ModelAliasManager → ModelAliasManager × Dict Target
  list_aliases answers m = let m' = load answers m in (m', m'.aliases)
