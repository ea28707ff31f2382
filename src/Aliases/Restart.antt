-- ===== src/Aliases/Restart.antt =====
-- The aliases of keyhub/llm/aliases.py outlive the process.
use key_hub.Common.{
  ◌≡◌, refl, inl, inr, String, str_eq, eq_iff, Bool, true, false, none, some, [], arith,
  if◌then◌else◌, Option-cases,
}
use key_hub.Common.Dict.{Dict, lookup, insert, erase, contains, lookup-insert, lookup-erase}
use key_hub.Aliases.{
  Target, JsonLib, ModelAliasManager, split_slash, load, load_row, save, resolve_in, resolve,
  add_alias, remove_alias, list_aliases,
}

-- The manager of a process that starts on the same database.
abbrev pub restarted : ModelAliasManager → ModelAliasManager
restarted m = record { aliases = []; loaded = false; row = m.row }

module _ (lib : JsonLib) where
  -- What the table is after it was saved, in this process and in the next one.
  load-saved :
      (d : Dict Target) (known : Bool)
      → (load lib true (record { aliases = d; loaded = known; row = some (lib.dumps d) })).aliases
        ≡ d
  unfolding load load_row
  load-saved d true = refl
  load-saved d false = ground (arith, lib.loads-dumps d)

  load-started :
      (d : Dict Target)
      → (load lib true (record { aliases = []; loaded = false; row = some (lib.dumps d) })).aliases
        ≡ d
  unfolding load load_row
  load-started d = ground (arith, lib.loads-dumps d)

  load-row : (m : ModelAliasManager) → (load lib true m).row ≡ m.row
  unfolding load load_row
  load-row m = elim (Option-cases m.row) [
    | inl e ↦ ground (arith, e)
    | inr (value, e) ↦ ground (arith, e, lib.loads value)
  ]

  -- While the database answers, an alias that was added resolves to its target for every provider,
  -- with or without a provider in front, in this process and in the next one; every other name
  -- resolves as it did before.
  pub resolve-add_alias :
      (m : ModelAliasManager) (alias_name to_provider to_model provider model : String)
      → let added = (add_alias lib true m alias_name to_provider to_model).0 in
        let name : String = elim (split_slash model) [ none ↦ model | some (p, rest) ↦ rest ] in
        ((resolve lib true added provider model).1 ≡ (
          if str_eq alias_name name
          then (to_provider, to_model)
          else (resolve lib true m provider model).1))
        × ((resolve lib true (restarted added) provider model).1
            ≡ (resolve lib true added provider model).1)
  unfolding resolve resolve_in add_alias save
  resolve-add_alias m alias_name to_provider to_model provider model =
      let before = load lib true m in
      let d = insert alias_name (to_provider, to_model) before.aliases in
      let here = load-saved d before.loaded in
      let there = load-started d in
      elim (Option-cases (split_slash model)) [
        | inl plain ↦ ground (
          arith,
          plain,
          here,
          there,
          eq_iff alias_name model,
          lookup-insert alias_name model (to_provider, to_model) before.aliases,
        )
        | inr ((p, rest), slash) ↦ ground (
          arith,
          slash,
          here,
          there,
          eq_iff alias_name rest,
          lookup-insert alias_name rest (to_provider, to_model) before.aliases,
        )
      ]

  -- While the database answers, and where the row and the table in memory agree, `remove_alias`
  -- says whether the alias was there, and a process that starts afterwards has all the aliases that
  -- there were but this one.
  pub list_aliases-remove_alias :
      (m : ModelAliasManager) (alias_name other : String)
      → (list_aliases lib true (restarted m)).1 ≡ (list_aliases lib true m).1
      → let known = (list_aliases lib true m).1 in
        let (removed, answer) = remove_alias lib true m alias_name in
        (answer ≡ some (contains alias_name known))
        × (lookup other (list_aliases lib true (restarted removed)).1
            ≡ (if str_eq alias_name other then none else lookup other known))
  unfolding list_aliases remove_alias save
  list_aliases-remove_alias m alias_name other agree =
      let before = load lib true m in
      let d = erase alias_name before.aliases in
      ground (
        arith,
        load-started d,
        eq_iff alias_name other,
        lookup-erase alias_name other before.aliases,
        agree,
        load-row m,
      )
