-- ===== src/Aliases/Tests.antt =====
-- Tests and instances for keyhub/llm/aliases.py.
use key_hub.Common.{◌≡◌, refl, true, false, none, []}
use key_hub.Common.Dict.{lookup, insert, erase}
use key_hub.Aliases.{
  ModelAliasManager, split_slash, load, load_row, save, resolve_in, resolve, add_alias,
  remove_alias, list_aliases,
}
use key_hub.Aliases.Toy.{toy_json}
use key_hub.Aliases.Restart.{restarted}

abbrev empty : ModelAliasManager
empty = record { aliases = []; loaded = false; row = none }

program : Unit {0}
unfolding split_slash load load_row save resolve_in resolve add_alias remove_alias list_aliases
    lookup insert erase
program = tt

-- The row that the first call writes.
abbrev one : ModelAliasManager
one = (add_alias toy_json true empty "fast" "openai" "gpt").0

agree : (list_aliases toy_json true (restarted one)).1 ≡ (list_aliases toy_json true one).1
unfolding program
agree = refl

resolves :
    ((resolve toy_json true one "anthropic" "fast").1 ≡ ("openai", "gpt"))
    × ((resolve toy_json true one "anthropic" "mistral/large").1 ≡ ("mistral", "large"))
    × ((resolve toy_json true one "anthropic" "claude").1 ≡ ("anthropic", "claude"))
unfolding program
resolves = (refl, refl, refl)
