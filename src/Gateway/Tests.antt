-- ===== src/Gateway/Tests.antt =====
-- Tests and instances for keyhub/api/v1.py.
use key_hub.Common.{◌≡◌, refl, str_eq, some, List, [], ◌∷◌, find, starts_with}
use key_hub.Common.Dict.{lookup}
use key_hub.Models.{LlmKey}
use key_hub.Json.{text, Fields, end, field}
use key_hub.Balancer.Slots.{slots}
use key_hub.Proxy.Toy.{env, key, new, try}
use key_hub.Gateway.{ModelEntry, first_prefix, infer_provider, add_models, add_keys, list_models}
use key_hub.Gateway.Embed.{embeddings}
use key_hub.Gateway.Slots.{embeddings-SameSlots}
use key_hub.Gateway.Listed.{AreDistinct, entry, list_models-entries}

-- The order of the prefixes and the provider of last resort.
inferred : (infer_provider "claude-3-opus" ≡ "anthropic") × (infer_provider "o1" ≡ "openai")
unfolding first_prefix starts_with
inferred = (refl, refl)

abbrev body : Fields
body = field "model" (text "deepseek-chat") (field "input" (text "hello") end)

embeddings-SameSlots_example :
    slots (embeddings env body new try "token" 5).0.balancer "k" ≡ slots new.balancer "k"
embeddings-SameSlots_example = embeddings-SameSlots env body new try "token" 5 "k"

-- A key for one model and one for all models of its provider.
abbrev rows : List LlmKey
rows = record key { allowed_models = "deepseek-chat" ∷ [] } ∷ record key { provider = "glm" } ∷ []

abbrev listed : List ModelEntry
listed =
    entry "deepseek-chat" "deepseek"
    ∷ entry "glm-4" "glm"
    ∷ entry "glm-4-plus" "glm"
    ∷ entry "glm-4-flash" "glm"
    ∷ []

lists : list_models rows ≡ listed
unfolding add_models add_keys lookup find
lists = refl

list_models-entries_example :
    AreDistinct (list_models rows)
    × (find (λ (e : ModelEntry). str_eq e.id "glm-4-plus") (list_models rows)
        ≡ some (entry "glm-4-plus" "glm"))
unfolding lookup find
list_models-entries_example = list_models-entries rows "glm-4-plus"
