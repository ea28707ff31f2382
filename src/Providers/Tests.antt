-- ===== src/Providers/Tests.antt =====
-- Tests and instances for keyhub/llm/providers.py, with rounding half up.
use key_hub.Common.{ℕ, ◌+◌, ◌*◌, ◌/◌, ◌≤◌, ◌≡◌, refl, none, arith, append, starts_with}
use key_hub.Common.Dict.{lookup}
use key_hub.Providers.{Rounding, price_of, estimate_cost, get_provider}
use key_hub.Providers.Prices.{estimate_cost-shadowed}

from_below : (x : ℕ) → (x + 500000) / 1000000 * 1000000 ≤ x + 500000
from_below x = omega arith

from_above : (x : ℕ) → x ≤ (x + 500000) / 1000000 * 1000000 + 500000
from_above x = omega arith

abbrev half_up : Rounding
half_up = record {
  nearest = λ x. (x + 500000) / 1000000;
  from_below = from_below;
  from_above = from_above;
}

estimate_cost-shadowed_example :
    (estimate_cost half_up "openai" (append "gpt-4o-mini" "-2024") 100 10
      ≡ half_up.nearest (100 * 2500000 + 10 * 10000000))
    × (estimate_cost half_up "glm" (append "glm-4-plus" "-2024") 100 10
        ≡ half_up.nearest (100 * 500000 + 10 * 500000))
    × (estimate_cost half_up "glm" (append "glm-4-flash" "-2024") 100 10
        ≡ half_up.nearest (100 * 500000 + 10 * 500000))
estimate_cost-shadowed_example = estimate_cost-shadowed half_up "-2024" 100 10

costs : estimate_cost half_up "deepseek" "deepseek-chat" 1001 7 ≡ 142
unfolding estimate_cost price_of starts_with lookup
costs = refl

unknown : get_provider "nobody" ≡ none
unfolding get_provider lookup
unknown = refl
