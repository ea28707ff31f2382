-- ===== src/Providers/Prices.antt =====
-- What keyhub/llm/providers.py charges.
use key_hub.Common.{
  ℕ, ◌+◌, ◌*◌, ◌≤◌, ◌≡◌, refl, String, none, some, arith, Option-cases, inl, inr, append,
  starts_with,
}
use key_hub.Common.Dict.{lookup}
use key_hub.Providers.{price_of, table_of, Rounding, estimate_cost}

-- A longer prefix behind a shorter one in the table is never reached: a model whose name starts with
-- "gpt-4o-mini" is charged as a "gpt-4o", and one that starts with "glm-4-plus" or "glm-4-flash" as
-- a "glm-4".
pub estimate_cost-shadowed :
    (r : Rounding) (rest : String) (prompt_tokens completion_tokens : ℕ)
    → (estimate_cost r "openai" (append "gpt-4o-mini" rest) prompt_tokens completion_tokens
        ≡ r.nearest (prompt_tokens * 2500000 + completion_tokens * 10000000))
      × (estimate_cost r "glm" (append "glm-4-plus" rest) prompt_tokens completion_tokens
          ≡ r.nearest (prompt_tokens * 500000 + completion_tokens * 500000))
      × (estimate_cost r "glm" (append "glm-4-flash" rest) prompt_tokens completion_tokens
          ≡ r.nearest (prompt_tokens * 500000 + completion_tokens * 500000))
unfolding estimate_cost price_of starts_with lookup
estimate_cost-shadowed r rest p c = (refl, refl, refl)

-- The cost of a call is the price of its tokens, to half a millionth of a dollar, and a model with
-- no price costs nothing.
pub estimate_cost_bounds :
    (r : Rounding) (provider model : String) (prompt_tokens completion_tokens : ℕ)
    → let exact : ℕ = elim (price_of (table_of provider) model) [
      | none ↦ 0
      | some p ↦ prompt_tokens * p.input + completion_tokens * p.output
    ] in
      (estimate_cost r provider model prompt_tokens completion_tokens * 1000000 ≤ exact + 500000)
      × (exact ≤ estimate_cost r provider model prompt_tokens completion_tokens * 1000000 + 500000)
unfolding estimate_cost
estimate_cost_bounds r provider model i o =
    elim (Option-cases (price_of (table_of provider) model)) [
      | inl none_found ↦ ground (arith, none_found)
      | inr (p, found) ↦
          let exact = i * p.input + o * p.output in
          ground (arith, found, r.from_below exact, r.from_above exact)
    ]
