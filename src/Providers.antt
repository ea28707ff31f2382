-- ===== src/Providers.antt =====
-- keyhub/llm/providers.py: the providers and their prices. A price is in millionths of a dollar for
-- a million tokens, so that a cost comes out in 10^-12 dollars before it is rounded.
mod Prices
mod Tests
use Prim.Native.Char.{code}
use key_hub.Common.{
  ℕ, ◌+◌, ◌*◌, ◌≤◌, String, Bool, true, false, ◌&&◌, Option, none, some, List, [], ◌∷◌, ◌==◌,
  if◌then◌else◌, starts_with,
}
use key_hub.Common.Dict.{Dict, lookup}

-- `ProviderConfig`; `body_key_field` is never read.
pub record ProviderConfig : Type 0 where
  pub name : String
  pub base_url : String
  pub header_name : String
  pub header_prefix : String
  pub chat_path : String
  pub openai_compatible : Bool

abbrev pub compatible : String → String → ProviderConfig
compatible name base_url = record {
  name = name;
  base_url = base_url;
  header_name = "Authorization";
  header_prefix = "Bearer ";
  chat_path = "/v1/chat/completions";
  openai_compatible = true;
}

abbrev pub anthropic : ProviderConfig
anthropic = record {
  name = "anthropic";
  base_url = "https://api.anthropic.com";
  header_name = "x-api-key";
  header_prefix = "";
  chat_path = "/v1/messages";
  openai_compatible = false;
}

-- `PROVIDERS`
abbrev pub providers : Dict ProviderConfig
providers =
    ("openai", compatible "openai" "https://api.openai.com")
    ∷ ("anthropic", anthropic)
    ∷ ("deepseek", compatible "deepseek" "https://api.deepseek.com")
    ∷ ("qwen", compatible "qwen" "https://dashscope.aliyuncs.com/compatible-mode")
    ∷ ("glm", compatible "glm" "https://open.bigmodel.cn/api/paas")
    ∷ ("moonshot", compatible "moonshot" "https://api.moonshot.cn")
    ∷ ("custom", compatible "custom" "")
    ∷ []

-- The prices of the tokens in and out.
pub record Price : Type 0 where
  pub input : ℕ
  pub output : ℕ

abbrev pub price : ℕ → ℕ → Price
price i o = record { input = i; output = o }

-- `PRICING`
abbrev pub pricing : Dict (Dict Price)
pricing =
    (
      "openai",
      ("gpt-4o", price 2500000 10000000)
          ∷ ("gpt-4o-mini", price 150000 600000)
          ∷ ("gpt-4-turbo", price 10000000 30000000)
          ∷ ("gpt-3.5", price 500000 1500000)
          ∷ ("o1", price 15000000 60000000)
          ∷ ("o3-mini", price 1100000 4400000)
          ∷ [],
    )
    ∷ (
      "anthropic",
      ("claude-3-5-sonnet", price 3000000 15000000)
          ∷ ("claude-3-5-haiku", price 800000 4000000)
          ∷ ("claude-3-opus", price 15000000 75000000)
          ∷ ("claude-3-sonnet", price 3000000 15000000)
          ∷ ("claude-3-haiku", price 250000 1250000)
          ∷ [],
    )
    ∷ (
      "deepseek",
      ("deepseek-chat", price 140000 280000) ∷ ("deepseek-reasoner", price 550000 2190000) ∷ [],
    )
    ∷ (
      "qwen",
      ("qwen-max", price 2880000 8640000)
          ∷ ("qwen-plus", price 400000 1200000)
          ∷ ("qwen-turbo", price 50000 200000)
          ∷ [],
    )
    ∷ (
      "glm",
      ("glm-4", price 500000 500000)
          ∷ ("glm-4-plus", price 7140000 7140000)
          ∷ ("glm-4-flash", price 0 0)
          ∷ [],
    )
    ∷ (
      "moonshot",
      ("moonshot-v1-8k", price 1680000 1680000)
          ∷ ("moonshot-v1-32k", price 3360000 3360000)
          ∷ ("moonshot-v1-128k", price 8400000 8400000)
          ∷ [],
    )
    ∷ []

-- The loop over a provider's prices: the first prefix that fits.
unfoldable pub price_of : Dict Price → String → Option Price
price_of [] model = none
price_of ((prefix, p) ∷ table) model =
    if starts_with model prefix then some p else price_of table model

abbrev pub table_of : String → Dict Price
table_of provider = elim (lookup provider pricing) [ none ↦ [] | some table ↦ table ]

-- `round(..., 6)`, from 10^-12 dollars to millionths: the nearest value. Which one it takes half way
-- between two is a matter of the floating point numbers, and left open.
pub record Rounding : Type 0 where
  pub nearest : ℕ → ℕ
  pub from_below : (x : ℕ) → nearest x * 1000000 ≤ x + 500000
  pub from_above : (x : ℕ) → x ≤ nearest x * 1000000 + 500000

-- `estimate_cost`
unfoldable pub estimate_cost : Rounding → String → String → ℕ → ℕ → ℕ
estimate_cost r provider model prompt_tokens completion_tokens =
    elim (price_of (table_of provider) model) [
      | none ↦ 0
      | some p ↦ r.nearest (prompt_tokens * p.input + completion_tokens * p.output)
    ]

-- `get_provider`; `none` is the `ValueError` of an unknown name.
unfoldable pub get_provider : String → Option ProviderConfig
get_provider name = lookup name providers
