-- ===== src/Aliases/Toy.antt =====
-- A concrete `JsonLib` for keyhub/llm/aliases.py: every character of a text stands behind an "a",
-- and a "b" ends the text.
use Prim.Native.Char.{Char, code}
use key_hub.Common.{◌≡◌, refl, ap, ◌∙◌, String, List, [], ◌∷◌, ◌==◌, if◌then◌else◌}
use key_hub.Common.Dict.{Dict}
use key_hub.Aliases.{Target, JsonLib, table}

abbrev text : String → String → String
text String.[] more = String.◌∷◌ "b" more
text (String.◌∷◌ c t) more = String.◌∷◌ "a" (String.◌∷◌ c (text t more))

abbrev dumps : Dict Target → String
dumps [] = String.[]
dumps ((k, (p, m)) ∷ d) = text k (text p (text m (dumps d)))

abbrev before : Char → List String → List String
before c [] = []
before c (t ∷ ts) = String.◌∷◌ c t ∷ ts

abbrev texts : String → List String
texts String.[] = []
texts (String.◌∷◌ c String.[]) = String.[] ∷ []
texts (String.◌∷◌ c (String.◌∷◌ e s)) =
    let next = texts (String.◌∷◌ e s) in
    let rest = texts s in if code c == 98 then String.[] ∷ next else before e rest

texts-text : (t more : String) → texts (text t more) ≡ t ∷ texts more
texts-text String.[] String.[] = refl
texts-text String.[] (String.◌∷◌ c s) = refl
texts-text (String.◌∷◌ c t) more = ap (before c) (texts-text t more)

abbrev grouped : List String → Dict Target
grouped (k ∷ p ∷ m ∷ ts) = (k, (p, m)) ∷ grouped ts
grouped _ = []

pub grouped-texts : (d : Dict Target) → grouped (texts (dumps d)) ≡ d
grouped-texts [] = refl
grouped-texts ((k, (p, m)) ∷ d) =
    ap grouped (texts-text k (text p (text m (dumps d))))
    ∙ ap (λ (ts : List String). grouped (k ∷ ts)) (texts-text p (text m (dumps d)))
    ∙ ap (λ (ts : List String). grouped (k ∷ p ∷ ts)) (texts-text m (dumps d))
    ∙ ap (λ (e : Dict Target). (k, (p, m)) ∷ e) (grouped-texts d)

abbrev pub toy_json : JsonLib
toy_json = record {
  dumps = dumps;
  loads = λ value. table (grouped (texts value));
  loads-dumps = λ d. ap table (grouped-texts d);
}
