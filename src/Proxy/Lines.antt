-- ===== src/Proxy/Lines.antt =====
-- keyhub/llm/proxy.py: the lines of a provider's stream, and what `chat_stream` yields for them. The
-- consumer may close the generator while it stands at a yield.
use key_hub.Common.{
  ℕ, ◌+◌, String, str_eq, Bool, true, false, not, ◌&&◌, Option, none, some, List, [], ◌∷◌, ◌++◌,
  if◌then◌else◌, starts_with,
}
use key_hub.Json.{Value, num, text, obj, Fields, end, get_field, get_or, is_truthy}
use key_hub.Providers.{ProviderConfig}
use key_hub.Proxy.Request.{
  Counted, tokens, other_error, int_of, both, usage_fields, counts, friendly_error,
}
use key_hub.Proxy.World.{Env, take_permit}

-- `str.strip`, `json.loads` of a text, `str` of a value, and `s[5:]` of a text behind "data:".
pub record StreamLib : Type 0 where
  pub strip : String → String
  pub loads : String → Option Value
  pub shown : Value → String
  pub behind : String → String

-- A line of the stream as it comes in, later than the idle time-out after the last one or not.
pub record Line : Type 0 where
  pub late : Bool
  pub content : String

-- What is yielded: a line, the line's end, or the event of an error.
pub data Chunk : Type 0 where
  passed_on : String → Chunk
  line_end : Chunk
  sse_error : String → Chunk

-- How many more yields the consumer comes back from; `none` where it takes everything.
abbrev pub Patience : Type 0
Patience = Option ℕ

abbrev pub comes_back : Patience → Option Patience
comes_back p = take_permit p

-- How the loop over the lines ended: the generator was closed at a yield, the loop came to its end or
-- to a `break` with its `stream_error`; with the chunks and the tokens up to there.
pub data Scanned : Type 0 where
  closed_at : List Chunk → ℕ → ℕ → Scanned
  scanned : List Chunk → Patience → ℕ → ℕ → Option Value → Scanned

abbrev pub tokens_if : Counted → Option (ℕ × ℕ)
tokens_if (tokens i o) = some (i, o)
tokens_if _ = none

abbrev pub is_type : String → Fields → Bool
is_type name fs = elim (get_field "type" fs) [
  | none ↦ false
  | some v ↦ elim v [ text s ↦ str_eq s name | _ ↦ false ]
]

-- `chunk_json.get("message", {}) or {}`
abbrev pub message_of : Fields → Value
message_of fs = let v = get_or "message" (obj end) fs in if is_truthy v then v else obj end

module _ (env : Env) (lib : StreamLib) where
  abbrev pub only_output : Option Fields → Counted
  only_output none = other_error
  only_output (some u) =
      both (int_of env.int_text (num 0)) (int_of env.int_text (get_or "output_tokens" (num 0) u))

  abbrev pub only_input : Option Fields → Counted
  only_input none = other_error
  only_input (some u) =
      both (int_of env.int_text (get_or "input_tokens" (num 0) u)) (int_of env.int_text (num 0))

  -- The usage of an OpenAI chunk: nothing where it is missing or empty.
  abbrev pub given_usage : Option Value → Option (ℕ × ℕ)
  given_usage none = none
  given_usage (some u) =
      if is_truthy u
      then tokens_if (
          counts env.int_text "prompt_tokens" "completion_tokens"
            (elim u [ obj us ↦ some us | _ ↦ none ]))
      else none

  -- `_extract_stream_usage`; what raises counts nothing, as the loop goes on then.
  unfoldable pub extract_stream_usage : ProviderConfig → Fields → Option (ℕ × ℕ)
  extract_stream_usage cfg fs =
      if cfg.openai_compatible
      then given_usage (get_field "usage" fs)
      else (if str_eq cfg.name "anthropic"
          then (if is_type "message_delta" fs
              then tokens_if (only_output (usage_fields (obj fs)))
              else (if is_type "message_start" fs
                  then tokens_if (only_input (usage_fields (message_of fs)))
                  else none))
          else none)

  -- The error that a chunk's object carries.
  abbrev pub error_in : Fields → Option Value
  error_in fs = elim (get_field "error" fs) [
    | none ↦ none
    | some e ↦ elim e [
      | obj err ↦ some (get_or "message" (text "上游返回错误") err)
      | text s ↦ if str_eq s "" then none else some (text s)
      | _ ↦ none
    ]
  ]

  -- The object behind "data:", if the line has one.
  unfoldable pub data_of : String → Option Fields
  data_of content =
      let s = lib.strip content in
      let payload = lib.strip (lib.behind s) in
      if starts_with s "data:" && (not (str_eq payload "") && not (str_eq payload "[DONE]"))
      then elim (lib.loads payload) [
        | none ↦ none
        | some v ↦ elim v [ obj fs ↦ some fs | _ ↦ none ]
      ]
      else none

  -- What a line says: an error, or some tokens.
  pub data Said : Type 0 where
    upstream : Value → Said
    used : ℕ → ℕ → Said

  unfoldable pub said : ProviderConfig → Option Fields → Said
  said cfg none = used 0 0
  said cfg (some fs) = elim (error_in fs) [
    | some v ↦ upstream v
    | none ↦ elim (extract_stream_usage cfg fs) [ none ↦ used 0 0 | some (i, o) ↦ used i o ]
  ]

  -- The event of an error, after which the loop breaks.
  abbrev pub break_with : List Chunk → Patience → ℕ → ℕ → Value → Scanned
  break_with out patience i o v =
      let out' = out ++ sse_error (friendly_error env.lower (lib.shown v)) ∷ [] in
      elim (comes_back patience) [
        | none ↦ closed_at out' i o
        | some left ↦ scanned out' left i o (some v)
      ]

  -- The loop over the lines, with what was yielded before.
  unfoldable pub read_lines :
      ProviderConfig → Value → List Line → List Chunk → Patience → ℕ → ℕ → Scanned
  read_lines cfg timeout [] out patience i o = scanned out patience i o none
  read_lines cfg timeout (l ∷ ls) out patience i o = elim l.late [
    | true ↦ break_with out patience i o timeout
    | false ↦ elim (str_eq l.content "") [
      | true ↦ read_lines cfg timeout ls out patience i o
      | false ↦ elim (said cfg (data_of l.content)) [
        | upstream v ↦ break_with out patience i o v
        | used a b ↦ elim (comes_back patience) [
          | none ↦ closed_at (out ++ passed_on l.content ∷ []) (i + a) (o + b)
          | some left ↦ elim (comes_back left) [
            | none ↦ closed_at (out ++ passed_on l.content ∷ line_end ∷ []) (i + a) (o + b)
            | some left' ↦
                read_lines cfg timeout ls (out ++ passed_on l.content ∷ line_end ∷ []) left' (i + a)
                  (o + b)
          ]
        ]
      ]
    ]
  ]
