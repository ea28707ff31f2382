-- ===== src/Proxy/Returned.antt =====
-- What a round of `chat_stream` in keyhub/llm/proxy.py holds, the slot of its key and a permit, it
-- gives back: all stages behind the choice of a key.
use key_hub.Common.{
  ℕ, ◌+◌, ◌-◌, ◌≡◌, ap, ◌∙◌, String, Bool, true, false, Option, none, some, List, [], ◌∷◌, ◌++◌,
  arith, ◌==◌, if◌then◌else◌,
}
use key_hub.Models.{Bytes, LlmKey, Credential}
use key_hub.Store.Defs.{Outcome, ok, fail, reveal_raw}
use key_hub.Keylimit
use key_hub.Balancer.State.{Balancer, release}
use key_hub.Balancer.Mark.{mark_ok}
use key_hub.Balancer.Slots.{slots, slots-release, mark-Freed}
use key_hub.Balancer.Taken.{Taken}
use key_hub.Json.{Value, null, bool, num, text, arr, obj, Fields, is_truthy}
use key_hub.Proxy.Request.{Call, build_request}
use key_hub.Proxy.World.{Env, World, Progress, failed, give_permit, log_call}
use key_hub.Proxy.Attempt.{
  marked_error, marked_rate_limited, check_budget_exceeded, over_budget, credential_of, name_or_id,
}
use key_hub.Proxy.Lines.{
  StreamLib, Chunk, Patience, comes_back, Scanned, closed_at, scanned, read_lines,
}
use key_hub.Proxy.Stream.{
  Opening, no_connection, refused, streamed, Flow, End, closed_in_handler, Turn, retry, over,
  log_error, not_started, handler_end, broken_off, disconnected, stream_done, stream_failed, finish,
  open_stream,
}
use key_hub.Proxy.StreamRounds.{
  send_stream, stream_secret, stream_open_key, stream_credential, stream_use_key,
}
use key_hub.Proxy.Held.{freed, given_back, marked_error-slots, marked_rate_limited-slots}

-- The permits that an end of the generator leaves of those there were: one less where it was closed in
-- the handler of an exception.
abbrev pub kept : End → ℕ → ℕ
kept closed_in_handler n = n - 1
kept _ n = n

-- With `n` permits and the slots `b0`, but that the slots are left open where calls may fall back.
abbrev pub Restored : Env → Balancer → ℕ → World → Type 0
Restored env b0 n w =
    (w.permits ≡ some n) × (env.fallback ≡ false → (j : String) → slots w.balancer j ≡ slots b0 j)

abbrev pub Turned : Env → Balancer → ℕ → Turn → Type 0
Turned env b0 n (retry w p) = Restored env b0 n w
Turned env b0 n (over w out how) = Restored env b0 (kept how n) w

pub if-Turned :
    (env : Env) (b0 : Balancer) (n : ℕ) (test : Bool) (x y : Turn)
    → Turned env b0 n x
    → Turned env b0 n y
    → Turned env b0 n (if test then x else y)
if-Turned env b0 n true x y hx hy = hx
if-Turned env b0 n false x y hx hy = hy

module _ (env : Env) (lib : StreamLib) (b0 : Balancer) (m : ℕ) (key : LlmKey) where
  abbrev pub Holds : World → Type 0
  Holds w = (w.permits ≡ some m) × (env.fallback ≡ false → Taken (some key) b0 w.balancer)

  not_started-Turned :
      (c : Call) (w : World) (p : Progress) (f : Flow) (message : String)
      → Holds w
      → Turned env b0 (m + 1) (not_started env lib c w p key.id f message)
  unfolding not_started log_call
  not_started-Turned c w p f message (permits, held) =
      (given_back m w permits, λ off. marked_error-slots env b0 m key w f.common (held off))

  handler_end-Turned :
      (w : World) (out : List Chunk) (stays : Option Patience)
      → w.permits ≡ some m
      → (env.fallback ≡ false → (j : String) → slots w.balancer j ≡ slots b0 j)
      → Turned env b0 (m + 1) (handler_end env lib w out stays)
  unfolding handler_end
  handler_end-Turned w out none permits same = (permits ∙ ap some (omega arith), same)
  handler_end-Turned w out (some left) permits same = (given_back m w permits, same)

  broken_off-Turned :
      (c : Call) (w : World) (p : Progress) (f : Flow) (out : List Chunk) (patience : Patience)
      (i o : ℕ) (message : String)
      → Holds w
      → Turned env b0 (m + 1) (broken_off env lib c w p key.id f out patience i o message)
  unfolding broken_off log_call
  broken_off-Turned c w p f out patience i o message (permits, held) =
      handler_end-Turned _ _ (comes_back patience) permits
        (λ off. marked_error-slots env b0 m key w f.common (held off))

  disconnected-Turned :
      (c : Call) (w : World) (p : Progress) (f : Flow) (out : List Chunk) (i o : ℕ)
      → Holds w
      → Turned env b0 (m + 1) (disconnected env lib c w p key.id f out i o)
  unfolding disconnected log_call
  disconnected-Turned c w p f out i o (permits, held) =
      let logged =
        log_call env w f.common key.id p.current_provider c.model i o false
          (some "client disconnected") in
      (given_back m w permits, λ off. marked_error-slots env b0 m key logged f.common (held off))

  stream_done-Turned :
      (c : Call) (w : World) (p : Progress) (f : Flow) (out : List Chunk) (i o : ℕ)
      → Holds w
      → Turned env b0 (m + 1) (stream_done env lib c w p key.id f out i o)
  unfolding stream_done log_call mark_ok
  stream_done-Turned c w p f out i o (permits, held) = (
    given_back m w permits,
    λ off.
        freed b0 w.balancer (mark_ok true w.balancer w.llm_keys key.id none).0 key (held off)
          (mark-Freed true w.balancer w.llm_keys f.common.marked_at key.id none none).0,
  )

  log_error-same :
      (w : World) (f : Flow) (p : Progress) (model : String) (i o : ℕ) (error : Value)
      → w.permits ≡ some m
      → (env.fallback ≡ false → (j : String) → slots w.balancer j ≡ slots b0 j)
      → Restored env b0 (m + 1) (give_permit (log_error env lib w f key.id p model i o error))
  unfolding log_error log_call
  log_error-same w f p model i o (text s) permits same = (given_back m w permits, same)
  log_error-same w f p model i o null permits same = (given_back m w permits, same)
  log_error-same w f p model i o (bool b) permits same = (given_back m w permits, same)
  log_error-same w f p model i o (num n) permits same = (given_back m w permits, same)
  log_error-same w f p model i o (arr vs) permits same = (given_back m w permits, same)
  log_error-same w f p model i o (obj fs) permits same = (given_back m w permits, same)

  stream_failed-Turned :
      (c : Call) (w : World) (p : Progress) (f : Flow) (out : List Chunk) (i o : ℕ) (error : Value)
      → Holds w
      → Turned env b0 (m + 1) (stream_failed env lib c w p key.id f out i o error)
  unfolding stream_failed
  stream_failed-Turned c w p f out i o error (permits, held) =
      log_error-same (marked_error env w key.id f.common) f p c.model i o error permits
        (λ off. marked_error-slots env b0 m key w f.common (held off))

  finish-Turned :
      (c : Call) (w : World) (p : Progress) (f : Flow) (ending : Option String) (end : Scanned)
      → Holds w
      → Turned env b0 (m + 1) (finish env lib c w p key.id f ending end)
  unfolding finish
  finish-Turned c w p f ending (closed_at out i o) holds = disconnected-Turned c w p f out i o holds
  finish-Turned c w p f ending (scanned out patience i o (some error)) holds =
      if-Turned env b0 (m + 1) (is_truthy error) _ _
        (stream_failed-Turned c w p f out i o error holds)
        (stream_done-Turned c w p f out i o holds)
  finish-Turned c w p f (some message) (scanned out patience i o none) holds =
      broken_off-Turned c w p f out patience i o message holds
  finish-Turned c w p f none (scanned out patience i o none) holds =
      stream_done-Turned c w p f out i o holds

  open_stream-Turned :
      (c : Call) (w : World) (p : Progress) (f : Flow) (opening : Opening)
      → Holds w
      → Turned env b0 (m + 1) (open_stream env lib c w p key.id f opening)
  unfolding open_stream
  open_stream-Turned c w p f (no_connection message) holds =
      not_started-Turned c w p f message holds
  open_stream-Turned c w p f (refused status r body) (permits, held) =
      if-Turned env b0 (m + 1) (status == 429) _ _
        (
          given_back m w permits,
          λ off. marked_rate_limited-slots env b0 m key w f.common r (held off),
        )
        (given_back m w permits, λ off. marked_error-slots env b0 m key w f.common (held off))
  open_stream-Turned c w p f (streamed lines ending) holds =
      finish-Turned c w p f ending
        (read_lines env lib p.current_cfg f.timeout_text lines [] f.patience 0 0) holds

  send_stream-Turned :
      (c : Call) (w : World) (p : Progress) (f : Flow) (api_key : Bytes) (body : Fields)
      → Holds w
      → Turned env b0 (m + 1) (send_stream env lib c w p key.id f api_key body)
  unfolding send_stream
  send_stream-Turned c w p f api_key body holds =
      elim (build_request p.current_cfg api_key body)
        as (λ built. Turned env b0 (m + 1) (elim built [
          | none ↦ not_started env lib c w p key.id f f.request_error
          | some request ↦
              open_stream env lib c (record w { sent = w.sent ++ request ∷ [] }) p key.id f
                f.opening
        ])) [
          | none ↦ not_started-Turned c w p f f.request_error holds
          | some request ↦
              open_stream-Turned c (record w { sent = w.sent ++ request ∷ [] }) p f f.opening holds
        ]

  stream_secret-Turned :
      (c : Call) (w : World) (p : Progress) (f : Flow) (body : Fields) (secret : Outcome Bytes)
      → Holds w
      → Turned env b0 (m + 1) (stream_secret env lib c w p key.id f body secret)
  unfolding stream_secret
  stream_secret-Turned c w p f body (fail e) holds = not_started-Turned c w p f f.secret_error holds
  stream_secret-Turned c w p f body (ok api_key) holds =
      send_stream-Turned c w p f api_key body holds

  stream_open_key-Turned :
      (c : Call) (w : World) (p : Progress) (cred : Credential) (f : Flow) (body : Fields)
      → Holds w
      → Turned env b0 (m + 1) (stream_open_key env lib c w p key.id cred f body)
  unfolding stream_open_key
  stream_open_key-Turned c w p cred f body (permits, held) =
      let (limiter, allowed, _, _) =
        Keylimit.check env.limits w.limiter key.id 0 f.common.checked_at in
      let w' : World = record w { limiter = limiter } in
      let secret =
        reveal_raw env.crypto w.vault key.id cred.encrypted_value (name_or_id env cred key.id) in
      if-Turned env b0 (m + 1) allowed (stream_secret env lib c w' p key.id f body secret)
        (retry (give_permit (marked_rate_limited env w' key.id f.common (some 10000)))
          (failed p "key rate limit exceeded"))
        (stream_secret-Turned c w' p f body secret (permits, held))
        (
          given_back m w' permits,
          λ off. marked_rate_limited-slots env b0 m key w' f.common (some 10000) (held off),
        )

  stream_credential-Turned :
      (c : Call) (w : World) (p : Progress) (f : Flow) (body : Fields) (cred : Option Credential)
      → Holds w
      → Turned env b0 (m + 1) (stream_credential env lib c w p key.id f body cred)
  unfolding stream_credential
  stream_credential-Turned c w p f body none (permits, held) =
      (given_back m w permits, λ off. marked_error-slots env b0 m key w f.common (held off))
  stream_credential-Turned c w p f body (some cred) holds =
      stream_open_key-Turned c w p cred f body holds

  pub stream_use_key-Turned :
      (c : Call) (w : World) (p : Progress) (f : Flow) (body : Fields)
      → Holds w
      → Turned env b0 (m + 1) (stream_use_key env lib c w p key f body)
  unfolding stream_use_key check_budget_exceeded
  stream_use_key-Turned c w p f body (permits, held) =
      let w' = check_budget_exceeded env w key f.common in
      if-Turned env b0 (m + 1) (over_budget env key)
        (retry (give_permit (record w' { balancer = release w'.balancer key.id })) p)
        (stream_credential env lib c w p key.id f body (credential_of env w key.id))
        (
          given_back m w permits,
          λ off.
              freed b0 w.balancer (release w.balancer key.id) key (held off)
                (slots-release w.balancer key.id),
        )
        (stream_credential-Turned c w p f body (credential_of env w key.id) (permits, held))
