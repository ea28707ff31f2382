-- ===== src/Proxy/Stream.antt =====
-- keyhub/llm/proxy.py: `chat_stream`. Whatever is raised in a round is caught there: the round ends in
-- another one, or the generator ends.
use key_hub.Common.{
  ℕ, ◌+◌, String, true, false, Option, none, some, List, [], ◌∷◌, ◌++◌, ◌==◌, if◌then◌else◌,
}
use key_hub.Keylimit
use key_hub.Balancer.Mark.{mark_ok}
use key_hub.Latency.{record_sample}
use key_hub.Json.{Value, text, is_truthy}
use key_hub.Proxy.Request.{Call, friendly_error}
use key_hub.Proxy.World.{Env, World, Try, Progress, failed, give_permit, log_call, shortened}
use key_hub.Proxy.Attempt.{marked_error, marked_rate_limited, upstream_error}
use key_hub.Proxy.Lines.{
  StreamLib, Line, Chunk, sse_error, Patience, comes_back, Scanned, closed_at, scanned, read_lines,
}

-- What comes of the request: no connection, a refusal, or a stream that ends or breaks off.
pub data Opening : Type 0 where
  no_connection : String → Opening
  refused : ℕ → Option ℕ → String → Opening
  streamed : List Line → Option String → Opening

-- What a round reads from outside: what `chat` reads but for its answer, the stream, the consumer's
-- patience, the idle time-out's text, and the texts of the exceptions that are not the client's.
pub record Flow : Type 0 where
  pub common : Try
  pub opening : Opening
  pub patience : Patience
  pub timeout_text : Value
  pub secret_error : String
  pub request_error : String
  pub provider_error : String

-- How a generator ends: it returns, it is closed at a yield of the loop, or it is closed at the yield
-- in the handler of an exception.
pub data End : Type 0 where
  returns closed closed_in_handler : End

pub data Turn : Type 0 where
  retry : World → Progress → Turn
  over : World → List Chunk → End → Turn

module _ (env : Env) (lib : StreamLib) where
  -- The text of an error, if it is one; the log takes no other value.
  unfoldable pub log_error : World → Flow → String → Progress → String → ℕ → ℕ → Value → World
  log_error w f key_id p model i o (text s) =
      log_call env w f.common key_id p.current_provider model i o false (shortened s)
  log_error w f key_id p model i o _ = w

  -- The handler of an exception before the stream has started.
  unfoldable pub not_started : Call → World → Progress → String → Flow → String → Turn
  not_started c w p key_id f message =
      retry
        (give_permit (
          log_call env (marked_error env w key_id f.common) f.common key_id p.current_provider
            c.model 0 0 false (shortened message)))
        (failed p message)

  -- The yield of the handler and its clean-up.
  unfoldable pub handler_end : World → List Chunk → Option Patience → Turn
  handler_end w out none = over w out closed_in_handler
  handler_end w out (some left) = over (give_permit w) out returns

  -- The handler of an exception in the stream, with its yield before the clean-up.
  unfoldable pub broken_off :
      Call → World → Progress → String → Flow → List Chunk → Patience → ℕ → ℕ → String → Turn
  broken_off c w p key_id f out patience i o message =
      let logged =
        log_call env (marked_error env w key_id f.common) f.common key_id p.current_provider c.model
          i o false (shortened message) in
      let out' = out ++ sse_error (friendly_error env.lower message) ∷ [] in
      handler_end logged out' (comes_back patience)

  -- The handler of `GeneratorExit`.
  unfoldable pub disconnected : Call → World → Progress → String → Flow → List Chunk → ℕ → ℕ → Turn
  disconnected c w p key_id f out i o =
      over
        (give_permit (
          marked_error env
            (log_call env w f.common key_id p.current_provider c.model i o false
              (some "client disconnected"))
            key_id f.common))
        out closed

  -- The end of a stream that was read.
  unfoldable pub stream_done : Call → World → Progress → String → Flow → List Chunk → ℕ → ℕ → Turn
  stream_done c w p key_id f out i o =
      let limited = record w {
        limiter = Keylimit.record_tokens w.limiter key_id (i + o) f.common.counted_at;
      } in
      let logged = log_call env limited f.common key_id p.current_provider c.model i o true none in
      let (b, rows) = mark_ok true logged.balancer logged.llm_keys key_id none in
      over
        (give_permit (record logged {
          balancer = b;
          llm_keys = rows;
          latency = record_sample w.latency p.current_provider f.common.latency_ms;
        }))
        out returns

  unfoldable pub stream_failed :
      Call → World → Progress → String → Flow → List Chunk → ℕ → ℕ → Value → Turn
  stream_failed c w p key_id f out i o error =
      over
        (give_permit (log_error (marked_error env w key_id f.common) f key_id p c.model i o error))
        out returns

  -- What follows the loop over the lines. A `break` leaves the rest of the stream unread.
  unfoldable pub finish : Call → World → Progress → String → Flow → Option String → Scanned → Turn
  finish c w p key_id f ending (closed_at out i o) = disconnected c w p key_id f out i o
  finish c w p key_id f ending (scanned out patience i o (some error)) =
      if is_truthy error
      then stream_failed c w p key_id f out i o error
      else stream_done c w p key_id f out i o
  finish c w p key_id f (some message) (scanned out patience i o none) =
      broken_off c w p key_id f out patience i o message
  finish c w p key_id f none (scanned out patience i o none) = stream_done c w p key_id f out i o

  -- The branches on the provider's answer.
  unfoldable pub open_stream : Call → World → Progress → String → Flow → Opening → Turn
  open_stream c w p key_id f (no_connection message) = not_started c w p key_id f message
  open_stream c w p key_id f (refused status retry_after body) =
      if status == 429
      then retry (give_permit (marked_rate_limited env w key_id f.common retry_after))
          (failed p "rate_limited (429)")
      else retry (give_permit (marked_error env w key_id f.common))
          (failed p (upstream_error status body))
  open_stream c w p key_id f (streamed lines ending) =
      finish c w p key_id f ending
        (read_lines env lib p.current_cfg f.timeout_text lines [] f.patience 0 0)
