-- ===== src/Proxy/StreamTests.antt =====
-- Tests and instances for `chat_stream` of keyhub/llm/proxy.py.
use key_hub.Common.{
  map, ℕ, ◌≡◌, refl, str_eq, false, Option, none, some, List, [], ◌∷◌, if◌then◌else◌, starts_with,
  has_part, first_chars, strip_slashes, find,
}
use key_hub.Common.Dict.{lookup, insert, erase}
use key_hub.Crypto
use key_hub.Store.Defs.{reveal_raw, utf8, make_aad}
use key_hub.Cache
use key_hub.Keylimit
use key_hub.Balancer.State.{
  advance, count_of, acquire, release, expired_keys, forget_all, cb_state, on_success, on_failure,
}
use key_hub.Balancer.Query.{heal, cleanup, selected, query_active_keys}
use key_hub.Balancer.Select.{
  max_priority, min_by, by_strategy, select_key, pick_from, pick, pick_cross_provider,
  first_provider, sorted_set, insert_sorted,
}
use key_hub.Balancer.Mark.{update_key, mark_ok, mark_error, mark_rate_limited}
use key_hub.Aliases.{resolve, resolve_in, split_slash, load}
use key_hub.Providers.{estimate_cost, price_of, get_provider}
use key_hub.Tracker.{record_usage, usage_log}
use key_hub.Latency.{record_sample}
use key_hub.Json.{text, get_field, is_truthy}
use key_hub.Proxy.Request.{
  set_field, update_fields, call_body, build_request, anthropic_body, split_messages, join_texts,
  int_of, both, parse_usage, backoff_wait, friendly_error, first_of,
}
use key_hub.Proxy.World.{round_wait, Env, log_call}
use key_hub.Proxy.Attempt.{
  upstream_error, check_budget_exceeded, succeed, give_up, be_limited, be_refused, be_answered,
  take_reply, send, credential_of, with_secret, open_key, with_credential, use_key, with_fallback,
  fall_back, with_pick, choose_key, with_permit, attempt,
}
use key_hub.Proxy.Chat.{rounds, forward, through_cache, chat}
use key_hub.Proxy.Toy.{env, old, answer, try, call}
use key_hub.Proxy.Lines.{
  StreamLib, Line, Chunk, passed_on, line_end, sse_error, read_lines, data_of, said,
  extract_stream_usage,
}
use key_hub.Proxy.Stream.{
  streamed, Flow, log_error, not_started, handler_end, broken_off, disconnected, stream_done,
  stream_failed, finish, open_stream,
}
use key_hub.Proxy.StreamRounds.{
  Outlet, gone, raises, send_stream, stream_secret, stream_open_key, stream_credential,
  stream_use_key, stream_fallback, stream_pick, stream_permit, stream_round, stream_rounds,
  stream_forward, stream_known, chat_stream,
}
use key_hub.Proxy.Balance.{Permits, SameSlots, chat_stream-Permits, chat_stream-SameSlots}

program : Unit {0}
unfolding lookup insert erase find starts_with has_part first_chars strip_slashes reveal_raw utf8
    make_aad count_of acquire release expired_keys cb_state on_success on_failure heal cleanup
    selected query_active_keys max_priority min_by by_strategy select_key pick_from pick
    pick_cross_provider update_key mark_ok mark_error mark_rate_limited estimate_cost price_of
    get_provider round_wait record_usage usage_log record_sample get_field is_truthy set_field
    update_fields call_body build_request anthropic_body split_messages join_texts int_of both
    parse_usage backoff_wait friendly_error first_of log_call upstream_error check_budget_exceeded
    succeed give_up be_limited be_refused be_answered take_reply send credential_of with_secret
    open_key with_credential use_key with_fallback fall_back with_pick choose_key with_permit
    attempt rounds forward through_cache chat Keylimit.check Keylimit.prune Keylimit.drop_old
    Keylimit.drop_old_tokens Keylimit.cleanup_if_empty Keylimit.record_tokens Keylimit.total_tokens
    Cache.get Cache.set Cache.move_to_end Cache.trim first_provider sorted_set insert_sorted
    forget_all Crypto.decrypt_bytes Crypto.encrypt Crypto.open_v0 read_lines data_of said
    extract_stream_usage log_error not_started handler_end broken_off disconnected stream_done
    stream_failed finish open_stream send_stream stream_secret stream_open_key stream_credential
    stream_use_key stream_fallback stream_pick stream_permit stream_round stream_rounds
    stream_forward stream_known chat_stream resolve resolve_in split_slash load advance
program = tt

-- A payload of "x" has some usage, every other is no JSON.
abbrev lib : StreamLib
lib = record {
  strip = λ s. s;
  loads = λ s. if str_eq s "x" then some answer else none;
  shown = λ v. "error";
  behind = λ s. "x";
}

abbrev alone : Env
alone = record env { fallback = false }

abbrev line : Line
line = record { late = false; content = "data:x" }

-- One line, after which the connection breaks off; the consumer takes two chunks and comes back from
-- no later yield.
abbrev breaking : Flow
breaking = record {
  common = try;
  opening = streamed (line ∷ []) (some "reset");
  patience = some 2;
  timeout_text = text "late";
  secret_error = "";
  request_error = "";
  provider_error = "";
}

chat_stream-Permits_example :
    Permits env lib 1 (chat_stream env lib (call "deepseek") old (breaking ∷ []))
chat_stream-Permits_example =
    chat_stream-Permits env lib (call "deepseek") old (breaking ∷ []) 1 refl

chat_stream-SameSlots_example :
    SameSlots alone lib old.balancer (chat_stream alone lib (call "deepseek") old (breaking ∷ []))
chat_stream-SameSlots_example =
    chat_stream-SameSlots alone lib (call "deepseek") old (breaking ∷ []) 1 refl refl

abbrev chunks : Outlet env lib → List Chunk × Option ℕ
chunks (gone w out how) = (out, w.permits)
chunks (raises w message) = ([], w.permits)

-- The consumer gets the line and the error, and the permit is gone.
loses_permit :
    chunks (chat_stream env lib (call "deepseek") old (breaking ∷ []))
    ≡ (passed_on "data:x" ∷ line_end ∷ sse_error "reset" ∷ [], some 0)
unfolding program
loses_permit = refl

abbrev logged : Outlet env lib → List ℕ
logged (gone w out how) = map (λ log. log.total_tokens) w.logs
logged (raises w message) = []

-- Two lines with usage, to the end of the stream.
counts_tokens :
    logged (
      chat_stream env lib
        (call "deepseek")
        old
        (record breaking { opening = streamed (line ∷ line ∷ []) none; patience = none } ∷ []))
    ≡ 18 ∷ []
unfolding program
counts_tokens = refl
