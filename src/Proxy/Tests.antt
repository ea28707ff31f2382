-- ===== src/Proxy/Tests.antt =====
-- Tests and instances for keyhub/llm/proxy.py.
use key_hub.Common.{
  ℕ, ◌+◌, ◌*◌, ◌≤◌, ◌≡◌, ◌≢◌, refl, String, str_eq, eq_iff, true, false, none, some, List, [], ◌∷◌,
  Memᴰ, arith, ltb, if◌then◌else◌, starts_with, has_part, first_chars, strip_slashes, length, find,
}
use key_hub.Common.Dict.{lookup, insert, erase}
use key_hub.Crypto
use key_hub.Crypto.Toy.{toy, nonce}
use key_hub.Store.Defs.{reveal_raw, utf8, make_aad}
use key_hub.Cache
use key_hub.Keylimit
use key_hub.Balancer.State.{
  Balancer, advance, count_of, acquire, release, expired_keys, forget_all, cb_state, on_success,
  on_failure,
}
use key_hub.Balancer.Query.{heal, cleanup, selected, query_active_keys}
use key_hub.Balancer.Select.{
  round_robin, max_priority, min_by, by_strategy, select_key, pick_from, pick, pick_cross_provider,
  first_provider, sorted_set, insert_sorted,
}
use key_hub.Balancer.Mark.{update_key, mark_ok, mark_error, mark_rate_limited}
use key_hub.Balancer.Slots.{slots}
use key_hub.Aliases.{resolve, resolve_in, split_slash, load}
use key_hub.Providers.{anthropic, estimate_cost, price_of, get_provider}
use key_hub.Tracker.{record_usage, usage_log}
use key_hub.Latency.{record_sample}
use key_hub.Json.{bool, num, text, arr, no_items, end, field, get_field, is_truthy}
use key_hub.Proxy.Request.{
  set_field, update_fields, call_body, build_request, anthropic_body, split_messages, join_texts,
  int_of, both, parse_usage, backoff_wait, friendly_error, first_of,
}
use key_hub.Proxy.World.{round_wait, World, answered, Try, Progress, crashed, log_call}
use key_hub.Proxy.Attempt.{
  upstream_error, check_budget_exceeded, succeed, give_up, be_limited, be_refused, be_answered,
  take_reply, send, credential_of, with_secret, open_key, with_credential, use_key, with_fallback,
  fall_back, with_pick, choose_key, with_permit, attempt,
}
use key_hub.Proxy.Chat.{ended, returned, rounds, forward, through_cache, chat, world_of}
use key_hub.Proxy.Permits.{rounds-permits}
use key_hub.Proxy.Calls.{longest, chat_bounds}
use key_hub.Proxy.Again.{looked_up, through_cache-forward}
use key_hub.Proxy.Broken.{asked, choose_key-crashed}
use key_hub.Proxy.Payload.{Lacks, sent_body, build_request-Lacks}
use key_hub.Proxy.Toy.{
  first_key, env, key, sealed, old, new, answer, noon, try, call, openai, deepseek,
}

program : Unit {0}
unfolding lookup insert erase find starts_with has_part first_chars strip_slashes reveal_raw utf8
    make_aad count_of acquire release expired_keys cb_state on_success on_failure heal cleanup
    selected query_active_keys max_priority min_by by_strategy select_key pick_from pick
    pick_cross_provider update_key mark_ok mark_error mark_rate_limited estimate_cost price_of
    get_provider round_wait record_usage usage_log record_sample get_field is_truthy set_field
    update_fields call_body build_request anthropic_body split_messages join_texts int_of both
    parse_usage backoff_wait friendly_error first_of log_call upstream_error check_budget_exceeded
    succeed give_up be_limited be_refused be_answered take_reply send credential_of with_secret
    open_key with_credential use_key with_fallback fall_back with_pick choose_key with_permit
    attempt rounds forward through_cache chat Keylimit.check Keylimit.prune Keylimit.drop_old
    Keylimit.drop_old_tokens Keylimit.cleanup_if_empty Keylimit.record_tokens Keylimit.total_tokens
    Cache.get Cache.set Cache.move_to_end Cache.trim first_provider sorted_set insert_sorted
    forget_all Crypto.decrypt_bytes Crypto.encrypt Crypto.open_v0 longest resolve resolve_in
    split_slash load advance
program = tt

-- A call of a provider with no key, which falls back to another.
abbrev fell_back : Progress
fell_back = record {
  current_provider = "deepseek";
  current_cfg = deepseek;
  last_error = none;
  fallback_tried = true;
}

abbrev after_fallback : World
after_fallback = world_of (forward env (call "openai") openai old (try ∷ []))

falls_back :
    forward env (call "openai") openai old (try ∷ [])
    ≡ ended after_fallback (some fell_back) (returned answer)
unfolding program
falls_back = refl

rounds-permits_example :
    ((j : String) → slots after_fallback.balancer j ≡ slots old.balancer j)
    × (after_fallback.permits ≡ some (if fell_back.fallback_tried then 1 + 1 else 1))
rounds-permits_example =
    rounds-permits env (try ∷ []) 1 (call "openai") openai old after_fallback fell_back answer refl
      falls_back

-- A call of the provider that has the key.
abbrev direct : Progress
direct = record {
  current_provider = "deepseek";
  current_cfg = deepseek;
  last_error = none;
  fallback_tried = false;
}

abbrev after_call : World
after_call = world_of (forward env (call "deepseek") deepseek old (try ∷ []))

is_answered :
    forward env (call "deepseek") deepseek old (try ∷ [])
    ≡ ended after_call (some direct) (returned answer)
unfolding program
is_answered = refl

through_cache-forward_example :
    (t : Try) × Memᴰ t (try ∷ [])
    × ((now : ℕ) (ts' : List Try)
        → through_cache env (call "deepseek") deepseek after_call now ts' ≡ (
            if ltb (t.cached_at + 60 * 1000) now
            then forward env
                (call "deepseek")
                deepseek
                (looked_up env (call "deepseek") after_call now)
                ts'
            else ended (looked_up env (call "deepseek") after_call now) none (returned answer)))
through_cache-forward_example =
    through_cache-forward env (call "deepseek") deepseek old after_call direct answer (try ∷ [])
      (omega arith) is_answered refl

-- Three answers with a server's error.
abbrev failing : Try
failing = record try { reply = answered 503 none none "busy" }

abbrev three : List Try
three = failing ∷ failing ∷ failing ∷ []

chat_bounds_example :
    let w' = world_of (chat env (call "deepseek") old 0 three) in
    (length w'.sent ≤ length old.sent + length three)
    × (w'.slept ≤ old.slept + longest 10000 0 three)
chat_bounds_example = chat_bounds env (call "deepseek") old 0 three

waits : longest 10000 0 three ≡ 35010
unfolding program
waits = refl

-- After the first failure the key is out, and there is no other.
one_sent : length (world_of (chat env (call "deepseek") old 0 three)).sent ≡ 1
unfolding program
one_sent = refl

abbrev picked : Balancer
picked =
    (pick first_key round_robin true new.balancer new.llm_keys noon "deepseek"
      (some "deepseek-chat")).0

picks_key :
    pick first_key round_robin true new.balancer new.llm_keys noon "deepseek" (some "deepseek-chat")
    ≡ (picked, key ∷ [], some key)
unfolding program
picks_key = refl

other_ids : utf8 "c" ≢ utf8 "k"
unfolding utf8
other_ids e = ground arith

is_named : (s : String) → str_eq s "" ≡ false → s ≢ ""
is_named s other e = ground (arith, other, eq_iff s "")

finds_credential :
    credential_of env (record new { balancer = picked; llm_keys = key ∷ [] }) "k"
    ≡ some (sealed (Crypto.encrypt toy (1 ∷ []) nonce (65 ∷ []) (some (make_aad "c" "main"))))
unfolding program
finds_credential = refl

is_allowed :
    (Keylimit.check
      (record { rpm = 5; tpm = 0 })
      (record { requests = []; tokens = [] })
      "k"
      0
      500).1
    ≡ true
unfolding program
is_allowed = refl

choose_key-crashed_example :
    (choose_key env (call "deepseek") new direct try end
      ≡ crashed (asked env (record new { balancer = picked; llm_keys = key ∷ [] }) key try))
    × (slots picked "k" ≡ slots new.balancer "k" + 1)
choose_key-crashed_example =
    choose_key-crashed env (call "deepseek") new direct try end picked (key ∷ []) key
      (sealed (Crypto.encrypt toy (1 ∷ []) nonce (65 ∷ []) (some (make_aad "c" "main")))) (1 ∷ [])
      nonce (65 ∷ []) picks_key refl finds_credential is_allowed refl refl refl
      (is_named "main" refl) other_ids

is_no : (k : String) → str_eq "stream" k ≡ false → "stream" ≢ k
is_no k other e = ground (arith, other, eq_iff "stream" k)

build_request-Lacks_example : Lacks "stream" (
    sent_body (
      build_request anthropic
        (65 ∷ [])
        (call_body (call "anthropic") (field "stream" (bool true) end))))
build_request-Lacks_example =
    build_request-Lacks anthropic (65 ∷ [])
      (call_body (call "anthropic") (field "stream" (bool true) end)) "stream" refl refl
      (is_no "model" refl) (is_no "messages" refl) (is_no "max_tokens" refl) (is_no "system" refl)
      (is_no "temperature" refl)

-- The request goes out, without the wish for a stream.
asks_anthropic :
    sent_body (
      build_request anthropic
        (65 ∷ [])
        (call_body (call "anthropic") (field "stream" (bool true) end)))
    ≡ some (
        field "model"
          (text "deepseek-chat")
          (field "messages" (arr no_items) (field "max_tokens" (num 1024) end)))
unfolding program
asks_anthropic = refl
