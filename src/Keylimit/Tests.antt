-- ===== src/Keylimit/Tests.antt =====
-- Tests and instances for keyhub/llm/keylimit.py.
use key_hub.Common.{◌≤◌, ◌≡◌, refl, true, false, [], ◌∷◌, arith, length}
use key_hub.Common.Dict.{lookup, insert}
use key_hub.Keylimit.{
  KeyRateLimiter, request_queue, drop_old, drop_old_tokens, prune, cleanup_if_empty, total_tokens,
  Limits, check, record_tokens, release_rpm_slot, drop_last,
}
use key_hub.Keylimit.Bounds.{checks, records, releases, run, run-Bounded}

abbrev limits : Limits
limits = record { rpm = 2; tpm = 0 }

abbrev busy : KeyRateLimiter
busy = record { requests = ("a", 10 ∷ 70 ∷ []) ∷ ("b", 20 ∷ []) ∷ []; tokens = [] }

run-Bounded_example :
    length (
      request_queue
        (run limits
          (record { requests = []; tokens = [] })
          (checks "a" 0 10
            ∷ checks "a" 0 20
            ∷ checks "a" 0 30
            ∷ records "a" 7 40
            ∷ releases "a"
            ∷ []))
        "a")
    ≤ 2
run-Bounded_example =
    run-Bounded limits
      (checks "a" 0 10 ∷ checks "a" 0 20 ∷ checks "a" 0 30 ∷ records "a" 7 40 ∷ releases "a" ∷ [])
      "a" (omega arith)

-- The third request of a minute is refused, and the same one a minute later passes.
third : ((check limits busy "a" 0 100).1 ≡ false) × ((check limits busy "a" 0 60020).1 ≡ true)
unfolding check prune lookup insert drop_old drop_old_tokens total_tokens
third = (refl, refl)

-- A released slot and recorded tokens.
release : request_queue (release_rpm_slot busy "a") "a" ≡ 10 ∷ []
unfolding release_rpm_slot cleanup_if_empty lookup insert drop_last
release = refl

tokens_count :
    (check (record { rpm = 0; tpm = 9 }) (record_tokens busy "a" 7 100) "a" 3 120).1 ≡ false
unfolding record_tokens check cleanup_if_empty prune lookup insert drop_old drop_old_tokens
    total_tokens
tokens_count = refl
