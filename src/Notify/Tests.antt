-- ===== src/Notify/Tests.antt =====
-- Tests and instances for keyhub/notify.py.
use key_hub.Common.{
  ℕ, zero, suc, ◌≡◌, refl, String, true, false, Option, none, some, List, [], ◌∷◌, arith,
}
use key_hub.Common.Dict.{lookup, insert}
use key_hub.Json.{Value, text, Fields, end, field, get_field, is_truthy}
use key_hub.Notify.{
  Notifier, dedup_key, cleanup_dedup, is_duplicate, console, email, Channels, notify, send_from,
  send_webhook_with_retry,
}
use key_hub.Notify.Quiet.{
  Notice, notify_all, notify-suppressed, Stops, send_webhook_with_retry-Stops,
}

program : Unit {0}
unfolding lookup insert get_field is_truthy dedup_key cleanup_dedup is_duplicate notify send_from
    notify_all
program = tt

abbrev shown : Value → String
shown (text s) = s
shown v = "?"

abbrev channels : Channels
channels = record { webhook_url = false; email_host = true }

abbrev empty : Notifier
empty = record { dedup_cache = [] }

abbrev of_key : String → Fields
of_key id = field "key_id" (text id) end

goes_out :
    (notify shown channels empty "llm.circuit_breaker" (of_key "k") 1000).1 ≡ console ∷ email ∷ []
unfolding program
goes_out = refl

-- The same key again, another one in between, and the first one once more when its time is over.
abbrev between : List Notice
between = ("llm.circuit_breaker", (of_key "j", 2000)) ∷ []

notify-suppressed_example :
    (notify shown channels
      (notify_all shown channels between
        (notify shown channels empty "llm.circuit_breaker" (of_key "k") 1000).0)
      "llm.circuit_breaker"
      (of_key "k")
      301000).1
    ≡ []
notify-suppressed_example =
    notify-suppressed shown channels empty "llm.circuit_breaker" "llm.circuit_breaker" (of_key "k")
      (of_key "k") 1000 301000 between goes_out refl (omega arith) (omega arith, tt)

again_later :
    (notify shown channels
      (notify_all shown channels between
        (notify shown channels empty "llm.circuit_breaker" (of_key "k") 1000).0)
      "llm.circuit_breaker"
      (of_key "k")
      301001).1
    ≡ console ∷ email ∷ []
unfolding program
again_later = refl

-- An exception, then a status.
abbrev answers : ℕ → Option ℕ
answers zero = none
answers (suc n) = some 200

two_tries : send_webhook_with_retry answers ≡ (2, 1)
unfolding program
two_tries = refl

send_webhook_with_retry-Stops_example : Stops answers (send_webhook_with_retry answers)
send_webhook_with_retry-Stops_example = send_webhook_with_retry-Stops answers
