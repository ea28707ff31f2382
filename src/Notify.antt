-- ===== src/Notify.antt =====
-- keyhub/notify.py: which notifications are sent, and the tries of the webhook. `str` of a value is a
-- parameter; what is printed, and the texts of the channels, are left out. Times are in milliseconds.
mod Quiet
mod Tests
use key_hub.Common.{
  ℕ, zero, suc, ◌+◌, ◌-◌, String, Bool, true, false, Option, none, some, List, [], ◌∷◌, ◌++◌,
  append, ltb, if◌then◌else◌,
}
use key_hub.Common.Dict.{Dict, insert, contains}
use key_hub.Json.{Value, Fields, get_field, is_truthy}

pub record Notifier : Type 0 where
  pub dedup_cache : Dict ℕ

-- `_DEDUP_WINDOW_SECONDS` and `_MAX_RETRIES`
abbrev pub dedup_window : ℕ
dedup_window = 300000

abbrev pub max_retries : ℕ
max_retries = 2

abbrev pub truthy : Option Value → Option Value
truthy none = none
truthy (some v) = if is_truthy v then some v else none

abbrev pub or_value : Option Value → Option Value → Option Value
or_value none o = o
or_value (some v) o = some v

abbrev pub shown_or_empty : (Value → String) → Option Value → String
shown_or_empty shown none = ""
shown_or_empty shown (some v) = shown v

-- `_dedup_key`
unfoldable pub dedup_key : (Value → String) → String → Fields → String
dedup_key shown event payload = append event (
    append ":" (
      shown_or_empty shown (
        or_value (truthy (get_field "key_id" payload)) (
          or_value (truthy (get_field "name" payload))
            (truthy (get_field "credential_id" payload))))))

-- `_cleanup_dedup`
unfoldable pub cleanup_dedup : ℕ → Dict ℕ → Dict ℕ
cleanup_dedup now [] = []
cleanup_dedup now ((k, sent_at) ∷ d) =
    let rest = cleanup_dedup now d in
    if ltb dedup_window (now - sent_at) then rest else (k, sent_at) ∷ rest

abbrev pub remember : String → ℕ → Dict ℕ → Notifier × Bool
remember key now d =
    if contains key d
    then (record { dedup_cache = d }, true)
    else (record { dedup_cache = insert key now d }, false)

-- `_is_duplicate`, of the key.
unfoldable pub is_duplicate : Notifier → String → ℕ → Notifier × Bool
is_duplicate n key now = remember key now (cleanup_dedup now n.dedup_cache)

pub data Channel : Type 0 where
  console webhook email : Channel

-- Whether there is a URL for the webhook, and a host for mail that is enabled.
pub record Channels : Type 0 where
  pub webhook_url : Bool
  pub email_host : Bool

abbrev pub channels_of : Channels → List Channel
channels_of c =
    console
    ∷ ((if c.webhook_url then webhook ∷ [] else []) ++ (if c.email_host then email ∷ [] else []))

abbrev pub sent_to : Channels → Notifier × Bool → Notifier × List Channel
sent_to c (n, true) = (n, [])
sent_to c (n, false) = (n, channels_of c)

-- `notify`: where the notification goes.
unfoldable pub notify :
    (Value → String) → Channels → Notifier → String → Fields → ℕ → Notifier × List Channel
notify shown c n event payload now = sent_to c (is_duplicate n (dedup_key shown event payload) now)

-- A status below 400; `none` is an exception.
abbrev pub is_good : Option ℕ → Bool
is_good none = false
is_good (some status) = ltb status 400

-- `_send_webhook_with_retry`: the posts that it made and the seconds that it slept, from the try number
-- `attempt` on with `left` more of them. It returns at the first good answer.
unfoldable pub send_from : ℕ → ℕ → (ℕ → Option ℕ) → ℕ × ℕ
send_from zero attempt answers = (1, 0)
send_from (suc left) attempt answers =
    let (posts, slept) = send_from left (suc attempt) answers in
    if is_good (answers attempt) then (1, 0) else (posts + 1, slept + 1)

abbrev pub send_webhook_with_retry : (ℕ → Option ℕ) → ℕ × ℕ
send_webhook_with_retry answers = send_from max_retries 0 answers
