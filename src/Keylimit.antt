-- ===== src/Keylimit.antt =====
-- keyhub/llm/keylimit.py: the limits on requests and tokens per minute of each LLM key. Times are
-- milliseconds; a limit of 0 stands for every setting that is not positive. The `try` around each
-- call never catches anything here.
mod Bounds
mod Tests
use key_hub.Common.{
  ℕ, zero, suc, ◌+◌, ◌-◌, String, Bool, true, false, ◌&&◌, ◌||◌, Option, none, some, List, [], ◌∷◌,
  ◌++◌, ltb, leb, ◌==◌, if◌then◌else◌, length,
}
use key_hub.Common.Dict.{Dict, lookup, insert, erase}

-- `WINDOW_SECONDS`
abbrev pub window : ℕ
window = 60000

pub record KeyRateLimiter : Type 0 where
  pub requests : Dict (List ℕ)
  pub tokens : Dict (List (ℕ × ℕ))

-- `queue[0] < now - WINDOW_SECONDS`, by a sum, as the difference may be negative.
abbrev pub is_old : ℕ → ℕ → Bool
is_old now t = ltb (t + window) now

-- `while q and q[0] < cutoff: q.popleft()`
unfoldable pub drop_old : ℕ → List ℕ → List ℕ
drop_old now [] = []
drop_old now (t ∷ q) = if is_old now t then drop_old now q else t ∷ q

unfoldable pub drop_old_tokens : ℕ → List (ℕ × ℕ) → List (ℕ × ℕ)
drop_old_tokens now [] = []
drop_old_tokens now ((t, n) ∷ q) = if is_old now t then drop_old_tokens now q else (t, n) ∷ q

abbrev pub update_at {ℓ} : {A : Type ℓ} → (A → A) → String → Dict A → Dict A
update_at f k d = elim (lookup k d) [ none ↦ d | some q ↦ insert k (f q) d ]

-- `_prune`
unfoldable pub prune : KeyRateLimiter → String → ℕ → KeyRateLimiter
prune l key_id now = record {
  requests = update_at (drop_old now) key_id l.requests;
  tokens = update_at (drop_old_tokens now) key_id l.tokens;
}

abbrev pub or_empty {ℓ} : {A : Type ℓ} → Option (List A) → List A
or_empty none = []
or_empty (some q) = q

abbrev pub is_empty {ℓ} : {A : Type ℓ} → List A → Bool
is_empty [] = true
is_empty (x ∷ q) = false

-- The queues of a key; a key with no entry has empty ones.
abbrev pub request_queue : KeyRateLimiter → String → List ℕ
request_queue l k = or_empty (lookup k l.requests)

abbrev pub token_queue : KeyRateLimiter → String → List (ℕ × ℕ)
token_queue l k = or_empty (lookup k l.tokens)

-- `_cleanup_if_empty`
unfoldable pub cleanup_if_empty : KeyRateLimiter → String → KeyRateLimiter
cleanup_if_empty l key_id =
    if is_empty (request_queue l key_id) && is_empty (token_queue l key_id)
    then record { requests = erase key_id l.requests; tokens = erase key_id l.tokens }
    else l

-- `sum(t for _, t in tok_q)`
unfoldable pub total_tokens : List (ℕ × ℕ) → ℕ
total_tokens [] = 0
total_tokens ((t, n) ∷ q) = n + total_tokens q

-- `llm_key_rpm_limit` and `llm_key_tpm_limit`
pub record Limits : Type 0 where
  pub rpm : ℕ
  pub tpm : ℕ

-- What is left of a limit; `none` is the -1 of "no limit".
abbrev pub remaining : ℕ → ℕ → Option ℕ
remaining limit used = if ltb 0 limit then some (limit - used) else none

abbrev pub may_pass : Limits → ℕ → ℕ → ℕ → Bool
may_pass s cur_rpm cur_tpm tokens =
    (leb s.rpm 0 || ltb cur_rpm s.rpm) && (leb s.tpm 0 || leb (cur_tpm + tokens) s.tpm)

-- `check`: whether the request may go on, and what is left of both limits.
unfoldable pub check :
    Limits → KeyRateLimiter → String → ℕ → ℕ → KeyRateLimiter × Bool × Option ℕ × Option ℕ
check s l key_id tokens now =
    let l' = prune l key_id now in
    let queue = request_queue l' key_id in
    let cur_tpm = total_tokens (token_queue l' key_id) in
    let left = remaining s.rpm (length queue) in
    let tokens_left = remaining s.tpm cur_tpm in
    if leb s.rpm 0 && leb s.tpm 0
    then (l, true, none, none)
    else (if may_pass s (length queue) cur_tpm tokens
        then (
          record l' { requests = insert key_id (queue ++ now ∷ []) l'.requests },
          true,
          left,
          tokens_left,
        )
        else (l', false, left, tokens_left))

-- `record`: the tokens of a finished request. (`record` is a word of this language.)
unfoldable pub record_tokens : KeyRateLimiter → String → ℕ → ℕ → KeyRateLimiter
record_tokens l key_id tokens now =
    let l' = prune l key_id now in
    if leb tokens 0
    then l
    else cleanup_if_empty
        (record l' {
          tokens = insert key_id (token_queue l' key_id ++ (now, tokens) ∷ []) l'.tokens;
        })
        key_id

-- `req_q.pop()`
unfoldable pub drop_last : List ℕ → List ℕ
drop_last [] = []
drop_last (t ∷ []) = []
drop_last (t ∷ u ∷ q) = t ∷ drop_last (u ∷ q)

-- `release_rpm_slot`
unfoldable pub release_rpm_slot : KeyRateLimiter → String → KeyRateLimiter
release_rpm_slot l key_id =
    cleanup_if_empty (record l { requests = update_at drop_last key_id l.requests }) key_id
