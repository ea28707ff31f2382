-- ===== src/Latency.antt =====
-- keyhub/llm/latency_stats.py: the window of latencies of each provider and their percentiles. The
-- median is kept doubled, as it may be half way between two samples. `int(n * 0.95)` is the whole
-- part of 95n / 100 for every n up to two millions.
mod Order
mod Tests
use key_hub.Common.{
  ℕ, suc, ◌+◌, ◌-◌, ◌*◌, ◌/◌, min, String, str_eq, Bool, false, ◌&&◌, Option, none, some, List, [],
  ◌∷◌, ◌++◌, map, ltb, leb, ◌==◌, if◌then◌else◌, keep, length, drop, get_elem?,
}
use key_hub.Common.Dict.{Dict, lookup, insert}
use key_hub.Models.{LlmKey, UsageLog}
use key_hub.Tracker.{provider_of}

-- `WINDOW_SIZE`
abbrev pub window_size : ℕ
window_size = 1000

pub record LatencyStats : Type 0 where
  pub windows : Dict (List ℕ)

abbrev pub window_of : LatencyStats → String → List ℕ
window_of l provider = elim (lookup provider l.windows) [ none ↦ [] | some w ↦ w ]

-- `append` of a deque with `maxlen`.
unfoldable pub push : List ℕ → ℕ → List ℕ
push w sample =
    let longer = w ++ sample ∷ [] in
    if ltb window_size (length longer) then drop 1 longer else longer

-- `record`. (`record` is a word of this language.)
unfoldable pub record_sample : LatencyStats → String → ℕ → LatencyStats
record_sample l provider latency_ms = record {
  windows = insert provider (push (window_of l provider) latency_ms) l.windows;
}

-- `sorted`
unfoldable pub put_in_order : ℕ → List ℕ → List ℕ
put_in_order x [] = x ∷ []
put_in_order x (y ∷ ys) = if leb x y then x ∷ y ∷ ys else y ∷ put_in_order x ys

unfoldable pub sorted : List ℕ → List ℕ
sorted [] = []
sorted (x ∷ xs) = put_in_order x (sorted xs)

-- An index that is in range.
abbrev pub at : List ℕ → ℕ → ℕ
at s i = elim (get_elem? s i) [ none ↦ 0 | some x ↦ x ]

pub record Percentiles : Type 0 where
  pub p50_doubled : ℕ
  pub p95 : ℕ
  pub p99 : ℕ

-- The three values of a sorted list with two samples or more.
unfoldable pub pick_three : List ℕ → ℕ → Percentiles
pick_three s n = record {
  p50_doubled = at s ((n - 1) / 2) + at s (n / 2);
  p95 = at s (min (n * 95 / 100) (n - 1));
  p99 = at s (min (n * 99 / 100) (n - 1));
}

-- `_compute_pct`
unfoldable pub compute_pct : List ℕ → Percentiles
compute_pct samples =
    let s = sorted samples in
    let n = length s in
    if n == 0
    then record { p50_doubled = 0; p95 = 0; p99 = 0 }
    else (if n == 1
        then record { p50_doubled = 2 * at s 0; p95 = at s 0; p99 = at s 0 }
        else pick_three s n)

-- The rows of `_query_db`: successful calls of the last day by a key of the provider.
abbrev pub is_recent : List LlmKey → String → ℕ → UsageLog → Bool
is_recent keys provider now log =
    elim (provider_of keys log) [ none ↦ false | some p ↦ str_eq p provider ]
    && leb now (log.created_at + 86400000)
    && log.success

-- `_query_db`, with a database that answers.
unfoldable pub query_db : List LlmKey → List UsageLog → String → ℕ → Percentiles
query_db keys logs provider now =
    compute_pct (map (λ log. log.latency_ms) (keep (is_recent keys provider now) logs))

-- `percentiles`
unfoldable pub percentiles : LatencyStats → List LlmKey → List UsageLog → String → ℕ → Percentiles
percentiles l keys logs provider now =
    let samples = window_of l provider in
    if leb 10 (length samples) then compute_pct samples else query_db keys logs provider now
