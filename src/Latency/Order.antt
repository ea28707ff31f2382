-- ===== src/Latency/Order.antt =====
-- The windows of keyhub/llm/latency_stats.py stay bounded, and the percentiles are in order.
use mathlib.Core.List.{append-nil, append_assoc}
use key_hub.Common.{
  ℕ, zero, suc, ◌-◌, ◌*◌, ◌/◌, ◌≤◌, ◌<◌, ◌≡◌, inl, inr, refl, sym, ap, ◌∙◌, min, String, str_eq,
  eq_iff, true, false, List, [], ◌∷◌, ◌++◌, arith, ltb, leb, ◌==◌, if◌then◌else◌, length,
  length-append, drop, All, Bool-cases,
}
use key_hub.Common.Dict.{lookup, lookup-insert}
use key_hub.Latency.{
  window_size, LatencyStats, window_of, push, record_sample, put_in_order, sorted, at, pick_three,
  compute_pct,
}

-- No element is under the bound.
abbrev pub From : ℕ → List ℕ → Type 0
From bound samples = All (λ sample. bound ≤ sample) samples

-- Every element is at least the one before.
abbrev pub IsSorted : List ℕ → Type 0
IsSorted [] = Unit
IsSorted (x ∷ xs) = From x xs × IsSorted xs

put_in_order-From : (lo x : ℕ) (xs : List ℕ) → lo ≤ x → From lo xs → From lo (put_in_order x xs)
unfolding put_in_order
put_in_order-From lo x [] le h = (le, tt)
put_in_order-From lo x (first ∷ later) le (h, hs) = elim (Bool-cases (leb x first)) [
  | inl before ↦ rw before (le, (h, hs))
  | inr after ↦ rw after (h, put_in_order-From lo x later le hs)
]

From-lower : (lo x : ℕ) (xs : List ℕ) → lo ≤ x → From x xs → From lo xs
From-lower lo x [] le h = tt
From-lower lo x (y ∷ ys) le (h, hs) = (omega arith, From-lower lo x ys le hs)

put_in_order-IsSorted : (x : ℕ) (xs : List ℕ) → IsSorted xs → IsSorted (put_in_order x xs)
unfolding put_in_order
put_in_order-IsSorted x [] h = (tt, tt)
put_in_order-IsSorted x (y ∷ ys) (h, hs) = elim (Bool-cases (leb x y)) [
  | inl before ↦ let le : x ≤ y = ground arith in rw before ((le, From-lower x y ys le h), (h, hs))
  | inr after ↦
      let le : y ≤ x = ground arith in
      rw after (put_in_order-From y x ys le h, put_in_order-IsSorted x ys hs)
]

sorted-IsSorted : (xs : List ℕ) → IsSorted (sorted xs)
unfolding sorted
sorted-IsSorted [] = tt
sorted-IsSorted (x ∷ xs) = put_in_order-IsSorted x (sorted xs) (sorted-IsSorted xs)

length-put_in_order : (x : ℕ) (xs : List ℕ) → length (put_in_order x xs) ≡ suc (length xs)
unfolding put_in_order
length-put_in_order x [] = refl
length-put_in_order x (y ∷ ys) = ground (arith, length-put_in_order x ys)

length-sorted : (xs : List ℕ) → length (sorted xs) ≡ length xs
unfolding sorted
length-sorted [] = refl
length-sorted (x ∷ xs) = omega (arith, length-put_in_order x (sorted xs), length-sorted xs)

at-le : (x : ℕ) (xs : List ℕ) (i : ℕ) → From x xs → i < length xs → x ≤ at xs i
at-le x [] i h lt = absurd (omega arith)
at-le x (y ∷ ys) zero (h, hs) lt = h
at-le x (y ∷ ys) (suc i) (h, hs) lt = at-le x ys i hs (omega arith)

at_mono : (xs : List ℕ) (i j : ℕ) → IsSorted xs → i ≤ j → j < length xs → at xs i ≤ at xs j
at_mono [] i j h le lt = absurd (omega arith)
at_mono (x ∷ xs) zero zero h le lt = omega arith
at_mono (x ∷ xs) zero (suc j) (h, hs) le lt = at-le x xs j h (omega arith)
at_mono (x ∷ xs) (suc i) zero h le lt = absurd (omega arith)
at_mono (x ∷ xs) (suc i) (suc j) (h, hs) le lt = at_mono xs i j hs (omega arith) (omega arith)

-- Of any samples, the median is at most the 95th percentile, which is at most the 99th.
pub compute_pct_bounds :
    (samples : List ℕ)
    → ((compute_pct samples).p50_doubled ≤ 2 * (compute_pct samples).p95)
      × ((compute_pct samples).p95 ≤ (compute_pct samples).p99)
unfolding compute_pct pick_three
compute_pct_bounds samples =
    let s = sorted samples in
    let n = length s in
    let h = sorted-IsSorted samples in
    let many : (n == 0) ≡ false → (n == 1) ≡ false → 2 ≤ n = λ a b. ground arith in
    elim (Bool-cases (n == 0)) [
      | inl nothing ↦ rw nothing (omega arith, omega arith)
      | inr some_there ↦ elim (Bool-cases (n == 1)) [
        | inl one ↦ rw (some_there, one) (omega arith, omega arith)
        | inr more ↦
            let two = many some_there more in
            rw (some_there, more)
              (
                omega (
                  arith,
                  at_mono s ((n - 1) / 2) (min (n * 95 / 100) (n - 1)) h (omega arith)
                      (omega arith),
                  at_mono s (n / 2) (min (n * 95 / 100) (n - 1)) h (omega arith) (omega arith),
                ),
                at_mono s (min (n * 95 / 100) (n - 1)) (min (n * 99 / 100) (n - 1)) h (omega arith)
                    (omega arith),
              )
      ]
    ]

-- The last thousand of some samples.
abbrev pub latest : List ℕ → List ℕ
latest xs = drop (length xs - window_size) xs

drop-append : (n : ℕ) (w ys : List ℕ) → n ≤ length w → drop n (w ++ ys) ≡ drop n w ++ ys
drop-append zero w ys le = refl
drop-append (suc n) [] ys le = absurd (omega arith)
drop-append (suc n) (x ∷ w) ys le = drop-append n w ys (omega arith)

drop-drop : (n : ℕ) (w : List ℕ) → drop 1 (drop n w) ≡ drop (suc n) w
drop-drop zero w = refl
drop-drop (suc n) [] = refl
drop-drop (suc n) (x ∷ w) = drop-drop n w

length-drop : (n : ℕ) (w : List ℕ) → length (drop n w) ≡ length w - n
length-drop zero w = omega arith
length-drop (suc n) [] = omega arith
length-drop (suc n) (x ∷ w) = omega (arith, length-drop n w)

push-latest : (xs : List ℕ) (x : ℕ) → push (latest xs) x ≡ latest (xs ++ x ∷ [])
unfolding push
push-latest xs x =
    let n = length xs - window_size in
    let kept = length-drop n xs in
    let more = length-append (drop n xs) (x ∷ []) in
    let all = length-append xs (x ∷ []) in
    let front = drop-append n xs (x ∷ []) (omega arith) in
    elim (Bool-cases (ltb window_size (length (drop n xs ++ x ∷ [])))) [
      | inl full ↦
          let over : window_size < length (drop n xs ++ x ∷ []) = ground arith in
          let next : length (xs ++ x ∷ []) - window_size ≡ suc n = omega arith in
          rw full (
            ap (λ (w : List ℕ). drop 1 w) (sym front)
            ∙ drop-drop n (xs ++ x ∷ [])
            ∙ ap (λ k. drop k (xs ++ x ∷ [])) (sym next))
      | inr room ↦
          let fits : length (drop n xs ++ x ∷ []) ≤ window_size = ground arith in
          let same : length (xs ++ x ∷ []) - window_size ≡ n = omega arith in
          rw room (sym front ∙ ap (λ k. drop k (xs ++ x ∷ [])) (sym same))
    ]

-- The samples of a provider, in order of time.
pub record_all : LatencyStats → String → List ℕ → LatencyStats
record_all l provider [] = l
record_all l provider (x ∷ xs) = record_all (record_sample l provider x) provider xs

window_of-record_sample :
    (l : LatencyStats) (p other : String) (x : ℕ)
    → window_of (record_sample l p x) other
      ≡ (if str_eq p other then push (window_of l p) x else window_of l other)
unfolding record_sample
window_of-record_sample l p other x =
    ground (arith, lookup-insert p other (push (window_of l p) x) l.windows)

window_of-record_all :
    (xs seen : List ℕ) (l : LatencyStats) (p : String)
    → window_of l p ≡ latest seen
    → window_of (record_all l p xs) p ≡ latest (seen ++ xs)
unfolding record_all
window_of-record_all [] seen l p h = h ∙ ap latest (sym (append-nil seen))
window_of-record_all (x ∷ xs) seen l p h =
    let here : str_eq p p ≡ true = (eq_iff p p).1 refl in
    let first : window_of (record_sample l p x) p ≡ latest (seen ++ x ∷ []) =
      window_of-record_sample l p p x ∙ rw here (ap (λ w. push w x) h ∙ push-latest seen x) in
    window_of-record_all xs (seen ++ x ∷ []) (record_sample l p x) p first
    ∙ ap latest (append_assoc seen (x ∷ []) xs)

-- From the start, the window of a provider holds the last thousand of its samples, in order.
pub record_all-latest :
    (xs : List ℕ) (provider : String)
    → window_of (record_all (record { windows = [] }) provider xs) provider ≡ latest xs
unfolding lookup
record_all-latest xs provider = window_of-record_all xs [] (record { windows = [] }) provider refl
