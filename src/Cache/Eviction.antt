-- ===== src/Cache/Eviction.antt =====
-- The size of the cache of keyhub/llm/cache.py, and what a lookup finds.
use key_hub.Common.{
  ℕ, ◌+◌, ◌*◌, ◌≤◌, ◌<◌, ◌≡◌, inl, inr, String, eq_iff, none, some, List, [], ◌∷◌, ◌++◌, arith, ltb,
  if◌then◌else◌, length, length-append, Option-cases,
}
use key_hub.Common.Dict.{Dict, lookup, insert, erase, lookup-insert, lookup-erase}
use key_hub.Cache.{max_size, move_to_end, trim, ResponseCache, get, set, clear, stats}

module _ {ℓ} {V : Type ℓ} where
  trim-le : (d : Dict V) → length (trim d) ≤ max_size
  unfolding trim
  trim-le [] = omega arith
  trim-le (e ∷ d) = ground (arith, trim-le d)

  length-erase-le : (k : String) (d : Dict V) → length (erase k d) ≤ length d
  unfolding erase
  length-erase-le k [] = omega arith
  length-erase-le k ((j, v) ∷ d) = ground (arith, length-erase-le k d)

  length-erase-lt :
      (k : String) (v : V) (d : Dict V) → lookup k d ≡ some v → length (erase k d) < length d
  unfolding erase lookup
  length-erase-lt k v [] e = cc
  length-erase-lt k v ((j, w) ∷ d) e = ground (arith, length-erase-le k d, length-erase-lt k v d)

  move_to_end-some :
      (k : String) (v : V) (d : Dict V)
      → lookup k d ≡ some v
      → move_to_end k d ≡ erase k d ++ (k, v) ∷ []
  unfolding move_to_end
  move_to_end-some k v d e = ground (arith, e)

  move_to_end-le : (k : String) (d : Dict V) → length (move_to_end k d) ≤ length d
  unfolding move_to_end
  move_to_end-le k d = elim (Option-cases (lookup k d)) [
    | inl e ↦ ground (arith, e)
    | inr (v, e) ↦
        rw (move_to_end-some k v d e) (rw length-append (omega (arith, length-erase-lt k v d e)))
  ]

  lookup-last :
      (k : String) (v : V) (d : Dict V) → lookup k d ≡ none → lookup k (d ++ (k, v) ∷ []) ≡ some v
  unfolding lookup
  lookup-last k v [] e = ground (arith, eq_iff k k)
  lookup-last k v ((j, w) ∷ d) e = ground (arith, lookup-last k v d)

  -- The newest entry outlives the trimming.
  trim-last :
      (k : String) (v : V) (d : Dict V)
      → lookup k d ≡ none
      → lookup k (trim (d ++ (k, v) ∷ [])) ≡ some v
  unfolding trim lookup
  trim-last k v [] e = ground (arith, eq_iff k k)
  trim-last k v ((j, w) ∷ d) e = ground (arith, trim-last k v d, lookup-last k v d)

  trim-move_to_end :
      (k : String) (v : V) (d : Dict V) → lookup k (trim (move_to_end k (insert k v d))) ≡ some v
  trim-move_to_end k v d =
      let here : lookup k (insert k v d) ≡ some v =
        ground (arith, lookup-insert k k v d, eq_iff k k) in
      let gone : lookup k (erase k (insert k v d)) ≡ none =
        ground (arith, lookup-erase k k (insert k v d), eq_iff k k) in
      rw (move_to_end-some k v (insert k v d) here) (trim-last k v (erase k (insert k v d)) gone)

module _ {ℓ} {V : Type ℓ} where
  move_to_end-lookup :
      (k : String) (v : V) (d : Dict V) → lookup k d ≡ some v → lookup k (move_to_end k d) ≡ some v
  move_to_end-lookup k v d e =
      rw (move_to_end-some k v d e)
        (lookup-last k v (erase k d) (ground (arith, lookup-erase k k d, eq_iff k k)))

-- A call of the cache, with the lifetime of its settings and its time.
pub data Call (R A : Type 0) : Type 0 where
  gets : R → ℕ → ℕ → Call R A
  sets : R → A → ℕ → ℕ → Call R A
  clears : Call R A

module _ (R : Type 0) (make_key : R → String) (A : Type 0) where
  abbrev pub step : ResponseCache R make_key A → Call R A → ResponseCache R make_key A
  step c (gets r ttl now) = (get R make_key A c r ttl now).0
  step c (sets r a ttl now) = set R make_key A c r a ttl now
  step c clears = (clear R make_key A c).0

  pub run : ResponseCache R make_key A → List (Call R A) → ResponseCache R make_key A
  run c [] = c
  run c (x ∷ xs) = run (step c x) xs

  step-le :
      (c : ResponseCache R make_key A) (x : Call R A)
      → length c.store ≤ max_size
      → length (step c x).store ≤ max_size
  unfolding get set clear
  step-le c (gets r ttl now) h =
      ground (arith, length-erase-le (make_key r) c.store, move_to_end-le (make_key r) c.store)
  step-le c (sets r a ttl now) h = ground (
    arith,
    trim-le (move_to_end (make_key r) (insert (make_key r) (a, now + ttl * 1000) c.store)),
  )
  step-le c clears h = omega arith

  keeps :
      (xs : List (Call R A)) (c : ResponseCache R make_key A)
      → length c.store ≤ max_size
      → (stats R make_key A (run c xs)).0 ≤ max_size
  unfolding run stats
  keeps [] c h = h
  keeps (x ∷ xs) c h = keeps xs (step c x) (step-le c x h)

  -- From the empty cache, no sequence of calls at any times brings it over its 256 entries.
  pub run-stats :
      (xs : List (Call R A)) → (stats R make_key A (run (record { store = [] }) xs)).0 ≤ 256
  run-stats xs = keeps xs (record { store = [] }) (omega arith)

  -- After an answer is set with a positive lifetime, in a cache that may be full, the same request
  -- gets it back until its lifetime is over, and nothing later; and the lookup that came too late
  -- takes the entry out.
  pub get-set :
      (c : ResponseCache R make_key A) (r : R) (a : A) (ttl later_ttl now later : ℕ)
      → 0 < ttl
      → 0 < later_ttl
      → let (c', found) = get R make_key A (set R make_key A c r a ttl now) r later_ttl later in
        (found ≡ (if ltb (now + ttl * 1000) later then none else some a))
        × (lookup (make_key r) c'.store
            ≡ (if ltb (now + ttl * 1000) later then none else some (a, now + ttl * 1000)))
  unfolding get set
  get-set c r a ttl later_ttl now later pos pos' =
      let d = trim (move_to_end (make_key r) (insert (make_key r) (a, now + ttl * 1000) c.store)) in
      let e : lookup (make_key r) d ≡ some (a, now + ttl * 1000) =
        trim-move_to_end (make_key r) (a, now + ttl * 1000) c.store in
      ground (
        arith,
        e,
        lookup-erase (make_key r) (make_key r) d,
        eq_iff (make_key r) (make_key r),
        move_to_end-lookup (make_key r) (a, now + ttl * 1000) d e,
      )
