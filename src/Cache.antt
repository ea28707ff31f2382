-- ===== src/Cache.antt =====
-- keyhub/llm/cache.py: the cache of LLM answers, least recently used first. Times are milliseconds,
-- lifetimes seconds; 0 stands for every lifetime that is not positive. The digest of a request is
-- a parameter, since both hashing and the text of the request are Python's.
pub mod Eviction
mod Tests
use key_hub.Common.{
  ℕ, suc, ◌+◌, ◌*◌, String, Bool, true, false, Option, none, some, List, [], ◌∷◌, ◌++◌, ltb, leb,
  if◌then◌else◌, length,
}
use key_hub.Common.Dict.{Dict, lookup, insert, erase}

-- `MAX_SIZE`
abbrev pub max_size : ℕ
max_size = 256

module _ {ℓ} {V : Type ℓ} where
  -- `move_to_end`, and what `popitem(last=False)` leaves.
  unfoldable pub move_to_end : String → Dict V → Dict V
  move_to_end k d = elim (lookup k d) [ none ↦ d | some v ↦ erase k d ++ (k, v) ∷ [] ]

  -- `while len(self._store) > self.MAX_SIZE: self._store.popitem(last=False)`
  unfoldable pub trim : Dict V → Dict V
  trim [] = []
  trim (e ∷ d) = if ltb max_size (length (e ∷ d)) then trim d else e ∷ d

module _ (R : Type 0) (make_key : R → String) (A : Type 0) where
  pub record ResponseCache : Type 0 where
    pub store : Dict (A × ℕ)

  -- `get`
  unfoldable pub get : ResponseCache → R → ℕ → ℕ → ResponseCache × Option A
  get c request ttl now =
      let key = make_key request in
      if leb ttl 0 then (c, none) else elim (lookup key c.store) [
        | none ↦ (c, none)
        | some (resp, expire_at) ↦
            if ltb expire_at now
            then (record { store = erase key c.store }, none)
            else (record { store = move_to_end key c.store }, some resp)
      ]

  -- `set`
  unfoldable pub set : ResponseCache → R → A → ℕ → ℕ → ResponseCache
  set c request response ttl now =
      let key = make_key request in
      if leb ttl 0 then c else record {
        store = trim (move_to_end key (insert key (response, now + ttl * 1000) c.store));
      }

  -- `clear`, with the number of entries there were.
  unfoldable pub clear : ResponseCache → ResponseCache × ℕ
  clear c = (record { store = [] }, length c.store)

  -- `stats`
  unfoldable pub stats : ResponseCache → ℕ × ℕ
  stats c = (length c.store, max_size)
