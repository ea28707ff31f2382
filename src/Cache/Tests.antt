-- ===== src/Cache/Tests.antt =====
-- Tests and instances for keyhub/llm/cache.py, with the requests as their own digests.
use key_hub.Common.{◌≡◌, refl, String, none, some, [], ◌∷◌, arith, if◌then◌else◌, ltb}
use key_hub.Common.Dict.{lookup, erase}
use key_hub.Cache.{ResponseCache, get, set, clear, move_to_end}
use key_hub.Cache.Eviction.{get-set}

abbrev digest : String → String
digest r = r

abbrev cache : ResponseCache String digest String
cache = record { store = ("p", ("one", 5000)) ∷ ("q", ("two", 9000)) ∷ [] }

get-set_example :
    let (c', found) =
      get String digest String (set String digest String cache "p" "new" 5 1000) "p" 1 7000 in
    (found ≡ (if ltb 6000 7000 then none else some "new"))
    × (lookup "p" c'.store ≡ (if ltb 6000 7000 then none else some ("new", 6000)))
get-set_example =
    get-set String digest String cache "p" "new" 5 1 1000 7000 (omega arith) (omega arith)

-- A hit moves the entry to the end.
hit :
    (get String digest String cache "p" 5 5000).0.store
    ≡ ("q", ("two", 9000)) ∷ ("p", ("one", 5000)) ∷ []
unfolding get move_to_end lookup erase
hit = refl

cleared : (clear String digest String cache).1 ≡ 2
unfolding clear
cleared = refl
