-- ===== src/Balancer/Parked.antt =====
-- keyhub/llm/balancer.py over time: a key whose row is neither active nor tripped is out for good.
use mathlib.Core.List.Memᴰ
use key_hub.Common.{
  ℕ, ◌≡◌, ◌≢◌, ◌∙◌, sym, ap, inl, inr, String, str_eq, eq_iff, Bool, true, false, ◌||◌, Option,
  none, some, List, [], ◌∷◌, map, arith, if◌then◌else◌, Bool-cases, Option-cases, All, Memᴰ,
}
use key_hub.Models.{LlmKey, is_active, is_circuit_breaker}
use key_hub.Balancer.State.{Clock, Balancer, on_failure}
use key_hub.Balancer.Query.{heal, cleanup, query_active_keys}
use key_hub.Balancer.Select.{Strategy, pick}
use key_hub.Balancer.Mark.{update_key, mark_ok, mark_error, mark_rate_limited}
use key_hub.Balancer.Chosen.{Draws}
use key_hub.Balancer.Eligible.{Usable, pick_one-Eligible}

-- What happens at the balancer: a pick, or one of the three reports, with the state of the database.
pub data Event : Type 0 where
  picks : Bool → Clock → String → Option String → Event
  errs : Bool → Clock → String → Event
  limits : Bool → Clock → String → Option ℕ → Event
  succeeds : Bool → String → Option ℕ → Event

abbrev pub IsOut : LlmKey → Type 0
IsOut r = (is_active r.status || is_circuit_breaker r.status) ≡ false

-- No row of the key is active or on the breaker.
pub IsParked : String → List LlmKey → Type 0
IsParked key rows = (r : LlmKey) → Memᴰ r rows → r.id ≡ key → IsOut r

heal-IsOut : (ids : List String) (r : LlmKey) → IsOut r → IsOut (heal ids r)
unfolding heal
heal-IsOut ids r h = ground arith

heal-id : (ids : List String) (r : LlmKey) → (heal ids r).id ≡ r.id
unfolding heal
heal-id ids r = ground arith

map-IsParked :
    (f : LlmKey → LlmKey) (key : String) (rows : List LlmKey)
    → ((r : LlmKey) → (f r).id ≡ r.id)
    → ((r : LlmKey) → r.id ≡ key → IsOut r → IsOut (f r))
    → IsParked key rows
    → IsParked key (map f rows)
unfolding IsParked
map-IsParked f key rows same_id out parked r m e =
    let (old, there, is_f) = Memᴰ.of_map f rows m in
    let old_id : old.id ≡ key = sym (same_id old) ∙ ap (λ (x : LlmKey). x.id) is_f ∙ e in
    rw (← is_f) (out old old_id (parked old there old_id))

query-IsParked :
    (db_up : Bool) (b : Balancer) (rows : List LlmKey) (clock : Clock)
    (provider model : Option String) (key : String)
    → IsParked key rows
    → IsParked key (query_active_keys db_up b rows clock provider model).1
unfolding query_active_keys cleanup
query-IsParked true b rows clock provider model key h =
    map-IsParked _ key rows (heal-id _) (λ r _. heal-IsOut _ r) h
query-IsParked false b rows clock provider model key h = h

update_key-IsParked :
    (db_up : Bool) (j key : String) (f : LlmKey → LlmKey) (rows : List LlmKey)
    → ((r : LlmKey) → (f r).id ≡ r.id)
    → j ≢ key
    → IsParked key rows
    → IsParked key (update_key db_up j f rows)
unfolding update_key
update_key-IsParked true j key f rows same_id other h =
    map-IsParked (λ (r : LlmKey). if str_eq r.id j then f r else r) key rows
      (λ r. ground (arith, same_id r)) (λ r e out. ground (arith, eq_iff r.id j)) h
update_key-IsParked false j key f rows same_id other h = h

Usable-not-IsOut : (b : Balancer) (clock : Clock) (k : LlmKey) → Usable b clock k → IsOut k → ⊥
Usable-not-IsOut b clock k u out = ground arith

update_key-parks :
    (key : String) (f : LlmKey → LlmKey) (rows : List LlmKey)
    → ((r : LlmKey) → (f r).id ≡ r.id)
    → ((r : LlmKey) → IsOut (f r))
    → IsParked key (update_key true key f rows)
unfolding update_key IsParked
update_key-parks key f rows same_id out r m e =
    let (old, there, is_f) =
      Memᴰ.of_map (λ (x : LlmKey). if str_eq x.id key then f x else x) rows m in
    elim (Bool-cases (str_eq old.id key)) [
      | inl hit ↦ let changed : f old ≡ r = rw hit at is_f in rw (← changed) (out old)
      | inr miss ↦
          let kept : old ≡ r = rw miss at is_f in
          let old_id : old.id ≡ key = ap (λ (x : LlmKey). x.id) kept ∙ e in
          absurd (ground (arith, eq_iff old.id key))
    ]

-- A report is about another key.
abbrev pub Spares : String → Event → Type 0
Spares key (picks _ _ _ _) = Unit
Spares key (errs _ _ j) = j ≢ key
Spares key (limits _ _ j _) = j ≢ key
Spares key (succeeds _ j _) = j ≢ key

module _ (choices : List LlmKey → List ℕ → Option LlmKey) (s : Strategy) where
  -- The state and the table after the events, and the answers of the picks.
  pub run : List Event → Balancer → List LlmKey → Balancer × List LlmKey × List (Option LlmKey)
  run [] b rows = (b, rows, [])
  run (picks db_up clock provider model ∷ es) b rows =
      let (b', rows', k) = pick choices s db_up b rows clock provider model in
      let (b'', rows'', ks) = run es b' rows' in (b'', rows'', k ∷ ks)
  run (errs db_up clock key ∷ es) b rows =
      let (b', rows') = mark_error db_up b rows clock key in run es b' rows'
  run (limits db_up clock key after ∷ es) b rows =
      let (b', rows') = mark_rate_limited db_up b rows clock key after in run es b' rows'
  run (succeeds db_up key elapsed ∷ es) b rows =
      let (b', rows') = mark_ok db_up b rows key elapsed in run es b' rows'

  abbrev pub Avoids : String → Option LlmKey → Type 0
  Avoids key none = Unit
  Avoids key (some k) = k.id ≢ key

  module _ (draws : Draws choices) where
    pick-Avoids :
        (db_up : Bool) (b : Balancer) (rows : List LlmKey) (clock : Clock) (provider : String)
        (model : Option String) (key : String)
        → IsParked key rows
        → Avoids key (pick choices s db_up b rows clock provider model).2
    unfolding IsParked
    pick-Avoids db_up b rows clock provider model key h =
        elim (Option-cases (pick choices s db_up b rows clock provider model).2) [
          | inl nobody ↦ rw nobody tt
          | inr (k, chosen) ↦
              let el =
                pick_one-Eligible choices draws s db_up b rows clock provider model k chosen in
              rw chosen (λ is_key.
                Usable-not-IsOut _ clock k el.usable (
                  query-IsParked db_up b rows clock (some provider) model key h k el.listed is_key))
        ]

    run-Avoids :
        (key : String) (es : List Event) (b : Balancer) (rows : List LlmKey)
        → All (Spares key) es
        → IsParked key rows
        → All (Avoids key) (run es b rows).2
    unfolding run
    run-Avoids key [] b rows spares h = tt
    run-Avoids key (picks db_up clock provider model ∷ es) b rows (_, spares) h = (
      pick-Avoids db_up b rows clock provider model key h,
      run-Avoids key es _ _ spares
          (unfold pick in query-IsParked db_up b rows clock (some provider) model key h),
    )
    run-Avoids key (errs db_up clock j ∷ es) b rows (other, spares) h =
        run-Avoids key es _ _ spares
          (unfold mark_error in update_key-IsParked db_up j key _ rows (λ r. ground arith) other h)
    run-Avoids key (limits db_up clock j after ∷ es) b rows (other, spares) h =
        run-Avoids key es _ _ spares (
          unfold mark_rate_limited in
          update_key-IsParked db_up j key _ rows (λ r. ground arith) other h)
    run-Avoids key (succeeds db_up j elapsed ∷ es) b rows (other, spares) h =
        run-Avoids key es _ _ spares
          (unfold mark_ok in update_key-IsParked db_up j key _ rows (λ r. ground arith) other h)

    -- A failure or a rate limit that the database takes and that does not trip the breaker takes
    -- a key out for good: whatever is picked and reported of other keys afterwards, at whatever
    -- times, no pick returns the key.
    pub run-mark_error :
        (key : String) (clock : Clock) (after : Option ℕ) (es : List Event) (b : Balancer)
        (rows : List LlmKey)
        → (on_failure b key clock.mono).1 ≡ false
        → All (Spares key) es
        → (let (b', rows') = mark_error true b rows clock key in
            All (Avoids key) (run es b' rows').2)
          × (let (b', rows') = mark_rate_limited true b rows clock key after in
              All (Avoids key) (run es b' rows').2)
    run-mark_error key clock after es b rows quiet spares = (
      run-Avoids key es _ _ spares (
          unfold mark_error in
          rw quiet (update_key-parks key _ rows (λ r. ground arith) (λ r. ground arith))),
      run-Avoids key es _ _ spares (
          unfold mark_rate_limited in
          rw quiet (update_key-parks key _ rows (λ r. ground arith) (λ r. ground arith))),
    )
