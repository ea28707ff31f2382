-- ===== src/Backup/Restored.antt =====
-- What an import (keyhub/backup.py) makes of items whose names are free.
use mathlib.Core.Path.{subst}
use key_hub.Common.{
  ℕ, suc, ◌+◌, ◌≡◌, ◌≢◌, refl, sym, ap, ◌∙◌, String, eq_iff, Bool, true, false, not, none, some,
  List, [], ◌∷◌, ◌++◌, arith, length, find, find-append, find-append_other, find-keep,
  find-keep-none, All,
}
use key_hub.Models.{Bytes, Credential, CredentialType}
use key_hub.Crypto
use key_hub.Crypto.{CryptoLib}
use key_hub.Store.Defs.{Db, Outcome, ok, fail, has_name, is_live, make_aad, try_decrypt}
use key_hub.Store.Rows.{CredentialCreate, Draw, is_llm, new_credential, add_llm_key}
use key_hub.Store.Ops.{create_credential}
use key_hub.Store.Reveal.{try_decrypt-encrypt}
use key_hub.Backup.Frame.{Item}
use key_hub.Backup.Import.{
  type_of, is_valid, is_stale, create_of, to_create, delete_rows, Fate, created, replaced, skipped,
  raised, store_error, Counts, Imported, done, go_on, create_item, import_found, import_item,
  import_items,
}

-- An item that is a credential of another type than an LLM one, within the limits of its fields.
abbrev pub IsPlain : Item → CredentialType → Type 0
IsPlain item type =
    (type_of item.type ≡ some type) × (is_llm type ≡ false) × (is_valid item.name item.value ≡ true)

-- The name has a live row with the value, under the key.
abbrev pub Holds : CryptoLib → Bytes → Db → String → Bytes → Type 0
Holds lib key db name value =
    (c : Credential) × (find (is_live name) db.credentials ≡ some c)
    × (try_decrypt lib (some key) c ≡ ok value)

-- Every item is plain, and no two have the same name.
abbrev pub ArePlain : List Item → Type 0
ArePlain [] = Unit
ArePlain (item ∷ items) =
    ((type : CredentialType) × IsPlain item type)
    × All (λ (later : Item). later.name ≢ item.name) items
    × ArePlain items

abbrev pub AreFree : Db → List Item → Type 0
AreFree db items = All (λ (item : Item). find (is_live item.name) db.credentials ≡ none) items

module _ (lib : CryptoLib) (fingerprint : Bytes → String) (key : Bytes) where
  abbrev row_of : CredentialCreate → Draw → Credential
  row_of input draw =
      new_credential input draw
        (Crypto.encrypt lib key draw.nonce input.value (some (make_aad draw.id input.name)))

  create_plain :
      (db : Db) (input : CredentialCreate) (draw : Draw)
      → find (has_name input.name) db.credentials ≡ none
      → is_llm input.type ≡ false
      → let (db', made) = create_credential lib fingerprint (some key) db input draw in
        (db'.credentials ≡ db.credentials ++ row_of input draw ∷ [])
        × (made ≡ ok (row_of input draw))
  unfolding create_credential add_llm_key
  create_plain db input draw free plain = ground (arith, free, plain)

  free_after :
      (db : Db) (name : String)
      → find (is_live name) db.credentials ≡ none
      → find (has_name name) (delete_rows (is_stale name) db).credentials ≡ none
  unfolding delete_rows
  free_after db name free =
      find-keep-none (has_name name) (λ c. not (is_stale name c)) (is_live name) db.credentials
        (λ c kept dead. ground arith) free

  others_kept :
      (db : Db) (name other : String)
      → find (is_live other) (delete_rows (is_stale name) db).credentials
        ≡ find (is_live other) db.credentials
  unfolding delete_rows
  others_kept db name other =
      find-keep (is_live other) (λ c. not (is_stale name c)) db.credentials
        (λ c dropped. ground arith)

  -- What an item with a free name leaves.
  abbrev Made : Db → Item → Db → Type 0
  Made db item db' =
      Holds lib key db' item.name item.value
      × ((other : String)
          → other ≢ item.name
          → find (is_live other) db'.credentials ≡ find (is_live other) db.credentials)

  appended :
      (db : Db) (item : Item) (type : CredentialType) (draw : Draw) (db' : Db)
      → find (is_live item.name) db.credentials ≡ none
      → length draw.nonce ≡ 12
      → db'.credentials
        ≡ (delete_rows (is_stale item.name) db).credentials
          ++ row_of (create_of item type) draw ∷ []
      → Made db item db'
  appended db item type draw db' free twelve e =
      let rows = (delete_rows (is_stale item.name) db).credentials in
      let row = row_of (create_of item type) draw in
      let none_live : find (is_live item.name) rows ≡ none =
        others_kept db item.name item.name ∙ free in
      (
        (
          row,
          ap (find (is_live item.name)) e
              ∙ find-append (is_live item.name) rows row none_live
              ∙ ground (arith, eq_iff item.name item.name),
          try_decrypt-encrypt lib key row draw.nonce item.value twelve refl,
        ),
        λ other differs.
            ap (find (is_live other)) e
            ∙ find-append_other (is_live other) rows row
                (ground (arith, eq_iff item.name other, differs))
            ∙ others_kept db item.name other,
      )

  create_item-plain :
      (db : Db) (input : CredentialCreate) (draw : Draw) (fate : Fate)
      → find (has_name input.name) db.credentials ≡ none
      → is_llm input.type ≡ false
      → create_item lib fingerprint (some key) db (some input) draw fate
        ≡ ((create_credential lib fingerprint (some key) db input draw).0, fate)
  unfolding create_item
  create_item-plain db input draw fate free plain =
      ap
        (λ (made : Outcome Credential). (
          (create_credential lib fingerprint (some key) db input draw).0,
          elim made as (λ _. Fate) [ fail e ↦ raised (store_error e) | ok c ↦ fate ],
        ))
        (create_plain db input draw free plain).1

  to_create-plain :
      (item : Item) (type : CredentialType)
      → IsPlain item type
      → to_create item ≡ some (create_of item type)
  unfolding to_create
  to_create-plain item type (typed, plain, valid) = ground arith

  import_item_lem :
      (overwrite : Bool) (db : Db) (item : Item) (type : CredentialType) (draw : Draw)
      → IsPlain item type
      → find (is_live item.name) db.credentials ≡ none
      → import_item lib fingerprint (some key) overwrite item draw db ≡ (
        (create_credential lib fingerprint
            (some key)
            (delete_rows (is_stale item.name) db)
            (create_of item type)
            draw).0,
        created,
      )
  unfolding import_item import_found
  import_item_lem overwrite db item type draw plain free =
      let db1 = delete_rows (is_stale item.name) db in
      ap (import_found lib fingerprint (some key) overwrite item draw db1) free
      ∙ ap (λ input. create_item lib fingerprint (some key) db1 input draw created)
          (to_create-plain item type plain)
      ∙ create_item-plain db1 (create_of item type) draw created (free_after db item.name free)
          plain.1

  import_item-plain :
      (overwrite : Bool) (db : Db) (item : Item) (type : CredentialType) (draw : Draw)
      → IsPlain item type
      → find (is_live item.name) db.credentials ≡ none
      → length draw.nonce ≡ 12
      → let (db', fate) = import_item lib fingerprint (some key) overwrite item draw db in
        (fate ≡ created) × Made db item db'
  import_item-plain overwrite db item type draw plain free twelve =
      let db1 = delete_rows (is_stale item.name) db in
      let input = create_of item type in
      subst (λ (x : Db × Fate). (x.1 ≡ created) × Made db item x.0)
        (sym (import_item_lem overwrite db item type draw plain free))
        (
          refl,
          appended db item type draw (create_credential lib fingerprint (some key) db1 input draw).0
              free twelve (create_plain db1 input draw (free_after db item.name free) plain.1).0,
        )

  abbrev pub AreHeld : Db → List Item → Type 0
  AreHeld db items = All (λ (item : Item). Holds lib key db item.name item.value) items

  still_free :
      (db db' : Db) (item : Item) (items : List Item)
      → ((other : String)
          → other ≢ item.name
          → find (is_live other) db'.credentials ≡ find (is_live other) db.credentials)
      → All (λ (later : Item). later.name ≢ item.name) items
      → AreFree db items
      → AreFree db' items
  still_free db db' item [] same distinct free = tt
  still_free db db' item (i ∷ is) same (differs, distinct) (f, free) =
      (same i.name differs ∙ f, still_free db db' item is same distinct free)

  turned :
      (item : Item) (items : List Item)
      → All (λ (later : Item). later.name ≢ item.name) items
      → All (λ (later : Item). item.name ≢ later.name) items
  turned item [] distinct = tt
  turned item (i ∷ is) (differs, distinct) = (λ e. differs (sym e), turned item is distinct)

  go_on-created :
      (x : Db × Fate) (n : Counts) (next : Db → Counts → Db × Imported)
      → x.1 ≡ created
      → go_on lib fingerprint (some key) x n next
        ≡ next x.0 (record n { imported = n.imported + 1 })
  go_on-created (db, created) n next e = refl
  go_on-created (db, replaced) n next e = cc
  go_on-created (db, skipped) n next e = cc
  go_on-created (db, raised error) n next e = cc

  -- The items are imported, each with its value; and the other names keep their rows.
  pub import_items-plain :
      (overwrite : Bool) (draws : ℕ → Draw) (k : ℕ) (items : List Item) (db : Db) (n : Counts)
      → ((i : ℕ) → length (draws i).nonce ≡ 12)
      → ArePlain items
      → AreFree db items
      → let (db', end) = import_items lib fingerprint (some key) overwrite draws k items db n in
        (end ≡ done (record n { imported = n.imported + length items }))
        × AreHeld db' items
        × ((other : String)
            → All (λ (item : Item). other ≢ item.name) items
            → find (is_live other) db'.credentials ≡ find (is_live other) db.credentials)
  unfolding import_items
  import_items-plain overwrite draws k [] db n twelve plain free =
      (ground arith, tt, λ other differ. refl)
  import_items-plain overwrite draws k (item ∷ items) db n twelve ((type, one), distinct, plain)
        (f, free) =
      let x = import_item lib fingerprint (some key) overwrite item (draws k) db in
      let (fate, ((row, found, value), same)) =
        import_item-plain overwrite db item type (draws k) one f (twelve k) in
      let n' : Counts = record n { imported = n.imported + 1 } in
      let (counts, held, others) =
        import_items-plain overwrite draws (suc k) items x.0 n' twelve plain
          (still_free db x.0 item items same distinct free) in
      let rest = λ (db' : Db) (m : Counts).
        import_items lib fingerprint (some key) overwrite draws (suc k) items db' m in
      subst
        (λ (y : Db × Imported).
          (y.1 ≡ done (record n { imported = n.imported + suc (length items) }))
          × (Holds lib key y.0 item.name item.value × AreHeld y.0 items)
          × ((other : String)
              → All (λ (i : Item). other ≢ i.name) (item ∷ items)
              → find (is_live other) y.0.credentials ≡ find (is_live other) db.credentials))
        (sym (go_on-created x n rest fate))
        (
          counts ∙ ground arith,
          ((row, others item.name (turned item items distinct) ∙ found, value), held),
          λ other (differs, differ). others other differ ∙ same other differs,
        )
