-- ===== src/Importers/Accounted.antt =====
-- Every item of an import in keyhub/api/credentials.py is counted once, and no credential is touched.
use mathlib.Core.Path.{subst}
use key_hub.Common.{
  ℕ, suc, ◌+◌, ◌≡◌, refl, sym, ap, String, Option, none, some, List, [], ◌∷◌, ◌++◌, arith, length,
  length-append, find, find-append_some,
}
use key_hub.Models.{Bytes, Credential}
use key_hub.Crypto.{CryptoLib}
use key_hub.Store.Defs.{
  Db, StoreError, already_exists, requires_provider, no_stored_value, not_found, locked, integrity,
  undecryptable, Outcome, ok, fail, is_live,
}
use key_hub.Store.Rows.{CredentialCreate, Draw}
use key_hub.Store.Ops.{create_credential}
use key_hub.Json.{Value}
use key_hub.Importers.Endpoint.{
  ReadLib, Incoming, Tally, tallied, import_one, import_all, no_tally, incoming, ImportAnswer,
  answered, read_body, import_incoming, import_credentials, stored, invalid,
}

-- The items that were counted.
abbrev pub total : Tally → ℕ
total n = n.imported + n.skipped + length n.errors

abbrev grown : Outcome Credential → ℕ
grown (ok c) = 1
grown (fail e) = 0

one_error :
    (n : Tally) (name : Value) (e : StoreError)
    → n.imported + n.skipped + length (n.errors ++ (name, stored e) ∷ []) ≡ total n + 1
one_error n name e = omega (arith, length-append n.errors ((name, stored e) ∷ []))

tallied-total :
    (name : Value) (n : Tally) (o : Outcome Credential) → total (tallied name n o) ≡ total n + 1
tallied-total name n (ok c) = omega arith
tallied-total name n (fail already_exists) = omega arith
tallied-total name n (fail requires_provider) = one_error n name requires_provider
tallied-total name n (fail no_stored_value) = one_error n name no_stored_value
tallied-total name n (fail not_found) = one_error n name not_found
tallied-total name n (fail locked) = one_error n name locked
tallied-total name n (fail integrity) = one_error n name integrity
tallied-total name n (fail (undecryptable x)) = one_error n name (undecryptable x)

tallied_imported :
    (name : Value) (n : Tally) (o : Outcome Credential)
    → (tallied name n o).imported ≡ n.imported + grown o
tallied_imported name n (ok c) = refl
tallied_imported name n (fail already_exists) = omega arith
tallied_imported name n (fail requires_provider) = omega arith
tallied_imported name n (fail no_stored_value) = omega arith
tallied_imported name n (fail not_found) = omega arith
tallied_imported name n (fail locked) = omega arith
tallied_imported name n (fail integrity) = omega arith
tallied_imported name n (fail (undecryptable x)) = omega arith

-- The live credentials of `db` are those of `db'` too.
abbrev pub AreKept : Db → Db → Type 0
AreKept db db' =
    (name : String) (c : Credential)
    → find (is_live name) db.credentials ≡ some c
    → find (is_live name) db'.credentials ≡ some c

-- From `db` and `n` to `db'` and `n'`, with `k` items more.
abbrev Adds : ℕ → Db → Tally → Db × Tally → Type 0
Adds k db n (db', n') =
    (total n' ≡ total n + k)
    × (length db'.credentials + n.imported ≡ length db.credentials + n'.imported)
    × AreKept db db'

module _ (lib : CryptoLib) (fingerprint : Bytes → String) (vault : Option Bytes) where
  create_credential-length :
      (db : Db) (input : CredentialCreate) (draw : Draw)
      → let (db', made) = create_credential lib fingerprint vault db input draw in
        length db'.credentials ≡ length db.credentials + grown made
  unfolding create_credential
  create_credential-length db input draw =
      grind (arith, λ (y : Credential). length-append db.credentials (y ∷ []))

  create_credential-AreKept :
      (db : Db) (input : CredentialCreate) (draw : Draw)
      → AreKept db (create_credential lib fingerprint vault db input draw).0
  unfolding create_credential
  create_credential-AreKept db input draw name c here =
      grind
        (arith, here, λ (y : Credential). find-append_some (is_live name) db.credentials y c here)

  import_one-Adds :
      (draw : Draw) (x : Incoming) (db : Db) (n : Tally)
      → Adds 1 db n (import_one lib fingerprint vault draw x db n)
  unfolding import_one
  import_one-Adds draw (name, none) db n =
      (omega (arith, length-append n.errors ((name, invalid) ∷ [])), refl, λ other c here. here)
  import_one-Adds draw (name, some input) db n =
      let made = create_credential lib fingerprint vault db input draw in
      let size = create_credential-length db input draw in
      let more = tallied_imported name n made.1 in
      (
        tallied-total name n made.1,
        omega (arith, size, more),
        create_credential-AreKept db input draw,
      )

  import_all-Adds :
      (draws : ℕ → Draw) (k : ℕ) (xs : List Incoming) (db : Db) (n : Tally)
      → Adds (length xs) db n (import_all lib fingerprint vault draws k xs db n)
  unfolding import_all
  import_all-Adds draws k [] db n = (omega arith, refl, λ other c here. here)
  import_all-Adds draws k (x ∷ xs) db n =
      let step = import_one lib fingerprint vault (draws k) x db n in
      let (one, grew, kept) = import_one-Adds (draws k) x db n in
      let (rest, grew', kept') = import_all-Adds draws (suc k) xs step.0 step.1 in
      (
        omega (arith, one, rest),
        omega (arith, grew, grew'),
        λ name c here. kept' name c (kept name c here),
      )

  -- An import whose body can be read answers with its counts: the items that were imported, skipped and in
  -- error are together the items that `read_body` makes of the body (those an importer leaves out are in no
  -- count), there are as many credentials more as were imported, and every live credential is found as it was.
  pub import_credentials-tallied :
      (read : ReadLib) (db : Db) (body : Value) (format : String) (draws : ℕ → Draw)
      (actor : String) (now : ℕ) (xs : List Incoming)
      → read_body read format body ≡ incoming xs
      → let (db', answer) =
          import_credentials lib fingerprint vault read db body format draws actor now in
        (n : Tally) × (answer ≡ answered n)
        × (n.imported + n.skipped + length n.errors ≡ length xs)
        × (length db'.credentials ≡ length db.credentials + n.imported)
        × AreKept db db'
  unfolding import_credentials import_incoming
  import_credentials-tallied read db body format draws actor now xs e =
      let (counted, grew, kept) = import_all-Adds draws 0 xs db no_tally in
      let out = import_all lib fingerprint vault draws 0 xs db no_tally in
      subst
        (λ (x : Db × ImportAnswer).
          (n : Tally) × (x.1 ≡ answered n)
          × (total n ≡ length xs)
          × (length x.0.credentials ≡ length db.credentials + n.imported)
          × AreKept db x.0)
        (sym (ap (import_incoming lib fingerprint vault draws actor now db) e))
        (out.1, refl, omega (arith, counted), omega (arith, grew), kept)
