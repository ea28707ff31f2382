-- ===== src/Importers/Tests.antt =====
-- Tests and instances for keyhub/importers.py and the import of keyhub/api/credentials.py.
use key_hub.Common.{
  ◌+◌, ◌≡◌, refl, if◌then◌else◌, String, str_eq, none, some, List, [], ◌∷◌, map, length, find,
  arith, first_chars,
}
use key_hub.Common.Dict.{lookup}
use key_hub.Models.{Bytes}
use key_hub.Crypto.Toy.{toy, nonce}
use key_hub.Store.Defs.{Db, utf8}
use key_hub.Store.Rows.{CredentialCreate, Draw, add_llm_key}
use key_hub.Store.Ops.{create_credential}
use key_hub.Json.{Value, text, num, arr, obj, Items, no_items, item, end, field, get_field}
use key_hub.Importers.{
  create_password, bitwarden_entry, keepass_entry, split_commas, read_entries,
  import_bitwarden_json, import_keepass_csv,
}
use key_hub.Importers.Endpoint.{
  ReadLib, Tally, answered, incoming, known, import_one, import_all, read_body, import_incoming,
  import_credentials,
}
use key_hub.Importers.Accounted.{AreKept, import_credentials-tallied}
use key_hub.Importers.Bounds.{import_bitwarden_json-all_taken}

program : Unit {0}
unfolding add_llm_key create_credential find lookup get_field utf8 first_chars bitwarden_entry
    keepass_entry split_commas read_entries import_bitwarden_json import_keepass_csv import_one
    import_all read_body import_incoming import_credentials
program = tt

-- `strip` for texts without blanks at their ends, but for a single blank.
abbrev strip : String → String
strip s = if str_eq s " " then "" else s

abbrev login : String → String → Value
login name password =
    obj (field "name" (text name) (field "login" (obj (field "password" (text password) end)) end))

abbrev items : Items
items = item (login "mail" "secret") (item (num 3) (item (login "mail" "other") no_items))

abbrev imported : List CredentialCreate
imported = create_password "mail" "secret" [] [] ∷ create_password "mail" "other" [] [] ∷ []

reads : import_bitwarden_json strip (arr items) ≡ some imported
unfolding program
reads = refl

-- A name that is one blank.
abbrev blank : Items
blank = item (login "mail" "secret") (item (login " " "secret") no_items)

import_bitwarden_json-all_taken_example : import_bitwarden_json strip (arr items) ≡ some imported
unfolding program
import_bitwarden_json-all_taken_example = import_bitwarden_json-all_taken strip items (omega arith)

is_gone : import_bitwarden_json strip (arr blank) ≡ none
unfolding program
is_gone = refl

tagged :
    import_keepass_csv strip
      ((("Title", "mail") ∷ ("Password", "secret") ∷ ("Tags", "a,,b") ∷ ("URL", "u") ∷ []) ∷ [])
    ≡ some (create_password "mail" "secret" (("url", "u") ∷ []) ("a" ∷ "b" ∷ []) ∷ [])
unfolding program
tagged = refl

abbrev read : ReadLib
read = record { strip = strip; reader = λ v. none; validate = λ fs. none }

abbrev empty : Db
empty = record { credentials = []; llm_keys = []; rotations = []; audit_logs = [] }

abbrev print_of : Bytes → String
print_of v = "f"

abbrev draw : Draw
draw = record { id = "d"; llm_id = "k"; nonce = nonce; now = 7; actor = "master" }

abbrev body : Value
body = obj (field "items" (arr items) end)

read_twice : read_body read "bitwarden" body ≡ incoming (map known imported)
unfolding program
read_twice = refl

-- The second of the same name is skipped.
counts :
    (import_credentials toy print_of
      (some (1 ∷ []))
      read
      empty
      body
      "bitwarden"
      (λ k. draw)
      "master"
      9).1
    ≡ answered (record { imported = 1; skipped = 1; errors = [] })
unfolding program
counts = refl

import_credentials-tallied_example :
    let (db', answer) =
      import_credentials toy print_of
        (some (1 ∷ []))
        read
        empty
        body
        "bitwarden"
        (λ k. draw)
        "master"
        9 in
    (n : Tally) × (answer ≡ answered n)
    × (n.imported + n.skipped + length n.errors ≡ 2)
    × (length db'.credentials ≡ 0 + n.imported)
    × AreKept empty db'
import_credentials-tallied_example =
    import_credentials-tallied toy print_of (some (1 ∷ [])) read empty body "bitwarden" (λ k. draw)
      "master" 9 (map known imported) read_twice
