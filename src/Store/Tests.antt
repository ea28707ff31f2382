-- ===== src/Store/Tests.antt =====
-- Tests and instances for the store (keyhub/store.py), with the concrete cipher.
use key_hub.Common.{
  ◌≡◌, ◌≢◌, refl, String, str_eq, eq_iff, true, false, none, some, [], ◌∷◌, arith, find, change,
  Memᴰ,
}
use key_hub.Models.{Bytes, CredentialType, Credential}
use key_hub.Crypto
use key_hub.Crypto.Toy.{toy, nonce}
use key_hub.Store.Defs.{Db, ok, utf8, make_aad, has_name}
use key_hub.Store.Rows.{CredentialCreate, Draw, add_llm_key, new_credential}
use key_hub.Store.Ops.{
  create_credential, get_credential, reveal_credential, update_credential, rotate_credential,
  delete_credential, rollback_credential,
}
use key_hub.Store.Reveal.{reveal-create}

program : Unit {0}
unfolding add_llm_key create_credential get_credential reveal_credential update_credential
    rotate_credential delete_credential rollback_credential find change
program = tt

abbrev key : Bytes
key = 1 ∷ []

abbrev print_of : Bytes → String
print_of v = "f"

abbrev empty : Db
empty = record { credentials = []; llm_keys = []; rotations = []; audit_logs = [] }

abbrev draw : String → Draw
draw id = record { id = id; llm_id = "k"; nonce = nonce; now = 7; actor = "master" }

abbrev input : CredentialCreate
input = record {
  name = "mail";
  type = CredentialType.password;
  value = 5 ∷ 6 ∷ [];
  metadata = [];
  expires_at = none;
  rotation_days = none;
  tags = [];
  provider = none;
  label = none;
  allowed_models = [];
  priority = 0;
  weight = 1;
  monthly_budget_usd = 0;
}

abbrev blob : Bytes
blob = Crypto.encrypt toy key nonce (5 ∷ 6 ∷ []) (some (make_aad "c" "mail"))

abbrev mail : Credential
mail = new_credential input (draw "c") blob

abbrev db : Db
db = record empty { credentials = mail ∷ [] }

created : (create_credential toy print_of (some key) empty input (draw "c")).1 ≡ ok mail
unfolding program
created = refl

reveal-create_example :
    (reveal_credential toy print_of
      (some key)
      (create_credential toy print_of (some key) empty input (draw "c")).0
      "mail"
      (draw "d")).1
    ≡ ok (5 ∷ 6 ∷ [])
reveal-create_example =
    reveal-create toy print_of key empty input (draw "c") (draw "d") mail refl created

found_mail : find (has_name "mail") db.credentials ≡ some mail
unfolding program
found_mail = refl

no_version : find {A = key_hub.Models.RotationLog} (λ log. true) [] ≡ none
unfolding program
no_version = refl

only_mail :
    (y : Credential) → Memᴰ y (mail ∷ []) → str_eq y.id "c" ≡ false → has_name "mail" y ≡ false
only_mail y (Memᴰ.head e) h = ground (arith, eq_iff y.id "c")
only_mail y (Memᴰ.tail m) h = elim m [ ]

other_ids : utf8 "c" ≢ utf8 "k"
unfolding utf8
other_ids e = ground arith
