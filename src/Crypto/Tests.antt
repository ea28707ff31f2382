-- ===== src/Crypto/Tests.antt =====
-- Instances of the theorems on the vault, with a concrete cipher.
use key_hub.Common.{◌≡◌, refl, some, [], ◌∷◌}
use key_hub.Models.{Bytes}
use key_hub.Crypto.{ok, encrypt, decrypt_bytes}
use key_hub.Crypto.Envelope.{decrypt_bytes-encrypt}
use key_hub.Crypto.Toy.{toy, nonce}

abbrev key : Bytes
key = 1 ∷ []

abbrev secret : Bytes
secret = 115 ∷ 51 ∷ []

abbrev context : Bytes
context = 1 ∷ []

abbrev elsewhere : Bytes
elsewhere = 2 ∷ []

decrypt_bytes-encrypt_example :
    decrypt_bytes toy key (encrypt toy key nonce secret (some context)) (some context) ≡ ok secret
decrypt_bytes-encrypt_example = decrypt_bytes-encrypt toy key nonce refl secret context
