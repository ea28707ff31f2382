-- ===== src/Crypto.antt =====
-- keyhub/crypto.py: the vault. Bytes are numbers. AES-GCM and zlib are a record of operations with
-- their documented laws; `os.urandom` comes in as the nonce.
pub mod Envelope
pub mod Toy
mod Tests
use key_hub.Common.{
  ℕ, ◌+◌, ◌%◌, ◌≤◌, ◌≡◌, ◌≢◌, Bool, true, false, Option, none, some, List, [], ◌∷◌, ◌++◌, ltb, ◌==◌,
  if◌then◌else◌, length, take, drop, get_elem?,
}
use key_hub.Models.{Bytes}

-- `AESGCM` of `cryptography` (no associated data is the empty one) and `zlib`. `open_box` is `none`
-- where `decrypt` raises `InvalidTag`, and `decompress` where `zlib.error` is raised.
pub record CryptoLib : Type 0 where
  pub seal : Bytes → Bytes → Bytes → Bytes → Bytes
  pub open_box : Bytes → Bytes → Bytes → Bytes → Option Bytes
  pub compress : Bytes → Bytes
  pub decompress : Bytes → Option Bytes
  -- Decryption with the same key, nonce and data gives the plaintext back.
  pub open-seal :
      (key nonce pt aad : Bytes) → open_box key nonce (seal key nonce pt aad) aad ≡ some pt
  -- Other associated data are refused.
  pub authentic :
      (key nonce pt aad aad' : Bytes)
      → aad ≢ aad'
      → open_box key nonce (seal key nonce pt aad) aad' ≡ none
  -- The tag has 16 bytes.
  pub tag_bytes : (key nonce pt aad : Bytes) → 16 ≤ length (seal key nonce pt aad)
  pub inflate : (pt : Bytes) → decompress (compress pt) ≡ some pt

abbrev pub nonce_len : ℕ
nonce_len = 12

abbrev pub compress_threshold : ℕ
compress_threshold = 256

pub data CryptoError : Type 0 where
  too_short invalid_tag zlib_error : CryptoError

pub data Result (A : Type 0) : Type 0 where
  ok : A → Result A
  err : CryptoError → Result A

-- b"keyhub-v1|"
abbrev pub v1_prefix : Bytes
v1_prefix = 107 ∷ 101 ∷ 121 ∷ 104 ∷ 117 ∷ 98 ∷ 45 ∷ 118 ∷ 49 ∷ 124 ∷ []

-- b"keyhub-v1|" + aad + b"|" + bytes([flag])
unfoldable pub v1_aad : Bytes → ℕ → Bytes
v1_aad aad flag = v1_prefix ++ (aad ++ 124 ∷ flag ∷ [])

abbrev pub or_err : Option Bytes → CryptoError → Result Bytes
or_err none e = err e
or_err (some pt) e = ok pt

module _ (lib : CryptoLib) where
  -- The compression step of `encrypt`: the bytes to seal, and whether they are compressed.
  unfoldable pub pack : Bytes → Bytes × Bool
  pack pt =
      let small = lib.compress pt in
      if ltb compress_threshold (length pt)
      then (if ltb (length small) (length pt) then (small, true) else (pt, false))
      else (pt, false)

  -- `CryptoVault.encrypt` under the vault's key; with no associated data it is the old format.
  unfoldable pub encrypt : Bytes → Bytes → Bytes → Option Bytes → Bytes
  encrypt key nonce pt none = nonce ++ lib.seal key nonce pt []
  encrypt key nonce pt (some aad) =
      let (packed, compressed) = pack pt in
      let flag : ℕ = if compressed then 1 else 0 in
      1 ∷ flag ∷ (nonce ++ lib.seal key nonce packed (v1_aad aad flag))

  -- `if compressed: pt = zlib.decompress(pt)`
  unfoldable pub unpack : Bool → Option Bytes → Result Bytes
  unpack compressed none = err invalid_tag
  unpack true (some pt) = or_err (lib.decompress pt) zlib_error
  unpack false (some pt) = ok pt

  -- The two branches of `decrypt_bytes`.
  unfoldable pub open_v1 : Bytes → ℕ → Bytes → Option Bytes → Result Bytes
  open_v1 key flag rest aad =
      let bound : Bytes = elim aad [ none ↦ [] | some a ↦ a ] in
      unpack (flag % 2 == 1)
        (lib.open_box key (take nonce_len rest) (drop nonce_len rest) (v1_aad bound flag))

  unfoldable pub open_v0 : Bytes → Bytes → Result Bytes
  open_v0 key blob =
      or_err (lib.open_box key (take nonce_len blob) (drop nonce_len blob) []) invalid_tag

  -- `CryptoVault.decrypt_bytes`
  unfoldable pub decrypt_bytes : Bytes → Bytes → Option Bytes → Result Bytes
  decrypt_bytes key [] aad = err too_short
  decrypt_bytes key (b ∷ []) aad = err too_short
  decrypt_bytes key (version ∷ flag ∷ rest) aad =
      if ltb (length (version ∷ flag ∷ rest)) (nonce_len + 16)
      then err too_short
      else (if version == 1
          then (if ltb (length (version ∷ flag ∷ rest)) (2 + nonce_len + 16)
              then err too_short
              else open_v1 key flag rest aad)
          else open_v0 key (version ∷ flag ∷ rest))
