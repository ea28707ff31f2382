-- ===== src/Backup/Framing.antt =====
-- The file of a backup (keyhub/backup.py) is read as it was written.
use key_hub.Common.{ℕ, ◌/◌, ◌%◌, ◌<◌, ◌≡◌, sym, ap, ◌∙◌, ◌++◌, arith, length, take, drop}
use key_hub.Models.{Bytes}
use key_hub.Crypto.Envelope.{take_left, drop_left}
use key_hub.Backup.Frame.{
  BackupFile, write_file, read_file, read_version, read_parts, pack_length, unpack_length, file,
}

pub unpack-pack_length :
    (n : ℕ)
    → n < 4294967296
    → unpack_length (n / 16777216) (n / 65536 % 256) (n / 256 % 256) (n % 256) ≡ n
unpack-pack_length n small = omega arith

pub cut :
    (n : ℕ) (params nonce ct : Bytes)
    → length params ≡ n
    → length nonce ≡ 12
    → (take n (params ++ (nonce ++ ct)) ≡ params)
      × (take 12 (drop n (params ++ (nonce ++ ct))) ≡ nonce)
      × (drop 12 (drop n (params ++ (nonce ++ ct))) ≡ ct)
cut n params nonce ct size twelve =
    let rest = drop_left n params (nonce ++ ct) size in
    (
      take_left n params (nonce ++ ct) size,
      ap (take 12) rest ∙ take_left 12 nonce ct twelve,
      ap (drop 12) rest ∙ drop_left 12 nonce ct twelve,
    )

pub read-write_file :
    (f : BackupFile)
    → length f.params_json < 4294967296
    → length f.nonce ≡ 12
    → read_file (write_file f) ≡ file f
unfolding read_file write_file read_version read_parts pack_length
read-write_file f small twelve =
    let n =
      unpack_length (length f.params_json / 16777216) (length f.params_json / 65536 % 256)
        (length f.params_json / 256 % 256) (length f.params_json % 256) in
    let (p, q, r) =
      cut n f.params_json f.nonce f.ciphertext
        (sym (unpack-pack_length (length f.params_json) small)) twelve in
    λ i. file (record { params_json = p i; nonce = q i; ciphertext = r i })
