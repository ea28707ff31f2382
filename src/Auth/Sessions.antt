-- ===== src/Auth/Sessions.antt =====
-- The sessions of keyhub/auth.py: a signed cookie that carries the epoch. The serializer of
-- `itsdangerous`, with the server's key, is a parameter; its times are seconds.
use key_hub.Common.{
  ℕ, ◌-◌, ◌≤◌, ◌≡◌, String, Bool, false, Option, none, some, leb, ◌==◌, if◌then◌else◌,
}
use key_hub.Runtime.State.{Server, get_session_epoch}

-- `SESSION_MAX_AGE`
abbrev pub session_max_age : ℕ
session_max_age = 604800

pub record Payload : Type 0 where
  pub sub : String
  pub ep : Option ℕ

-- `dumps` and `loads(token, max_age=SESSION_MAX_AGE)`, which is `none` where it raises
-- `BadSignature` or, for a cookie that is too old, its subclass `SignatureExpired`.
pub record SerializerLib : Type 0 where
  pub dumps : Payload → ℕ → String
  pub loads : String → ℕ → Option Payload
  pub loads-dumps :
      (p : Payload) (signed now : ℕ)
      → signed ≤ now
      → loads (dumps p signed) now ≡ (if leb (now - signed) session_max_age then some p else none)

module _ (lib : SerializerLib) where
  -- `create_session`
  unfoldable pub create_session : Server → String → ℕ → String
  create_session s subject now =
      lib.dumps (record { sub = subject; ep = some (get_session_epoch s) }) now

  -- `verify_session`; the -1 of a payload without an epoch is none that the server has.
  unfoldable pub verify_session : Server → String → ℕ → Bool
  verify_session s token now = elim (lib.loads token now) [
    | none ↦ false
    | some payload ↦ elim payload.ep [ none ↦ false | some ep ↦ ep == get_session_epoch s ]
  ]
