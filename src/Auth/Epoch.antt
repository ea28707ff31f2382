-- ===== src/Auth/Epoch.antt =====
-- How long a session of keyhub/auth.py lives while keyhub/runtime.py runs.
use key_hub.Common.{
  ℕ, ◌+◌, ◌-◌, ◌≤◌, ◌≡◌, refl, String, Bool, false, some, List, [], ◌∷◌, arith, leb, ◌==◌,
  if◌then◌else◌, map,
}
use key_hub.Models.{Bytes}
use key_hub.Crypto.{CryptoLib}
use key_hub.Runtime.State.{
  PasswordLib, Server, Settings, get_session_epoch, bump_session_epoch, initialize, unlock,
  open_vault, lock,
}
use key_hub.Runtime.Change.{
  Random, reencrypt_body, session_scope, swap_vault, write_rows, reencrypt_with,
  change_master_password_on, change_master_password,
}
use key_hub.Auth.Sessions.{session_max_age, SerializerLib, create_session, verify_session}

-- A call of the runtime.
pub data Call : Type 0 where
  initializes : String → Bytes → Bytes → Call
  unlocks : String → Call
  locks : Call
  changes : String → String → Random → Bool → Call

module _ (lib : CryptoLib) (pw : PasswordLib) (settings : Settings) where
  abbrev pub step : Server → Call → Server
  step s (initializes password salt hash_salt) =
      (initialize pw settings s password salt hash_salt).0
  step s (unlocks password) = (unlock pw settings s password).0
  step s locks = lock s
  step s (changes old new draw reencrypts) =
      (change_master_password lib pw settings s old new draw reencrypts).0

  pub run : Server → List Call → Server
  run s [] = s
  run s (c ∷ cs) = run (step s c) cs

  unlock-epoch :
      (s : Server) (password : String)
      → (unlock pw settings s password).0.session_epoch ≡ s.session_epoch
  unfolding unlock open_vault
  unlock-epoch s password = ground arith

  initialize-epoch :
      (s : Server) (password : String) (salt hash_salt : Bytes)
      → (initialize pw settings s password salt hash_salt).0.session_epoch ≡ s.session_epoch
  unfolding initialize
  initialize-epoch s password salt hash_salt = ground arith

  change-epoch :
      (s : Server) (old new : String) (draw : Random) (reencrypts : Bool)
      → get_session_epoch s
        ≤ get_session_epoch (change_master_password lib pw settings s old new draw reencrypts).0
  unfolding change_master_password change_master_password_on reencrypt_with reencrypt_body
      session_scope swap_vault write_rows bump_session_epoch
  change-epoch s old new draw reencrypts = ground arith

  step-epoch : (s : Server) (c : Call) → get_session_epoch s ≤ get_session_epoch (step s c)
  unfolding lock bump_session_epoch
  step-epoch s (initializes password salt hash_salt) =
      ground (arith, initialize-epoch s password salt hash_salt)
  step-epoch s (unlocks password) = ground (arith, unlock-epoch s password)
  step-epoch s locks = ground arith
  step-epoch s (changes old new draw reencrypts) = change-epoch s old new draw reencrypts

  run-epoch : (cs : List Call) (s : Server) → get_session_epoch s ≤ get_session_epoch (run s cs)
  unfolding run
  run-epoch [] s = omega arith
  run-epoch (c ∷ cs) s = omega (arith, step-epoch s c, run-epoch cs (step s c))

  lock-epoch : (s : Server) → get_session_epoch (lock s) ≡ get_session_epoch s + 1
  unfolding lock bump_session_epoch
  lock-epoch s = ground arith

  verify-create :
      (ser : SerializerLib) (s t : Server) (subject : String) (signed now : ℕ)
      → signed ≤ now
      → verify_session ser t (create_session ser s subject signed) now ≡ (
          if leb (now - signed) session_max_age
          then get_session_epoch s == get_session_epoch t
          else false)
  unfolding verify_session create_session
  verify-create ser s t subject signed now after = ground (
    arith,
    ser.loads-dumps (record { sub = subject; ep = some (get_session_epoch s) }) signed now after,
  )

  -- A session from before a lock is refused ever after, whatever the runtime does before the lock
  -- and later: unlocking again does not bring it back.
  pub verify_session-locks :
      (ser : SerializerLib) (s : Server) (before after : List Call) (subject : String)
      (signed now : ℕ)
      → signed ≤ now
      → verify_session ser
          (run (lock (run s before)) after)
          (create_session ser s subject signed)
          now
        ≡ false
  verify_session-locks ser s before after subject signed now le =
      let end = run (lock (run s before)) after in
      ground (
        arith,
        verify-create ser s end subject signed now le,
        run-epoch before s,
        lock-epoch (run s before),
        run-epoch after (lock (run s before)),
      )

  unlocks-epoch :
      (passwords : List String) (s : Server)
      → get_session_epoch (run s (map unlocks passwords)) ≡ get_session_epoch s
  unfolding run
  unlocks-epoch [] s = refl
  unlocks-epoch (p ∷ ps) s = ground (arith, unlock-epoch s p, unlocks-epoch ps (step s (unlocks p)))

  -- While no more than attempts to unlock happen, a session is taken for its seven days exactly.
  pub verify_session-unlocks :
      (ser : SerializerLib) (s : Server) (passwords : List String) (subject : String)
      (signed now : ℕ)
      → signed ≤ now
      → verify_session ser (run s (map unlocks passwords)) (create_session ser s subject signed) now
        ≡ leb (now - signed) 604800
  verify_session-unlocks ser s passwords subject signed now le =
      let end = run s (map unlocks passwords) in
      ground (arith, verify-create ser s end subject signed now le, unlocks-epoch passwords s)
