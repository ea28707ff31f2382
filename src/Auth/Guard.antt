-- ===== src/Auth/Guard.antt =====
-- `require_auth` and the API tokens of keyhub/auth.py, with the revocation of keyhub/api/auth.py.
-- SHA-256 is a parameter. Times are milliseconds; the token limiter reads a clock of its own.
use key_hub.Common.{
  ℕ, ◌+◌, ◌*◌, String, str_eq, Bool, true, false, not, Option, none, some, List, [], ◌∷◌, ◌++◌, ltb,
  if◌then◌else◌, find, change, append,
}
use key_hub.Models.{ApiToken, AuditLog, audit, token_rate_limited, token_revoke}
use key_hub.Ratelimit.{TokenRateLimiter, check}
use key_hub.Runtime.State.{Server, is_initialized, noted}
use key_hub.Auth.Scopes.{Text, scope_matches}
use key_hub.Auth.Sessions.{SerializerLib, verify_session}

-- What a request to the server reads and writes.
pub record Web : Type 0 where
  pub server : Server
  pub tokens : List ApiToken
  pub limiter : TokenRateLimiter
  pub audit_logs : List AuditLog
  pub last_activity : ℕ

-- The bearer token and the session cookie of a request.
pub record Request : Type 0 where
  pub bearer : Option String
  pub cookie : Option String

-- `now` and `seconds` are the system's time, `clock` the monotonic one.
pub record Clock : Type 0 where
  pub now : ℕ
  pub seconds : ℕ
  pub clock : ℕ

-- "master", or f"token:{row.id}".
pub data Actor : Type 0 where
  master : Actor
  token : String → Actor

-- 503, then 401 but for the scope's 403 and the rate's 429.
pub data Denial : Type 0 where
  not_initialized locked invalid_token token_expired lacks_scope rate_limited : Denial
  not_authenticated : Denial

pub data Answer : Type 0 where
  granted : Actor → Answer
  denied : Denial → Answer

-- A text that is there and not empty.
abbrev pub given : Option String → Option String
given none = none
given (some s) = if str_eq s "" then none else some s

-- `row.expires_at and row.expires_at < datetime.utcnow()`
abbrev pub is_expired : Option ℕ → ℕ → Bool
is_expired none now = false
is_expired (some t) now = ltb t now

-- `required_scope and not _scope_matches(...)`
abbrev pub is_lacking : Option Text → List Text → Bool
is_lacking none scopes = false
is_lacking (some []) scopes = false
is_lacking (some (c ∷ s)) scopes = not (scope_matches (c ∷ s) scopes)

abbrev pub touch : ℕ → Web → Web
touch clock w = record w { last_activity = clock }

abbrev pub has_hash : String → ApiToken → Bool
has_hash h r = str_eq r.token_hash h

abbrev pub has_id : String → ApiToken → Bool
has_id id r = str_eq r.id id

module _ (rpm : ℕ) (digest : String → String) where
  -- The rate limit of a token whose row and scope are in order.
  unfoldable pub within_rate : Web → ApiToken → Clock → Web × Answer
  within_rate w r t =
      let (limiter, allowed, left) = check rpm w.limiter r.id t.clock in
      let w' = record w { limiter = limiter } in
      if allowed then (touch t.clock w', granted (token r.id)) else (
        record w' {
          audit_logs =
              audit token_rate_limited (append "token:" r.id) none false t.now w.audit_logs;
        },
        denied rate_limited,
      )

  -- The branch of a bearer token.
  unfoldable pub by_token : Web → String → Option Text → Clock → Web × Answer
  by_token w bearer required_scope t = elim (find (has_hash (digest bearer)) w.tokens) [
    | none ↦ (w, denied invalid_token)
    | some r ↦
        let w' = record w {
          tokens = change (has_id r.id) (λ u. record u { last_used_at = some t.now }) w.tokens;
        } in
        if r.revoked
        then (w, denied invalid_token)
        else (if is_expired r.expires_at t.now
            then (w, denied token_expired)
            else (if is_lacking required_scope r.scopes
                then (w', denied lacks_scope)
                else within_rate w' r t))
  ]

  -- The branch of a session cookie.
  unfoldable pub by_session : SerializerLib → Web → Option String → Clock → Web × Answer
  by_session ser w cookie t = elim cookie [
    | none ↦ (w, denied not_authenticated)
    | some c ↦
        if verify_session ser w.server c t.seconds
        then (touch t.clock w, granted master)
        else (w, denied not_authenticated)
  ]

  -- `require_auth`
  unfoldable pub require_auth : SerializerLib → Web → Request → Option Text → Clock → Web × Answer
  require_auth ser w request required_scope t =
      let w' = record w { server = noted w.server } in
      if is_initialized w.server
      then elim w.server.vault [
        | none ↦ (w', denied locked)
        | some v ↦ elim (given request.bearer) [
          | some bearer ↦ by_token w' bearer required_scope t
          | none ↦ by_session ser w' (given request.cookie) t
        ]
      ]
      else (w', denied not_initialized)

  -- `create_token`, with the id and the text that are drawn; 0 hours are none.
  unfoldable pub create_token : Web → String → List Text → ℕ → String → String → ℕ → Web × ApiToken
  create_token w name scopes expires_in_hours id raw now =
      let row : ApiToken = record {
        id = id;
        name = name;
        token_hash = digest raw;
        scopes = scopes;
        created_at = now;
        expires_at =
            if ltb 0 expires_in_hours then some (now + expires_in_hours * 3600000) else none;
        last_used_at = none;
        revoked = false;
      } in
      (record w { tokens = w.tokens ++ row ∷ [] }, row)

-- `revoke_token` of keyhub/api/auth.py; the answer is false where the token is not found.
unfoldable pub revoke_token : Web → String → String → ℕ → Web × Bool
revoke_token w token_id actor now = elim (find (has_id token_id) w.tokens) [
  | none ↦ (w, false)
  | some r ↦ (
    record w {
      tokens = change (has_id token_id) (λ u. record u { revoked = true }) w.tokens;
      audit_logs = audit token_revoke actor (some r.name) true now w.audit_logs;
    },
    true,
  )
]
