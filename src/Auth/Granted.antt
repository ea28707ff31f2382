-- ===== src/Auth/Granted.antt =====
-- Who passes `require_auth` of keyhub/auth.py, and that a revoked token does not.
use key_hub.Common.{
  ℕ, ◌≡◌, ◌⊎◌, inl, inr, refl, ap, String, eq_iff, Bool, true, false, Option, none, some, List, [],
  ◌∷◌, arith, if◌then◌else◌, find, change, Bool-cases, Option-cases, is_some,
}
use key_hub.Models.{ApiToken}
use key_hub.Ratelimit.{check}
use key_hub.Runtime.State.{is_initialized, noted}
use key_hub.Auth.Scopes.{Text}
use key_hub.Auth.Sessions.{SerializerLib, verify_session}
use key_hub.Auth.Guard.{
  Web, Request, Clock, Actor, master, token, granted, denied, invalid_token, given, is_expired,
  is_lacking, has_hash, has_id, within_rate, by_token, by_session, require_auth, revoke_token,
}

module _ (rpm : ℕ) (digest : String → String) where
  -- A request has a bearer token with a row that is neither revoked nor expired, whose scopes cover
  -- what is asked, and whose rate is within the limit.
  pub TokenPasses : Web → Request → Option Text → Clock → Actor → Type 0
  TokenPasses w request required_scope t actor =
      (bearer : String) × (r : ApiToken) × (given request.bearer ≡ some bearer)
      × (find (has_hash (digest bearer)) w.tokens ≡ some r)
      × (r.revoked ≡ false)
      × (is_expired r.expires_at t.now ≡ false)
      × (is_lacking required_scope r.scopes ≡ false)
      × ((check rpm w.limiter r.id t.clock).1 ≡ true)
      × (actor ≡ token r.id)

  -- A request has no bearer token, and a cookie with a session that verifies.
  pub SessionPasses : SerializerLib → Web → Request → Clock → Actor → Type 0
  SessionPasses ser w request t actor =
      (cookie : String) × (given request.bearer ≡ none)
      × (given request.cookie ≡ some cookie)
      × (verify_session ser (noted w.server) cookie t.seconds ≡ true)
      × (actor ≡ master)

  by_token-TokenPasses :
      (w : Web) (request : Request) (required_scope : Option Text) (t : Clock) (actor : Actor)
      (bearer : String)
      → given request.bearer ≡ some bearer
      → (by_token rpm digest (record w { server = noted w.server }) bearer required_scope t).1
        ≡ granted actor
      → TokenPasses w request required_scope t actor
  unfolding by_token within_rate TokenPasses
  by_token-TokenPasses w request required_scope t actor bearer there e =
      elim (Option-cases (find (has_hash (digest bearer)) w.tokens)) [
        | inl no_row ↦ absurd (ground (arith, no_row))
        | inr (r, row) ↦ (
          bearer,
          r,
          there,
          row,
          ground (arith, row, e),
          ground (arith, row, e),
          ground (arith, row, e),
          ground (arith, row, e),
          ground (arith, row, e),
        )
      ]

  by_session-SessionPasses :
      (ser : SerializerLib) (w : Web) (request : Request) (t : Clock) (actor : Actor)
      → given request.bearer ≡ none
      → (by_session rpm digest ser
          (record w { server = noted w.server })
          (given request.cookie)
          t).1
        ≡ granted actor
      → SessionPasses ser w request t actor
  unfolding by_session SessionPasses
  by_session-SessionPasses ser w request t actor absent e =
      elim (Option-cases (given request.cookie)) [
        | inl no_cookie ↦ absurd (ground (arith, no_cookie))
        | inr (c, there) ↦ (c, absent, there, ground (arith, there, e), ground (arith, there, e))
      ]

  -- Whoever passes `require_auth` does so on an initialized and unlocked server, by a token in order
  -- or, without a token, by a session that verifies.
  pub require_auth-granted :
      (ser : SerializerLib) (w : Web) (request : Request) (required_scope : Option Text) (t : Clock)
      (actor : Actor)
      → (require_auth rpm digest ser w request required_scope t).1 ≡ granted actor
      → (is_initialized w.server ≡ true)
        × (is_some w.server.vault ≡ true)
        × (TokenPasses w request required_scope t actor ⊎ SessionPasses ser w request t actor)
  unfolding require_auth
  require_auth-granted ser w request required_scope t actor e =
      let init : is_initialized w.server ≡ true = ground arith in
      elim (Option-cases w.server.vault) [
        | inl shut ↦ absurd (ground (arith, shut, init))
        | inr (v, is_open) ↦ (
          init,
          ap is_some is_open,
          elim (Option-cases (given request.bearer)) [
            | inl absent ↦ inr (
                by_session-SessionPasses ser w request t actor absent
                  (ground (arith, init, is_open, absent, e)))
            | inr (bearer, there) ↦ inl (
                by_token-TokenPasses w request required_scope t actor bearer there
                  (ground (arith, init, is_open, there, e)))
          ],
        )
      ]

  find-change_kept :
      (p q : ApiToken → Bool) (f : ApiToken → ApiToken) (xs : List ApiToken) (r : ApiToken)
      → ((x : ApiToken) → p (f x) ≡ p x)
      → find p xs ≡ some r
      → find p (change q f xs) ≡ some (if q r then f r else r)
  unfolding find change
  find-change_kept p q f [] r same e = cc
  find-change_kept p q f (x ∷ xs) r same e =
      ground (arith, same x, find-change_kept p q f xs r same)

  find-some :
      (p q : ApiToken → Bool) (xs : List ApiToken) (r : ApiToken)
      → find p xs ≡ some r
      → q r ≡ true
      → (y : ApiToken) × (find q xs ≡ some y)
  unfolding find
  find-some p q [] r e t = cc
  find-some p q (x ∷ xs) r e t = elim (Bool-cases (q x)) [
    | inl here ↦ (x, ground (arith, here))
    | inr not_here ↦
        let (y, later) = find-some p q xs r (ground (arith, not_here)) t in
        (y, ground (arith, not_here, later))
  ]

  -- A token that is revoked passes no more, on a server that is initialized and unlocked: the
  -- request is refused as one with an invalid token, even if it has a session too.
  pub require_auth-revoke_token :
      (ser : SerializerLib) (w : Web) (request : Request) (required_scope : Option Text) (t : Clock)
      (bearer by : String) (r : ApiToken) (now : ℕ)
      → is_initialized w.server ≡ true
      → is_some w.server.vault ≡ true
      → given request.bearer ≡ some bearer
      → find (has_hash (digest bearer)) w.tokens ≡ some r
      → (require_auth rpm digest ser (revoke_token w r.id by now).0 request required_scope t).1
        ≡ denied invalid_token
  unfolding require_auth revoke_token by_token
  require_auth-revoke_token ser w request required_scope t bearer by r now init is_open there row =
      let (y, by_id) =
        find-some (has_hash (digest bearer)) (has_id r.id) w.tokens r row
          (ground (arith, eq_iff r.id r.id)) in
      let revoked : ApiToken → ApiToken = λ u. record u { revoked = true } in
      let after =
        find-change_kept (has_hash (digest bearer)) (has_id r.id) revoked w.tokens r (λ x. refl)
          row in
      ground (arith, init, is_open, there, by_id, after, eq_iff r.id r.id)
