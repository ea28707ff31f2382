-- ===== src/Proxy/Held.antt =====
-- What a round of `chat` in keyhub/llm/proxy.py holds, the slot of its key and a permit, it gives back.
use key_hub.Common.{
  ℕ, ◌+◌, ◌≡◌, refl, String, eq_iff, Bool, true, false, Option, none, some, [], ◌∷◌, ◌++◌, arith,
  leb, ◌==◌, if◌then◌else◌,
}
use key_hub.Models.{Bytes, LlmKey, Credential}
use key_hub.Store.Defs.{Outcome, ok, fail, reveal_raw}
use key_hub.Keylimit
use key_hub.Balancer.State.{Balancer, release}
use key_hub.Balancer.Mark.{mark_ok, mark_error, mark_rate_limited}
use key_hub.Balancer.Slots.{slots, slots-release, Freed, mark-Freed}
use key_hub.Balancer.Taken.{Taken}
use key_hub.Json.{Value, Fields}
use key_hub.Proxy.Request.{Call, build_request, tokens, value_error, other_error, parse_usage}
use key_hub.Proxy.World.{
  Env, World, Reply, answered, unreachable, Try, Progress, Step, again, finished, stopped, crashed,
  failed, give_permit, log_call,
}
use key_hub.Proxy.Attempt.{
  marked_error, marked_rate_limited, check_budget_exceeded, over_budget, succeed, give_up,
  be_limited, be_refused, be_answered, take_reply, send, credential_of, with_secret,
  with_credential, name_or_id, open_key, use_key,
}

-- A round that began with the slots `b0` and holds the last of `suc m` permits has given back what it
-- held, and has or has not fallen back.
abbrev pub Settled : Balancer → ℕ → Progress → World → Progress → Type 0
Settled b0 m p w p' =
    ((j : String) → slots w.balancer j ≡ slots b0 j)
    × (w.permits ≡ some (m + 1))
    × (p'.fallback_tried ≡ p.fallback_tried)

abbrev pub Ends : Balancer → ℕ → Progress → Step → Type 0
Ends b0 m p (again w p') = Settled b0 m p w p'
Ends b0 m p (finished w p' v) = Settled b0 m p w p'
Ends b0 m p (stopped w message) = Unit
Ends b0 m p (crashed w) = Unit

pub freed :
    (b0 b b' : Balancer) (k : LlmKey)
    → Taken (some k) b0 b
    → Freed b b' k.id
    → (j : String) → slots b' j ≡ slots b0 j
freed b0 b b' k held given j =
    ground (arith, held j, held k.id, given j, eq_iff k.id j, eq_iff k.id k.id)

-- `give_permit` where there is a limit.
pub given_back : (m : ℕ) (w : World) → w.permits ≡ some m → (give_permit w).permits ≡ some (m + 1)
given_back m w e = ground (arith, e)

module _ (env : Env) (b0 : Balancer) (m : ℕ) (key : LlmKey) where
  pub marked_error-slots :
      (w : World) (t : Try)
      → Taken (some key) b0 w.balancer
      → (j : String) → slots (marked_error env w key.id t).balancer j ≡ slots b0 j
  marked_error-slots w t held =
      let (_, given, _) = mark-Freed true w.balancer w.llm_keys t.marked_at key.id none none in
      freed b0 w.balancer (mark_error true w.balancer w.llm_keys t.marked_at key.id).0 key held
        given

  pub marked_rate_limited-slots :
      (w : World) (t : Try) (r : Option ℕ)
      → Taken (some key) b0 w.balancer
      → (j : String) → slots (marked_rate_limited env w key.id t r).balancer j ≡ slots b0 j
  marked_rate_limited-slots w t r held =
      let (_, _, given) = mark-Freed true w.balancer w.llm_keys t.marked_at key.id r none in
      freed b0 w.balancer (mark_rate_limited true w.balancer w.llm_keys t.marked_at key.id r).0 key
        held given

  give_up-Ends :
      (c : Call) (w : World) (p : Progress) (t : Try) (message : String) (sent : Bool)
      → Taken (some key) b0 w.balancer
      → w.permits ≡ some m
      → Ends b0 m p (give_up env c w p key.id t message sent)
  unfolding give_up log_call
  give_up-Ends c w p t message true held permits =
      (marked_error-slots w t held, given_back m w permits, refl)
  give_up-Ends c w p t message false held permits =
      (marked_error-slots w t held, given_back m w permits, refl)

  be_limited-Ends :
      (c : Call) (w : World) (p : Progress) (t : Try) (r : Option ℕ) (json : Option Value)
      → Taken (some key) b0 w.balancer
      → w.permits ≡ some m
      → Ends b0 m p (be_limited env c w p key.id t r json)
  unfolding be_limited log_call
  be_limited-Ends c w p t r json held permits =
      (marked_rate_limited-slots w t r held, given_back m w permits, refl)

  be_refused-Ends :
      (c : Call) (w : World) (p : Progress) (t : Try) (message : String)
      → Taken (some key) b0 w.balancer
      → w.permits ≡ some m
      → Ends b0 m p (be_refused env c w p key.id t message)
  unfolding be_refused log_call
  be_refused-Ends c w p t message held permits =
      (marked_error-slots w t held, given_back m w permits, refl)

  succeed-Ends :
      (c : Call) (w : World) (p : Progress) (t : Try) (v : Value) (i o : ℕ)
      → Taken (some key) b0 w.balancer
      → w.permits ≡ some m
      → Ends b0 m p (succeed env c w p key.id t v i o)
  unfolding succeed log_call mark_ok
  succeed-Ends c w p t v i o held permits =
      let (given, _, _) =
        mark-Freed true w.balancer w.llm_keys t.marked_at key.id none (some t.latency_ms) in
      (
        freed b0 w.balancer (mark_ok true w.balancer w.llm_keys key.id (some t.latency_ms)).0 key
            held given,
        given_back m w permits,
        refl,
      )

  be_answered-Ends :
      (c : Call) (w : World) (p : Progress) (t : Try) (json : Option Value)
      → Taken (some key) b0 w.balancer
      → w.permits ≡ some m
      → Ends b0 m p (be_answered env c w p key.id t json)
  unfolding be_answered
  be_answered-Ends c w p t none held permits = give_up-Ends c w p t t.parse_error true held permits
  be_answered-Ends c w p t (some v) held permits =
      elim (parse_usage env.int_text p.current_cfg v)
        as (λ counted. Ends b0 m p (elim counted [
          | tokens i o ↦ succeed env c w p key.id t v i o
          | value_error ↦ give_up env c w p key.id t t.parse_error true
          | other_error ↦ crashed w
        ])) [
          | tokens i o ↦ succeed-Ends c w p t v i o held permits
          | value_error ↦ give_up-Ends c w p t t.parse_error true held permits
          | other_error ↦ tt
        ]

  if-Ends :
      (p : Progress) (test : Bool) (x y : Step)
      → Ends b0 m p x
      → Ends b0 m p y
      → Ends b0 m p (if test then x else y)
  if-Ends p true x y hx hy = hx
  if-Ends p false x y hx hy = hy

  take_reply-Ends :
      (c : Call) (w : World) (p : Progress) (t : Try) (reply : Reply)
      → Taken (some key) b0 w.balancer
      → w.permits ≡ some m
      → Ends b0 m p (take_reply env c w p key.id t reply)
  unfolding take_reply
  take_reply-Ends c w p t (unreachable message) held permits =
      give_up-Ends c w p t message false held permits
  take_reply-Ends c w p t (answered status r json body) held permits =
      if-Ends p (status == 429) _ _ (be_limited-Ends c w p t r json held permits) (
        if-Ends p (leb 400 status) _ _ (be_refused-Ends c w p t _ held permits)
          (be_answered-Ends c w p t json held permits))

  send-Ends :
      (c : Call) (w : World) (p : Progress) (t : Try) (api_key : Bytes) (body : Fields)
      → Taken (some key) b0 w.balancer
      → w.permits ≡ some m
      → Ends b0 m p (send env c w p key t api_key body)
  unfolding send
  send-Ends c w p t api_key body held permits =
      elim (build_request p.current_cfg api_key body)
        as (λ built. Ends b0 m p (elim built [
          | none ↦ crashed w
          | some request ↦
              take_reply env c (record w { sent = w.sent ++ request ∷ [] }) p key.id t t.reply
        ])) [
          | none ↦ tt
          | some request ↦
              take_reply-Ends c (record w { sent = w.sent ++ request ∷ [] }) p t t.reply held
                permits
        ]

  with_secret-Ends :
      (c : Call) (w : World) (p : Progress) (t : Try) (body : Fields) (secret : Outcome Bytes)
      → Taken (some key) b0 w.balancer
      → w.permits ≡ some m
      → Ends b0 m p (with_secret env c w p key t body secret)
  unfolding with_secret
  with_secret-Ends c w p t body (fail e) held permits = tt
  with_secret-Ends c w p t body (ok api_key) held permits =
      send-Ends c w p t api_key body held permits

  open_key-Ends :
      (c : Call) (w : World) (p : Progress) (cred : Credential) (t : Try) (body : Fields)
      → Taken (some key) b0 w.balancer
      → w.permits ≡ some m
      → Ends b0 m p (open_key env c w p key cred t body)
  unfolding open_key
  open_key-Ends c w p cred t body held permits =
      let (limiter, allowed, _, _) = Keylimit.check env.limits w.limiter key.id 0 t.checked_at in
      let w' : World = record w { limiter = limiter } in
      let secret =
        reveal_raw env.crypto w.vault key.id cred.encrypted_value (name_or_id env cred key.id) in
      if-Ends p allowed (with_secret env c w' p key t body secret)
        (again (give_permit (marked_rate_limited env w' key.id t (some 10000)))
          (failed p "key rate limit exceeded"))
        (with_secret-Ends c w' p t body secret held permits)
        (marked_rate_limited-slots w' t (some 10000) held, given_back m w' permits, refl)

  with_credential-Ends :
      (c : Call) (w : World) (p : Progress) (t : Try) (body : Fields) (cred : Option Credential)
      → Taken (some key) b0 w.balancer
      → w.permits ≡ some m
      → Ends b0 m p (with_credential env c w p key t body cred)
  unfolding with_credential
  with_credential-Ends c w p t body none held permits =
      (marked_error-slots w t held, given_back m w permits, refl)
  with_credential-Ends c w p t body (some cred) held permits =
      open_key-Ends c w p cred t body held permits

  pub use_key-Ends :
      (c : Call) (w : World) (p : Progress) (t : Try) (body : Fields)
      → Taken (some key) b0 w.balancer
      → w.permits ≡ some m
      → Ends b0 m p (use_key env c w p key t body)
  unfolding use_key check_budget_exceeded
  use_key-Ends c w p t body held permits =
      let w' = check_budget_exceeded env w key t in
      if-Ends p (over_budget env key)
        (again (give_permit (record w' { balancer = release w'.balancer key.id })) p)
        (with_credential env c w p key t body (credential_of env w key.id))
        (
          freed b0 w.balancer (release w.balancer key.id) key held
              (slots-release w.balancer key.id),
          given_back m w permits,
          refl,
        )
        (with_credential-Ends c w p t body (credential_of env w key.id) held permits)
