-- ===== src/Auth/Tests.antt =====
-- Tests and instances for keyhub/auth.py.
use key_hub.Common.{
  ◌≡◌, ◌⊎◌, refl, String, true, false, none, some, [], ◌∷◌, arith, find, change, is_some,
}
use key_hub.Common.Dict.{lookup, insert}
use key_hub.Models.{ApiToken}
use key_hub.Crypto.Toy.{toy}
use key_hub.Ratelimit.{check}
use key_hub.Runtime.State.{
  Server, Settings, is_initialized, bump_session_epoch, lock, unlock, open_vault,
}
use key_hub.Runtime.Toy.{toy_pw}
use key_hub.Auth.Scopes.{
  Text, same_text, starts_with, drop_last, ends_in_star, covers, scope_matches,
}
use key_hub.Auth.Sessions.{create_session, verify_session}
use key_hub.Auth.Toy.{toy_serializer}
use key_hub.Auth.Epoch.{unlocks, run, verify_session-locks}
use key_hub.Auth.Guard.{
  Web, Request, Clock, token, granted, denied, invalid_token, lacks_scope, has_hash, within_rate,
  by_token, by_session, require_auth, create_token, revoke_token,
}
use key_hub.Auth.Granted.{
  TokenPasses, SessionPasses, require_auth-granted, require_auth-revoke_token,
}

program : Unit {0}
unfolding is_initialized bump_session_epoch lock unlock open_vault same_text starts_with drop_last
    ends_in_star covers scope_matches create_session verify_session within_rate by_token by_session
    require_auth create_token revoke_token find change lookup insert check
program = tt

-- "llm:*" and "llm:chat"
abbrev llm_all : Text
llm_all = 108 ∷ 108 ∷ 109 ∷ 58 ∷ 42 ∷ []

abbrev llm_chat : Text
llm_chat = 108 ∷ 108 ∷ 109 ∷ 58 ∷ 99 ∷ 104 ∷ 97 ∷ 116 ∷ []

scopes :
    (scope_matches llm_chat (llm_all ∷ []) ≡ true) × (scope_matches llm_all (llm_chat ∷ []) ≡ false)
unfolding program
scopes = (refl, refl)

abbrev settings : Settings
settings = record {
  argon2_time_cost = 3;
  argon2_memory_cost = 2;
  argon2_parallelism = 1;
  secret_key = "";
}

abbrev server : Server
server = record {
  vault = some (record {
    params = record { salt = []; time_cost = 3; memory_cost = 2; parallelism = 1 };
    key = 1 ∷ [];
  });
  initialized = some true;
  kv = [];
  session_epoch = some (some 4);
  db = record { credentials = []; llm_keys = []; rotations = []; audit_logs = [] };
}

verify_session-locks_example :
    verify_session toy_serializer
      (run toy toy_pw settings
        (lock (run toy toy_pw settings server (unlocks "x" ∷ [])))
        (unlocks "p" ∷ []))
      (create_session toy_serializer server "master" 10)
      20
    ≡ false
verify_session-locks_example =
    verify_session-locks toy toy_pw settings toy_serializer server (unlocks "x" ∷ [])
      (unlocks "p" ∷ []) "master" 10 20 (omega arith)

abbrev digest : String → String
digest s = s

abbrev web : Web
web = record {
  server = server;
  tokens = [];
  limiter = record { requests = [] };
  audit_logs = [];
  last_activity = 0;
}

abbrev with_token : Web
with_token = (create_token 60 digest web "ci" (llm_all ∷ []) 1 "t" "khub_1" 1000).0

abbrev row : ApiToken
row = (create_token 60 digest web "ci" (llm_all ∷ []) 1 "t" "khub_1" 1000).1

abbrev request : Request
request = record { bearer = some "khub_1"; cookie = none }

abbrev clock : Clock
clock = record { now = 2000; seconds = 2; clock = 2000 }

passes :
    (require_auth 60 digest toy_serializer with_token request (some llm_chat) clock).1
    ≡ granted (token "t")
unfolding program
passes = refl

lacks :
    (require_auth 60 digest toy_serializer with_token request (some (97 ∷ [])) clock).1
    ≡ denied lacks_scope
unfolding program
lacks = refl

require_auth-granted_example :
    (is_initialized with_token.server ≡ true)
    × (is_some with_token.server.vault ≡ true)
    × (TokenPasses 60 digest with_token request (some llm_chat) clock (token "t")
        ⊎ SessionPasses 60 digest toy_serializer with_token request clock (token "t"))
require_auth-granted_example =
    require_auth-granted 60 digest toy_serializer with_token request (some llm_chat) clock
      (token "t") passes

found : find (has_hash "khub_1") with_token.tokens ≡ some row
unfolding program
found = refl

initialized : is_initialized with_token.server ≡ true
unfolding program
initialized = refl

require_auth-revoke_token_example :
    (require_auth 60 digest toy_serializer
      (revoke_token with_token "t" "master" 3000).0
      request
      (some llm_chat)
      clock).1
    ≡ denied invalid_token
unfolding create_token
require_auth-revoke_token_example =
    require_auth-revoke_token 60 digest toy_serializer with_token request (some llm_chat) clock
      "khub_1" "master" row 3000 initialized refl refl found
