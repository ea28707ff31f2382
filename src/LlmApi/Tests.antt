-- ===== src/LlmApi/Tests.antt =====
-- Tests and instances for keyhub/api/llm.py.
use key_hub.Common.{◌≡◌, refl, true, [], ◌∷◌, find, strip_slashes}
use key_hub.Common.Dict.{lookup, insert}
use key_hub.Crypto
use key_hub.Models.{disabled}
use key_hub.Store.Defs.{reveal_raw, utf8, make_aad}
use key_hub.Balancer.State.{count_of, acquire, release, on_success}
use key_hub.Balancer.Mark.{update_key, mark_ok}
use key_hub.Balancer.Slots.{slots}
use key_hub.Providers.{get_provider}
use key_hub.Proxy.Attempt.{credential_of}
use key_hub.Proxy.World.{World}
use key_hub.Proxy.Toy.{env, key, old, try}
use key_hub.LlmApi.{tested, set_key_status, report_test, test_secret, test_cfg, test_row, test_key}
use key_hub.LlmApi.Tested.{test_key-LosesSlot}

program : Unit {0}
unfolding lookup insert find reveal_raw utf8 make_aad count_of acquire release on_success update_key
    mark_ok get_provider credential_of set_key_status report_test test_secret test_cfg test_row
    test_key strip_slashes Crypto.decrypt_bytes Crypto.encrypt Crypto.open_v0
program = tt

-- The key is in use by a call.
abbrev busy : World
busy = record old { balancer = acquire old.balancer "k" }

passes : (test_key env busy "k" try "master" 5).1 ≡ tested true 90
unfolding program
passes = refl

test_key-LosesSlot_example : slots (test_key env busy "k" try "master" 5).0.balancer "k" ≡ 0
unfolding program
test_key-LosesSlot_example = test_key-LosesSlot env busy "k" try "master" 5 "k"

switched_off :
    (set_key_status old "k" disabled "master" 5).0.llm_keys ≡ record key { status = disabled } ∷ []
unfolding program
switched_off = refl
