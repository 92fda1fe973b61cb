-- ===== src/ApiRegistry/Tests.antt =====
-- The theorems on the registry at concrete data. A handler is a text that it answers with.
use slixmpp_go.Common.{ℕ, ◌+◌, none, some, String, ◌==◌, ◌≡◌, refl, string_eq, if◌then◌else◌}
use slixmpp_go.Common.Dict
use slixmpp_go.Common.Result.{Result, ok, err}
use slixmpp_go.ApiRegistry.{
  ApiKey, ApiCall, ApiRegistry, ApiError, api_key_eq, new_api_registry, register, unregister, purge,
  resolve, run,
}
use slixmpp_go.ApiRegistry.Laws.{key_of, run-unregister, run-purge}

-- The state counts the calls.
abbrev answer : String → ApiCall String → ℕ → Result String String × ℕ
answer h c n = (ok h, n + 1)

abbrev lookup_call : ApiCall String
lookup_call = record {
  category = "roster";
  operation = "get";
  jid = "a@b";
  node = "n";
  from = "";
  args = "";
}

abbrev global : ApiKey
global = record { category = "roster"; operation = "get"; jid = ""; node = "" }

abbrev of_jid : ApiKey
of_jid = record { category = "roster"; operation = "get"; jid = "a@b"; node = "" }

abbrev registry : ApiRegistry String
registry = (register {E = String} global (some "global") new_api_registry).1

abbrev outcome : ApiRegistry String → Result (ApiError String) String × ℕ
outcome r = run answer lookup_call r 0

found_global : outcome registry ≡ (ok "global", 1)
unfolding run register resolve Dict.lookup Dict.insert string_eq api_key_eq
found_global = refl

found_jid : outcome (register {E = String} of_jid (some "of jid") registry).1 ≡ (ok "of jid", 1)
unfolding run register resolve Dict.lookup Dict.insert string_eq api_key_eq
found_jid = refl

no_error : (register {E = String} (key_of lookup_call) (some "exact") registry).0 ≡ none
unfolding register string_eq
no_error = refl

of_jid_free : Dict.lookup of_jid registry.handlers ≡ none
unfolding register Dict.lookup Dict.insert string_eq api_key_eq
of_jid_free = refl

run-unregister_example :
    run answer lookup_call
      (unregister of_jid (register {E = String} of_jid (some "of jid") registry).1)
      0
    ≡ run answer lookup_call registry 0
run-unregister_example = run-unregister answer of_jid "of jid" lookup_call registry 0 of_jid_free

abbrev none_found : ApiError String
none_found = ApiError.no_handler "roster" "get"

run-purge_example : run answer lookup_call (purge "roster" registry) 0 ≡ (
    if lookup_call.category == "roster"
    then (err none_found, 0)
    else run answer lookup_call registry 0)
run-purge_example = run-purge answer "roster" lookup_call registry 0
