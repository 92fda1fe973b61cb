-- ===== src/Matchers/Tests.antt =====
-- The theorems on matchers at concrete data.
use slixmpp_go.Common.{
  ◌≡◌, ◌↔◌, refl, true, false, Option, none, some, List, [], ◌∷◌, ◌==◌, string_eq,
}
use slixmpp_go.Common.Text.{Unicode}
use slixmpp_go.Node.{Node, new_node}
use slixmpp_go.Stanza.{Stanza, iq}
use slixmpp_go.Matchers.{Matcher, match_and, match_iq_type, match_payload, any_named}
use slixmpp_go.Matchers.Payload.{IsPayloadOf, HasName, match_payload-HasName}

abbrev tables : Unicode
tables = record { is_space = λ c. false; to_lower = λ c. c; equal_fold = λ s t. s == t }

abbrev push : Stanza
push = iq (record {
  from = "a@b/c";
  to = "";
  id = "1";
  kind = "set";
  payloads = new_node "jabber:iq:roster" "query" ∷ [];
  error = none;
})

-- The matcher of the roster pushes, with a nil among its parts.
abbrev push_parts : List (Option Matcher)
push_parts =
    some (match_iq_type "set") ∷ none ∷ some (match_payload "jabber:iq:roster" "query") ∷ []

push_matched : match_and push_parts (some push) ≡ true
unfolding match_and match_iq_type match_payload any_named string_eq
push_matched = refl

match_payload-HasName_example :
    (match_payload "" "query" (some push) ≡ true)
    ↔ ((n : Node) × IsPayloadOf n (some push) × HasName "" "query" n)
match_payload-HasName_example = match_payload-HasName "" "query" (some push)
