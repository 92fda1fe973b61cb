-- ===== src/Stanza/Tests.antt =====
-- The theorems on stanzas at concrete data, and runs of the readers.
use slixmpp_go.Common.{
  ◌≡◌, refl, false, true, All, Option, none, some, String, ◌==◌, string_eq, List, [], ◌∷◌,
  if◌then◌else◌,
}
use slixmpp_go.Common.Int.{ℤ, pos}
use slixmpp_go.Common.Result.{ok}
use slixmpp_go.Common.Text.{Unicode}
use slixmpp_go.Node.{
  Node, node, nil, text_part, new_node, new_text_node, set_attr_ns, add_child, add_text, clone,
}
use slixmpp_go.Node.Tokens.{Token}
use slixmpp_go.Node.Tokens.RoundTrip.{IsCompact, tokens}
use slixmpp_go.Node.Tokens.Wire.{Wire, declare}
use slixmpp_go.Stanza.{StanzaError, Iq, iq, stanza_error_from_node}
use slixmpp_go.Stanza.Tokens.{error_node, marshal_iq, parse_stanza}
use slixmpp_go.Stanza.ErrorLaws
use slixmpp_go.Stanza.ErrorLaws.{IsApplication, stanza_error_from_node-error_node}
use slixmpp_go.Stanza.IqElement.{IsNormal, iq_element}
use slixmpp_go.Stanza.IqLaws.{declared_iq, parse_stanza-marshal_iq}

-- No character is a space and none is lowered: the tests have no such character.
abbrev tables : Unicode
tables = record { is_space = λ c. false; to_lower = λ c. c; equal_fold = λ s t. s == t }

abbrev atoi : String → Option ℤ
atoi s = if s == "5" then some (pos 5) else none

abbrev refused : StanzaError
refused = record {
  error_type = "cancel";
  by = "";
  condition = "service-unavailable";
  text = "no";
  application = new_node "app" "detail" ∷ [];
}

refused-IsNormal : ErrorLaws.IsNormal refused
unfolding string_eq clone
refused-IsNormal = record {
  condition_named = λ h. cc;
  applications = (record { foreign = refl; tidy = refl }, tt);
}

stanza_error_from_node-error_node_example : stanza_error_from_node (error_node refused) ≡ refused
stanza_error_from_node-error_node_example =
    stanza_error_from_node-error_node refused refused-IsNormal

abbrev query : Node
query = node (record { space = "jabber:iq:roster"; local = "query" }) [] (text_part "x" nil)

abbrev answer : Iq
answer = record {
  from = "a@b";
  to = "";
  id = "7";
  kind = "error";
  payloads = query ∷ [];
  error = some refused;
}

refused-IsCompact : IsCompact (error_node refused)
unfolding error_node string_eq set_attr_ns add_child add_text new_text_node
refused-IsCompact = (
  λ h. cc,
  (refl, (λ h. cc, tt), (refl, (λ h. cc, (refl, λ h. cc, tt)), (refl, (λ h. cc, tt), tt))),
)

answer-IsNormal : IsNormal answer
unfolding string_eq
answer-IsNormal = record {
  id_given = λ h. cc;
  kind_given = λ h. cc;
  payloads_normal = (((λ h. cc, (refl, λ h. cc, tt)), refl), tt);
  error_normal = (refused-IsNormal, refused-IsCompact);
}

-- Every token is carried.
abbrev wire : Wire
wire = record { writes = λ t. true; decode = declare "" [] }

all_carried : (ts : List Token) → All (λ t. wire.writes t ≡ true) ts
all_carried [] = tt
all_carried (t ∷ ts) = (refl, all_carried ts)

parse_stanza-marshal_iq_example :
    (ts : List Token) × (marshal_iq answer ≡ ok ts)
    × (parse_stanza tables atoi (wire.decode ts) ≡ ok (iq (declared_iq answer)))
parse_stanza-marshal_iq_example =
    parse_stanza-marshal_iq wire tables atoi answer (λ n h c. refl) answer-IsNormal
      (all_carried (tokens (iq_element answer)))
