-- ===== src/Roster/Tests.antt =====
-- The theorems on the roster at concrete data. The state lists the kinds of the IQs that were sent.
use slixmpp_go.Common.{
  ◌≡◌, refl, true, false, ◌&&◌, ◌!=◌, if◌then◌else◌, some, Option, none, List, [], ◌∷◌, String,
  string_eq, char_eq,
}
use slixmpp_go.Common.Dict
use slixmpp_go.Common.Result.{ok}
use slixmpp_go.Common.Text.{split_first}
use slixmpp_go.Common.Dict.{Dict}
use slixmpp_go.Jid.{Jid, bare_jid_string}
use slixmpp_go.Node.{
  new_node, new_text_node, add_child, Node, clone, set_attr_ns, children, attr_value_ns, text,
}
use slixmpp_go.Stanza.{Iq, payload}
use slixmpp_go.Roster.{
  RosterItem, RosterManager, RosterError, apply_items, parse_roster_query, handle_push,
  roster_item_node,
}
use slixmpp_go.Roster.Laws.{
  last_for, lookup-apply_items, roster_after, may_push, lookup-handle_push,
}

abbrev friend : RosterItem
friend = record {
  jid = "juliet@example.com/balcony";
  name = "Juliet";
  subscription = "both";
  ask = "";
  approved = true;
  groups = "Capulet" ∷ "Friends" ∷ [];
}

abbrev gone : RosterItem
gone = record friend { subscription = "remove" }

abbrev roster : RosterManager
roster = record { items = ("nurse@example.com", friend) ∷ []; version = "1" }

lookup-apply_items_example :
    Dict.lookup "juliet@example.com" (apply_items (friend ∷ gone ∷ []) roster.items)
    ≡ last_for "juliet@example.com"
        (friend ∷ gone ∷ [])
        (Dict.lookup "juliet@example.com" roster.items)
lookup-apply_items_example =
    lookup-apply_items "juliet@example.com" (friend ∷ gone ∷ []) roster.items

removed : Dict.lookup "juliet@example.com" (apply_items (friend ∷ gone ∷ []) roster.items) ≡ none
unfolding apply_items Dict.lookup Dict.insert Dict.erase bare_jid_string split_first string_eq
    char_eq
removed = refl

abbrev own : Jid
own = record { local = "romeo"; domain = "example.com"; resource = "orchard" }

abbrev query : Node
query = add_child (roster_item_node friend) (new_node "jabber:iq:roster" "query")

abbrev push : String → Iq
push from = record {
  from = from;
  to = "";
  id = "1";
  kind = "set";
  payloads = query ∷ [];
  error = none;
}

abbrev send : Iq → List String → Option String × List String
send i w = (none, i.kind ∷ w)

abbrev text_of_error : RosterError String → String
text_of_error e = "bad"

abbrev emit_item : RosterItem → List String → List String
emit_item item w = "roster_item" ∷ w

abbrev emit_update : List RosterItem → List String → Option String × List String
emit_update items w = (none, "roster_update" ∷ w)

abbrev read : RosterItem
read = record friend { jid = "juliet@example.com"; approved = false }

abbrev pushed : Iq
pushed = push "romeo@example.com"

carries : payload pushed ≡ some query
unfolding add_child clone roster_item_node new_text_node string_eq set_attr_ns
carries = refl

reads : parse_roster_query {E = String} query ≡ ok (read ∷ [], "")
unfolding parse_roster_query string_eq add_child children clone roster_item_node set_attr_ns
    attr_value_ns bare_jid_string split_first char_eq new_text_node text
reads = refl

lookup-handle_push_example :
    let r' =
      roster_after send text_of_error emit_item emit_update roster
        (handle_push send text_of_error emit_item emit_update own pushed roster []) in
    (Dict.lookup "juliet@example.com" r'.items ≡ (
      if may_push own pushed
      then last_for "juliet@example.com" (read ∷ []) (Dict.lookup "juliet@example.com" roster.items)
      else Dict.lookup "juliet@example.com" roster.items))
    × (r'.version
        ≡ (if may_push own pushed && (◌!=◌ {A = String} "" "") then "" else roster.version))
lookup-handle_push_example =
    lookup-handle_push send text_of_error emit_item emit_update own pushed roster [] query
      (read ∷ []) "" "juliet@example.com" carries reads
