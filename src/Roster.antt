-- ===== src/Roster.antt =====
-- xmpp/roster.go: the cache of the account's roster. What the client does for it (sending an IQ or
-- a presence, asking with an IQ, emitting an event) is a parameter that acts on the state `W`.
pub mod Items
pub mod Laws
mod Tests
use slixmpp_go.Common.{
  Bool, true, false, ◌||◌, ◌&&◌, Option, none, some, List, [], ◌∷◌, ◌++◌, String, ◌==◌, ◌!=◌,
  string_eq, if◌then◌else◌, map,
}
use slixmpp_go.Common.Dict
use slixmpp_go.Common.Dict.{Dict}
use slixmpp_go.Common.Result.{Result, ok, err, ◌>>=◌}
use slixmpp_go.Common.Sort.{sort_stable}
use slixmpp_go.Common.Text.{lt_string}
use slixmpp_go.Jid.{Jid, bare, bare_jid_string}
use slixmpp_go.Node.{
  Node, name, or_empty, attr_value, new_node, new_text_node, set_attr, add_child, text, children,
}
use slixmpp_go.Stanza.{Iq, StanzaError, payload, result, error_result}

abbrev pub roster_ns : String
roster_ns = "jabber:iq:roster"

pub record RosterItem : Type 0 where
  pub jid : String
  pub name : String
  pub subscription : String
  pub ask : String
  pub approved : Bool
  pub groups : List String

pub record RosterManager : Type 0 where
  pub items : Dict String RosterItem
  pub version : String

pub data RosterError (E : Type 0) : Type 0 where
  invalid_query missing_jid missing_query jid_required : RosterError E
  client_error : E → RosterError E

-- `Items`: the order of the map does not show, because the items are sorted by their JIDs.
unfoldable pub items : RosterManager → List RosterItem
items r = sort_stable (λ a b. lt_string a.jid b.jid) (Dict.values r.items)

-- The texts of the children that are named `group`.
unfoldable pub groups_of : List Node → List String
groups_of [] = []
groups_of (g ∷ gs) =
    let rest = groups_of gs in if (name g).local == "group" then text g ∷ rest else rest

abbrev pub is_true : Option String → Bool
is_true none = false
is_true (some v) = v == "true" || v == "1"

-- The item that the loop of `parseRosterQuery` reads from an element.
unfoldable pub read_item : Node → RosterItem
unfolding groups_of
read_item n = record {
  jid = or_empty (attr_value "jid" n);
  name = or_empty (attr_value "name" n);
  subscription = or_empty (attr_value "subscription" n);
  ask = or_empty (attr_value "ask" n);
  approved = is_true (attr_value "approved" n);
  groups = groups_of (children n);
}

-- The loop of `parseRosterQuery`.
unfoldable pub read_items : {E : Type 0} → List Node → Result (RosterError E) (List RosterItem)
unfolding read_item
read_items [] = ok []
read_items (n ∷ ns) =
    let rest = read_items ns in
    if (name n).local == "item"
    then (if (read_item n).jid == ""
        then err missing_jid
        else rest >>= λ more. ok (read_item n ∷ more))
    else rest

-- `parseRosterQuery`: the items and the version.
unfoldable pub parse_roster_query :
    {E : Type 0} → Node → Result (RosterError E) (List RosterItem × String)
unfolding read_items
parse_roster_query q =
    if (name q).space != roster_ns || (name q).local != "query"
    then err invalid_query
    else read_items (children q) >>= λ items. ok (items, or_empty (attr_value "ver" q))

abbrev pub set_given : String → String → Node → Node
set_given k v n = if v != "" then set_attr k v n else n

abbrev pub add_groups : List String → Node → Node
add_groups [] n = n
add_groups (g ∷ gs) n = add_groups gs (add_child (new_text_node roster_ns "group" g) n)

-- `rosterItemNode`
unfoldable pub roster_item_node : RosterItem → Node
roster_item_node item = add_groups item.groups (
    set_given "subscription" item.subscription (
      set_given "name" item.name
        (set_attr "jid" (bare_jid_string item.jid) (new_node roster_ns "item"))))

-- The body of the loop that changes the cache, in `Get` and in `handlePush`.
abbrev pub apply_item : RosterItem → Dict String RosterItem → Dict String RosterItem
apply_item item d =
    if item.subscription == "remove"
    then Dict.erase (bare_jid_string item.jid) d
    else Dict.insert (bare_jid_string item.jid) item d

unfoldable pub apply_items : List RosterItem → Dict String RosterItem → Dict String RosterItem
apply_items [] d = d
apply_items (item ∷ more) d = apply_items more (apply_item item d)

-- The new version, if the server gave one.
abbrev pub or_old : String → String → String
or_old ver old = if ver != "" then ver else old

-- The test on the sender in `handlePush`, with the account's own JID.
unfoldable pub is_foreign : Jid → Iq → Bool
is_foreign own i = i.from != "" && (bare_jid_string i.from != bare own && i.from != own.domain)

-- The roster and the state of the rest, after a call that may fail.
abbrev pub Done : Type 0 → Type 0 → Type 0
Done E W = Option (RosterError E) × (RosterManager × W)

module _ {E W : Type 0} where
  module _ (request : String → W → Result E Iq × W) (update : List RosterItem → W → W) where
    -- The part of `Get` behind the parse.
    abbrev pub got :
        String
        → RosterManager
        → W
        → Result (RosterError E) (List RosterItem × String)
        → Result (RosterError E) (List RosterItem) × (RosterManager × W)
    got version r w (err e) = (err e, (r, w))
    got version r w (ok (found, ver)) =
        let changed : RosterManager = record {
          items = (if found_any found || version == "" then apply_items found r.items else r.items);
          version = or_old ver r.version;
        } in
        (ok (items changed), (changed, update (items changed) w))
      where
        found_any : List RosterItem → Bool
        found_any [] = false
        found_any (_ ∷ _) = true

    -- The part of `Get` behind the request.
    abbrev pub answered :
        String
        → RosterManager
        → Result E Iq × W
        → Result (RosterError E) (List RosterItem) × (RosterManager × W)
    answered version r (err e, w) = (err (client_error e), (r, w))
    answered version r (ok i, w) = elim (payload i) [
      | none ↦ (err missing_query, (r, w))
      | some q ↦ got version r w (parse_roster_query q)
    ]

    -- `Get`; the request carries the version.
    unfoldable pub get_roster :
        String → RosterManager → W → Result (RosterError E) (List RosterItem) × (RosterManager × W)
    unfolding apply_items parse_roster_query items
    get_roster version r w = answered version r (request version w)

  module _ (send : Iq → W → Option E × W) (text_of_error : RosterError E → String)
      (emit_item : RosterItem → W → W) (emit_update : List RosterItem → W → Option E × W) where
    abbrev pub failed : RosterManager → Option E × W → Done E W
    failed r (none, w) = (none, (r, w))
    failed r (some e, w) = (some (client_error e), (r, w))

    abbrev pub emit_items : List RosterItem → W → W
    emit_items [] w = w
    emit_items (item ∷ more) w = emit_items more (emit_item item w)

    -- The part of `handlePush` behind the reply.
    abbrev pub replied : List RosterItem → RosterManager → Option E × W → Done E W
    replied found r (some e, w) = (some (client_error e), (r, w))
    replied found r (none, w) = failed r (emit_update (items r) (emit_items found w))

    abbrev pub bad_request : RosterError E → StanzaError
    bad_request e = record {
      error_type = "modify";
      by = "";
      condition = "bad-request";
      text = text_of_error e;
      application = [];
    }

    abbrev pub unavailable : StanzaError
    unavailable = record {
      error_type = "cancel";
      by = "";
      condition = "service-unavailable";
      text = "";
      application = [];
    }

    -- The part of `handlePush` behind the parse.
    abbrev pub pushed :
        Jid → Iq → RosterManager → W → Result (RosterError E) (List RosterItem × String) → Done E W
    pushed own i r w (err e) = failed r (send (error_result i (some (bad_request e))) w)
    pushed own i r w (ok (found, ver)) =
        let changed : RosterManager = record {
          items = apply_items found r.items;
          version = or_old ver r.version;
        } in
        if is_foreign own i
        then failed r (send (error_result i (some unavailable)) w)
        else replied found changed (send (result i []) w)

    -- `handlePush`; none is the panic on an IQ without a payload, which the matcher lets not pass.
    unfoldable pub handle_push : Jid → Iq → RosterManager → W → Option (Done E W)
    unfolding apply_items parse_roster_query is_foreign items
    handle_push own i r w = elim (payload i) [
      | none ↦ none
      | some q ↦ some (pushed own i r w (parse_roster_query q))
    ]

-- The query that `Set` sends.
unfoldable pub set_query : {E : Type 0} → RosterItem → Result (RosterError E) Node
unfolding roster_item_node
set_query item =
    if item.jid == ""
    then err jid_required
    else ok (add_child (roster_item_node item) (new_node roster_ns "query"))

-- The item with which `Remove` calls `Set`.
abbrev pub removed_item : String → RosterItem
removed_item jid = record {
  jid = bare_jid_string jid;
  name = "";
  subscription = "remove";
  ask = "";
  approved = false;
  groups = [];
}
