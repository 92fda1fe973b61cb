-- ===== src/Roster/Laws.antt =====
-- xmpp/roster.go: what the cache holds after a list of items, and who may change it.
use slixmpp_go.Common.{
  ◌≡◌, refl, ◌∙◌, ap, Bool, true, false, not, ◌||◌, ◌&&◌, ◌!=◌, Option, none, some, String, ◌==◌,
  string_eq, List, [], ◌∷◌, if◌then◌else◌, Bool-cases, inl, inr,
}
use slixmpp_go.Common.Dict
use slixmpp_go.Common.Dict.{Dict}
use slixmpp_go.Common.Result.{ok}
use slixmpp_go.Jid.{Jid, bare, bare_jid_string}
use slixmpp_go.Node.{Node}
use slixmpp_go.Stanza.{Iq, StanzaError, payload, result, error_result}
use slixmpp_go.Roster.{
  RosterItem, RosterManager, RosterError, apply_item, apply_items, is_foreign, handle_push, replied,
  or_old, failed, Done, parse_roster_query,
}

-- What the last of the items for a key leaves there: nothing if it removes, itself if not.
abbrev pub last_for : String → List RosterItem → Option RosterItem → Option RosterItem
last_for k [] old = old
last_for k (item ∷ more) old = last_for k more (
    if k == bare_jid_string item.jid
    then (if item.subscription == "remove" then none else some item)
    else old)

lookup-apply_item :
    (k : String) (item : RosterItem) (d : Dict String RosterItem)
    → Dict.lookup k (apply_item item d) ≡ (
        if k == bare_jid_string item.jid
        then (if item.subscription == "remove" then none else some item)
        else Dict.lookup k d)
lookup-apply_item k item d = elim (Bool-cases (item.subscription == "remove")) [
  | inl e ↦ rw e (Dict.lookup-erase k (bare_jid_string item.jid) d)
  | inr e ↦ rw e (Dict.lookup-insert k (bare_jid_string item.jid) item d)
]

-- Under each bare JID the cache holds what the last item for it leaves, or else what it held.
pub lookup-apply_items :
    (k : String) (found : List RosterItem) (d : Dict String RosterItem)
    → Dict.lookup k (apply_items found d) ≡ last_for k found (Dict.lookup k d)
unfolding apply_items
lookup-apply_items k [] d = refl
lookup-apply_items k (item ∷ more) d =
    lookup-apply_items k more (apply_item item d)
    ∙ ap (last_for k more) (lookup-apply_item k item d)

-- RFC 6121: an account takes a roster push from itself, from its server, or without a sender.
abbrev pub may_push : Jid → Iq → Bool
may_push own i = i.from == "" || (i.from == own.domain || bare_jid_string i.from == bare own)

-- The answer to a push from somebody else.
abbrev refused : StanzaError
refused = record {
  error_type = "cancel";
  by = "";
  condition = "service-unavailable";
  text = "";
  application = [];
}

is_foreign-may_push : (own : Jid) (i : Iq) → is_foreign own i ≡ not (may_push own i)
unfolding is_foreign
is_foreign-may_push own i =
    by_tests (i.from == "") (bare_jid_string i.from == bare own) (i.from == own.domain)
  where
    by_tests : (a b c : Bool) → not a && (not b && not c) ≡ not (a || (c || b))
    by_tests true b c = refl
    by_tests false true true = refl
    by_tests false true false = refl
    by_tests false false true = refl
    by_tests false false false = refl

module _ {E W : Type 0} (send : Iq → W → Option E × W) (text_of_error : RosterError E → String)
    (emit_item : RosterItem → W → W) (emit_update : List RosterItem → W → Option E × W) where
  -- The roster after the push, or as it was if the push panics.
  abbrev pub roster_after : RosterManager → Option (Done E W) → RosterManager
  roster_after r none = r
  roster_after r (some (_, (r', _))) = r'

  roster_after-failed :
      (r s : RosterManager) (o : Option E × W)
      → roster_after r (some (failed send text_of_error emit_item emit_update s o)) ≡ s
  roster_after-failed r s (none, w) = refl
  roster_after-failed r s (some e, w) = refl

  roster_after-replied :
      (found : List RosterItem) (r s : RosterManager) (o : Option E × W)
      → roster_after r (some (replied send text_of_error emit_item emit_update found s o)) ≡ s
  roster_after-replied found r s (some e, w) = refl
  roster_after-replied found r s (none, w) = roster_after-failed r s _

  -- Let the IQ carry a query that is read. Behind `handlePush` the cache holds under each bare JID
  -- what the last item for it leaves, or else what it held, and the version is the query's if it
  -- has one, if the IQ has no sender or comes from the account or its domain; from any other
  -- sender the push changes neither. Sending and emitting may fail in any way.
  pub lookup-handle_push :
      (own : Jid) (i : Iq) (r : RosterManager) (w : W) (q : Node) (found : List RosterItem)
      (ver k : String)
      → payload i ≡ some q
      → parse_roster_query {E = E} q ≡ ok (found, ver)
      → let r' = roster_after r (handle_push send text_of_error emit_item emit_update own i r w) in
        (Dict.lookup k r'.items ≡ (
          if may_push own i
          then last_for k found (Dict.lookup k r.items)
          else Dict.lookup k r.items))
        × (r'.version ≡ (if may_push own i && ver != "" then ver else r.version))
  unfolding handle_push
  lookup-handle_push own i r w q found ver k e f =
      rw (e, f, handle_push)
        (rw (is_foreign-may_push own i) (elim (Bool-cases (may_push own i)) [
          | inl g ↦
              let changed : RosterManager = record {
                items = apply_items found r.items;
                version = or_old ver r.version;
              } in
              let same = roster_after-replied found r changed (send (result i []) w) in
              rw g (
                ap (λ s. Dict.lookup k s.items) same ∙ lookup-apply_items k found r.items,
                ap (λ s. s.version) same,
              )
          | inr g ↦
              let same = roster_after-failed r r (send (error_result i (some refused)) w) in
              rw g (ap (λ s. Dict.lookup k s.items) same, ap (λ s. s.version) same)
        ]))
