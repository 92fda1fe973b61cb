-- ===== src/Muc/State.antt =====
-- xep/muc.go: `Join` and the two handlers, on the table of rooms.
use Prim.Native.String.{◌++◌ as ◌<>◌}
use slixmpp_go.Common.{
  Bool, false, not, ◌||◌, ◌&&◌, Option, none, some, List, [], ◌∷◌, ◌++◌, String, ◌==◌, ◌!=◌,
  string_eq, if◌then◌else◌, contains,
}
use slixmpp_go.Common.Dict
use slixmpp_go.Common.Dict.{Dict}
use slixmpp_go.Common.Int.{pos, Strconv, int_eq}
use slixmpp_go.Jid.{bare_jid_string}
use slixmpp_go.Node.{Node, or_empty, attr_value}
use slixmpp_go.Stanza.{Presence, Message, find_extension}
use slixmpp_go.Muc.{
  Item, Status, no_status, Occupant, Room, Rooms, Effect, joined, join_failed, left, occupant_event,
  event, muc_user_ns, occupant_id_ns, split_occupant, parse_status,
}

pub data JoinError : Type 0 where
  nothing_to_join : JoinError
  already_pending : String → JoinError

abbrev pub new_room : String → String → Room
new_room room nick = record {
  jid = room;
  nick = nick;
  joined = false;
  subject = "";
  occupants = [];
}

abbrev pub join_as : String → String → String → Option (Unit {0}) → Rooms → Option JoinError × Rooms
join_as room nick full (some u) s = (some (already_pending full), s)
join_as room nick full none s = (
  none,
  record {
    rooms = Dict.insert room (new_room room nick) s.rooms;
    pending = Dict.insert full tt s.pending;
  },
)

-- `Join` up to the presence that it sends: its error, and the rooms.
unfoldable pub join : String → String → Rooms → Option JoinError × Rooms
join jid nick s =
    let room = bare_jid_string jid in
    let full = room <> "/" <> nick in
    if room == "" || nick == ""
    then (some nothing_to_join, s)
    else join_as room nick full (Dict.lookup full s.pending) s

-- The deferred `delete(m.pending, full)` of `Join`.
abbrev pub leave_pending : String → Rooms → Rooms
leave_pending full s = record s { pending = Dict.erase full s.pending }

abbrev pub status_or_none : Option Status → Status
status_or_none none = no_status
status_or_none (some s) = s

abbrev pub id_of : Option Node → String
id_of none = ""
id_of (some n) = or_empty (attr_value "id" n)

abbrev pub room_or_new : String → Option Room → Room
room_or_new room none = new_room room ""
room_or_new room (some r) = r

abbrev pub is_unavailable : Presence → Bool
is_unavailable p = p.kind == "unavailable"

abbrev pub with_item : Presence → Option Item → Occupant → Occupant
with_item p none o = o
with_item p (some i) o = record o {
  affiliation = i.affiliation;
  role = i.role;
  real_jid = i.jid;
  nick = if i.nick != "" && is_unavailable p then i.nick else o.nick;
}

-- The occupant that a presence shows.
unfoldable pub occupant_of : Presence → Status → Occupant
occupant_of p status =
    let (room, nick) = split_occupant p.from in
    with_item p status.item (record {
      room = room;
      nick = nick;
      full_jid = p.from;
      affiliation = "";
      role = "";
      real_jid = "";
      show = p.show;
      status = p.status;
      occupant_id = id_of (find_extension occupant_id_ns "occupant-id" p.extensions);
      available = not (is_unavailable p);
    })

abbrev pub is_self : Status → Bool
is_self status = contains status.codes (pos 110)

-- What a presence makes of its room.
unfoldable pub update_room : Presence → Status → String → Room → Room
update_room p status nick r =
    if is_unavailable p
    then record r {
      occupants = Dict.erase nick r.occupants;
      joined = r.joined && not (is_self status);
    }
    else record r {
      occupants = Dict.insert nick (occupant_of p status) r.occupants;
      joined = r.joined || is_self status;
      nick = if is_self status && r.nick == "" then nick else r.nick;
    }

-- The effects behind the lock; `key` is the join that waits, if one does.
abbrev pub failed : Presence → Option String → List Effect
failed p none = []
failed p (some k) = join_failed k p.error ∷ []

abbrev pub arrived : Presence → Status → Room → Option String → List Effect
arrived p status r none = []
arrived p status r (some k) =
    if is_self status && not (is_unavailable p) then joined k r ∷ [] else []

unfoldable pub presence_effects : Presence → Status → Room → Option String → List Effect
presence_effects p status r key =
    if p.kind == "error"
    then failed p key ++ (event "muc_join_failed" ∷ [])
    else arrived p status r key
      ++ ((if is_self status && is_unavailable p then left r ∷ [] else [])
          ++ (occupant_event
                (if is_unavailable p then "muc_occupant_offline" else "muc_occupant_online")
                (occupant_of p status)
              ∷ event "muc_presence"
              ∷ []))

abbrev pub key_if : String → Option (Unit {0}) → Option String
key_if k none = none
key_if k (some u) = some k

-- `handlePresence` for the payload that its matcher found.
module _ (S : Strconv) where
  unfoldable pub handle_presence : Presence → Node → Rooms → Rooms × List Effect
  handle_presence p x s =
      let (room, nick) = split_occupant p.from in
      let status = status_or_none (parse_status S x) in
      let r = update_room p status nick (room_or_new room (Dict.lookup room s.rooms)) in
      let key = room <> "/" <> r.nick in
      (
        record s { rooms = Dict.insert room r s.rooms },
        presence_effects p status r (key_if key (Dict.lookup key s.pending)),
      )

  abbrev pub invited : Option Node → List Effect
  invited none = []
  invited (some x) =
      let status = status_or_none (parse_status S x) in
      if status.invite_from != "" || status.decline_from != ""
      then event "muc_invitation" ∷ []
      else []

  abbrev pub with_subject : String → String → Option Room → Rooms → Rooms
  with_subject room subject none s = s
  with_subject room subject (some r) s = record s {
    rooms = Dict.insert room (record r { subject = subject }) s.rooms;
  }

  -- `handleMessage`
  unfoldable pub handle_message : Message → Rooms → Rooms × List Effect
  handle_message m s =
      let room = bare_jid_string m.from in
      let rest = invited (find_extension muc_user_ns "x" m.extensions) in
      if m.kind == "groupchat" && m.subject != ""
      then (with_subject room m.subject (Dict.lookup room s.rooms) s, event "muc_subject" ∷ rest)
      else (s, rest)
