-- ===== src/Muc/Tests.antt =====
-- A room at concrete data.
use Prim.Native.String.{◌++◌ as ◌<>◌}
use slixmpp_go.Common.{
  ◌≡◌, refl, sym, ◌∙◌, false, true, Option, none, some, List, [], ◌∷◌, String, char_eq, string_eq,
  ◌==◌, if◌then◌else◌,
}
use slixmpp_go.Common.Dict
use slixmpp_go.Common.Dict.{Dict, lookup-nil}
use slixmpp_go.Common.Int.{pos, int_eq}
use slixmpp_go.Common.Int.Strokes.{numbers}
use slixmpp_go.Common.Text.{split_first}
use slixmpp_go.Jid.{bare_jid_string}
use slixmpp_go.Node.{Node, QName, Attr, node, nil, child_part, clone, children, attr_value_ns}
use slixmpp_go.Stanza.{Presence}
use slixmpp_go.Muc.{Room, Rooms, Effect, joined, split_occupant, parse_status, status_child}
use slixmpp_go.Muc.State.{
  join, status_or_none, is_unavailable, is_self, occupant_of, room_or_new, handle_presence,
}
use slixmpp_go.Muc.Presences.{
  IsValid, handle_presence-IsValid, occupants-handle_presence, handle_presence-join,
}

abbrev user : String → QName
user local = record { space = "http://jabber.org/protocol/muc#user"; local = local }

-- The code 110 in strokes.
abbrev own_code : Attr
own_code = record { name = record { space = ""; local = "code" }; value = numbers.itoa (pos 110) }

abbrev payload : Node
payload = node (user "x") [] (child_part "" (node (user "status") (own_code ∷ []) nil) nil)

abbrev arriving : Presence
arriving = record {
  from = "hall@rooms/juliet";
  to = "";
  id = "";
  kind = "";
  lang = "";
  show = "";
  status = "";
  statuses = [];
  priority = none;
  extensions = payload ∷ [];
  error = none;
}

abbrev no_rooms : Rooms
no_rooms = record { rooms = []; pending = [] }

no_rooms-IsValid : IsValid no_rooms
no_rooms-IsValid jid r h =
    let e = lookup-nil {V = Room} jid in
    absurd (let f : ◌≡◌ {A = Option Room} none (some r) = sym e ∙ h in cc)

started : (join "hall@rooms" "juliet" no_rooms).0 ≡ none
unfolding join bare_jid_string split_first Dict.lookup string_eq char_eq
started = refl

from : split_occupant arriving.from ≡ (bare_jid_string "hall@rooms", "juliet")
unfolding bare_jid_string split_first char_eq
from = refl

self : is_self (status_or_none (parse_status numbers payload)) ≡ true
unfolding parse_status status_child string_eq char_eq int_eq children clone attr_value_ns
self = refl

present : is_unavailable arriving ≡ false
unfolding string_eq
present = refl

fine : (arriving.kind == "error") ≡ false
unfolding string_eq
fine = refl

handle_presence-join_example :
    (r : Room) × (rest : List Effect) × ((handle_presence numbers arriving payload
        (join "hall@rooms" "juliet" no_rooms).1).1
      ≡ joined (bare_jid_string "hall@rooms" <> "/" <> "juliet") r ∷ rest)
    × (r.joined ≡ true)
handle_presence-join_example =
    handle_presence-join numbers "hall@rooms" "juliet" no_rooms arriving payload started from self
      present fine

handle_presence-IsValid_example : IsValid (handle_presence numbers arriving payload no_rooms).0
handle_presence-IsValid_example =
    handle_presence-IsValid numbers arriving payload no_rooms no_rooms-IsValid

occupants-handle_presence_example :
    (r : Room) × (Dict.lookup
        (split_occupant arriving.from).0
        (handle_presence numbers arriving payload no_rooms).0.rooms
      ≡ some r)
    × (Dict.lookup "juliet" r.occupants ≡ (
        if "juliet" == (split_occupant arriving.from).1
        then (if is_unavailable arriving
            then none
            else some (occupant_of arriving (status_or_none (parse_status numbers payload))))
        else Dict.lookup "juliet"
            (room_or_new
              (split_occupant arriving.from).0
              (Dict.lookup (split_occupant arriving.from).0 no_rooms.rooms)).occupants))
occupants-handle_presence_example =
    occupants-handle_presence numbers arriving payload no_rooms "juliet"
