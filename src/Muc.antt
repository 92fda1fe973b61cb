-- ===== src/Muc.antt =====
-- xep/muc.go: rooms, their occupants, and joining.
pub mod Items
pub mod State
pub mod Presences
mod Tests
use Prim.Native.String.{◌++◌ as ◌<>◌}
use slixmpp_go.Common.{
  ℕ, Bool, true, false, not, ◌||◌, ◌&&◌, Option, none, some, List, [], ◌∷◌, ◌++◌, String, ◌==◌,
  ◌!=◌, string_eq, if◌then◌else◌,
}
use slixmpp_go.Common.Dict
use slixmpp_go.Common.Dict.{Dict}
use slixmpp_go.Common.Int.{ℤ, pos, pos_part, neg_part, Strconv, int_eq}
use slixmpp_go.Common.Text.{split_first}
use slixmpp_go.Jid.{bare_jid_string}
use slixmpp_go.Node.{Node, name, or_empty, attr_value, text, children, child, child_text}
use slixmpp_go.Node.Build.{given, element, text_child, each}
use slixmpp_go.Stanza.{Presence, Message, StanzaError, find_extension}

abbrev pub muc_ns : String
muc_ns = "http://jabber.org/protocol/muc"

abbrev pub muc_user_ns : String
muc_user_ns = "http://jabber.org/protocol/muc#user"

abbrev pub occupant_id_ns : String
occupant_id_ns = "urn:xmpp:occupant-id:0"

-- `MUCItem`
pub record Item : Type 0 where
  pub affiliation : String
  pub role : String
  pub jid : String
  pub nick : String
  pub reason : String
  pub actor : String

-- `MUCStatus`
pub record Status : Type 0 where
  pub codes : List ℤ
  pub item : Option Item
  pub password : String
  pub destroy_jid : String
  pub destroy_reason : String
  pub invite_from : String
  pub invite_to : String
  pub invite_reason : String
  pub decline_from : String
  pub decline_to : String
  pub decline_reason : String

abbrev pub no_status : Status
no_status = record {
  codes = [];
  item = none;
  password = "";
  destroy_jid = "";
  destroy_reason = "";
  invite_from = "";
  invite_to = "";
  invite_reason = "";
  decline_from = "";
  decline_to = "";
  decline_reason = "";
}

pub record Occupant : Type 0 where
  pub room : String
  pub nick : String
  pub full_jid : String
  pub affiliation : String
  pub role : String
  pub real_jid : String
  pub show : String
  pub status : String
  pub occupant_id : String
  pub available : Bool

pub record Room : Type 0 where
  pub jid : String
  pub nick : String
  pub joined : Bool
  pub subject : String
  pub occupants : Dict String Occupant

-- `MUC`, with the keys of the joins that wait.
pub record Rooms : Type 0 where
  pub rooms : Dict String Room
  pub pending : Dict String (Unit {0})

-- What a handler does besides changing the rooms. Events whose data is the stanza keep their names only.
pub data Effect : Type 0 where
  joined : (key : String) → Room → Effect
  join_failed : (key : String) → Option StanzaError → Effect
  left : Room → Effect
  occupant_event : (event : String) → Occupant → Effect
  event : String → Effect

abbrev pub actor_of : Option Node → String
actor_of none = ""
actor_of (some a) = or_empty (attr_value "jid" a)

-- `parseMUCItem`
unfoldable pub read_item : Node → Item
read_item n = record {
  affiliation = or_empty (attr_value "affiliation" n);
  role = or_empty (attr_value "role" n);
  jid = or_empty (attr_value "jid" n);
  nick = or_empty (attr_value "nick" n);
  reason = child_text (name n).space "reason" n;
  actor = actor_of (child (name n).space "actor" n);
}

-- `mucItemNode`
unfoldable pub item_node : String → Item → Node
item_node ns i =
    element ns "item"
      (("affiliation", given i.affiliation)
        ∷ ("role", given i.role)
        ∷ ("jid", given i.jid)
        ∷ ("nick", given i.nick)
        ∷ [])
      (text_child ns "reason" i.reason)

-- `splitOccupant`
abbrev pub or_whole : String → Option (String × String) → String × String
or_whole jid none = (jid, "")
or_whole jid (some p) = p

abbrev pub split_occupant : String → String × String
split_occupant jid = or_whole jid (split_first "/" jid)

module _ (S : Strconv) where
  abbrev pub add_code : Option ℤ → Status → Status
  add_code none s = s
  add_code (some i) s = record s { codes = s.codes ++ (i ∷ []) }

  -- The body of the loop of `ParseMUCStatus`.
  unfoldable pub status_child : Node → Status → Status
  status_child n s =
      let local = (name n).local in
      if local == "status"
      then add_code (S.atoi (or_empty (attr_value "code" n))) s
      else if local == "item"
      then record s { item = some (read_item n) }
      else if local == "password"
      then record s { password = text n }
      else if local == "destroy"
      then record s {
        destroy_jid = or_empty (attr_value "jid" n);
        destroy_reason = child_text muc_user_ns "reason" n;
      }
      else if local == "invite"
      then record s {
        invite_from = or_empty (attr_value "from" n);
        invite_to = or_empty (attr_value "to" n);
        invite_reason = child_text muc_user_ns "reason" n;
      }
      else if local == "decline"
      then record s {
        decline_from = or_empty (attr_value "from" n);
        decline_to = or_empty (attr_value "to" n);
        decline_reason = child_text muc_user_ns "reason" n;
      }
      else s

  -- `ParseMUCStatus`; none is its error.
  unfoldable pub parse_status : Node → Option Status
  parse_status x =
      if (name x).space != muc_user_ns || (name x).local != "x"
      then none
      else some (each status_child (children x) no_status)
