-- ===== src/Matchers.antt =====
-- xmpp/matcher.go: the tests that choose a handler's stanzas. A nil stanza or matcher is none; a
-- pointer to a stanza is the stanza.
pub mod Laws
pub mod Payload
mod Tests
use slixmpp_go.Common.{
  Bool, true, false, not, ◌||◌, ◌&&◌, Option, none, some, List, [], ◌∷◌, String, ◌==◌, string_eq,
  if◌then◌else◌,
}
use slixmpp_go.Common.Text.{Unicode}
use slixmpp_go.Jid.{bare_jid_string}
use slixmpp_go.Node.{Node, is_named}
use slixmpp_go.Stanza.{Stanza, message, presence, iq}

abbrev pub Matcher : Type 0
Matcher = Option Stanza → Bool

-- `Kind`
abbrev pub kind_of : Stanza → String
kind_of (message _) = "message"
kind_of (presence _) = "presence"
kind_of (iq _) = "iq"

-- `StanzaID`, `StanzaFrom` and `StanzaTo`
abbrev pub id_of : Stanza → String
id_of (message m) = m.id
id_of (presence p) = p.id
id_of (iq i) = i.id

abbrev pub from_of : Stanza → String
from_of (message m) = m.from
from_of (presence p) = p.from
from_of (iq i) = i.from

abbrev pub to_of : Stanza → String
to_of (message m) = m.to
to_of (presence p) = p.to
to_of (iq i) = i.to

-- `stanzaPayloads`
abbrev pub stanza_payloads : Option Stanza → List Node
stanza_payloads none = []
stanza_payloads (some (message m)) = m.extensions
stanza_payloads (some (presence p)) = p.extensions
stanza_payloads (some (iq i)) = i.payloads

-- `MatchAll`
abbrev pub match_all : Matcher
match_all s = true

-- `MatchKind`
unfoldable pub match_kind : String → Matcher
match_kind kind none = false
match_kind kind (some s) = kind_of s == kind

-- `MatchID`
unfoldable pub match_id : String → Matcher
match_id id none = false
match_id id (some s) = id_of s == id

module _ (U : Unicode) where
  -- What `MatchFrom` and `MatchTo` do with the two texts.
  unfoldable pub same_jid : Bool → String → String → Bool
  same_jid bare have want =
      if bare
      then U.equal_fold (bare_jid_string have) (bare_jid_string want)
      else U.equal_fold have want

  -- `MatchFrom`
  unfoldable pub match_from : String → Bool → Matcher
  match_from value bare none = false
  match_from value bare (some s) = same_jid bare (from_of s) value

  -- `MatchTo`
  unfoldable pub match_to : String → Bool → Matcher
  match_to value bare none = false
  match_to value bare (some s) = same_jid bare (to_of s) value

unfoldable pub any_named : String → String → List Node → Bool
any_named ns local [] = false
any_named ns local (n ∷ nodes) = is_named ns local n || any_named ns local nodes

-- `MatchPayload`
unfoldable pub match_payload : String → String → Matcher
match_payload ns local s = any_named ns local (stanza_payloads s)

-- `MatchIQType`
unfoldable pub match_iq_type : String → Matcher
match_iq_type kind (some (iq i)) = i.kind == kind
match_iq_type kind (some (message _)) = false
match_iq_type kind (some (presence _)) = false
match_iq_type kind none = false

-- `MatchAnd`
unfoldable pub match_and : List (Option Matcher) → Matcher
match_and [] s = true
match_and (none ∷ ms) s = match_and ms s
match_and (some m ∷ ms) s = m s && match_and ms s

-- `MatchOr`
unfoldable pub match_or : List (Option Matcher) → Matcher
match_or [] s = false
match_or (none ∷ ms) s = match_or ms s
match_or (some m ∷ ms) s = m s || match_or ms s

-- `MatchNot`
unfoldable pub match_not : Option Matcher → Matcher
match_not none s = true
match_not (some m) s = not (m s)
