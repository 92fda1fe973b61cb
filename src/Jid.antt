-- ===== src/Jid.antt =====
-- xmpp/jid.go: Jabber IDs, and `BareJIDString` of xmpp/stanza.go.
pub mod RoundTrip
pub mod Reparse
pub mod Escape
mod Tests
use Prim.Native.String.{◌++◌ as ◌<>◌}
use slixmpp_go.Common.{Bool, ◌||◌, ◌&&◌, none, some, String, ◌==◌, ◌!=◌, string_eq, if◌then◌else◌}
use slixmpp_go.Common.Result.{Result, ok, err, ◌>>=◌, ◌>>◌, reject_if}
use slixmpp_go.Common.Text.{
  Unicode, split_first, split_last, contains_any, trim_suffix_byte, trim_space, to_lower,
}

pub record Jid : Type 0 where
  pub local : String
  pub domain : String
  pub resource : String

-- `ErrInvalidJID`, plain or with the detail that `ParseJID` wraps it in.
pub data JidError : Type 0 where
  invalid_jid empty_resource empty_localpart invalid_domainpart : JidError

-- What stands before the first `/`, and the resource behind it.
cut_resource : String → Result JidError (String × String)
cut_resource value = elim (split_first "/" value) [
  | none ↦ ok (value, "")
  | some (rest, resource) ↦ if resource == "" then err empty_resource else ok (rest, resource)
]

-- The localpart before the last `@`, and the domain.
cut_local : String → Result JidError (String × String)
cut_local value = elim (split_last "@" value) [
  | none ↦ ok ("", value)
  | some (local, domain) ↦ if local == "" then err empty_localpart else ok (local, domain)
]

abbrev pub domain_specials : String
domain_specials = "@/ \t\r\n"

abbrev pub local_specials : String
local_specials = "@/\0\r\n"

abbrev pub resource_specials : String
resource_specials = "\0\r\n"

module _ (U : Unicode) where
  unfoldable pub normal_domain : String → String
  normal_domain domain = trim_suffix_byte "." (to_lower U (trim_space U domain))

  unfoldable pub parse_jid : String → Result JidError Jid
  unfolding cut_resource cut_local normal_domain
  parse_jid value = do
    let value = trim_space U value
    reject_if (value == "") invalid_jid
    (rest, resource) ← cut_resource value
    (local, domain) ← cut_local rest
    let domain = normal_domain domain
    reject_if (domain == "" || contains_any domain domain_specials) invalid_domainpart
    reject_if (contains_any local local_specials || contains_any resource resource_specials)
        invalid_jid
    ok (record { local = local; domain = domain; resource = resource })

  -- `JID.EqualBare`
  pub equal_bare : Jid → Jid → Bool
  equal_bare j other = j.local == other.local && U.equal_fold j.domain other.domain

-- `JID.Bare`
unfoldable pub bare : Jid → String
bare j = if j.local != "" then j.local <> ("@" <> j.domain) else j.domain

-- `JID.String`
unfoldable pub to_string : Jid → String
unfolding bare
to_string j = if j.resource != "" then bare j <> ("/" <> j.resource) else bare j

pub is_bare : Jid → Bool
is_bare j = j.resource == ""

pub is_domain : Jid → Bool
is_domain j = j.local == "" && j.resource == ""

pub with_resource : Jid → String → Jid
with_resource j resource = record j { resource = resource }

unfoldable pub bare_jid_string : String → String
bare_jid_string value = elim (split_first "/" value) [ none ↦ value | some (rest, _) ↦ rest ]
