-- ===== src/Jid/RoundTrip.antt =====
-- `ParseJID` after `String`, and what a parsed JID looks like.
use Prim.Native.String.{◌++◌ as ◌<>◌}
use Prim.Native.Char.{Char}
use text.Mathlib.TextLemmas.{nil-append, cons-append}
use slixmpp_go.Common.{
  ap, ◌≡◌, refl, sym, ◌∙◌, ◌≢◌, true, false, none, some, String, ◌==◌, ==_iff, string_eq, arith,
  Bool-cases, inl, inr, char_eq,
}
use slixmpp_go.Common.Result.{ok}
use slixmpp_go.Common.Text.{
  Unicode, has_byte, char_in, split_first, split_last, contains_any, trim_space,
}
use slixmpp_go.Common.Text.Split
use slixmpp_go.Jid.{
  Jid, cut_resource, cut_local, normal_domain, parse_jid, bare, to_string, domain_specials,
  local_specials, resource_specials, bare_jid_string,
}

-- The three parts pass the tests of `ParseJID`, and the domain is as it would leave it.
pub record IsNormal (U : Unicode) (j : Jid) : Type 0 where
  pub domain_given : j.domain ≢ ""
  pub domain_clean : contains_any j.domain domain_specials ≡ false
  pub local_clean : contains_any j.local local_specials ≡ false
  pub resource_clean : contains_any j.resource resource_specials ≡ false
  pub domain_normal : normal_domain U j.domain ≡ j.domain
  pub trimmed : trim_space U (to_string j) ≡ to_string j

pub slash_local : (s : String) → contains_any s local_specials ≡ false → has_byte "/" s ≡ false
unfolding char_in char_eq
slash_local s = Split.has_byte_of_contains_any "/" s local_specials refl

slash_domain : (s : String) → contains_any s domain_specials ≡ false → has_byte "/" s ≡ false
unfolding char_in char_eq
slash_domain s = Split.has_byte_of_contains_any "/" s domain_specials refl

at_domain : (s : String) → contains_any s domain_specials ≡ false → has_byte "@" s ≡ false
unfolding char_in char_eq
at_domain s = Split.has_byte_of_contains_any "@" s domain_specials refl

slash-at : (s : String) → has_byte "/" ("@" <> s) ≡ has_byte "/" s
unfolding has_byte char_eq
slash-at s = rw (Split.has_byte-append "/" "@" s)

slash-bare :
    (j : Jid)
    → has_byte "/" j.local ≡ false
    → has_byte "/" j.domain ≡ false
    → has_byte "/" (bare j) ≡ false
unfolding bare
slash-bare j l d =
    ground (arith, Split.has_byte-append "/" j.local ("@" <> j.domain), slash-at j.domain)

pub singleton-append : (c : Char) (s : String) → String.◌∷◌ c "" <> s ≡ String.◌∷◌ c s
singleton-append c s = cons-append c "" s ∙ ap (String.◌∷◌ c) (nil-append s)

pub bare_of_domain : (j : Jid) → (j.local == "") ≡ true → bare j ≡ j.domain
unfolding bare
bare_of_domain j e = rw e

pub bare_of_local :
    (j : Jid) → (j.local == "") ≡ false → bare j ≡ j.local <> String.◌∷◌ "@" j.domain
unfolding bare
bare_of_local j e = rw e (ap (λ s. j.local <> s) (singleton-append "@" j.domain))

pub to_string_of_bare : (j : Jid) → (j.resource == "") ≡ true → to_string j ≡ bare j
unfolding to_string
to_string_of_bare j e = rw e

pub to_string_of_full :
    (j : Jid) → (j.resource == "") ≡ false → to_string j ≡ bare j <> String.◌∷◌ "/" j.resource
unfolding to_string
to_string_of_full j e = rw e (ap (λ s. bare j <> s) (singleton-append "/" j.resource))

cut_local-none : (v : String) → split_last "@" v ≡ none → cut_local v ≡ ok ("", v)
unfolding cut_local
cut_local-none v e = rw (e, cut_local)

cut_local-some :
    (v l d : String) → split_last "@" v ≡ some (l, d) → (l == "") ≡ false → cut_local v ≡ ok (l, d)
unfolding cut_local
cut_local-some v l d e g = rw (e, cut_local) (rw g)

cut_resource-none : (v : String) → split_first "/" v ≡ none → cut_resource v ≡ ok (v, "")
unfolding cut_resource
cut_resource-none v e = rw (e, cut_resource)

cut_resource-some :
    (v a r : String)
    → split_first "/" v ≡ some (a, r)
    → (r == "") ≡ false
    → cut_resource v ≡ ok (a, r)
unfolding cut_resource
cut_resource-some v a r e g = rw (e, cut_resource) (rw g)

cut_local-bare :
    (j : Jid) → has_byte "@" j.domain ≡ false → cut_local (bare j) ≡ ok (j.local, j.domain)
cut_local-bare j d = elim (Bool-cases (j.local == "")) [
  | inl e ↦ rw (bare_of_domain j e) (
      cut_local-none j.domain (Split.split_last-none "@" j.domain d)
      ∙ ap (λ l. ok (l, j.domain)) (sym ((==_iff j.local "").0 e)))
  | inr e ↦
      rw (bare_of_local j e)
        (cut_local-some _ j.local j.domain (Split.split_last-append "@" j.local j.domain d) e)
]

cut_resource-to_string :
    (j : Jid) → has_byte "/" (bare j) ≡ false → cut_resource (to_string j) ≡ ok (bare j, j.resource)
cut_resource-to_string j b = elim (Bool-cases (j.resource == "")) [
  | inl e ↦ rw (to_string_of_bare j e) (
      cut_resource-none (bare j) (Split.split_first-none "/" (bare j) b)
      ∙ ap (λ r. ok (bare j, r)) (sym ((==_iff j.resource "").0 e)))
  | inr e ↦ rw (to_string_of_full j e) (
      cut_resource-some _ (bare j) j.resource (Split.split_first-append "/" (bare j) j.resource b)
        e)
]

pub cons-ne_nil : (a : String) (c : Char) (b : String) → a <> String.◌∷◌ c b ≢ ""
cons-ne_nil String.[] c b e = cc (nil-append (String.◌∷◌ c b))
cons-ne_nil (String.◌∷◌ d a) c b e = cc (cons-append d a (String.◌∷◌ c b))

pub bare-ne_nil : (j : Jid) → j.domain ≢ "" → bare j ≢ ""
bare-ne_nil j d = elim (Bool-cases (j.local == "")) [
  | inl e ↦ rw (bare_of_domain j e) d
  | inr e ↦ rw (bare_of_local j e) (cons-ne_nil j.local "@" j.domain)
]

to_string-ne_nil : (j : Jid) → j.domain ≢ "" → to_string j ≢ ""
to_string-ne_nil j d = elim (Bool-cases (j.resource == "")) [
  | inl e ↦ rw (to_string_of_bare j e) (bare-ne_nil j d)
  | inr e ↦ rw (to_string_of_full j e) (cons-ne_nil (bare j) "/" j.resource)
]

ne_nil-test : (s : String) → s ≢ "" → (s == "") ≡ false
ne_nil-test s h = ground arith

-- `ParseJID` reads a JID back from its `String`, if its domain is given and is its own normal
-- form, no part holds a character that is refused there, and its text has no white space at its
-- ends.
pub parse_jid-to_string : (U : Unicode) (j : Jid) → IsNormal U j → parse_jid U (to_string j) ≡ ok j
unfolding parse_jid
parse_jid-to_string U j n =
    let slash =
      slash-bare j (slash_local j.local n.local_clean) (slash_domain j.domain n.domain_clean) in
    rw
      (
        n.trimmed,
        ne_nil-test (to_string j) (to_string-ne_nil j n.domain_given),
        cut_resource-to_string j slash,
        cut_local-bare j (at_domain j.domain n.domain_clean),
      )
      (rw (
        n.domain_normal,
        ne_nil-test j.domain n.domain_given,
        n.domain_clean,
        n.local_clean,
        n.resource_clean,
      ))

pub bare_jid_string-none : (v : String) → split_first "/" v ≡ none → bare_jid_string v ≡ v
unfolding bare_jid_string
bare_jid_string-none v e = rw (e, bare_jid_string)

pub bare_jid_string-some :
    (v a r : String) → split_first "/" v ≡ some (a, r) → bare_jid_string v ≡ a
unfolding bare_jid_string
bare_jid_string-some v a r e = rw (e, bare_jid_string)

-- `BareJIDString` of the text of a normal JID is its `Bare`.
pub bare_jid_string-to_string :
    (U : Unicode) (j : Jid) → IsNormal U j → bare_jid_string (to_string j) ≡ bare j
bare_jid_string-to_string U j n =
    let slash =
      slash-bare j (slash_local j.local n.local_clean) (slash_domain j.domain n.domain_clean) in
    elim (Bool-cases (j.resource == "")) [
      | inl e ↦
          rw (to_string_of_bare j e)
            (bare_jid_string-none (bare j) (Split.split_first-none "/" (bare j) slash))
      | inr e ↦ rw (to_string_of_full j e) (
          bare_jid_string-some _ (bare j) j.resource
            (Split.split_first-append "/" (bare j) j.resource slash))
    ]
