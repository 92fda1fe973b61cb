-- ===== src/Matchers/Laws.antt =====
-- xmpp/matcher.go: how the matchers relate to each other.
use slixmpp_go.Common.{
  ◌≡◌, refl, ap, true, not, Option, none, some, List, [], ◌∷◌, map, String, string_eq, arith,
  Option-cases, inl, inr,
}
use slixmpp_go.Common.Text.{Unicode, split_first}
use slixmpp_go.Common.Text.Split
use slixmpp_go.Jid.{bare_jid_string}
use slixmpp_go.Jid.RoundTrip.{bare_jid_string-none, bare_jid_string-some}
use slixmpp_go.Stanza.{Stanza}
use slixmpp_go.Matchers.{Matcher, match_and, match_or, match_not, match_from, same_jid}

-- Any of the matchers matches unless all of their negations do; nil matchers count for neither.
pub match_or-match_and :
    (ms : List (Option Matcher)) (s : Option Stanza)
    → match_or ms s ≡ not (match_and (map (λ m. some (match_not m)) ms) s)
unfolding match_or match_and match_not
match_or-match_and [] s = refl
match_or-match_and (none ∷ ms) s = match_or-match_and ms s
match_or-match_and (some m ∷ ms) s = ground (arith, match_or-match_and ms s)

-- `BareJIDString` of its own result is that result.
pub bare_jid_string_idem : (v : String) → bare_jid_string (bare_jid_string v) ≡ bare_jid_string v
bare_jid_string_idem v = elim (Option-cases (split_first "/" v)) [
  | inl e ↦ ap bare_jid_string (bare_jid_string-none v e)
  | inr ((a, r), e) ↦
      rw (bare_jid_string-some v a r e)
        (bare_jid_string-none a (Split.split_first-none "/" a (Split.split_first_sound "/" v e).1))
]

-- `MatchFrom` with its flag `bare` does not see the resource of the JID that it is given.
pub match_from-bare_jid_string :
    (U : Unicode) (v : String) (s : Option Stanza)
    → match_from U (bare_jid_string v) true s ≡ match_from U v true s
unfolding match_from same_jid
match_from-bare_jid_string U v none = refl
match_from-bare_jid_string U v (some s) = rw (bare_jid_string_idem v) refl
