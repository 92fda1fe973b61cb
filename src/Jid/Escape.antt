-- ===== src/Jid/Escape.antt =====
-- `EscapeLocal` and `UnescapeLocal` of xmpp/jid.go: the XEP-0106 escapes of a localpart.
use Prim.Native.Char.{Char}
use Prim.Native.String.{◌++◌ as ◌<>◌}
use text.Mathlib.TextLemmas.{nil-append, cons-append, head-eq_of_cons-eq}
use mathlib.Core.Option.{none-ne-some}
use slixmpp_go.Common.{
  ap, [], ◌∷◌, ◌≡◌, refl, sym, ◌∙◌, ◌≢◌, none, some, String, inl, inr, char_eq, string_eq, All,
  Option-cases,
}
use slixmpp_go.Common.Dict
use slixmpp_go.Common.Dict.{Dict}

-- The pairs of `escapeLocalReplacer`; every old string is one byte.
abbrev escapes : Dict Char String
escapes =
    ("\\", "\\5c")
    ∷ (" ", "\\20")
    ∷ ("\"", "\\22")
    ∷ ("&", "\\26")
    ∷ ("'", "\\27")
    ∷ ("/", "\\2f")
    ∷ (":", "\\3a")
    ∷ ("<", "\\3c")
    ∷ (">", "\\3e")
    ∷ ("@", "\\40")
    ∷ []

-- `escapeLocalReplacer.Replace`
unfoldable pub escape_local : String → String
unfolding Dict.lookup
escape_local String.[] = ""
escape_local (String.◌∷◌ c s) = elim (Dict.lookup c escapes) [
  | some e ↦ e <> escape_local s
  | none ↦ String.◌∷◌ c (escape_local s)
]

-- The pairs of `unescapeLocalReplacer`; every old string is three bytes.
abbrev unescapes : Dict String Char
unescapes =
    ("\\20", " ")
    ∷ ("\\22", "\"")
    ∷ ("\\26", "&")
    ∷ ("\\27", "'")
    ∷ ("\\2f", "/")
    ∷ ("\\3a", ":")
    ∷ ("\\3c", "<")
    ∷ ("\\3e", ">")
    ∷ ("\\40", "@")
    ∷ ("\\5c", "\\")
    ∷ []

abbrev triple : Char → Char → Char → String → String
triple b d e s = String.◌∷◌ b (String.◌∷◌ d (String.◌∷◌ e s))

-- `unescapeLocalReplacer.Replace`: the old string that stands here, else one character on.
unfoldable pub unescape_local : String → String
unfolding Dict.lookup
unescape_local String.[] = ""
unescape_local (String.◌∷◌ b String.[]) = String.◌∷◌ b ""
unescape_local (String.◌∷◌ b (String.◌∷◌ d String.[])) = String.◌∷◌ b (String.◌∷◌ d "")
unescape_local (String.◌∷◌ b (String.◌∷◌ d (String.◌∷◌ e s))) =
    elim (Dict.lookup (triple b d e "") unescapes) [
      | some c ↦ String.◌∷◌ c (unescape_local s)
      | none ↦ String.◌∷◌ b (unescape_local (String.◌∷◌ d (String.◌∷◌ e s)))
    ]

triple-append : (b d e : Char) (t : String) → triple b d e "" <> t ≡ triple b d e t
triple-append b d e t =
    cons-append b _ t
    ∙ ap (String.◌∷◌ b) (
        cons-append d _ t
        ∙ ap (String.◌∷◌ d) (cons-append e "" t ∙ ap (String.◌∷◌ e) (nil-append t)))

-- An escape is read back as its character, whatever follows.
abbrev IsReadBack : Char → String → Type 0
IsReadBack c e = (t : String) → unescape_local (e <> t) ≡ String.◌∷◌ c (unescape_local t)

escapes-IsReadBack : All (λ p. IsReadBack p.0 p.1) escapes
unfolding unescape_local string_eq
escapes-IsReadBack = (
  (λ t. rw (triple-append "\\" "5" "c" t)),
  (
    (λ t. rw (triple-append "\\" "2" "0" t)),
    (
      (λ t. rw (triple-append "\\" "2" "2" t)),
      (
        (λ t. rw (triple-append "\\" "2" "6" t)),
        (
          (λ t. rw (triple-append "\\" "2" "7" t)),
          (
            (λ t. rw (triple-append "\\" "2" "f" t)),
            (
              (λ t. rw (triple-append "\\" "3" "a" t)),
              (
                (λ t. rw (triple-append "\\" "3" "c" t)),
                (
                  (λ t. rw (triple-append "\\" "3" "e" t)),
                  ((λ t. rw (triple-append "\\" "4" "0" t)), tt),
                ),
              ),
            ),
          ),
        ),
      ),
    ),
  ),
)

not_escape : (b d e : Char) (s : String) → b ≢ "\\" → triple b d e "" ≢ String.◌∷◌ "\\" s
not_escape b d e s h p = h (head-eq_of_cons-eq p)

lookup-unescapes : (b d e : Char) → b ≢ "\\" → Dict.lookup (triple b d e "") unescapes ≡ none
lookup-unescapes b d e h =
    let other = λ (s : String). not_escape b d e s h in
    Dict.lookup_absent (triple b d e "") unescapes (
      other "20",
      (
        other "22",
        (
          other "26",
          (
            other "27",
            (other "2f", (other "3a", (other "3c", (other "3e", (other "40", (other "5c", tt)))))),
          ),
        ),
      ),
    )

-- A backslash is escaped, so what has no escape is none.
backslash_escaped : (c : Char) → Dict.lookup c escapes ≡ none → c ≢ "\\"
unfolding Dict.lookup char_eq
backslash_escaped c h e = none-ne-some "\\5c" (sym h ∙ ap (λ b. Dict.lookup b escapes) e)

unescape_plain :
    (c : Char) (t : String)
    → c ≢ "\\"
    → unescape_local (String.◌∷◌ c t) ≡ String.◌∷◌ c (unescape_local t)
unfolding unescape_local
unescape_plain c String.[] h = refl
unescape_plain c (String.◌∷◌ d String.[]) h = refl
unescape_plain c (String.◌∷◌ d (String.◌∷◌ e s)) h = rw (lookup-unescapes c d e h, unescape_local)

escape_nil : unescape_local (escape_local "") ≡ ""
unfolding escape_local unescape_local
escape_nil = refl

escape_plain :
    (c : Char) (s : String)
    → Dict.lookup c escapes ≡ none
    → escape_local (String.◌∷◌ c s) ≡ String.◌∷◌ c (escape_local s)
unfolding escape_local
escape_plain c s e = rw (e, escape_local)

escape_special :
    (c : Char) (s text : String)
    → Dict.lookup c escapes ≡ some text
    → escape_local (String.◌∷◌ c s) ≡ text <> escape_local s
unfolding escape_local
escape_special c s text e = rw (e, escape_local)

-- Unescaping gives back every text that was escaped.
pub unescape_local-escape_local : (s : String) → unescape_local (escape_local s) ≡ s
unescape_local-escape_local String.[] = escape_nil
unescape_local-escape_local (String.◌∷◌ c s) = elim (Option-cases (Dict.lookup c escapes)) [
  | inl e ↦ rw (escape_plain c s e) (
      unescape_plain c (escape_local s) (backslash_escaped c e)
      ∙ ap (String.◌∷◌ c) (unescape_local-escape_local s))
  | inr (text, e) ↦ rw (escape_special c s text e) (
      Dict.lookup_sound IsReadBack c escapes escapes-IsReadBack e (escape_local s)
      ∙ ap (String.◌∷◌ c) (unescape_local-escape_local s))
]

escape_test : escape_local "d'artagnan @x" ≡ "d\\27artagnan\\20\\40x"
unfolding escape_local char_eq
escape_test = refl

unescape_test : unescape_local "d\\27artagnan\\20\\40x\\5c\\5" ≡ "d'artagnan @x\\\\5"
unfolding unescape_local string_eq
unescape_test = refl
