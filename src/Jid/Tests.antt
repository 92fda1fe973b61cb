-- ===== src/Jid/Tests.antt =====
-- Runs on the texts of the tests of xmpp, and the theorems on JIDs at concrete data. The tables of
-- characters are those of ASCII.
use Prim.Native.Char.{Char, code}
use slixmpp_go.Common.{
  ◌⊎◌, ◌&&◌, not, leb, All, ◌<◌, ◌≡◌, refl, Bool, true, ◌||◌, Option, none, some, [], ◌∷◌, String,
  ◌==◌, string_eq, nat_eq, arith, inl, inr, ap, Bool-cases, char_eq, Option-cases,
}
use slixmpp_go.Common.Dict
use slixmpp_go.Common.Dict.{Dict}
use slixmpp_go.Common.Result.{ok, err}
use slixmpp_go.Common.Text.{
  Unicode, IsUnicode, has_byte, split_first, split_last, contains_any, trim_suffix_byte, trim_space,
  trim_left, trim_right, char_in, to_lower,
}
use slixmpp_go.Jid.{Jid, parse_jid, to_string, bare, empty_resource, normal_domain}
use slixmpp_go.Jid.RoundTrip.{IsNormal}
use slixmpp_go.Jid.Reparse.{parse_jid-reparse}
use slixmpp_go.Jid.Escape.{escape_local, unescape_local, unescape_local-escape_local}

abbrev lower_of : Dict Char Char
lower_of =
    ("A", "a")
    ∷ ("B", "b")
    ∷ ("C", "c")
    ∷ ("D", "d")
    ∷ ("E", "e")
    ∷ ("F", "f")
    ∷ ("G", "g")
    ∷ ("H", "h")
    ∷ ("I", "i")
    ∷ ("J", "j")
    ∷ ("K", "k")
    ∷ ("L", "l")
    ∷ ("M", "m")
    ∷ ("N", "n")
    ∷ ("O", "o")
    ∷ ("P", "p")
    ∷ ("Q", "q")
    ∷ ("R", "r")
    ∷ ("S", "s")
    ∷ ("T", "t")
    ∷ ("U", "u")
    ∷ ("V", "v")
    ∷ ("W", "w")
    ∷ ("X", "x")
    ∷ ("Y", "y")
    ∷ ("Z", "z")
    ∷ []

abbrev or_same : Char → Option Char → Char
or_same c none = c
or_same c (some d) = d

abbrev lower : Char → Char
lower c = or_same c (Dict.lookup c lower_of)

unfoldable space : Char → Bool
space c = c == " " || c == "\t" || c == "\n" || c == "\r"

abbrev ascii : Unicode
ascii = record { is_space = space; to_lower = lower; equal_fold = λ s t. s == t }

abbrev is_letter : Char → Char → Bool
is_letter c d = lower d == d && not (space c) && not (space d) && leb 65 (code c) && leb 65 (code d)

all_letters : (d : Dict Char Char) → Bool
all_letters [] = true
all_letters ((c, l) ∷ d) = is_letter c l && all_letters d

letters-All : (d : Dict Char Char) → all_letters d ≡ true → All (λ p. is_letter p.0 p.1 ≡ true) d
unfolding all_letters
letters-All [] h = tt
letters-All ((c, l) ∷ d) h = elim (Bool-cases (is_letter c l)) [
  | inl e ↦ (e, letters-All d (rw e at h))
  | inr e ↦ cc
]

lower-cases : (c : Char) → (lower c ≡ c) ⊎ (is_letter c (lower c) ≡ true)
unfolding all_letters char_eq Dict.lookup space
lower-cases c = elim (Option-cases (Dict.lookup c lower_of)) [
  | inl e ↦ rw e (inl refl)
  | inr (d, e) ↦ rw e (
      inr
        (Dict.lookup_sound (λ c d. is_letter c d ≡ true) c lower_of (letters-All lower_of refl) e))
]

letter-settled : (c d : Char) → is_letter c d ≡ true → lower d ≡ d
letter-settled c d h = ground (arith, h)

letter-space : (c d : Char) → is_letter c d ≡ true → space d ≡ space c
letter-space c d h = ground arith

letter-high : (c d : Char) → is_letter c d ≡ true → code c < 65 ⊎ code d < 65 → d ≡ c
letter-high c d h k = ground arith

ascii-IsUnicode : IsUnicode ascii
ascii-IsUnicode = record {
  lower_idem =
      λ c. elim (lower-cases c) [ inl e ↦ ap lower e | inr h ↦ letter-settled c (lower c) h ];
  space_lower =
      λ c. elim (lower-cases c) [ inl e ↦ ap space e | inr h ↦ letter-space c (lower c) h ];
  lower_low =
      λ c lt. elim (lower-cases c) [ inl e ↦ e | inr h ↦ letter-high c (lower c) h (inl lt) ];
  low_lower =
      λ c lt. elim (lower-cases c) [ inl e ↦ e | inr h ↦ letter-high c (lower c) h (inr lt) ];
}

abbrev juliet : Jid
juliet = record { local = "juliet"; domain = "example.com"; resource = "balcony/1" }

abbrev mixed_text : String
mixed_text = " juliet@Example.COM./balcony/1 "

juliet_text : to_string juliet ≡ "juliet@example.com/balcony/1"
unfolding to_string bare string_eq
juliet_text = refl

-- The domain is lowered and loses its last dot; the resource is all that stands behind the first
-- slash.
mixed_parsed : parse_jid ascii mixed_text ≡ ok juliet
unfolding parse_jid normal_domain trim_space trim_left trim_right trim_suffix_byte to_lower
    split_first split_last contains_any has_byte char_in Dict.lookup space string_eq char_eq
mixed_parsed = refl

no_resource : parse_jid ascii "juliet@example.com/" ≡ err empty_resource
unfolding parse_jid normal_domain trim_space trim_left trim_right trim_suffix_byte to_lower
    split_first split_last contains_any has_byte char_in Dict.lookup space string_eq char_eq
no_resource = refl

juliet-IsNormal : IsNormal ascii juliet
unfolding to_string bare normal_domain trim_space trim_left trim_right trim_suffix_byte to_lower
    contains_any has_byte char_in Dict.lookup space string_eq char_eq
juliet-IsNormal = record {
  domain_given = λ h. cc;
  domain_clean = refl;
  local_clean = refl;
  resource_clean = refl;
  domain_normal = refl;
  trimmed = refl;
}

parse_jid-reparse_example : parse_jid ascii (to_string juliet) ≡ ok juliet
unfolding trim_suffix_byte space char_eq
parse_jid-reparse_example =
    parse_jid-reparse ascii ascii-IsUnicode mixed_text juliet mixed_parsed refl refl

unescape_local-escape_local_example :
    unescape_local (escape_local "d'artagnan\\20") ≡ "d'artagnan\\20"
unescape_local-escape_local_example = unescape_local-escape_local "d'artagnan\\20"
