-- ===== src/Common/Text.antt =====
-- The functions of Go's package strings that the program uses, over the native texts. A separator
-- is an ASCII character. Case and white space come from Go's tables, a parameter.
pub mod Split
pub mod Trim
use Prim.Native.Char.{Char, code}
use Prim.Native.String.{String}
use mathlib.Core.Path.{◌≡◌}
use slixmpp_go.Common.{
  ◌<◌, ltb, ◌&&◌, Bool, true, false, ◌||◌, Option, none, some, ◌==◌, char_eq, string_eq,
  if◌then◌else◌,
}

-- `unicode.IsSpace`, `unicode.ToLower` and `strings.EqualFold`.
pub record Unicode : Type 0 where
  pub is_space : Char → Bool
  pub to_lower : Char → Char
  pub equal_fold : String → String → Bool

-- Lowering twice is lowering once, keeps white space what it is, and touches no ASCII character
-- below `A`, nor makes one.
pub record IsUnicode (U : Unicode) : Type 0 where
  pub lower_idem : (c : Char) → U.to_lower (U.to_lower c) ≡ U.to_lower c
  pub space_lower : (c : Char) → U.is_space (U.to_lower c) ≡ U.is_space c
  pub lower_low : (c : Char) → code c < 65 → U.to_lower c ≡ c
  pub low_lower : (c : Char) → code (U.to_lower c) < 65 → U.to_lower c ≡ c

-- `strings.IndexByte(s, x) >= 0`
unfoldable pub has_byte : Char → String → Bool
has_byte x String.[] = false
has_byte x (String.◌∷◌ c s) = c == x || has_byte x s

abbrev pub cons_left : Char → Option (String × String) → Option (String × String)
cons_left c none = none
cons_left c (some (a, b)) = some (String.◌∷◌ c a, b)

-- `strings.IndexByte` with the two slices around the byte that it finds.
unfoldable pub split_first : Char → String → Option (String × String)
split_first x String.[] = none
split_first x (String.◌∷◌ c s) = if c == x then some ("", s) else cons_left c (split_first x s)

-- `strings.LastIndexByte` with the two slices around the byte that it finds.
unfoldable pub split_last : Char → String → Option (String × String)
split_last x String.[] = none
split_last x (String.◌∷◌ c s) = elim (split_last x s) [
  | none ↦ if c == x then some ("", s) else none
  | some (a, b) ↦ some (String.◌∷◌ c a, b)
]

-- `strings.ContainsAny(s, chars)`
unfoldable pub char_in : Char → String → Bool
char_in c String.[] = false
char_in c (String.◌∷◌ d s) = c == d || char_in c s

unfoldable pub contains_any : String → String → Bool
unfolding char_in
contains_any String.[] chars = false
contains_any (String.◌∷◌ c s) chars = char_in c chars || contains_any s chars

-- `strings.TrimSuffix(s, x)` for a suffix of one byte.
unfoldable pub trim_suffix_byte : Char → String → String
trim_suffix_byte x String.[] = ""
trim_suffix_byte x (String.◌∷◌ c String.[]) = if c == x then "" else String.◌∷◌ c ""
trim_suffix_byte x (String.◌∷◌ c (String.◌∷◌ d s)) =
    String.◌∷◌ c (trim_suffix_byte x (String.◌∷◌ d s))

module _ (U : Unicode) where
  unfoldable pub trim_left : String → String
  trim_left String.[] = ""
  trim_left (String.◌∷◌ c s) =
      let rest = trim_left s in if U.is_space c then rest else String.◌∷◌ c s

  -- A character before a trimmed rest.
  abbrev pub keep_right : Char → String → String
  keep_right c String.[] = if U.is_space c then "" else String.◌∷◌ c ""
  keep_right c (String.◌∷◌ d r) = String.◌∷◌ c (String.◌∷◌ d r)

  unfoldable pub trim_right : String → String
  trim_right String.[] = ""
  trim_right (String.◌∷◌ c s) = keep_right c (trim_right s)

  -- `strings.TrimSpace`
  unfoldable pub trim_space : String → String
  unfolding trim_left trim_right
  trim_space s = trim_right (trim_left s)

  -- `strings.ToLower`
  unfoldable pub to_lower : String → String
  to_lower String.[] = ""
  to_lower (String.◌∷◌ c s) = String.◌∷◌ (U.to_lower c) (to_lower s)

-- `s < t` compares bytes, which orders texts in UTF-8 as their characters do.
unfoldable pub lt_string : String → String → Bool
lt_string String.[] String.[] = false
lt_string String.[] (String.◌∷◌ d t) = true
lt_string (String.◌∷◌ c s) String.[] = false
lt_string (String.◌∷◌ c s) (String.◌∷◌ d t) =
    let rest = lt_string s t in ltb (code c) (code d) || (c == d && rest)
