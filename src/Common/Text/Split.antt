-- ===== src/Common/Text/Split.antt =====
-- Splitting a text at a byte, and the search for forbidden characters.
use Prim.Native.Char.{Char}
use Prim.Native.String.{String, ◌++◌ as ◌<>◌}
use mathlib.Core.Option.{none-ne-some}
use text.Mathlib.TextLemmas.{nil-append, cons-append}
use slixmpp_go.Common.{
  ◌≡◌, refl, Bool, true, false, ◌⊎◌, Option, ◌||◌, none, some, arith, ◌==◌, ==_iff, if◌then◌else◌,
  char_eq, inl, inr, Option-cases,
}
use slixmpp_go.Common.Text.{has_byte, split_first, split_last, cons_left, char_in, contains_any}

has_byte-nil : (x : Char) → has_byte x "" ≡ false
unfolding has_byte
has_byte-nil x = refl

pub has_byte-cons :
    (x c : Char) (s : String) → has_byte x (String.◌∷◌ c s) ≡ (c == x || has_byte x s)
unfolding has_byte
has_byte-cons x c s = refl

pub split_first-none : (x : Char) (s : String) → has_byte x s ≡ false → split_first x s ≡ none
unfolding has_byte split_first
split_first-none x String.[] h = refl
split_first-none x (String.◌∷◌ c s) h = ground (arith, split_first-none x s)

pub split_last-none : (x : Char) (s : String) → has_byte x s ≡ false → split_last x s ≡ none
unfolding has_byte split_last
split_last-none x String.[] h = refl
split_last-none x (String.◌∷◌ c s) h = ground (arith, split_last-none x s)

pub has_byte-split_last : (x : Char) (s : String) → split_last x s ≡ none → has_byte x s ≡ false
unfolding has_byte split_last
has_byte-split_last x String.[] h = refl
has_byte-split_last x (String.◌∷◌ c s) h = ground (arith, has_byte-split_last x s)

pub has_byte-split_first : (x : Char) (s : String) → split_first x s ≡ none → has_byte x s ≡ false
unfolding has_byte split_first
has_byte-split_first x String.[] h = refl
has_byte-split_first x (String.◌∷◌ c s) h = ground (arith, has_byte-split_first x s)

pub split_first-append :
    (x : Char) (a : String) (b : String)
    → has_byte x a ≡ false
    → split_first x (a <> String.◌∷◌ x b) ≡ some (a, b)
unfolding has_byte split_first
split_first-append x String.[] b h = rw nil-append (ground arith)
split_first-append x (String.◌∷◌ c a) b h =
    rw cons-append (ground (arith, split_first-append x a b))

pub split_last-append :
    (x : Char) (a : String) (b : String)
    → has_byte x b ≡ false
    → split_last x (a <> String.◌∷◌ x b) ≡ some (a, b)
unfolding has_byte split_last
split_last-append x String.[] b h = rw nil-append (ground (arith, split_last-none x b))
split_last-append x (String.◌∷◌ c a) b h = rw cons-append (ground (arith, split_last-append x a b))

split_first_cases :
    (t : Bool) (c : Char) (s : String) (o : Option (String × String)) {a b : String}
    → (if t then some ("", s) else cons_left c o) ≡ some (a, b)
    → (t ≡ true) × (a ≡ "") × (b ≡ s)
      ⊎ ((a' : String) × (t ≡ false) × (o ≡ some (a', b)) × (a ≡ String.◌∷◌ c a'))
split_first_cases true c s o h = inl (ground arith)
split_first_cases false c s none h = absurd (none-ne-some _ h)
split_first_cases false c s (some (a', b')) h = inr (a', refl, ground arith, ground arith)

-- What a successful split says of the text.
pub split_first_sound :
    (x : Char) (s : String) {a b : String}
    → split_first x s ≡ some (a, b)
    → (s ≡ a <> String.◌∷◌ x b) × (has_byte x a ≡ false)
unfolding split_first
split_first_sound x String.[] h = absurd (none-ne-some _ h)
split_first_sound x (String.◌∷◌ c s) {a} {b} h =
    elim (split_first_cases (c == x) c s (split_first x s) h) [
      | inl (t, nil, rest) ↦
          let same = (==_iff c x).0 t in (rw (nil, rest, same, nil-append), rw (nil, has_byte-nil))
      | inr (a', t, e, longer) ↦
          let ih = split_first_sound x s e in
          (rw (longer, cons-append, ← ih.0), rw (longer, has_byte-cons, t) ih.1)
    ]

pub split_last_sound :
    (x : Char) (s : String) {a b : String}
    → split_last x s ≡ some (a, b)
    → (s ≡ a <> String.◌∷◌ x b) × (has_byte x b ≡ false)
unfolding has_byte split_last
split_last_sound x String.[] h = absurd (none-ne-some _ h)
split_last_sound x (String.◌∷◌ c s) {a} {b} h = elim (Option-cases (split_last x s)) [
  | inl e ↦ ground (arith, nil-append (String.◌∷◌ x b), has_byte-split_last x s e)
  | inr ((a', b'), e) ↦
      let ih = split_last_sound x s e in
      ground (arith, ih, nil-append (String.◌∷◌ x b), cons-append c a' (String.◌∷◌ x b))
]

pub has_byte-append :
    (x : Char) (a b : String) → has_byte x (a <> b) ≡ (has_byte x a || has_byte x b)
unfolding has_byte
has_byte-append x String.[] b = rw nil-append
has_byte-append x (String.◌∷◌ c a) b =
    rw (cons-append, has_byte) (ground (arith, has_byte-append x a b))

-- A text with none of the characters of a set has no given one of them.
pub has_byte_of_contains_any :
    (x : Char) (s chars : String)
    → char_in x chars ≡ true
    → contains_any s chars ≡ false
    → has_byte x s ≡ false
unfolding has_byte contains_any
has_byte_of_contains_any x String.[] chars m h = refl
has_byte_of_contains_any x (String.◌∷◌ c s) chars m h =
    ground (arith, has_byte_of_contains_any x s chars m)
