-- ===== src/Common/Int/Strokes.antt =====
-- Numbers as a sign and strokes: a printer and a reader that are as documented.
use slixmpp_go.Common.Equality.{char_eq, ◌==◌, if◌then◌else◌}
use Prim.Native.Nat.{ℕ, zero, suc}
use Prim.Native.String.{String}
use mathlib.Core.Option.{Option, none, some}
use mathlib.Core.Path.{◌≡◌, refl, ap}
use slixmpp_go.Common.Int.{ℤ, pos, negsuc, IsInt, Strconv, IsStrconv}

abbrev pub strokes : ℕ → String
strokes zero = ""
strokes (suc n) = String.◌∷◌ "1" (strokes n)

abbrev pub stroke_count : String → ℕ
stroke_count String.[] = zero
stroke_count (String.◌∷◌ c s) = suc (stroke_count s)

abbrev pub print : ℤ → String
print (pos n) = String.◌∷◌ "+" (strokes n)
print (negsuc n) = String.◌∷◌ "-" (strokes n)

abbrev pub read : String → Option ℤ
read String.[] = none
read (String.◌∷◌ c s) =
    if c == "+" then some (pos (stroke_count s)) else some (negsuc (stroke_count s))

abbrev pub or_zero : Option ℤ → ℤ
or_zero none = pos 0
or_zero (some v) = v

abbrev pub numbers : Strconv
numbers = record { itoa = print; atoi = read; atoi_value = λ s. or_zero (read s) }

pub stroke_count-strokes : (n : ℕ) → stroke_count (strokes n) ≡ n
stroke_count-strokes zero = refl
stroke_count-strokes (suc n) = ap suc (stroke_count-strokes n)

pub numbers-IsStrconv : IsStrconv numbers
unfolding char_eq
numbers-IsStrconv = record { read_back = back; value_of = λ s v e. ap or_zero e }
  where
    back : (v : ℤ) → IsInt v → read (print v) ≡ some v
    back (pos n) h = ap (λ m. some (pos m)) (stroke_count-strokes n)
    back (negsuc n) h = ap (λ m. some (negsuc m)) (stroke_count-strokes n)
