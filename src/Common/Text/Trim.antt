-- ===== src/Common/Text/Trim.antt =====
-- Trimming white space, and texts with no space at an end.
use Prim.Native.Char.{Char}
use Prim.Native.String.{String, ◌++◌ as ◌<>◌}
use text.Mathlib.TextLemmas.{nil-append, cons-append, cons-ne-nil}
use slixmpp_go.Common.{
  ◌≡◌, refl, sym, ◌∙◌, ◌≢◌, Bool, true, false, not, arith, ◌==◌, char_eq, inl, inr, Bool-cases,
}
use slixmpp_go.Common.Text.{
  Unicode, IsUnicode, trim_left, trim_right, keep_right, trim_space, to_lower, trim_suffix_byte,
}

module _ (U : Unicode) where
  -- The first character, if there is one, is no space.
  abbrev pub solid_left : String → Bool
  solid_left String.[] = true
  solid_left (String.◌∷◌ c s) = not (U.is_space c)

  abbrev pub solid_right : String → Bool
  solid_right String.[] = true
  solid_right (String.◌∷◌ c String.[]) = not (U.is_space c)
  solid_right (String.◌∷◌ c (String.◌∷◌ d s)) = solid_right (String.◌∷◌ d s)

  trim_left-solid : (s : String) → solid_left s ≡ true → trim_left U s ≡ s
  unfolding trim_left
  trim_left-solid String.[] h = refl
  trim_left-solid (String.◌∷◌ c s) h = ground arith

  trim_right-solid : (s : String) → solid_right s ≡ true → trim_right U s ≡ s
  unfolding trim_right
  trim_right-solid String.[] h = refl
  trim_right-solid (String.◌∷◌ c String.[]) h = ground arith
  trim_right-solid (String.◌∷◌ c (String.◌∷◌ d s)) h = rw (trim_right-solid (String.◌∷◌ d s) h)

  pub trim_space-solid :
      (s : String) → solid_left s ≡ true → solid_right s ≡ true → trim_space U s ≡ s
  unfolding trim_space
  trim_space-solid s l r = rw (trim_left-solid s l) (trim_right-solid s r)

  solid_left-trim_left : (s : String) → solid_left (trim_left U s) ≡ true
  unfolding trim_left
  solid_left-trim_left String.[] = refl
  solid_left-trim_left (String.◌∷◌ c s) = elim (Bool-cases (U.is_space c)) [
    | inl e ↦ rw e (solid_left-trim_left s)
    | inr e ↦ rw e (rw e)
  ]

  solid_right-keep_right :
      (c : Char) (r : String) → solid_right r ≡ true → solid_right (keep_right U c r) ≡ true
  solid_right-keep_right c String.[] h = elim (Bool-cases (U.is_space c)) [
    | inl e ↦ rw e
    | inr e ↦ rw e (rw e)
  ]
  solid_right-keep_right c (String.◌∷◌ d r) h = h

  solid_right-trim_right : (s : String) → solid_right (trim_right U s) ≡ true
  unfolding trim_right
  solid_right-trim_right String.[] = refl
  solid_right-trim_right (String.◌∷◌ c s) =
      solid_right-keep_right c (trim_right U s) (solid_right-trim_right s)

  solid_left-keep_right :
      (c : Char) (r : String) → U.is_space c ≡ false → solid_left (keep_right U c r) ≡ true
  solid_left-keep_right c String.[] h = ground arith
  solid_left-keep_right c (String.◌∷◌ d r) h = rw h

  solid_left-trim_right : (s : String) → solid_left s ≡ true → solid_left (trim_right U s) ≡ true
  unfolding trim_right
  solid_left-trim_right String.[] h = refl
  solid_left-trim_right (String.◌∷◌ c s) h = solid_left-keep_right c (trim_right U s) (ground arith)

  -- A trimmed text has no space at either end.
  pub trim_space-solid_left : (s : String) → solid_left (trim_space U s) ≡ true
  unfolding trim_space
  trim_space-solid_left s = solid_left-trim_right _ (solid_left-trim_left s)

  pub trim_space-solid_right : (s : String) → solid_right (trim_space U s) ≡ true
  unfolding trim_space
  trim_space-solid_right s = solid_right-trim_right (trim_left U s)

  pub solid_left-append : (a b : String) → a ≢ "" → solid_left (a <> b) ≡ solid_left a
  solid_left-append String.[] b h = absurd (h refl)
  solid_left-append (String.◌∷◌ c a) b h = rw cons-append

  pub solid_left_of_append : (a b : String) → solid_left (a <> b) ≡ true → solid_left a ≡ true
  solid_left_of_append String.[] b h = refl
  solid_left_of_append (String.◌∷◌ c a) b h = rw cons-append at h

  append-ne_nil : (a b : String) → b ≢ "" → a <> b ≢ ""
  append-ne_nil String.[] b h e = h (sym (nil-append b) ∙ e)
  append-ne_nil (String.◌∷◌ c a) b h e = cc (cons-append c a b)

  solid_right-cons : (c : Char) (s : String) → s ≢ "" → solid_right (String.◌∷◌ c s) ≡ solid_right s
  solid_right-cons c String.[] h = absurd (h refl)
  solid_right-cons c (String.◌∷◌ d s) h = refl

  pub solid_right-append : (a b : String) → b ≢ "" → solid_right (a <> b) ≡ solid_right b
  solid_right-append String.[] b h = rw nil-append
  solid_right-append (String.◌∷◌ c a) b h =
      rw cons-append (solid_right-cons c (a <> b) (append-ne_nil a b h) ∙ solid_right-append a b h)

  pub solid_right-append_cons :
      (a : String) (c : Char) (b : String)
      → b ≢ ""
      → solid_right (a <> String.◌∷◌ c b) ≡ solid_right b
  solid_right-append_cons a c b h =
      solid_right-append a (String.◌∷◌ c b) (cons-ne-nil c b) ∙ solid_right-cons c b h

  -- Lowering the case keeps the ends as they are.
  pub solid_left-to_lower : IsUnicode U → (s : String) → solid_left (to_lower U s) ≡ solid_left s
  unfolding to_lower
  solid_left-to_lower u String.[] = refl
  solid_left-to_lower u (String.◌∷◌ c s) = rw u.space_lower

  pub solid_left-trim_suffix_byte :
      (x : Char) (s : String) → solid_left s ≡ true → solid_left (trim_suffix_byte x s) ≡ true
  unfolding trim_suffix_byte
  solid_left-trim_suffix_byte x String.[] h = refl
  solid_left-trim_suffix_byte x (String.◌∷◌ c String.[]) h = elim (Bool-cases (c == x)) [
    | inl e ↦ rw e
    | inr e ↦ rw e h
  ]
  solid_left-trim_suffix_byte x (String.◌∷◌ c (String.◌∷◌ d s)) h = h

  -- A lowered text is still lowered when a last byte is cut.
  pub to_lower-trim_suffix_byte :
      IsUnicode U
      → (x : Char) (s : String)
      → to_lower U (trim_suffix_byte x (to_lower U s)) ≡ trim_suffix_byte x (to_lower U s)
  unfolding to_lower trim_suffix_byte
  to_lower-trim_suffix_byte u x String.[] = refl
  to_lower-trim_suffix_byte u x (String.◌∷◌ c String.[]) = elim (Bool-cases (U.to_lower c == x)) [
    | inl e ↦ rw e
    | inr e ↦ rw e (rw u.lower_idem)
  ]
  to_lower-trim_suffix_byte u x (String.◌∷◌ c (String.◌∷◌ d s)) =
      rw (u.lower_idem, to_lower-trim_suffix_byte u x (String.◌∷◌ d s))
