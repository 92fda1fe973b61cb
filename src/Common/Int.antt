-- ===== src/Common/Int.antt =====
-- Go's signed integers, over the native numbers, with their order and the least operations.
pub mod Strokes
use Prim.Native.Nat.{ℕ, zero, suc, ◌+◌, ◌^◌, ◌<◌}
use Prim.Native.String.{String}
use mathlib.Core.Option.{Option, some}
use mathlib.Core.Path.{◌≡◌, ap}
use mathlib.Core.Bool.{Bool, true, false}
use native.Mathlib.Omega.{arith}
use native.Mathlib.Decide.{ℕ_discrete}
use slixmpp_go.Common.Equality.{Eq, ltb}

-- `negsuc n` is -(n + 1).
pub data ℤ : Type 0 where
  pos : ℕ → ℤ
  negsuc : ℕ → ℤ

abbrev pub pos_part : ℤ → ℕ
pos_part (pos n) = n
pos_part (negsuc n) = 0

abbrev pub neg_part : ℤ → ℕ
neg_part (pos n) = 0
neg_part (negsuc n) = suc n

-- Equality by the parts.
instance unfoldable pub int_eq : Eq ℤ
unfolding ℕ_discrete
int_eq = record { dec = by_parts }
  where
    by_parts : Discrete ℤ
    by_parts (pos m) (pos n) = elim (ℕ_discrete m n) [
      | yes e ↦ yes (ap pos e)
      | no d ↦ no (λ p. d (ap pos_part p))
    ]
    by_parts (negsuc m) (negsuc n) = elim (ℕ_discrete m n) [
      | yes e ↦ yes (ap negsuc e)
      | no d ↦ no (λ p. d (let q : suc m ≡ suc n = ap neg_part p in omega arith))
    ]
    by_parts (pos m) (negsuc n) =
        no (λ p. let q : zero ≡ suc n = ap neg_part p in absurd (omega arith))
    by_parts (negsuc m) (pos n) =
        no (λ p. let q : suc m ≡ zero = ap neg_part p in absurd (omega arith))

-- `a < b`
unfoldable pub lt_int : ℤ → ℤ → Bool
lt_int a b = ltb (pos_part a + neg_part b) (pos_part b + neg_part a)

pub lt_int_asym : (a b : ℤ) → lt_int a b ≡ true → lt_int b a ≡ false
unfolding lt_int
lt_int_asym a b h = ground arith

pub lt_int_irrefl : (a : ℤ) → lt_int a a ≡ false
unfolding lt_int
lt_int_irrefl a = ground arith

pub not_lt_int_trans : (a b c : ℤ) → lt_int b a ≡ false → lt_int c b ≡ false → lt_int c a ≡ false
unfolding lt_int
not_lt_int_trans a b c h k = ground arith

-- What a Go `int` holds on a 64-bit machine.
abbrev pub IsInt : ℤ → Type 0
IsInt (pos n) = n < 2 ^ 63
IsInt (negsuc n) = n < 2 ^ 63

-- `strconv.Itoa` and `strconv.Atoi`: none where Atoi returns an error, beside which it still returns
-- a value.
pub record Strconv : Type 0 where
  pub itoa : ℤ → String
  pub atoi : String → Option ℤ
  pub atoi_value : String → ℤ

-- An int is read back from its text.
pub record IsStrconv (S : Strconv) : Type 0 where
  pub read_back : (v : ℤ) → IsInt v → S.atoi (S.itoa v) ≡ some v
  pub value_of : (s : String) (v : ℤ) → S.atoi s ≡ some v → S.atoi_value s ≡ v
