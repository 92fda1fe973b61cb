-- ===== src/Common/Result.antt =====
-- A Go result `(value, error)` of which one part is meant: a value, or an error.
use mathlib.Core.Path.{◌≡◌, refl}
use mathlib.Core.Bool.{Bool, true, false}
use slixmpp_go.Common.Equality.{if◌then◌else◌}

pub data Result {ℓ κ} (E : Type ℓ) (A : Type κ) : Type (ℓ ⊔ κ) where
  ok : A → Result E A
  err : E → Result E A

infixl 5 ◌>>=◌ ◌>>◌
abbrev pub ◌>>=◌ {ℓ κ μ} :
    {E : Type ℓ} {A : Type κ} {B : Type μ} → Result E A → (A → Result E B) → Result E B
err e >>= next = err e
ok value >>= next = next value

abbrev pub ◌>>◌ {ℓ μ} : {E : Type ℓ} {B : Type μ} → Result E (Unit {0}) → Result E B → Result E B
first >> second = first >>= λ _. second

-- `if test { return err }`
abbrev pub reject_if {ℓ} : {E : Type ℓ} → Bool → E → Result E (Unit {0})
reject_if false reason = ok tt
reject_if true reason = err reason

-- The first step of a chain that gives a value gave one, with which the rest went on.
pub >>=-eq-ok {ℓ κ μ} :
    {E : Type ℓ} {A : Type κ} {B : Type μ} {result : B} (first : Result E A) (next : A → Result E B)
    → (first >>= next) ≡ ok result
    → (value : A) × (first ≡ ok value) × (next value ≡ ok result)
>>=-eq-ok (err reason) next h = cc
>>=-eq-ok (ok value) next h = (value, refl, h)

pub reject_if-eq-ok {ℓ} :
    {E : Type ℓ} (test : Bool) (e : E) {u : Unit {0}} → reject_if test e ≡ ok u → test ≡ false
reject_if-eq-ok true e h = cc
reject_if-eq-ok false e h = refl

-- What holds of the value, if there is one.
abbrev pub Ensures {ℓ κ μ} : {E : Type ℓ} {A : Type κ} → (A → Type μ) → Result E A → Type μ
Ensures P (ok value) = P value
Ensures P (err reason) = Unit

pub >>=-Ensures {ℓ κ μ ν ξ} :
    {E : Type ℓ} {A : Type κ} {B : Type μ} (P : A → Type ν) (Q : B → Type ξ) (first : Result E A)
    (next : A → Result E B)
    → Ensures P first
    → ((value : A) → P value → Ensures Q (next value))
    → Ensures Q (first >>= next)
>>=-Ensures P Q (ok value) next h k = k value h
>>=-Ensures P Q (err reason) next h k = tt

pub Ensures-if {ℓ κ μ} :
    {E : Type ℓ} {A : Type κ} (P : A → Type μ) (test : Bool) (r s : Result E A)
    → Ensures P r
    → Ensures P s
    → Ensures P (if test then r else s)
Ensures-if P true r s h k = h
Ensures-if P false r s h k = k

pub Ensures-Unit {ℓ κ} : {E : Type ℓ} {A : Type κ} (r : Result E A) → Ensures (λ _. Unit {0}) r
Ensures-Unit (ok value) = tt
Ensures-Unit (err reason) = tt
