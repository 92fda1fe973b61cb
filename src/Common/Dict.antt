-- ===== src/Common/Dict.antt =====
-- Go maps as association lists. Proofs elsewhere go by the laws; tests unfold the operations.
use mathlib.Core.Path.{◌≡◌, refl, sym, subst₂}
use mathlib.Core.Logic.{◌≢◌, if_pos, if_neg}
use mathlib.Core.Bool.{Bool}
use mathlib.Core.Option.{Option, none, some, none-ne-some, some-injective}
use mathlib.Core.List.{List, [], ◌∷◌, map}
use native.Mathlib.Omega.{arith}
use slixmpp_go.Common.Lists.{All}
use slixmpp_go.Common.Equality.{Eq, ◌==◌, if◌then◌else◌}

abbrev pub Dict {ℓ κ} : Type ℓ → Type κ → Type (ℓ ⊔ κ)
Dict K V = List (K × V)

module _ {ℓ κ} {K : Type ℓ} {V : Type κ} ⦃e : Eq K⦄ where
  -- `v, ok := m[k]`
  unfoldable pub lookup : K → Dict K V → Option V
  lookup k [] = none
  lookup k ((j, v) ∷ d) = if k == j then some v else lookup k d

  -- `m[k] = v`
  unfoldable pub insert : K → V → Dict K V → Dict K V
  insert k v [] = (k, v) ∷ []
  insert k v ((j, w) ∷ d) = if k == j then (k, v) ∷ d else (j, w) ∷ insert k v d

  -- `delete(m, k)`
  unfoldable pub erase : K → Dict K V → Dict K V
  erase k [] = []
  erase k ((j, w) ∷ d) = let rest = erase k d in if k == j then rest else (j, w) ∷ rest

  pub lookup-nil : (k : K) → lookup k [] ≡ none
  unfolding lookup
  lookup-nil k = refl

  pub lookup-cons :
      (j k : K) (v : V) (d : Dict K V)
      → lookup j ((k, v) ∷ d) ≡ (if j == k then some v else lookup j d)
  unfolding lookup
  lookup-cons j k v d = refl

  pub lookup-insert :
      (j k : K) (v : V) (d : Dict K V)
      → lookup j (insert k v d) ≡ (if j == k then some v else lookup j d)
  unfolding insert lookup
  lookup-insert j k v [] = refl
  lookup-insert j k v ((i, w) ∷ d) = ground (arith, lookup-insert j k v d)

  pub lookup-insert_self : (k : K) (v : V) (d : Dict K V) → lookup k (insert k v d) ≡ some v
  lookup-insert_self k v d = ground (arith, lookup-insert k k v d)

  pub lookup-erase :
      (j k : K) (d : Dict K V) → lookup j (erase k d) ≡ (if j == k then none else lookup j d)
  unfolding erase lookup
  lookup-erase j k [] = ground arith
  lookup-erase j k ((i, w) ∷ d) = ground (arith, lookup-erase j k d)

  -- What holds of every entry holds of the one that is found.
  pub lookup_sound {μ} :
      (P : K → V → Type μ) (k : K) (d : Dict K V) {v : V}
      → All (λ p. P p.0 p.1) d
      → lookup k d ≡ some v
      → P k v
  unfolding lookup
  lookup_sound P k [] a h = absurd (none-ne-some _ h)
  lookup_sound P k ((j, w) ∷ d) a h = elim (e.dec k j) [
    | yes p ↦ subst₂ P (sym p) (some-injective _ _ (rw (if_pos _ p) at h)) a.0
    | no n ↦ lookup_sound P k d a.1 (rw (if_neg _ n) at h)
  ]

  pub lookup_absent : (k : K) (d : Dict K V) → All (λ p. k ≢ p.0) d → lookup k d ≡ none
  unfolding lookup
  lookup_absent k [] a = refl
  lookup_absent k ((j, w) ∷ d) a = rw (if_neg _ a.0) (lookup_absent k d a.1)

  -- Deletes every entry whose key passes the test.
  unfoldable pub erase_if : (K → Bool) → Dict K V → Dict K V
  erase_if test [] = []
  erase_if test ((j, w) ∷ d) = let rest = erase_if test d in if test j then rest else (j, w) ∷ rest

  pub lookup-erase_if :
      (j : K) (test : K → Bool) (d : Dict K V)
      → lookup j (erase_if test d) ≡ (if test j then none else lookup j d)
  unfolding erase_if lookup
  lookup-erase_if j test [] = ground arith
  lookup-erase_if j test ((i, w) ∷ d) = ground (arith, lookup-erase_if j test d)

-- The values of a map, and the keys, in the order of the list.
abbrev pub values {ℓ κ} : {K : Type ℓ} {V : Type κ} → Dict K V → List V
values = map (λ p. p.1)
