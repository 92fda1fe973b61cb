-- ===== src/Common/Sort.antt =====
-- `sort.SliceStable` and `sort.Strings`: the stable order by a test `less`, by insertion. A stable
-- sort has one result, so the algorithm of the library does not matter.
use mathlib.Core.List.Perm
use mathlib.Core.List.{Perm}
use slixmpp_go.Common.{
  ◌≡◌, refl, ◌∙◌, ap, Bool, true, false, List, [], ◌∷◌, ◌++◌, if◌then◌else◌, All, arith, Bool-cases,
  inl, inr,
}

-- The elements that pass a test, in order.
abbrev pub keep {ℓ} : {A : Type ℓ} → (A → Bool) → List A → List A
keep test [] = []
keep test (x ∷ xs) = let rest = keep test xs in if test x then x ∷ rest else rest

module _ {ℓ} {A : Type ℓ} (less : A → A → Bool) where
  -- Before the first element that is not less.
  unfoldable pub insert_sorted : A → List A → List A
  insert_sorted x [] = x ∷ []
  insert_sorted x (y ∷ ys) = if less y x then y ∷ insert_sorted x ys else x ∷ y ∷ ys

  unfoldable pub sort_stable : List A → List A
  unfolding insert_sorted
  sort_stable [] = []
  sort_stable (x ∷ xs) = insert_sorted x (sort_stable xs)

  -- No element is less than one before it.
  abbrev pub IsSorted : List A → Type ℓ
  IsSorted [] = Unit
  IsSorted (x ∷ xs) = All (λ y. less y x ≡ false) xs × IsSorted xs

  insert_sorted-perm : (x : A) (xs : List A) → Perm (insert_sorted x xs) (x ∷ xs)
  unfolding insert_sorted
  insert_sorted-perm x [] = Perm.refl (x ∷ [])
  insert_sorted-perm x (y ∷ ys) = elim (Bool-cases (less y x)) [
    | inl e ↦ rw e (Perm.trans (Perm.cons y (insert_sorted-perm x ys)) (Perm.swap x y ys))
    | inr e ↦ rw e (Perm.refl (x ∷ y ∷ ys))
  ]

  pub sort_stable-perm : (xs : List A) → Perm (sort_stable xs) xs
  unfolding sort_stable
  sort_stable-perm [] = Perm.refl []
  sort_stable-perm (x ∷ xs) =
      Perm.trans (insert_sorted-perm x (sort_stable xs)) (Perm.cons x (sort_stable-perm xs))

  keep-insert_sorted :
      (test : A → Bool)
      → ((a b : A) → test a ≡ true → test b ≡ true → less a b ≡ false)
      → (x : A) (xs : List A) → keep test (insert_sorted x xs) ≡ keep test (x ∷ xs)
  unfolding insert_sorted
  keep-insert_sorted test alike x [] = refl
  keep-insert_sorted test alike x (y ∷ ys) =
      ground (arith, alike y x, keep-insert_sorted test alike x ys)

  -- Elements of which none is less than another keep their order.
  pub sort_stable-keep :
      (test : A → Bool)
      → ((a b : A) → test a ≡ true → test b ≡ true → less a b ≡ false)
      → (xs : List A) → keep test (sort_stable xs) ≡ keep test xs
  unfolding sort_stable
  sort_stable-keep test alike [] = refl
  sort_stable-keep test alike (x ∷ xs) =
      keep-insert_sorted test alike x (sort_stable xs)
      ∙ ap (λ rest. if test x then x ∷ rest else rest) (sort_stable-keep test alike xs)

  -- A test that orders: one that passes does not pass the other way, and failing is transitive.
  pub record IsOrder : Type ℓ where
    pub asym : (a b : A) → less a b ≡ true → less b a ≡ false
    pub not_less_trans : (a b c : A) → less b a ≡ false → less c b ≡ false → less c a ≡ false

  module _ (o : IsOrder) where
    All-not_less :
        (x y : A) (ys : List A)
        → less y x ≡ false
        → All (λ z. less z y ≡ false) ys
        → All (λ z. less z x ≡ false) ys
    All-not_less x y [] h a = tt
    All-not_less x y (z ∷ zs) h a = (o.not_less_trans x y z h a.0, All-not_less x y zs h a.1)

    All-insert_sorted :
        (a x : A) (xs : List A)
        → less x a ≡ false
        → All (λ z. less z a ≡ false) xs
        → All (λ z. less z a ≡ false) (insert_sorted x xs)
    unfolding insert_sorted
    All-insert_sorted a x [] h all = (h, tt)
    All-insert_sorted a x (y ∷ ys) h all = elim (Bool-cases (less y x)) [
      | inl e ↦ rw e (all.0, All-insert_sorted a x ys h all.1)
      | inr e ↦ rw e (h, all)
    ]

    insert_sorted-IsSorted : (x : A) (xs : List A) → IsSorted xs → IsSorted (insert_sorted x xs)
    unfolding insert_sorted
    insert_sorted-IsSorted x [] s = (tt, tt)
    insert_sorted-IsSorted x (y ∷ ys) s = elim (Bool-cases (less y x)) [
      | inl e ↦ rw e (All-insert_sorted y x ys (o.asym y x e) s.0, insert_sorted-IsSorted x ys s.1)
      | inr e ↦ rw e ((e, All-not_less x y ys e s.0), s)
    ]

    pub sort_stable-IsSorted : (xs : List A) → IsSorted (sort_stable xs)
    unfolding sort_stable
    sort_stable-IsSorted [] = tt
    sort_stable-IsSorted (x ∷ xs) = insert_sorted-IsSorted x _ (sort_stable-IsSorted xs)

module _ {ℓ κ} {A : Type ℓ} (less : A → A → Bool) (P : A → Type κ) where
  All-insert : (x : A) (xs : List A) → P x → All P xs → All P (insert_sorted less x xs)
  unfolding insert_sorted
  All-insert x [] h all = (h, tt)
  All-insert x (y ∷ ys) h all = elim (Bool-cases (less y x)) [
    | inl e ↦ rw e (all.0, All-insert x ys h all.1)
    | inr e ↦ rw e (h, all)
  ]

  pub All-sort_stable : (xs : List A) → All P xs → All P (sort_stable less xs)
  unfolding sort_stable
  All-sort_stable [] h = tt
  All-sort_stable (x ∷ xs) h = All-insert x _ h.0 (All-sort_stable xs h.1)

-- Deletes the first element that passes the test: `append(items[:i], items[i+1:]...)` in a loop.
unfoldable pub remove_first {ℓ} : {A : Type ℓ} → (A → Bool) → List A → List A
remove_first test [] = []
remove_first test (x ∷ xs) = if test x then xs else x ∷ remove_first test xs

pub All-remove_first {ℓ κ} :
    {A : Type ℓ} (P : A → Type κ) (test : A → Bool) (xs : List A)
    → All P xs
    → All P (remove_first test xs)
unfolding remove_first
All-remove_first P test [] h = tt
All-remove_first P test (x ∷ xs) h = elim (Bool-cases (test x)) [
  | inl e ↦ rw e h.1
  | inr e ↦ rw e (h.0, All-remove_first P test xs h.1)
]

module _ {ℓ} {A : Type ℓ} (less : A → A → Bool) (o : IsOrder less) (test : A → Bool) where
  head_not_less :
      (x : A) (ys : List A) → All (λ y. less y x ≡ false) ys → insert_sorted less x ys ≡ x ∷ ys
  unfolding insert_sorted
  head_not_less x [] h = refl
  head_not_less x (y ∷ ys) h = ground arith

  remove_first-insert_sorted :
      (x : A) (ys : List A)
      → test x ≡ false
      → IsSorted less ys
      → remove_first test (insert_sorted less x ys) ≡ insert_sorted less x (remove_first test ys)
  unfolding insert_sorted remove_first
  remove_first-insert_sorted x [] h s = rw h
  remove_first-insert_sorted x (y ∷ ys) h s = ground (
    arith,
    remove_first-insert_sorted x ys h s.1,
    λ (e : less y x ≡ false). head_not_less x ys (All-not_less less o x y ys e s.0),
  )

  -- Deleting and sorting may be exchanged.
  pub remove_first-sort_stable :
      (xs : List A) (a : A)
      → All (λ x. test x ≡ false) xs
      → test a ≡ true
      → remove_first test (sort_stable less (xs ++ (a ∷ []))) ≡ sort_stable less xs
  unfolding sort_stable remove_first insert_sorted
  remove_first-sort_stable [] a h t = rw t
  remove_first-sort_stable (x ∷ xs) a h t =
      remove_first-insert_sorted x _ h.0 (sort_stable-IsSorted less o (xs ++ (a ∷ [])))
      ∙ ap (insert_sorted less x) (remove_first-sort_stable xs a h.1 t)

  -- A sorted list is its own stable order.
  pub sort_stable_sorted : (xs : List A) → IsSorted less xs → sort_stable less xs ≡ xs
  unfolding sort_stable
  sort_stable_sorted [] s = refl
  sort_stable_sorted (x ∷ xs) s =
      ap (insert_sorted less x) (sort_stable_sorted xs s.1) ∙ head_not_less x xs s.0

  pub IsSorted-remove_first :
      (xs : List A) → IsSorted less xs → IsSorted less (remove_first test xs)
  unfolding remove_first
  IsSorted-remove_first [] s = tt
  IsSorted-remove_first (x ∷ xs) s = elim (Bool-cases (test x)) [
    | inl e ↦ rw e s.1
    | inr e ↦
        rw e (All-remove_first (λ y. less y x ≡ false) test xs s.0, IsSorted-remove_first xs s.1)
  ]
