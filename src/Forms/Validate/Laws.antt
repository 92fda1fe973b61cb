-- ===== src/Forms/Validate/Laws.antt =====
-- xep/forms.go: what `Validate` accepts, and which error it returns.
use slixmpp_go.Common.{
  ◌≡◌, refl, Bool, true, false, not, ◌||◌, ◌&&◌, Option, none, some, List, [], ◌∷◌, String, ◌==◌,
  ◌!=◌, string_eq, if◌then◌else◌, ltb, length, ℕ, ◌↔◌, ◌≤◌, ◌<◌, ◌⊎◌, inl, inr, All, ==_iff, arith,
  Bool-cases,
}
use slixmpp_go.Common.Int.{ℤ, pos, lt_int}
use slixmpp_go.Common.Result.{Result, ok, err, ◌>>◌, reject_if}
use slixmpp_go.Forms.{FieldOption, Validation, Field}
use slixmpp_go.Forms.Validate.{
  FieldError, is_single, is_list, is_boolean_text, is_allowed, has_options, check_values,
  check_options, check_least, check_most, Library, check_boolean, check_compiled, check_regex,
  check_validation, validate_field, value_required, one_value, too_few, too_many, not_an_option,
  no_match, invalid_boolean,
}

-- One of the options has the value.
abbrev pub IsOneOf : String → List FieldOption → Type 0
IsOneOf v [] = ⊥
IsOneOf v (o ∷ os) = (o.value ≡ v) ⊎ IsOneOf v os

abbrev pub IsAtLeast : Option ℤ → List String → Type 0
IsAtLeast none values = Unit
IsAtLeast (some m) values = lt_int (pos (length values)) m ≡ false

abbrev pub IsAtMost : Option ℤ → List String → Type 0
IsAtMost none values = Unit
IsAtMost (some m) values = lt_int m (pos (length values)) ≡ false

abbrev pub IsClosed : Option Validation → Type 0
IsClosed none = ⊥
IsClosed (some v) = ¬ (v.method ≡ "open")

module _ (L : Library) where
  -- The pattern compiles, and every value matches it.
  abbrev pub Matches : Option (String → Bool) → List String → Type 0
  Matches none values = ⊥
  Matches (some matches) values = All (λ v. matches v ≡ true) values

  abbrev pub IsBooleanList : List String → Type 0
  IsBooleanList [] = Unit
  IsBooleanList (v ∷ []) = is_boolean_text (L.lower v) ≡ true
  IsBooleanList (v ∷ w ∷ vs) = Unit

  abbrev pub MeetsValidation : Option Validation → List String → Type 0
  MeetsValidation none values = Unit
  MeetsValidation (some v) values =
      IsAtLeast v.list_min values
      × IsAtMost v.list_max values
      × (v.method ≡ "regex" → Matches (L.compile v.regex) values)

  pub record IsAcceptable (f : Field) : Type 0 where
    pub present : f.required ≡ true → 0 < length f.values
    pub one : is_single f.kind ≡ true → length f.values ≤ 1
    pub boolean : f.kind ≡ "boolean" → IsBooleanList f.values
    pub listed :
        is_list f.kind ≡ true
        → 0 < length f.options
        → IsClosed f.validation
        → All (λ v. IsOneOf v f.options) f.values
    pub validated : MeetsValidation f.validation f.values

-- A guard, and the rest of the checks.
>>-ok_iff {ℓ κ μ} :
    {E : Type ℓ} (m n : Result E (Unit {0})) {P : Type κ} {Q : Type μ}
    → (m ≡ ok tt) ↔ P
    → (n ≡ ok tt) ↔ Q
    → ((m >> n) ≡ ok tt) ↔ (P × Q)
>>-ok_iff (ok u) n h k = (λ e. (h.0 refl, k.0 e), λ pq. k.1 pq.1)
>>-ok_iff (err x) n {P} {Q} h k = (λ e. cc, λ pq. let e : err x ≡ ok tt = h.1 pq.0 in cc)

reject_if-ok_iff {ℓ} : {E : Type ℓ} (t : Bool) (e : E) → (reject_if t e ≡ ok tt) ↔ (t ≡ false)
reject_if-ok_iff true e = (λ h. cc, λ h. cc)
reject_if-ok_iff false e = (λ h. refl, λ h. refl)

reject_not-ok_iff {ℓ κ} :
    {E : Type ℓ} {P : Type κ} (t : Bool) (e : E)
    → (t ≡ true) ↔ P
    → (reject_if (not t) e ≡ ok tt) ↔ P
reject_not-ok_iff true e h = (λ p. h.0 refl, λ p. refl)
reject_not-ok_iff false e h = (λ p. cc, λ p. let q : false ≡ true = h.1 p in cc)

-- A check under a condition.
reject_and-ok_iff {ℓ κ} :
    {E : Type ℓ} {P : Type κ} (a t : Bool) (e : E)
    → (t ≡ true) ↔ P
    → (reject_if (a && not t) e ≡ ok tt) ↔ (a ≡ true → P)
reject_and-ok_iff true t e h = let k = reject_not-ok_iff t e h in (λ p q. k.0 p, λ p. k.1 (p refl))
reject_and-ok_iff false t e h = (λ p q. cc, λ p. refl)

or-true_iff {ℓ κ} :
    {P : Type ℓ} {Q : Type κ} (a b : Bool)
    → (a ≡ true) ↔ P
    → (b ≡ true) ↔ Q
    → (a || b ≡ true) ↔ (P ⊎ Q)
or-true_iff true b h k = (λ p. inl (h.0 refl), λ p. refl)
or-true_iff false b h k =
    (λ p. inr (k.0 p), λ p. elim p [ inl x ↦ (let q : false ≡ true = h.1 x in cc) | inr y ↦ k.1 y ])

check_values-ok_iff {κ} :
    (test : String → Bool) (reason : String → FieldError) (P : String → Type κ)
    → ((v : String) → (test v ≡ true) ↔ P v)
    → (vs : List String) → (check_values test reason vs ≡ ok tt) ↔ All P vs
check_values-ok_iff test reason P h [] = (λ e. tt, λ e. refl)
check_values-ok_iff test reason P h (v ∷ vs) =
    >>-ok_iff (reject_if (not (test v)) (reason v)) (check_values test reason vs)
      (reject_not-ok_iff (test v) (reason v) (h v)) (check_values-ok_iff test reason P h vs)

pub is_allowed-IsOneOf :
    (os : List FieldOption) (v : String) → (is_allowed os v ≡ true) ↔ IsOneOf v os
is_allowed-IsOneOf [] v = (λ h. cc, λ h. elim h [ ])
is_allowed-IsOneOf (o ∷ os) v =
    or-true_iff (o.value == v) (is_allowed os v) (==_iff o.value v) (is_allowed-IsOneOf os v)

ltb-true_iff : (a b : ℕ) → (ltb a b ≡ true) ↔ (a < b)
ltb-true_iff a b = (λ h. ground arith, λ h. ground arith)

check_least-ok_iff : (m : Option ℤ) (vs : List String) → (check_least m vs ≡ ok tt) ↔ IsAtLeast m vs
check_least-ok_iff none vs = (λ h. tt, λ h. refl)
check_least-ok_iff (some m) vs = reject_if-ok_iff (lt_int (pos (length vs)) m) (too_few m)

check_most-ok_iff : (m : Option ℤ) (vs : List String) → (check_most m vs ≡ ok tt) ↔ IsAtMost m vs
check_most-ok_iff none vs = (λ h. tt, λ h. refl)
check_most-ok_iff (some m) vs = reject_if-ok_iff (lt_int m (pos (length vs))) (too_many m)

-- A check that is made where a test holds.
under-ok_iff {ℓ κ} :
    {E : Type ℓ} {P : Type κ} (t : Bool) (m : Result E (Unit {0}))
    → (m ≡ ok tt) ↔ P
    → ((if t then m else ok tt) ≡ ok tt) ↔ (t ≡ true → P)
under-ok_iff true m h = (λ e _. h.0 e, λ p. h.1 (p refl))
under-ok_iff false m h = (λ e q. cc, λ p. refl)

not-equal_iff : (a b : String) → (a != b ≡ true) ↔ (¬ (a ≡ b))
not-equal_iff a b = elim (Bool-cases (a == b)) [
  | inl e ↦ rw e (λ h. cc, λ h. absurd (h ((==_iff a b).0 e)))
  | inr e ↦ rw e (λ h p. let q = (==_iff a b).1 p in cc, λ h. refl)
]

at_most_one-ok_iff {ℓ} :
    {E : Type ℓ} (a : Bool) (n : ℕ) (e : E)
    → (reject_if (a && ltb 1 n) e ≡ ok tt) ↔ (a ≡ true → n ≤ 1)
at_most_one-ok_iff true n e =
    let h = reject_if-ok_iff (ltb 1 n) e in
    (λ p q. (let r = h.0 p in ground arith), λ p. h.1 (let r = p refl in ground arith))
at_most_one-ok_iff false n e = (λ p q. cc, λ p. refl)

has_options-length : (os : List FieldOption) → (has_options os ≡ true) ↔ (0 < length os)
has_options-length [] = (λ h. cc, λ h. elim h [ ])
has_options-length (o ∷ os) = (λ h. omega arith, λ h. refl)

check_options-ok_iff :
    (os : List FieldOption) (o : Option Validation) (vs : List String)
    → (check_options os o vs ≡ ok tt) ↔ (0 < length os → IsClosed o → All (λ v. IsOneOf v os) vs)
check_options-ok_iff os none vs = (λ e x y. elim y [ ], λ p. refl)
check_options-ok_iff os (some v) vs =
    let each =
      check_values-ok_iff (is_allowed os) not_an_option (λ v. IsOneOf v os) (is_allowed-IsOneOf os)
        vs in
    let under =
      under-ok_iff (has_options os && v.method != "open")
        (check_values (is_allowed os) not_an_option vs) each in
    (
      λ e x y.
          under.0 e (rw ((has_options-length os).1 x, (not-equal_iff v.method "open").1 y) refl),
      λ p. under.1 (λ t.
          let (x, y) = and_parts (has_options os) (v.method != "open") t in
          p ((has_options-length os).0 x) ((not-equal_iff v.method "open").0 y)),
    )
  where
    and_parts : (a b : Bool) → a && b ≡ true → (a ≡ true) × (b ≡ true)
    and_parts true b t = (refl, t)
    and_parts false b t = cc

module _ (L : Library) where
  check_boolean-ok_iff :
      (kind : String) (vs : List String)
      → (check_boolean L kind vs ≡ ok tt) ↔ (kind ≡ "boolean" → IsBooleanList L vs)
  check_boolean-ok_iff kind [] = (λ e x. tt, λ p. refl)
  check_boolean-ok_iff kind (v ∷ []) =
      let guarded =
        reject_and-ok_iff (kind == "boolean") (is_boolean_text (L.lower v)) (invalid_boolean v)
          ((λ t. t), (λ t. t)) in
      (
        λ e x. guarded.0 e ((==_iff kind "boolean").1 x),
        λ p. guarded.1 (λ t. p ((==_iff kind "boolean").0 t)),
      )
  check_boolean-ok_iff kind (v ∷ w ∷ vs) = (λ e x. tt, λ p. refl)

  check_compiled-ok_iff :
      (o : Option (String → Bool)) (vs : List String)
      → (check_compiled L o vs ≡ ok tt) ↔ Matches L o vs
  check_compiled-ok_iff none vs = (λ e. cc, λ p. elim p [ ])
  check_compiled-ok_iff (some matches) vs =
      check_values-ok_iff matches no_match (λ v. matches v ≡ true) (λ v. ((λ t. t), (λ t. t))) vs

  check_validation-ok_iff :
      (o : Option Validation) (vs : List String)
      → (check_validation L o vs ≡ ok tt) ↔ MeetsValidation L o vs
  check_validation-ok_iff none vs = (λ e. tt, λ p. refl)
  check_validation-ok_iff (some v) vs =
      let tested =
        under-ok_iff (v.method == "regex") (check_compiled L (L.compile v.regex) vs)
          (check_compiled-ok_iff (L.compile v.regex) vs) in
      let pattern : (check_regex L v vs ≡ ok tt)
          ↔ (v.method ≡ "regex" → Matches L (L.compile v.regex) vs) =
        (
          λ e x. tested.0 e ((==_iff v.method "regex").1 x),
          λ p. tested.1 (λ t. p ((==_iff v.method "regex").0 t)),
        ) in
      let whole =
        >>-ok_iff (check_least v.list_min vs) (check_most v.list_max vs >> check_regex L v vs)
          (check_least-ok_iff v.list_min vs)
          (>>-ok_iff (check_most v.list_max vs) (check_regex L v vs)
            (check_most-ok_iff v.list_max vs) pattern) in
      (λ e. let p = whole.0 e in (p.0, p.1.0, p.1.1), λ p. whole.1 (p.0, (p.1, p.2)))

  -- `Field.Validate` returns no error exactly for an acceptable field: one with a value if it is
  -- required, with one at most if its type is for one, with a Boolean text as the only value of a
  -- Boolean, with values among the options if it is a list with options and a validation that is not
  -- open, and with values that meet the validation's bounds and pattern.
  pub validate_field-ok_iff : (f : Field) → (validate_field L f ≡ ok tt) ↔ IsAcceptable L f
  unfolding validate_field
  validate_field-ok_iff f =
      let least =
        reject_and-ok_iff f.required (ltb 0 (length f.values)) value_required
          (ltb-true_iff 0 (length f.values)) in
      let most = at_most_one-ok_iff (is_single f.kind) (length f.values) (one_value f.kind) in
      let options =
        under-ok_iff (is_list f.kind) (check_options f.options f.validation f.values)
          (check_options-ok_iff f.options f.validation f.values) in
      let whole = >>-ok_iff _ _ least (
        >>-ok_iff _ _ most (
          >>-ok_iff _ _ (check_boolean-ok_iff f.kind f.values)
            (>>-ok_iff _ _ options (check_validation-ok_iff f.validation f.values)))) in
      (
        λ e.
            let p = whole.0 e in
            record {
              present = p.0;
              one = p.1.0;
              boolean = p.1.1.0;
              listed = p.1.1.1.0;
              validated = p.1.1.1.1;
            },
        λ a. whole.1 (a.present, (a.one, (a.boolean, (a.listed, a.validated)))),
      )
