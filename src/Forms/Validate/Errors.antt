-- ===== src/Forms/Validate/Errors.antt =====
-- xep/forms.go: the error that `Validate` returns says what is wrong.
use slixmpp_go.Common.{
  ◌≡◌, refl, subst, sym, Bool, true, false, not, ◌&&◌, Option, none, some, List, [], ◌∷◌, String,
  ◌==◌, ◌!=◌, string_eq, if◌then◌else◌, ltb, length, ◌<◌, ◌⊎◌, inl, inr, ==_iff, arith,
}
use slixmpp_go.Common.Int.{ℤ, pos, lt_int}
use slixmpp_go.Common.Result.{Result, ok, err, ◌>>◌, reject_if}
use slixmpp_go.Forms.{FieldOption, Validation, Field}
use slixmpp_go.Forms.Validate.{
  FieldError, is_single, is_list, is_boolean_text, is_allowed, has_options, check_values,
  check_options, check_least, check_most, Library, check_boolean, check_compiled, check_validation,
  validate_field, value_required, one_value, too_few, too_many, bad_regex, not_an_option, no_match,
  invalid_boolean,
}
use slixmpp_go.Forms.Validate.Laws.{IsOneOf, is_allowed-IsOneOf}

-- The list has the value at some place.
abbrev pub Has : String → List String → Type 0
Has v [] = ⊥
Has v (w ∷ ws) = (w ≡ v) ⊎ Has v ws

abbrev pub Refuses : Option (String → Bool) → String → Type 0
Refuses none v = ⊥
Refuses (some matches) v = matches v ≡ false

module _ (L : Library) where
  -- What the error of a validation says.
  abbrev pub SaysOf : FieldError → Option Validation → List String → Type 0
  SaysOf value_required o values = ⊥
  SaysOf (one_value kind) o values = ⊥
  SaysOf (invalid_boolean v) o values = ⊥
  SaysOf (not_an_option v) o values = ⊥
  SaysOf (too_few m) none values = ⊥
  SaysOf (too_few m) (some v) values =
      (v.list_min ≡ some m) × (lt_int (pos (length values)) m ≡ true)
  SaysOf (too_many m) none values = ⊥
  SaysOf (too_many m) (some v) values =
      (v.list_max ≡ some m) × (lt_int m (pos (length values)) ≡ true)
  SaysOf bad_regex none values = ⊥
  SaysOf bad_regex (some v) values = (v.method ≡ "regex") × (L.compile v.regex ≡ none)
  SaysOf (no_match w) none values = ⊥
  SaysOf (no_match w) (some v) values =
      (v.method ≡ "regex") × Has w values × Refuses (L.compile v.regex) w

  -- What the error says of the field.
  abbrev pub Says : FieldError → Field → Type 0
  Says value_required f = (f.required ≡ true) × (f.values ≡ [])
  Says (one_value kind) f = (f.kind ≡ kind) × (is_single kind ≡ true) × (1 < length f.values)
  Says (invalid_boolean v) f =
      (f.kind ≡ "boolean") × (f.values ≡ v ∷ []) × (is_boolean_text (L.lower v) ≡ false)
  Says (not_an_option v) f = (is_list f.kind ≡ true) × Has v f.values × (¬ IsOneOf v f.options)
  Says (too_few m) f = SaysOf (too_few m) f.validation f.values
  Says (too_many m) f = SaysOf (too_many m) f.validation f.values
  Says bad_regex f = SaysOf bad_regex f.validation f.values
  Says (no_match w) f = SaysOf (no_match w) f.validation f.values

>>-err {ℓ} :
    {E : Type ℓ} (m n : Result E (Unit {0})) (e : E) → (m >> n) ≡ err e → (m ≡ err e) ⊎ (n ≡ err e)
>>-err (ok u) n e h = inr h
>>-err (err x) n e h = inl h

reject_if-err {ℓ} : {E : Type ℓ} (t : Bool) (x e : E) → reject_if t x ≡ err e → (t ≡ true) × (x ≡ e)
reject_if-err true x e h = (refl, cc)
reject_if-err false x e h = cc

check_values-err :
    (test : String → Bool) (reason : String → FieldError) (vs : List String) (e : FieldError)
    → check_values test reason vs ≡ err e
    → (v : String) × (e ≡ reason v) × Has v vs × (test v ≡ false)
check_values-err test reason [] e h = cc
check_values-err test reason (v ∷ vs) e h = elim (>>-err _ (check_values test reason vs) e h) [
  | inl x ↦
      let (t, same) = reject_if-err (not (test v)) (reason v) e x in
      (v, sym same, inl refl, ground arith)
  | inr x ↦ let (w, same, has, t) = check_values-err test reason vs e x in (w, same, inr has, t)
]

under-err {ℓ} :
    {E : Type ℓ} (t : Bool) (m : Result E (Unit {0})) (e : E)
    → (if t then m else ok tt) ≡ err e
    → (t ≡ true) × (m ≡ err e)
under-err true m e h = (refl, h)
under-err false m e h = cc

check_options-err :
    (os : List FieldOption) (o : Option Validation) (vs : List String) (e : FieldError)
    → check_options os o vs ≡ err e
    → (v : String) × (e ≡ not_an_option v) × Has v vs × (¬ IsOneOf v os)
check_options-err os none vs e h = cc
check_options-err os (some x) vs e h =
    let (t, failed) = under-err (has_options os && x.method != "open") _ e h in
    let (v, same, has, no_option) = check_values-err (is_allowed os) not_an_option vs e failed in
    (v, same, has, λ one. let q = (is_allowed-IsOneOf os v).1 one in cc)

and-not_parts : (a b : Bool) → a && not b ≡ true → (a ≡ true) × (b ≡ false)
and-not_parts true true h = cc
and-not_parts true false h = (refl, refl)
and-not_parts false b h = cc

and_parts : (a b : Bool) → a && b ≡ true → (a ≡ true) × (b ≡ true)
and_parts true b h = (refl, h)
and_parts false b h = cc

ltb_zero_empty : (vs : List String) → ltb 0 (length vs) ≡ false → vs ≡ []
ltb_zero_empty [] h = refl
ltb_zero_empty (v ∷ vs) h = absurd (ground arith)

check_least-err :
    (o : Option ℤ) (vs : List String) (e : FieldError)
    → check_least o vs ≡ err e
    → (m : ℤ) × (e ≡ too_few m) × (o ≡ some m) × (lt_int (pos (length vs)) m ≡ true)
check_least-err none vs e h = cc
check_least-err (some m) vs e h =
    let (t, same) = reject_if-err (lt_int (pos (length vs)) m) (too_few m) e h in
    (m, sym same, refl, t)

check_most-err :
    (o : Option ℤ) (vs : List String) (e : FieldError)
    → check_most o vs ≡ err e
    → (m : ℤ) × (e ≡ too_many m) × (o ≡ some m) × (lt_int m (pos (length vs)) ≡ true)
check_most-err none vs e h = cc
check_most-err (some m) vs e h =
    let (t, same) = reject_if-err (lt_int m (pos (length vs))) (too_many m) e h in
    (m, sym same, refl, t)

module _ (L : Library) where
  check_boolean-err :
      (kind : String) (vs : List String) (e : FieldError)
      → check_boolean L kind vs ≡ err e
      → (v : String) × (e ≡ invalid_boolean v)
        × (kind ≡ "boolean")
        × (vs ≡ v ∷ [])
        × (is_boolean_text (L.lower v) ≡ false)
  check_boolean-err kind [] e h = cc
  check_boolean-err kind (v ∷ []) e h =
      let (t, same) =
        reject_if-err (kind == "boolean" && not (is_boolean_text (L.lower v))) (invalid_boolean v) e
          h in
      let (x, y) = and-not_parts (kind == "boolean") (is_boolean_text (L.lower v)) t in
      (v, sym same, (==_iff kind "boolean").0 x, refl, y)
  check_boolean-err kind (v ∷ w ∷ vs) e h = cc

  check_compiled-err :
      (o : Option (String → Bool)) (vs : List String) (e : FieldError)
      → check_compiled L o vs ≡ err e
      → ((e ≡ bad_regex) × (o ≡ none)) ⊎ ((w : String) × (e ≡ no_match w) × Has w vs × Refuses o w)
  check_compiled-err none vs e h = inl (cc, refl)
  check_compiled-err (some matches) vs e h = inr (check_values-err matches no_match vs e h)

  check_validation-err :
      (o : Option Validation) (vs : List String) (e : FieldError)
      → check_validation L o vs ≡ err e
      → SaysOf L e o vs
  check_validation-err none vs e h = cc
  check_validation-err (some v) vs e h = elim (>>-err (check_least v.list_min vs) _ e h) [
    | inl x ↦ let (m, same, bound, t) = check_least-err v.list_min vs e x in says e same (bound, t)
    | inr y ↦ elim (>>-err (check_most v.list_max vs) _ e y) [
      | inl x ↦ let (m, same, bound, t) = check_most-err v.list_max vs e x in says e same (bound, t)
      | inr z ↦
          let (t, failed) =
            under-err (v.method == "regex") (check_compiled L (L.compile v.regex) vs) e z in
          let method = (==_iff v.method "regex").0 t in
          elim (check_compiled-err (L.compile v.regex) vs e failed) [
            | inl x ↦ says e x.0 (method, x.1)
            | inr x ↦ says e x.1 (method, x.2, x.3)
          ]
    ]
  ]
    where
      says :
          (e : FieldError) {r : FieldError}
          → e ≡ r
          → SaysOf L r (some v) vs
          → SaysOf L e (some v) vs
      says e same p = subst (λ x. SaysOf L x (some v) vs) (sym same) p

  -- The error of a validation is what the validation says.
  Says-SaysOf : (e : FieldError) (f : Field) → SaysOf L e f.validation f.values → Says L e f
  Says-SaysOf value_required f h = elim h [ ]
  Says-SaysOf (one_value k) f h = elim h [ ]
  Says-SaysOf (invalid_boolean v) f h = elim h [ ]
  Says-SaysOf (not_an_option v) f h = elim h [ ]
  Says-SaysOf (too_few m) f h = h
  Says-SaysOf (too_many m) f h = h
  Says-SaysOf bad_regex f h = h
  Says-SaysOf (no_match w) f h = h

  -- The error that `Field.Validate` returns is true of the field: each kind names the condition that
  -- fails, with the value or the bound that fails it.
  pub validate_field-err : (f : Field) (e : FieldError) → validate_field L f ≡ err e → Says L e f
  unfolding validate_field
  validate_field-err f e h =
      elim (>>-err (reject_if (f.required && not (ltb 0 (length f.values))) value_required) _ e h) [
        | inl x ↦
            let (t, same) =
              reject_if-err (f.required && not (ltb 0 (length f.values))) value_required e x in
            let (r, none_given) = and-not_parts f.required (ltb 0 (length f.values)) t in
            says same (r, ltb_zero_empty f.values none_given)
        | inr y ↦ after_present y
      ]
    where
      says : {r : FieldError} → r ≡ e → Says L r f → Says L e f
      says same p = subst (λ x. Says L x f) same p

      after_boolean :
          ((if is_list f.kind then check_options f.options f.validation f.values else ok tt)
              >> check_validation L f.validation f.values)
            ≡ err e
          → Says L e f
      after_boolean y =
          elim (>>-err
            (if is_list f.kind then check_options f.options f.validation f.values else ok tt) _ e
            y) [
              | inl x ↦
                  let (t, failed) =
                    under-err (is_list f.kind) (check_options f.options f.validation f.values) e
                      x in
                  let (v, same, has, no_option) =
                    check_options-err f.options f.validation f.values e failed in
                  says (sym same) (t, has, no_option)
              | inr z ↦ Says-SaysOf e f (check_validation-err f.validation f.values e z)
            ]

      after_single :
          (check_boolean L f.kind f.values
              >> ((if is_list f.kind then check_options f.options f.validation f.values else ok tt)
                  >> check_validation L f.validation f.values))
            ≡ err e
          → Says L e f
      after_single y = elim (>>-err (check_boolean L f.kind f.values) _ e y) [
        | inl x ↦
            let (v, same, kind, values, not_boolean) = check_boolean-err f.kind f.values e x in
            says (sym same) (kind, values, not_boolean)
        | inr z ↦ after_boolean z
      ]

      after_present :
          (reject_if (is_single f.kind && ltb 1 (length f.values)) (one_value f.kind)
              >> (check_boolean L f.kind f.values
                  >> ((if is_list f.kind
                        then check_options f.options f.validation f.values
                        else ok tt)
                      >> check_validation L f.validation f.values)))
            ≡ err e
          → Says L e f
      after_present y =
          elim (>>-err (reject_if (is_single f.kind && ltb 1 (length f.values)) (one_value f.kind))
            _ e y) [
              | inl x ↦
                  let (t, same) =
                    reject_if-err (is_single f.kind && ltb 1 (length f.values)) (one_value f.kind) e
                      x in
                  let (s, more) = and_parts (is_single f.kind) (ltb 1 (length f.values)) t in
                  says same (refl, s, ground arith)
              | inr z ↦ after_single z
            ]
