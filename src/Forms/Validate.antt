-- ===== src/Forms/Validate.antt =====
-- xep/forms.go: `Field.Validate` and `Form.Validate`.
pub mod Laws
pub mod Errors
pub mod Whole
use slixmpp_go.Common.{
  Bool, true, false, not, ◌||◌, ◌&&◌, Option, none, some, List, [], ◌∷◌, map, String, ◌==◌, ◌!=◌,
  string_eq, if◌then◌else◌, ltb, length,
}
use slixmpp_go.Common.Int.{ℤ, pos, lt_int}
use slixmpp_go.Common.Result.{Result, ok, err, ◌>>=◌, ◌>>◌, reject_if}
use slixmpp_go.Forms.{FieldOption, Validation, Field, Form}

pub data FieldError : Type 0 where
  value_required : FieldError
  one_value : String → FieldError
  invalid_boolean : String → FieldError
  not_an_option : String → FieldError
  too_few : ℤ → FieldError
  too_many : ℤ → FieldError
  bad_regex : FieldError
  no_match : String → FieldError

-- `field %q: %w`
pub data FormInvalid : Type 0 where
  in_field : String → FieldError → FormInvalid

-- `single`
abbrev pub is_single : String → Bool
is_single kind =
    kind == "boolean"
    || (kind == "jid-single"
        || (kind == "list-single" || (kind == "text-private" || kind == "text-single")))

abbrev pub is_list : String → Bool
is_list kind = kind == "list-single" || kind == "list-multi"

abbrev pub is_boolean_text : String → Bool
is_boolean_text v = v == "1" || (v == "0" || (v == "true" || v == "false"))

-- `allowed[v]`
abbrev pub is_allowed : List FieldOption → String → Bool
is_allowed [] v = false
is_allowed (o ∷ os) v = o.value == v || is_allowed os v

abbrev pub has_options : List FieldOption → Bool
has_options [] = false
has_options (o ∷ os) = true

-- A loop over the values that stops at the first one that fails.
abbrev pub check_values :
    (String → Bool) → (String → FieldError) → List String → Result FieldError (Unit {0})
check_values test reason [] = ok tt
check_values test reason (v ∷ vs) =
    reject_if (not (test v)) (reason v) >> check_values test reason vs

abbrev pub check_options :
    List FieldOption → Option Validation → List String → Result FieldError (Unit {0})
check_options options none values = ok tt
check_options options (some v) values =
    if has_options options && v.method != "open"
    then check_values (is_allowed options) not_an_option values
    else ok tt

abbrev pub check_least : Option ℤ → List String → Result FieldError (Unit {0})
check_least none values = ok tt
check_least (some m) values = reject_if (lt_int (pos (length values)) m) (too_few m)

abbrev pub check_most : Option ℤ → List String → Result FieldError (Unit {0})
check_most none values = ok tt
check_most (some m) values = reject_if (lt_int m (pos (length values))) (too_many m)

-- The standard library: `strings.ToLower`, and `regexp.Compile`, none where the pattern is refused,
-- with `MatchString`.
pub record Library : Type 0 where
  pub lower : String → String
  pub compile : String → Option (String → Bool)

module _ (L : Library) where
  abbrev pub check_boolean : String → List String → Result FieldError (Unit {0})
  check_boolean kind [] = ok tt
  check_boolean kind (v ∷ []) =
      reject_if (kind == "boolean" && not (is_boolean_text (L.lower v))) (invalid_boolean v)
  check_boolean kind (v ∷ w ∷ vs) = ok tt

  abbrev pub check_compiled : Option (String → Bool) → List String → Result FieldError (Unit {0})
  check_compiled none values = err bad_regex
  check_compiled (some matches) values = check_values matches no_match values

  abbrev pub check_regex : Validation → List String → Result FieldError (Unit {0})
  check_regex v values =
      if v.method == "regex" then check_compiled (L.compile v.regex) values else ok tt

  abbrev pub check_validation : Option Validation → List String → Result FieldError (Unit {0})
  check_validation none values = ok tt
  check_validation (some v) values =
      check_least v.list_min values >> (check_most v.list_max values >> check_regex v values)

  -- `Field.Validate`
  unfoldable pub validate_field : Field → Result FieldError (Unit {0})
  validate_field f =
      reject_if (f.required && not (ltb 0 (length f.values))) value_required
      >> (reject_if (is_single f.kind && ltb 1 (length f.values)) (one_value f.kind)
          >> (check_boolean f.kind f.values
              >> ((if is_list f.kind then check_options f.options f.validation f.values else ok tt)
                  >> check_validation f.validation f.values)))

  abbrev pub named : String → Result FieldError (Unit {0}) → Result FormInvalid (Unit {0})
  named var (ok u) = ok tt
  named var (err e) = err (in_field var e)

  -- The loop of `Form.Validate`.
  unfoldable pub validate_fields : List Field → Result FormInvalid (Unit {0})
  validate_fields [] = ok tt
  validate_fields (f ∷ fs) = named f.var (validate_field f) >> validate_fields fs

  abbrev pub validate_form : Form → Result FormInvalid (Unit {0})
  validate_form f = validate_fields f.fields
