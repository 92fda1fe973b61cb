-- ===== src/Forms/Validate/Whole.antt =====
-- xep/forms.go: what `Form.Validate` accepts, and the error it returns.
use slixmpp_go.Common.{◌≡◌, refl, ◌∙◌, ap, List, [], ◌∷◌, String, ◌↔◌, All}
use slixmpp_go.Common.Result.{Result, ok, err, ◌>>◌}
use slixmpp_go.Forms.{Field, Form}
use slixmpp_go.Forms.Validate.{
  FieldError, in_field, Library, validate_field, named, validate_fields, validate_form,
}
use slixmpp_go.Forms.Validate.Laws.{IsAcceptable, validate_field-ok_iff}
use slixmpp_go.Forms.Validate.Errors.{Says, validate_field-err}

module _ (L : Library) where
  -- The first field that is not acceptable, and its error.
  pub data FirstInvalid (name : String) (e : FieldError) : List Field → Type 0 where
    here :
        {f : Field} (fs : List Field)
        → f.var ≡ name
        → Says L e f
        → ¬ IsAcceptable L f
        → FirstInvalid name e (f ∷ fs)
    later :
        {f : Field} {fs : List Field}
        → IsAcceptable L f
        → FirstInvalid name e fs
        → FirstInvalid name e (f ∷ fs)

  validate_fields-err :
      (fs : List Field) (name : String) (e : FieldError)
      → validate_fields L fs ≡ err (in_field name e)
      → FirstInvalid name e fs
  unfolding validate_fields
  validate_fields-err [] name e h = cc
  validate_fields-err (f ∷ fs) name e h =
      split (validate_field L f) refl (validate_fields-err fs name e) h
    where
      split :
          (r : Result FieldError (Unit {0}))
          → validate_field L f ≡ r
          → (validate_fields L fs ≡ err (in_field name e) → FirstInvalid name e fs)
          → (named L f.var r >> validate_fields L fs) ≡ err (in_field name e)
          → FirstInvalid name e (f ∷ fs)
      split (ok u) v more h = later ((validate_field-ok_iff L f).0 v) (more h)
      split (err x) v more h =
          let same : x ≡ e = cc in
          here fs (cc) (validate_field-err L f e (v ∙ ap err same))
            (λ a. let u = (validate_field-ok_iff L f).1 a in cc)

  validate_fields-ok_iff :
      (fs : List Field) → (validate_fields L fs ≡ ok tt) ↔ All (IsAcceptable L) fs
  unfolding validate_fields
  validate_fields-ok_iff [] = (λ h. tt, λ h. refl)
  validate_fields-ok_iff (f ∷ fs) =
      split (validate_field L f) (validate_field-ok_iff L f) (validate_fields-ok_iff fs)
    where
      split :
          (r : Result FieldError (Unit {0}))
          → (r ≡ ok tt) ↔ IsAcceptable L f
          → (validate_fields L fs ≡ ok tt) ↔ All (IsAcceptable L) fs
          → ((named L f.var r >> validate_fields L fs) ≡ ok tt)
            ↔ (IsAcceptable L f × All (IsAcceptable L) fs)
      split (ok u) v more = (λ h. (v.0 refl, more.0 h), λ h. more.1 h.1)
      split (err x) v more = (λ h. cc, λ h. let u : err x ≡ ok tt = v.1 h.0 in cc)

  -- `Form.Validate` returns no error exactly for a form whose fields are all acceptable: each has a
  -- value if it is required, one at most if its type is for one, a Boolean text as the only value of
  -- a Boolean, values among the options if it is a list with options and a validation that is not
  -- open, and values that meet its validation's bounds and pattern.
  pub validate_form-ok_iff :
      (f : Form) → (validate_form L f ≡ ok tt) ↔ All (IsAcceptable L) f.fields
  validate_form-ok_iff f = validate_fields-ok_iff f.fields

  -- An error of `Form.Validate` names a field, and is true of it: the fields before it are
  -- acceptable, it is not, and the condition that the error names, with its value or its bound, is
  -- one that fails for the field.
  pub validate_form-err :
      (f : Form) (name : String) (e : FieldError)
      → validate_form L f ≡ err (in_field name e)
      → FirstInvalid name e f.fields
  validate_form-err f name e h = validate_fields-err f.fields name e h
