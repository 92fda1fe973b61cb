-- ===== src/Forms/Read/Tests.antt =====
-- A form at concrete data: it is read back from its element, and validated.
use slixmpp_go.Common.{
  ◌≡◌, refl, char_eq, true, none, some, [], ◌∷◌, ◌↔◌, All, string_eq, arith, inl, inr, nat_eq,
}
use slixmpp_go.Common.Int.{pos, lt_int}
use slixmpp_go.Common.Int.Strokes.{numbers, numbers-IsStrconv}
use slixmpp_go.Common.Result.{ok, err}
use slixmpp_go.Forms.{Form, Field, no_field, find_field, set_fields, form_to_node}
use slixmpp_go.Forms.Read.{parse_form, no_validation}
use slixmpp_go.Forms.Read.Pieces.{range}
use slixmpp_go.Forms.Read.RoundTrip.{IsNormalField}
use slixmpp_go.Forms.Read.Whole.{parse_form-form_to_node}
use slixmpp_go.Forms.Validate.{
  Library, validate_form, validate_field, validate_fields, in_field, not_an_option,
}
use slixmpp_go.Forms.Validate.Laws.{IsAcceptable}
use slixmpp_go.Forms.Validate.Whole.{FirstInvalid, validate_form-ok_iff, validate_form-err}

abbrev colour : Field
colour = record no_field {
  var = "colour";
  kind = "list-single";
  required = true;
  values = "red" ∷ [];
  options = record { label = "Red"; value = "red" } ∷ (record { label = ""; value = "blue" } ∷ []);
  validation = some (record no_validation {
    datatype = "xs:string";
    method = "range";
    min = "a";
    max = "z";
    list_min = some (pos 1);
  });
}

abbrev picture : Field
picture = record no_field {
  var = "picture";
  media = some (record {
    height = pos 40;
    width = pos 0;
    uris = record { kind = "image/png"; value = "http://x" } ∷ [];
  });
}

abbrev form : Form
form = record {
  kind = "form";
  title = "Choice";
  instructions = "Choose" ∷ [];
  fields = colour ∷ (picture ∷ []);
  reported = some (picture ∷ []);
  items = (colour ∷ []) ∷ ([] ∷ []);
}

colour-IsNormal : IsNormalField colour
colour-IsNormal = record {
  validation_normal = record {
    method_known = range "a" "z";
    min_fits = omega arith;
    max_fits = tt;
  };
  media_normal = tt;
}

picture-IsNormal : IsNormalField picture
unfolding lt_int
picture-IsNormal = record {
  validation_normal = tt;
  media_normal = record { height_size = inr (refl, omega arith); width_size = inl refl };
}

parse_form-form_to_node_example : parse_form numbers (form_to_node numbers form) ≡ ok form
parse_form-form_to_node_example = parse_form-form_to_node numbers numbers-IsStrconv form (record {
  fields_normal = (colour-IsNormal, (picture-IsNormal, tt));
  reported_normal = (picture-IsNormal, tt);
  items_normal = ((colour-IsNormal, tt), (tt, tt));
})

-- No pattern compiles.
abbrev library : Library
library = record { lower = λ s. s; compile = λ s. none }

abbrev wrong : Form
wrong = record form { fields = picture ∷ (record colour { values = "green" ∷ [] } ∷ []) }

validate_form-ok_iff_example :
    (validate_form library form ≡ ok tt) ↔ All (IsAcceptable library) form.fields
validate_form-ok_iff_example = validate_form-ok_iff library form

wrong-validate_form : validate_form library wrong ≡ err (in_field "colour" (not_an_option "green"))
unfolding validate_fields validate_field string_eq nat_eq lt_int
wrong-validate_form = refl

validate_form-err_example : FirstInvalid library "colour" (not_an_option "green") wrong.fields
validate_form-err_example =
    validate_form-err library wrong "colour" (not_an_option "green") wrong-validate_form

find_field-set_fields_example :
    find_field "picture" (set_fields "colour" ("blue" ∷ []) form.fields) ≡ some picture
unfolding find_field set_fields string_eq
find_field-set_fields_example = refl
