-- ===== src/Forms/Read.antt =====
-- xep/forms.go: how data forms are read.
pub mod Pieces
pub mod RoundTrip
pub mod Whole
mod Tests
use slixmpp_go.Common.{
  Bool, true, false, ◌||◌, Option, none, some, List, [], ◌∷◌, ◌++◌, map, String, ◌==◌, ◌!=◌,
  string_eq, if◌then◌else◌,
}
use slixmpp_go.Common.Int.{ℤ, pos, Strconv}
use slixmpp_go.Common.Result.{Result, ok, err, ◌>>=◌}
use slixmpp_go.Node.{Node, name, or_empty, attr_value, text, children, child_text}
use slixmpp_go.Node.Build.{each, each_ok}
use slixmpp_go.Forms.{
  FieldOption, MediaUri, Media, Validation, Field, Form, data_forms_ns, no_field,
}

pub data FormError : Type 0 where
  not_a_form : FormError

abbrev pub no_validation : Validation
no_validation = record {
  datatype = "";
  regex = "";
  min = "";
  max = "";
  method = "";
  list_min = none;
  list_max = none;
}

abbrev pub no_form : Form
no_form = record {
  kind = "";
  title = "";
  instructions = [];
  fields = [];
  reported = none;
  items = [];
}

abbrev pub read_option : Node → FieldOption
read_option c = record {
  label = or_empty (attr_value "label" c);
  value = child_text data_forms_ns "value" c;
}

module _ (S : Strconv) where
  -- An attribute that is a number, and what was there where it is not.
  abbrev pub read_number : Option String → Option ℤ → Option ℤ
  read_number none old = old
  read_number (some x) old = parsed (S.atoi x) old
    where
      parsed : Option ℤ → Option ℤ → Option ℤ
      parsed none old = old
      parsed (some v) old = some v

  -- The body of the loop of `parseValidation`.
  unfoldable pub validation_child : Node → Validation → Validation
  validation_child c v =
      let local = (name c).local in
      if local == "basic"
      then record v { method = "basic" }
      else if local == "open"
      then record v { method = "open" }
      else if local == "range"
      then record v {
        method = "range";
        min = or_empty (attr_value "min" c);
        max = or_empty (attr_value "max" c);
      }
      else if local == "regex"
      then record v { method = "regex"; regex = text c }
      else if local == "list-range"
      then record v {
        list_min = read_number (attr_value "min" c) v.list_min;
        list_max = read_number (attr_value "max" c) v.list_max;
      }
      else v

  -- `parseValidation`
  unfoldable pub parse_validation : Node → Validation
  parse_validation n =
      each validation_child (children n)
        (record no_validation { datatype = or_empty (attr_value "datatype" n) })

  -- `parseMedia`: `Atoi` is asked only where the attribute is there, and its error is dropped.
  abbrev pub read_size : Option String → ℤ
  read_size none = pos 0
  read_size (some v) = S.atoi_value v

  unfoldable pub media_child : Node → Media → Media
  media_child c m =
      if (name c).local == "uri"
      then record m {
        uris = m.uris ++ (record { kind = or_empty (attr_value "type" c); value = text c } ∷ []);
      }
      else m

  unfoldable pub parse_media : Node → Media
  parse_media n = each media_child (children n) (record {
    height = read_size (attr_value "height" n);
    width = read_size (attr_value "width" n);
    uris = [];
  })

  -- The body of the loop of `parseField`.
  unfoldable pub field_child : Node → Field → Field
  field_child c f =
      let local = (name c).local in
      if local == "desc"
      then record f { desc = text c }
      else if local == "required"
      then record f { required = true }
      else if local == "value"
      then record f { values = f.values ++ (text c ∷ []) }
      else if local == "option"
      then record f { options = f.options ++ (read_option c ∷ []) }
      else if local == "validate"
      then record f { validation = some (parse_validation c) }
      else if local == "media"
      then record f { media = some (parse_media c) }
      else f

  -- `parseField`: its error is always nil.
  unfoldable pub parse_field : Node → Result FormError Field
  parse_field n = ok (
      each field_child (children n) (record no_field {
        var = or_empty (attr_value "var" n);
        label = or_empty (attr_value "label" n);
        kind = or_empty (attr_value "type" n);
      }))

  -- The loop over the children of an `item` or of `reported`.
  abbrev pub add_field : Node → List Field → Result FormError (List Field)
  add_field c fs =
      if (name c).local == "field" then parse_field c >>= (λ f. ok (fs ++ (f ∷ []))) else ok fs

  -- The body of the loop of `ParseForm`.
  unfoldable pub form_child : Node → Form → Result FormError Form
  form_child c f =
      let local = (name c).local in
      if local == "title"
      then ok (record f { title = text c })
      else if local == "instructions"
      then ok (record f { instructions = f.instructions ++ (text c ∷ []) })
      else if local == "field"
      then parse_field c >>= (λ g. ok (record f { fields = f.fields ++ (g ∷ []) }))
      else if local == "reported"
      then each_ok add_field (children c) [] >>= (λ fs. ok (record f { reported = some fs }))
      else if local == "item"
      then each_ok add_field (children c) []
        >>= (λ fs. ok (record f { items = f.items ++ (fs ∷ []) }))
      else ok f

  -- `ParseForm`
  unfoldable pub parse_form : Node → Result FormError Form
  parse_form n =
      if (name n).local != "x" || (name n).space != data_forms_ns
      then err not_a_form
      else each_ok form_child (children n)
          (record no_form { kind = or_empty (attr_value "type" n) })
