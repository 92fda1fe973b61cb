-- ===== src/Forms/Fields.antt =====
-- xep/forms.go: the fields of a form as a table, by `Form.Field` and `Form.Set`.
use slixmpp_go.Common.{
  ◌≡◌, refl, Option, none, some, List, [], ◌∷◌, String, ◌==◌, string_eq, if◌then◌else◌, ==_iff,
  arith,
}
use slixmpp_go.Forms.{Field, Form, no_field, find_field, set_fields, set_field}

-- The field that `Set` leaves: the one found, or a new one, with the values.
abbrev pub with_values : String → List String → Option Field → Field
with_values name values none = record no_field { var = name; kind = "text-single"; values = values }
with_values name values (some f) = record f { values = values }

find-set :
    (j k : String) (vs : List String) (fs : List Field)
    → find_field j (set_fields k vs fs)
      ≡ (if k == j then some (with_values k vs (find_field k fs)) else find_field j fs)
unfolding find_field set_fields
find-set j k vs [] = refl
find-set j k vs (f ∷ fs) =
    ground (arith, ==_iff k j, ==_iff f.var k, ==_iff f.var j, find-set j k vs fs)

-- After `Set(k, values)`, `Field(k)` is the first field of that name with these values in place of its
-- own, or a new text field if there was none, and `Field` of any other name is what it was.
pub find_field-set_field :
    (j k : String) (vs : List String) (f : Form)
    → find_field j (set_field k vs f).fields
      ≡ (if k == j then some (with_values k vs (find_field k f.fields)) else find_field j f.fields)
find_field-set_field j k vs f = find-set j k vs f.fields
