-- ===== src/Forms/Read/Whole.antt =====
-- xep/forms.go: a whole form is read back from its element.
use slixmpp_go.Common.{
  ◌≡◌, refl, ◌∙◌, ap, Option, none, some, List, [], ◌∷◌, ◌++◌, map, String, ◌==◌, string_eq,
  Bool-cases, inl, inr, All, All-append, All-Unit, ==_iff,
}
use mathlib.Core.List.{append_assoc, append-nil}
use slixmpp_go.Common.Dict.{Dict}
use slixmpp_go.Common.Int.{Strconv, IsStrconv}
use slixmpp_go.Common.Result.{ok}
use slixmpp_go.Node.{Node, children, new_text_node}
use slixmpp_go.Node.Tidy.{IsTidy}
use slixmpp_go.Node.Laws.{name-new_text_node, text-new_text_node}
use slixmpp_go.Node.Build.{given, each_ok, text_child, text_children, option_child}
use slixmpp_go.Node.Build.Laws.{
  attr-element, name-element, children-element, element-IsTidy, or_empty-override, each_ok-part,
  each_ok-map, All-map, text_child-IsTidy, text_children-IsTidy, option_child-IsTidy,
}
use slixmpp_go.Forms.{Field, Form, data_forms_ns, field_to_node, fields_element, form_to_node}
use slixmpp_go.Forms.Read.{no_form, add_field, form_child, parse_form}
use slixmpp_go.Forms.Read.RoundTrip.{
  IsNormalField, IsOption, parse_field-field_to_node, name-field_to_node, field_to_node-IsTidy,
}

-- A form all of whose fields, the reported ones and those of the items included, are normal.
pub record IsNormalForm (f : Form) : Type 0 where
  pub fields_normal : All IsNormalField f.fields
  pub reported_normal : IsOption (All IsNormalField) f.reported
  pub items_normal : All (All IsNormalField) f.items

module _ (S : Strconv) (law : IsStrconv S) where
  fields-IsTidy : (fs : List Field) → All IsTidy (map (field_to_node S) fs)
  fields-IsTidy = All-map (field_to_node S) (field_to_node-IsTidy S law)

  fields_element-IsTidy : (local : String) (fs : List Field) → IsTidy (fields_element S local fs)
  fields_element-IsTidy local fs =
      element-IsTidy data_forms_ns local [] (map (field_to_node S) fs) (fields-IsTidy fs)

  read-add_field :
      (f : Field) (fs : List Field)
      → IsNormalField f
      → add_field S (field_to_node S f) fs ≡ ok (fs ++ (f ∷ []))
  unfolding string_eq
  read-add_field f fs h = rw (name-field_to_node S law f, parse_field-field_to_node S law f h) refl

  -- The fields of `reported`, or of an item.
  read-fields :
      (local : String) (fs : List Field)
      → All IsNormalField fs
      → each_ok (add_field S) (children (fields_element S local fs)) [] ≡ ok fs
  read-fields local fs h =
      rw (children-element data_forms_ns local [] (map (field_to_node S) fs) (fields-IsTidy fs)) (
        each_ok-map IsNormalField (field_to_node S) (λ (xs ys : List Field). ys ++ xs) append-nil
          (λ xs ys zs. append_assoc zs xs ys) (add_field S) read-add_field fs [] h)

  read-title :
      (t : String) (f : Form)
      → f.title ≡ ""
      → each_ok (form_child S) (text_child data_forms_ns "title" t) f ≡ ok (record f { title = t })
  unfolding form_child string_eq
  read-title t f e = elim (Bool-cases (t == "")) [
    | inl h ↦ rw ((==_iff t "").0 h) (rw e refl)
    | inr h ↦ rw h (
        rw (name-new_text_node data_forms_ns "title" t, text-new_text_node data_forms_ns "title" t)
          refl)
  ]

  read-instruction :
      (v : String) (f : Form)
      → form_child S (new_text_node data_forms_ns "instructions" v) f
        ≡ ok (record f { instructions = f.instructions ++ (v ∷ []) })
  unfolding form_child string_eq
  read-instruction v f =
      rw
        (
          name-new_text_node data_forms_ns "instructions" v,
          text-new_text_node data_forms_ns "instructions" v,
        )
        refl

  read-field :
      (g : Field) (f : Form)
      → IsNormalField g
      → form_child S (field_to_node S g) f ≡ ok (record f { fields = f.fields ++ (g ∷ []) })
  unfolding form_child string_eq
  read-field g f h = rw (name-field_to_node S law g, parse_field-field_to_node S law g h) refl

  read-reported :
      (o : Option (List Field)) (f : Form)
      → IsOption (All IsNormalField) o
      → f.reported ≡ none
      → each_ok (form_child S) (option_child (fields_element S "reported") o) f
        ≡ ok (record f { reported = o })
  unfolding form_child string_eq
  read-reported none f h e = rw e refl
  read-reported (some fs) f h e =
      rw
        (
          name-element data_forms_ns "reported" [] (map (field_to_node S) fs),
          read-fields "reported" fs h,
        )
        refl

  read-item :
      (fs : List Field) (f : Form)
      → All IsNormalField fs
      → form_child S (fields_element S "item" fs) f ≡ ok (record f { items = f.items ++ (fs ∷ []) })
  unfolding form_child string_eq
  read-item fs f h =
      rw (name-element data_forms_ns "item" [] (map (field_to_node S) fs), read-fields "item" fs h)
        refl

  -- The children of a form.
  abbrev parts : Form → List Node
  parts f =
      text_child data_forms_ns "title" f.title
      ++ (text_children data_forms_ns "instructions" f.instructions
          ++ (map (field_to_node S) f.fields
              ++ (option_child (fields_element S "reported") f.reported
                  ++ map (fields_element S "item") f.items)))

  parts-IsTidy : (f : Form) → All IsTidy (parts f)
  parts-IsTidy f =
      All-append IsTidy (text_child data_forms_ns "title" f.title) _
        (text_child-IsTidy data_forms_ns "title" f.title)
        (All-append IsTidy (text_children data_forms_ns "instructions" f.instructions) _
          (text_children-IsTidy data_forms_ns "instructions" f.instructions)
          (All-append IsTidy (map (field_to_node S) f.fields) _ (fields-IsTidy f.fields) (
            All-append IsTidy (option_child (fields_element S "reported") f.reported) _
              (option_child-IsTidy (fields_element S "reported") (fields_element-IsTidy "reported")
                f.reported)
              (All-map (fields_element S "item") (fields_element-IsTidy "item") f.items))))

  read-parts :
      (f : Form)
      → IsNormalForm f
      → each_ok (form_child S) (parts f) (record no_form { kind = f.kind }) ≡ ok f
  read-parts f h =
      each_ok-part (form_child S) (text_child data_forms_ns "title" f.title) _ _ _
        (read-title f.title _ refl)
      ∙ each_ok-part (form_child S) (text_children data_forms_ns "instructions" f.instructions) _ _
          _
          (each_ok-map (λ (v : String). Unit {0}) (new_text_node data_forms_ns "instructions")
            (λ vs (g : Form). record g { instructions = g.instructions ++ vs })
            (λ g. ap (λ vs. record g { instructions = vs }) (append-nil g.instructions))
            (λ xs ys g.
              ap (λ vs. record g { instructions = vs }) (append_assoc g.instructions xs ys))
            (form_child S) (λ v g _. read-instruction v g) f.instructions _
            (All-Unit f.instructions))
      ∙ each_ok-part (form_child S) (map (field_to_node S) f.fields) _ _ _ (
          each_ok-map IsNormalField (field_to_node S)
            (λ fs (g : Form). record g { fields = g.fields ++ fs })
            (λ g. ap (λ fs. record g { fields = fs }) (append-nil g.fields))
            (λ xs ys g. ap (λ fs. record g { fields = fs }) (append_assoc g.fields xs ys))
            (form_child S) read-field f.fields _ h.fields_normal)
      ∙ each_ok-part (form_child S) (option_child (fields_element S "reported") f.reported) _ _ _
          (read-reported f.reported _ h.reported_normal refl)
      ∙ each_ok-map (All IsNormalField) (fields_element S "item")
          (λ is (g : Form). record g { items = g.items ++ is })
          (λ g. ap (λ is. record g { items = is }) (append-nil g.items))
          (λ xs ys g. ap (λ is. record g { items = is }) (append_assoc g.items xs ys))
          (form_child S) read-item f.items _ h.items_normal

  -- Let `Itoa` and `Atoi` be as documented. A form is read back from its element, when each of its
  -- fields, reported fields and items' fields has a validation and a media that their elements can
  -- say: a known method with the bounds or the pattern of that method alone, a list range of ints,
  -- and sizes that are positive ints or 0.
  pub parse_form-form_to_node : (f : Form) → IsNormalForm f → parse_form S (form_to_node S f) ≡ ok f
  unfolding parse_form form_to_node string_eq
  parse_form-form_to_node f h =
      let set : Dict String (Option String) = ("type", given f.kind) ∷ [] in
      rw
        (
          name-element data_forms_ns "x" set (parts f),
          children-element data_forms_ns "x" set (parts f) (parts-IsTidy f),
          attr-element "type" data_forms_ns "x" set (parts f),
          or_empty-override f.kind,
        )
        (read-parts f h)
