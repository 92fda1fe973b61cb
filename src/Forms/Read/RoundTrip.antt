-- ===== src/Forms/Read/RoundTrip.antt =====
-- xep/forms.go: a field, and a whole form, is read back from its element.
use slixmpp_go.Common.{
  ◌≡◌, refl, ◌∙◌, ap, Bool, true, false, Option, none, some, List, [], ◌∷◌, ◌++◌, map, String, ◌==◌,
  string_eq, Bool-cases, inl, inr, All, All-append, All-Unit, ==_iff,
}
use mathlib.Core.List.{append_assoc, append-nil}
use slixmpp_go.Common.Dict.{Dict}
use slixmpp_go.Common.Int.{Strconv, IsStrconv}
use slixmpp_go.Common.Result.{ok}
use slixmpp_go.Node.{Node, name, new_text_node}
use slixmpp_go.Node.Tidy.{IsTidy}
use slixmpp_go.Node.Laws.{name-new_text_node, text-new_text_node}
use slixmpp_go.Node.Build.{given, each, text_child, text_children, option_child}
use slixmpp_go.Node.Build.Laws.{
  attr-element, name-element, children-element, element-IsTidy, or_empty-override, each-part,
  each-map, All-map, text_child-IsTidy, text_children-IsTidy, option_child-IsTidy,
}
use slixmpp_go.Forms.{
  FieldOption, Media, Validation, Field, data_forms_ns, data_media_ns, data_validation_ns, no_field,
  option_to_node, required_child, validation_to_node, media_to_node, field_to_node, method_children,
  or_basic, list_range, size_set, uri_to_node,
}
use slixmpp_go.Forms.Read.{field_child, parse_field}
use slixmpp_go.Forms.Read.Pieces.{
  IsNormalValidation, IsNormalMedia, read_option-option_to_node, option_to_node-IsTidy,
  parse_validation-validation_to_node, validation_to_node-IsTidy, parse_media-media_to_node,
  media_to_node-IsTidy,
}

abbrev pub IsOption {ℓ κ} : {A : Type ℓ} → (A → Type κ) → Option A → Type κ
IsOption P none = Unit
IsOption P (some a) = P a

-- A field whose validation and media are what their elements can say.
pub record IsNormalField (f : Field) : Type 0 where
  pub validation_normal : IsOption IsNormalValidation f.validation
  pub media_normal : IsOption IsNormalMedia f.media

module _ (S : Strconv) (law : IsStrconv S) where
  read-desc :
      (d : String) (f : Field)
      → f.desc ≡ ""
      → each (field_child S) (text_child data_forms_ns "desc" d) f ≡ record f { desc = d }
  unfolding field_child string_eq
  read-desc d f e = elim (Bool-cases (d == "")) [
    | inl h ↦ rw ((==_iff d "").0 h) (rw e refl)
    | inr h ↦ rw h (
        rw (name-new_text_node data_forms_ns "desc" d, text-new_text_node data_forms_ns "desc" d)
          refl)
  ]

  read-required :
      (b : Bool) (f : Field)
      → f.required ≡ false
      → each (field_child S) (required_child b) f ≡ record f { required = b }
  unfolding field_child string_eq
  read-required true f e = refl
  read-required false f e = rw e refl

  read-value :
      (v : String) (f : Field)
      → field_child S (new_text_node data_forms_ns "value" v) f
        ≡ record f { values = f.values ++ (v ∷ []) }
  unfolding field_child string_eq
  read-value v f =
      rw (name-new_text_node data_forms_ns "value" v, text-new_text_node data_forms_ns "value" v)
        refl

  name-option :
      (o : FieldOption)
      → name (option_to_node o) ≡ record { space = data_forms_ns; local = "option" }
  name-option o =
      name-element data_forms_ns "option" (("label", given o.label) ∷ [])
        (new_text_node data_forms_ns "value" o.value ∷ [])

  read-option :
      (o : FieldOption) (f : Field)
      → field_child S (option_to_node o) f ≡ record f { options = f.options ++ (o ∷ []) }
  unfolding field_child string_eq
  read-option o f = rw (name-option o) (
      ap (λ (p : FieldOption). record f { options = f.options ++ (p ∷ []) })
        (read_option-option_to_node o))

  name-validation :
      (v : Validation)
      → name (validation_to_node S v) ≡ record { space = data_validation_ns; local = "validate" }
  unfolding validation_to_node
  name-validation v =
      name-element data_validation_ns "validate" (("datatype", given v.datatype) ∷ [])
        (method_children (or_basic v.method) v ++ list_range S v.list_min v.list_max)

  name-media :
      (m : Media) → name (media_to_node S m) ≡ record { space = data_media_ns; local = "media" }
  unfolding media_to_node
  name-media m =
      name-element data_media_ns "media"
        (("height", size_set S m.height) ∷ ("width", size_set S m.width) ∷ [])
        (map uri_to_node m.uris)

  read-validation :
      (o : Option Validation) (f : Field)
      → IsOption IsNormalValidation o
      → f.validation ≡ none
      → each (field_child S) (option_child (validation_to_node S) o) f ≡ record f { validation = o }
  unfolding field_child string_eq
  read-validation none f h e = rw e refl
  read-validation (some v) f h e =
      rw (name-validation v) (rw (parse_validation-validation_to_node S law v h) refl)

  read-media :
      (o : Option Media) (f : Field)
      → IsOption IsNormalMedia o
      → f.media ≡ none
      → each (field_child S) (option_child (media_to_node S) o) f ≡ record f { media = o }
  unfolding field_child string_eq
  read-media none f h e = rw e refl
  read-media (some m) f h e = rw (name-media m) (rw (parse_media-media_to_node S law m h) refl)

  -- The children of a field.
  abbrev parts : Field → List Node
  parts f =
      text_child data_forms_ns "desc" f.desc
      ++ (required_child f.required
          ++ (text_children data_forms_ns "value" f.values
              ++ (map option_to_node f.options
                  ++ (option_child (validation_to_node S) f.validation
                      ++ option_child (media_to_node S) f.media))))

  required_child-IsTidy : (b : Bool) → All IsTidy (required_child b)
  required_child-IsTidy true = (tt, tt)
  required_child-IsTidy false = tt

  parts-IsTidy : (f : Field) → All IsTidy (parts f)
  parts-IsTidy f =
      All-append IsTidy (text_child data_forms_ns "desc" f.desc) _
        (text_child-IsTidy data_forms_ns "desc" f.desc)
        (All-append IsTidy (required_child f.required) _ (required_child-IsTidy f.required) (
          All-append IsTidy (text_children data_forms_ns "value" f.values) _
            (text_children-IsTidy data_forms_ns "value" f.values)
            (All-append IsTidy (map option_to_node f.options) _
              (All-map option_to_node option_to_node-IsTidy f.options)
              (All-append IsTidy (option_child (validation_to_node S) f.validation) _
                (option_child-IsTidy (validation_to_node S) (validation_to_node-IsTidy S law)
                  f.validation)
                (option_child-IsTidy (media_to_node S) (media_to_node-IsTidy S law) f.media)))))

  abbrev field_set : Field → Dict String (Option String)
  field_set f = ("var", given f.var) ∷ ("label", given f.label) ∷ ("type", given f.kind) ∷ []

  read-parts :
      (f : Field)
      → IsNormalField f
      → each
          (field_child S)
          (parts f)
          (record no_field { var = f.var; label = f.label; kind = f.kind })
        ≡ f
  read-parts f h =
      each-part (field_child S) (text_child data_forms_ns "desc" f.desc) _ _ _
        (read-desc f.desc _ refl)
      ∙ each-part (field_child S) (required_child f.required) _ _ _
          (read-required f.required _ refl)
      ∙ each-part (field_child S) (text_children data_forms_ns "value" f.values) _ _ _ (
          each-map (λ (v : String). Unit {0}) (new_text_node data_forms_ns "value")
            (λ vs (g : Field). record g { values = g.values ++ vs })
            (λ g. ap (λ vs. record g { values = vs }) (append-nil g.values))
            (λ xs ys g. ap (λ vs. record g { values = vs }) (append_assoc g.values xs ys))
            (field_child S) (λ v g _. read-value v g) f.values _ (All-Unit f.values))
      ∙ each-part (field_child S) (map option_to_node f.options) _ _ _ (
          each-map (λ (o : FieldOption). Unit {0}) option_to_node
            (λ os (g : Field). record g { options = g.options ++ os })
            (λ g. ap (λ os. record g { options = os }) (append-nil g.options))
            (λ xs ys g. ap (λ os. record g { options = os }) (append_assoc g.options xs ys))
            (field_child S) (λ o g _. read-option o g) f.options _ (All-Unit f.options))
      ∙ each-part (field_child S) (option_child (validation_to_node S) f.validation) _ _ _
          (read-validation f.validation _ h.validation_normal refl)
      ∙ read-media f.media _ h.media_normal refl

  -- A field whose validation and media are normal is read back from its element.
  pub parse_field-field_to_node :
      (f : Field) → IsNormalField f → parse_field S (field_to_node S f) ≡ ok f
  unfolding parse_field field_to_node string_eq
  parse_field-field_to_node f h =
      rw
        (
          children-element data_forms_ns "field" (field_set f) (parts f) (parts-IsTidy f),
          attr-element "var" data_forms_ns "field" (field_set f) (parts f),
          attr-element "label" data_forms_ns "field" (field_set f) (parts f),
          attr-element "type" data_forms_ns "field" (field_set f) (parts f),
          or_empty-override f.var,
          or_empty-override f.label,
          or_empty-override f.kind,
        )
        (ap ok (read-parts f h))

  pub name-field_to_node :
      (f : Field) → name (field_to_node S f) ≡ record { space = data_forms_ns; local = "field" }
  unfolding field_to_node
  name-field_to_node f = name-element data_forms_ns "field" (field_set f) (parts f)

  pub field_to_node-IsTidy : (f : Field) → IsTidy (field_to_node S f)
  unfolding field_to_node
  field_to_node-IsTidy f =
      element-IsTidy data_forms_ns "field" (field_set f) (parts f) (parts-IsTidy f)
