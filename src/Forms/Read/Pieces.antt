-- ===== src/Forms/Read/Pieces.antt =====
-- xep/forms.go: the parts of a field are read back from their elements.
use slixmpp_go.Common.{
  ◌≡◌, refl, ◌∙◌, ap, true, Option, none, some, List, [], ◌∷◌, ◌++◌, map, String, ◌==◌, string_eq,
  inl, inr, All, All-append, All-if, All-Unit, ◌⊎◌,
}
use mathlib.Core.List.{append_assoc, append-nil}
use slixmpp_go.Common.Dict.{Dict}
use slixmpp_go.Common.Int.{ℤ, pos, lt_int, lt_int_irrefl, IsInt, Strconv, IsStrconv}
use slixmpp_go.Node.{new_text_node}
use slixmpp_go.Node.Tidy.{IsTidy, new_text_node-IsTidy}
use slixmpp_go.Node.Laws.{name-new_text_node, text-new_text_node}
use slixmpp_go.Node.Build.{given, written, each}
use slixmpp_go.Node.Build.Laws.{
  attr-element, name-element, child_text-element, children-element, element-IsTidy, override,
  or_empty-override, each-part, each-map, attr-text_element, name-text_element, text-text_element,
  text_element-IsTidy, All-map,
}
use slixmpp_go.Forms.{
  FieldOption, MediaUri, Media, Validation, data_forms_ns, data_validation_ns, data_media_ns,
  method_children, or_basic, list_range, range_element, validation_to_node, size_set, media_to_node,
  uri_to_node, option_to_node, single,
}
use slixmpp_go.Forms.Read.{
  read_number, validation_child, parse_validation, no_validation, read_size, media_child,
  parse_media, read_option,
}

-- A method, and what may stand beside it.
pub data IsMethod : String → String → String → String → Type 0 where
  basic : IsMethod "basic" "" "" ""
  open_values : IsMethod "open" "" "" ""
  range : (min max : String) → IsMethod "range" "" min max
  regex : (r : String) → IsMethod "regex" r "" ""

abbrev pub IsIntOption : Option ℤ → Type 0
IsIntOption none = Unit
IsIntOption (some v) = IsInt v

pub record IsNormalValidation (v : Validation) : Type 0 where
  pub method_known : IsMethod v.method v.regex v.min v.max
  pub min_fits : IsIntOption v.list_min
  pub max_fits : IsIntOption v.list_max

-- A size that is read back: not negative.
abbrev pub IsSize : ℤ → Type 0
IsSize v = (v ≡ pos 0) ⊎ ((lt_int (pos 0) v ≡ true) × IsInt v)

pub record IsNormalMedia (m : Media) : Type 0 where
  pub height_size : IsSize m.height
  pub width_size : IsSize m.width

pub read_option-option_to_node : (o : FieldOption) → read_option (option_to_node o) ≡ o
unfolding string_eq
read_option-option_to_node o =
    let value = new_text_node data_forms_ns "value" o.value in
    let tidy = new_text_node-IsTidy data_forms_ns "value" o.value in
    rw
      (
        attr-element "label" data_forms_ns "option" (("label", given o.label) ∷ []) (value ∷ []),
        child_text-element data_forms_ns "value" data_forms_ns "option"
            (("label", given o.label) ∷ []) (value ∷ []) (tidy, tt),
        or_empty-override o.label,
      )
      (rw
        (
          name-new_text_node data_forms_ns "value" o.value,
          text-new_text_node data_forms_ns "value" o.value,
        )
        refl)

pub option_to_node-IsTidy : (o : FieldOption) → IsTidy (option_to_node o)
option_to_node-IsTidy o =
    element-IsTidy data_forms_ns "option" (("label", given o.label) ∷ [])
      (new_text_node data_forms_ns "value" o.value ∷ [])
      (new_text_node-IsTidy data_forms_ns "value" o.value, tt)

single-IsTidy : (local : String) → IsTidy (single local)
single-IsTidy local = tt

module _ (S : Strconv) (law : IsStrconv S) where
  read_number-written :
      (o : Option ℤ) → IsIntOption o → read_number S (override (written S.itoa o) none) none ≡ o
  read_number-written none h = refl
  read_number-written (some v) h = rw (law.read_back v h) refl

  read_size-size_set : (v : ℤ) → IsSize v → read_size S (override (size_set S v) none) ≡ v
  read_size-size_set v (inl e) = rw e (rw (lt_int_irrefl (pos 0)) refl)
  read_size-size_set v (inr (e, h)) = rw e (law.value_of (S.itoa v) v (law.read_back v h))

  -- The step on the child that stands for the method.
  read-method :
      (m r a b : String) (v w : Validation)
      → IsMethod m r a b
      → v.regex ≡ r
      → v.min ≡ a
      → v.max ≡ b
      → w.regex ≡ ""
      → w.min ≡ ""
      → w.max ≡ ""
      → each (validation_child S) (method_children m v) w
        ≡ record w { method = m; regex = r; min = a; max = b }
  unfolding validation_child string_eq
  read-method m r a b v w basic e f g x y z = rw (x, y, z) refl
  read-method m r a b v w open_values e f g x y z = rw (x, y, z) refl
  read-method m r a b v w (range _ _) e f g x y z =
      let set : Dict String (Option String) = ("min", given v.min) ∷ ("max", given v.max) ∷ [] in
      rw
        (
          name-element data_validation_ns "range" set [],
          attr-element "min" data_validation_ns "range" set [],
          attr-element "max" data_validation_ns "range" set [],
          or_empty-override v.min,
          or_empty-override v.max,
          f,
          g,
          x,
        )
        refl
  read-method m r a b v w (regex _) e f g x y z =
      rw
        (
          name-new_text_node data_validation_ns "regex" v.regex,
          text-new_text_node data_validation_ns "regex" v.regex,
          e,
          y,
          z,
        )
        refl

  or_basic-IsMethod : (m r a b : String) → IsMethod m r a b → or_basic m ≡ m
  unfolding string_eq
  or_basic-IsMethod m r a b basic = refl
  or_basic-IsMethod m r a b open_values = refl
  or_basic-IsMethod m r a b (range _ _) = refl
  or_basic-IsMethod m r a b (regex _) = refl

  read-range_element :
      (a b : Option ℤ) (v : Validation)
      → IsIntOption a
      → IsIntOption b
      → v.list_min ≡ none
      → v.list_max ≡ none
      → validation_child S (range_element S a b) v ≡ record v { list_min = a; list_max = b }
  unfolding validation_child string_eq
  read-range_element a b v h k x y =
      let set : Dict String (Option String) =
        ("min", written S.itoa a) ∷ ("max", written S.itoa b) ∷ [] in
      rw
        (
          name-element data_validation_ns "list-range" set [],
          attr-element "min" data_validation_ns "list-range" set [],
          attr-element "max" data_validation_ns "list-range" set [],
          x,
          y,
          read_number-written a h,
          read_number-written b k,
        )
        refl

  read-list_range :
      (a b : Option ℤ) (v : Validation)
      → IsIntOption a
      → IsIntOption b
      → v.list_min ≡ none
      → v.list_max ≡ none
      → each (validation_child S) (list_range S a b) v ≡ record v { list_min = a; list_max = b }
  read-list_range none none v h k x y = rw (x, y) refl
  read-list_range (some a) b v h k x y = read-range_element (some a) b v h k x y
  read-list_range none (some b) v h k x y = read-range_element none (some b) v h k x y

  method_children-IsTidy : (m : String) (v : Validation) → All IsTidy (method_children m v)
  method_children-IsTidy m v =
      All-if IsTidy (m == "basic") _ _ (tt, tt)
        (All-if IsTidy (m == "open") _ _ (tt, tt)
          (All-if IsTidy (m == "range") _ _
            (
              element-IsTidy data_validation_ns "range"
                  (("min", given v.min) ∷ ("max", given v.max) ∷ []) [] tt,
              tt,
            )
            (All-if IsTidy (m == "regex") _ _
              (new_text_node-IsTidy data_validation_ns "regex" v.regex, tt) tt)))

  list_range-IsTidy : (a b : Option ℤ) → All IsTidy (list_range S a b)
  list_range-IsTidy none none = tt
  list_range-IsTidy (some a) b = (
    element-IsTidy data_validation_ns "list-range"
        (("min", written S.itoa (some a)) ∷ ("max", written S.itoa b) ∷ []) [] tt,
    tt,
  )
  list_range-IsTidy none (some b) = (
    element-IsTidy data_validation_ns "list-range"
        (("min", none) ∷ ("max", written S.itoa (some b)) ∷ []) [] tt,
    tt,
  )

  pub parse_validation-validation_to_node :
      (v : Validation) → IsNormalValidation v → parse_validation S (validation_to_node S v) ≡ v
  unfolding parse_validation validation_to_node string_eq
  parse_validation-validation_to_node v h =
      let set : Dict String (Option String) = ("datatype", given v.datatype) ∷ [] in
      let first = method_children v.method v in
      let last = list_range S v.list_min v.list_max in
      let started = record no_validation { datatype = v.datatype } in
      rw (or_basic-IsMethod v.method v.regex v.min v.max h.method_known) (
        rw
          (
            children-element data_validation_ns "validate" set (first ++ last) (
                All-append IsTidy first last (method_children-IsTidy v.method v)
                  (list_range-IsTidy v.list_min v.list_max)),
            attr-element "datatype" data_validation_ns "validate" set (first ++ last),
            or_empty-override v.datatype,
          )
          (each-part (validation_child S) first last started _ (
              read-method v.method v.regex v.min v.max v started h.method_known refl refl refl refl
                refl refl)
            ∙ read-list_range v.list_min v.list_max _ h.min_fits h.max_fits refl refl))

  pub validation_to_node-IsTidy : (v : Validation) → IsTidy (validation_to_node S v)
  unfolding validation_to_node
  validation_to_node-IsTidy v =
      let first = method_children (or_basic v.method) v in
      let last = list_range S v.list_min v.list_max in
      element-IsTidy data_validation_ns "validate" (("datatype", given v.datatype) ∷ [])
        (first ++ last)
        (All-append IsTidy first last (method_children-IsTidy (or_basic v.method) v)
          (list_range-IsTidy v.list_min v.list_max))

  uris-IsTidy : (us : List MediaUri) → All IsTidy (map uri_to_node us)
  uris-IsTidy =
      All-map uri_to_node
        (λ u. text_element-IsTidy data_media_ns "uri" (("type", given u.kind) ∷ []) u.value)

  pub media_to_node-IsTidy : (m : Media) → IsTidy (media_to_node S m)
  unfolding media_to_node
  media_to_node-IsTidy m =
      element-IsTidy data_media_ns "media"
        (("height", size_set S m.height) ∷ ("width", size_set S m.width) ∷ [])
        (map uri_to_node m.uris) (uris-IsTidy m.uris)

  uri-media_child :
      (u : MediaUri) (m : Media)
      → media_child S (uri_to_node u) m ≡ record m { uris = m.uris ++ (u ∷ []) }
  unfolding media_child string_eq
  uri-media_child u m =
      let set : Dict String (Option String) = ("type", given u.kind) ∷ [] in
      rw
        (
          name-text_element data_media_ns "uri" set u.value,
          attr-text_element "type" data_media_ns "uri" set u.value,
          text-text_element data_media_ns "uri" set u.value,
          or_empty-override u.kind,
        )
        refl

  pub parse_media-media_to_node :
      (m : Media) → IsNormalMedia m → parse_media S (media_to_node S m) ≡ m
  unfolding parse_media media_to_node string_eq
  parse_media-media_to_node m h =
      let set : Dict String (Option String) =
        ("height", size_set S m.height) ∷ ("width", size_set S m.width) ∷ [] in
      let cs = map uri_to_node m.uris in
      rw
        (
          children-element data_media_ns "media" set cs (uris-IsTidy m.uris),
          attr-element "height" data_media_ns "media" set cs,
          attr-element "width" data_media_ns "media" set cs,
          read_size-size_set m.height h.height_size,
          read_size-size_set m.width h.width_size,
        )
        (each-map (λ (u : MediaUri). Unit {0}) uri_to_node
          (λ us (w : Media). record w { uris = w.uris ++ us })
          (λ w. ap (λ us. record w { uris = us }) (append-nil w.uris))
          (λ xs ys w. ap (λ us. record w { uris = us }) (append_assoc w.uris xs ys)) (media_child S)
          (λ u w _. uri-media_child u w) m.uris (record m { uris = [] }) (All-Unit m.uris))
