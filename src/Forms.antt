-- ===== src/Forms.antt =====
-- xep/forms.go: data forms (XEP-0004) with their validation (XEP-0122) and media (XEP-0221), and how
-- they are written. A struct that has one list only (Reported, Item) is that list.
pub mod Read
pub mod Validate
pub mod Fields
use slixmpp_go.Common.{
  Bool, true, false, ◌||◌, Option, none, some, List, [], ◌∷◌, ◌++◌, map, String, ◌==◌, ◌!=◌,
  string_eq, if◌then◌else◌,
}
use slixmpp_go.Common.Int.{ℤ, pos, lt_int, Strconv}
use slixmpp_go.Node.{Node, new_node, new_text_node}
use slixmpp_go.Node.Build.{
  given, written, element, text_element, text_child, text_children, option_child,
}

abbrev pub data_forms_ns : String
data_forms_ns = "jabber:x:data"

abbrev pub data_validation_ns : String
data_validation_ns = "http://jabber.org/protocol/xdata-validate"

abbrev pub data_media_ns : String
data_media_ns = "urn:xmpp:media-element"

-- `Option`
pub record FieldOption : Type 0 where
  pub label : String
  pub value : String

-- `URI`
pub record MediaUri : Type 0 where
  pub kind : String
  pub value : String

pub record Media : Type 0 where
  pub height : ℤ
  pub width : ℤ
  pub uris : List MediaUri

pub record Validation : Type 0 where
  pub datatype : String
  pub regex : String
  pub min : String
  pub max : String
  pub method : String
  pub list_min : Option ℤ
  pub list_max : Option ℤ

pub record Field : Type 0 where
  pub var : String
  pub label : String
  pub desc : String
  pub kind : String
  pub required : Bool
  pub values : List String
  pub options : List FieldOption
  pub validation : Option Validation
  pub media : Option Media

pub record Form : Type 0 where
  pub kind : String
  pub title : String
  pub instructions : List String
  pub fields : List Field
  pub reported : Option (List Field)
  pub items : List (List Field)

abbrev pub no_field : Field
no_field = record {
  var = "";
  label = "";
  desc = "";
  kind = "";
  required = false;
  values = [];
  options = [];
  validation = none;
  media = none;
}

-- `Form.Field`
unfoldable pub find_field : String → List Field → Option Field
find_field name [] = none
find_field name (f ∷ fs) = if f.var == name then some f else find_field name fs

-- The fields that `Form.Set` leaves.
unfoldable pub set_fields : String → List String → List Field → List Field
set_fields name values [] =
    record no_field { var = name; kind = "text-single"; values = values } ∷ []
set_fields name values (f ∷ fs) =
    if f.var == name then record f { values = values } ∷ fs else f ∷ set_fields name values fs

-- `Form.Set`
abbrev pub set_field : String → List String → Form → Form
set_field name values f = record f { fields = set_fields name values f.fields }

abbrev pub single : String → Node
single local = new_node data_validation_ns local

-- What `validationToNode` adds for its method; an empty one is `basic`.
abbrev pub method_children : String → Validation → List Node
method_children method v =
    if method == "basic"
    then single "basic" ∷ []
    else if method == "open"
    then single "open" ∷ []
    else if method == "range"
    then element data_validation_ns "range" (("min", given v.min) ∷ ("max", given v.max) ∷ []) []
      ∷ []
    else if method == "regex"
    then new_text_node data_validation_ns "regex" v.regex ∷ []
    else []

abbrev pub or_basic : String → String
or_basic method = if method == "" then "basic" else method

abbrev pub uri_to_node : MediaUri → Node
uri_to_node u = text_element data_media_ns "uri" (("type", given u.kind) ∷ []) u.value

abbrev pub option_to_node : FieldOption → Node
option_to_node o =
    element data_forms_ns "option" (("label", given o.label) ∷ [])
      (new_text_node data_forms_ns "value" o.value ∷ [])

abbrev pub required_child : Bool → List Node
required_child required = if required then new_node data_forms_ns "required" ∷ [] else []

module _ (S : Strconv) where
  abbrev pub range_element : Option ℤ → Option ℤ → Node
  range_element a b =
      element data_validation_ns "list-range"
        (("min", written S.itoa a) ∷ ("max", written S.itoa b) ∷ []) []

  abbrev pub list_range : Option ℤ → Option ℤ → List Node
  list_range none none = []
  list_range (some a) b = range_element (some a) b ∷ []
  list_range none (some b) = range_element none (some b) ∷ []

  -- `validationToNode`
  unfoldable pub validation_to_node : Validation → Node
  validation_to_node v =
      element data_validation_ns "validate" (("datatype", given v.datatype) ∷ [])
        (method_children (or_basic v.method) v ++ list_range v.list_min v.list_max)

  -- A size is written where it is positive.
  abbrev pub size_set : ℤ → Option String
  size_set v = if lt_int (pos 0) v then some (S.itoa v) else none

  -- `mediaToNode`
  unfoldable pub media_to_node : Media → Node
  media_to_node m =
      element data_media_ns "media"
        (("height", size_set m.height) ∷ ("width", size_set m.width) ∷ []) (map uri_to_node m.uris)

  -- `fieldToNode`
  unfoldable pub field_to_node : Field → Node
  field_to_node f =
      element data_forms_ns "field"
        (("var", given f.var) ∷ ("label", given f.label) ∷ ("type", given f.kind) ∷ [])
        (text_child data_forms_ns "desc" f.desc
          ++ (required_child f.required
              ++ (text_children data_forms_ns "value" f.values
                  ++ (map option_to_node f.options
                      ++ (option_child validation_to_node f.validation
                          ++ option_child media_to_node f.media)))))

  abbrev pub fields_element : String → List Field → Node
  fields_element local fs = element data_forms_ns local [] (map field_to_node fs)

  -- `Form.ToNode`
  unfoldable pub form_to_node : Form → Node
  form_to_node f = element data_forms_ns "x" (("type", given f.kind) ∷ []) (
      text_child data_forms_ns "title" f.title
      ++ (text_children data_forms_ns "instructions" f.instructions
          ++ (map field_to_node f.fields
              ++ (option_child (fields_element "reported") f.reported
                  ++ map (fields_element "item") f.items))))
