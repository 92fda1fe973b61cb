-- ===== src/Stanza/ErrorLaws.antt =====
-- xmpp/stanza.go: a stanza error is written as a node and read back.
use slixmpp_go.Common.{
  ◌≡◌, ◌≢◌, refl, sym, ◌∙◌, ap, Bool, true, false, none, String, ◌==◌, ==-refl, ==_iff, string_eq,
  List, [], ◌∷◌, ◌++◌, map, if◌then◌else◌, arith, Bool-cases, inl, inr, All,
}
use mathlib.Core.List.{append_assoc, append-nil}
use slixmpp_go.Node.{
  Node, name, new_node, new_text_node, set_attr, attr_value_ns, or_empty, add_child, clone,
  children,
}
use slixmpp_go.Node.Tidy.{clone_tidy, new_text_node-IsTidy}
use slixmpp_go.Node.Laws.{
  name-new_text_node, name-add_child, name-set_attr_ns, text-new_text_node,
  attr_value_ns-set_attr_ns, attr_value_ns-add_child, attr_value_ns-new_node, children-add_child,
  children-set_attr_ns, children-new_node,
}
use slixmpp_go.Stanza.{StanzaError, stanza_error_ns, each, error_child, stanza_error_from_node}
use slixmpp_go.Stanza.Tokens.{set_by, add_condition, add_error_text, add_application, error_node}

-- An element of the application: outside the namespace of the conditions, and its own deep copy.
pub record IsApplication (n : Node) : Type 0 where
  pub foreign : ((name n).space == stanza_error_ns) ≡ false
  pub tidy : clone n ≡ n

pub record IsNormal (e : StanzaError) : Type 0 where
  pub condition_named : e.condition ≢ "text"
  pub applications : All IsApplication e.application

pub each-append :
    {A : Type 0} (step : Node → A → A) (xs ys : List Node) (a : A)
    → each step (xs ++ ys) a ≡ each step ys (each step xs a)
each-append step [] ys a = refl
each-append step (x ∷ xs) ys a = each-append step xs ys (step x a)

children-add_application :
    (more : List Node) (n : Node) → children (add_application more n) ≡ children n ++ map clone more
children-add_application [] n = sym (append-nil (children n))
children-add_application (a ∷ more) n =
    children-add_application more (add_child a n)
    ∙ ap (λ l. l ++ map clone more) (children-add_child a n)
    ∙ append_assoc (children n) (clone a ∷ []) (map clone more)

attr-add_application :
    (k : String) (more : List Node) (n : Node)
    → attr_value_ns "" k (add_application more n) ≡ attr_value_ns "" k n
attr-add_application k [] n = refl
attr-add_application k (a ∷ more) n =
    attr-add_application k more (add_child a n) ∙ attr_value_ns-add_child "" k a n

unfoldable pub condition_nodes : String → List Node
condition_nodes condition = if condition == "" then [] else new_node stanza_error_ns condition ∷ []

unfoldable pub text_nodes : String → List Node
text_nodes t = if t == "" then [] else clone (new_text_node stanza_error_ns "text" t) ∷ []

children-add_condition :
    (c : String) (n : Node) → children (add_condition c n) ≡ children n ++ condition_nodes c
unfolding condition_nodes clone
children-add_condition c n = elim (Bool-cases (c == "")) [
  | inl e ↦ rw e (sym (append-nil (children n)))
  | inr e ↦ rw e (children-add_child (new_node stanza_error_ns c) n)
]

children-add_error_text :
    (t : String) (n : Node) → children (add_error_text t n) ≡ children n ++ text_nodes t
unfolding text_nodes
children-add_error_text t n = elim (Bool-cases (t == "")) [
  | inl e ↦ rw e (sym (append-nil (children n)))
  | inr e ↦ rw e (children-add_child (new_text_node stanza_error_ns "text" t) n)
]

children-set_by : (by : String) (n : Node) → children (set_by by n) ≡ children n
children-set_by by n = elim (Bool-cases (by == "")) [
  | inl e ↦ rw e refl
  | inr e ↦ rw e (children-set_attr_ns "" "by" by n)
]

pub children-error_node :
    (e : StanzaError)
    → children (error_node e)
      ≡ condition_nodes e.condition ++ (text_nodes e.text ++ map clone e.application)
unfolding error_node
children-error_node e =
    let base = set_by e.by (set_attr "type" e.error_type (new_node "" "error")) in
    let conditioned = add_condition e.condition base in
    rw
      (
        children-add_application e.application (add_error_text e.text conditioned),
        children-add_error_text e.text conditioned,
        children-add_condition e.condition base,
        children-set_by e.by (set_attr "type" e.error_type (new_node "" "error")),
        children-set_attr_ns "" "type" e.error_type (new_node "" "error"),
        children-new_node "" "error",
      )
      (append_assoc (condition_nodes e.condition) (text_nodes e.text) (map clone e.application))

attr-add_condition :
    (k c : String) (n : Node) → attr_value_ns "" k (add_condition c n) ≡ attr_value_ns "" k n
attr-add_condition k c n = elim (Bool-cases (c == "")) [
  | inl e ↦ rw e refl
  | inr e ↦ rw e (attr_value_ns-add_child "" k (new_node stanza_error_ns c) n)
]

attr-add_error_text :
    (k t : String) (n : Node) → attr_value_ns "" k (add_error_text t n) ≡ attr_value_ns "" k n
attr-add_error_text k t n = elim (Bool-cases (t == "")) [
  | inl e ↦ rw e refl
  | inr e ↦ rw e (attr_value_ns-add_child "" k (new_text_node stanza_error_ns "text" t) n)
]

pub attr-error_node :
    (k : String) (e : StanzaError)
    → attr_value_ns "" k (error_node e)
      ≡ attr_value_ns "" k (set_by e.by (set_attr "type" e.error_type (new_node "" "error")))
unfolding error_node
attr-error_node k e =
    attr-add_application k e.application _
    ∙ attr-add_error_text k e.text _
    ∙ attr-add_condition k e.condition _

name-add_application : (more : List Node) (n : Node) → name (add_application more n) ≡ name n
name-add_application [] n = refl
name-add_application (a ∷ more) n = name-add_application more (add_child a n) ∙ name-add_child a n

name-if_child : (t : Bool) (c n : Node) → name (if t then n else add_child c n) ≡ name n
name-if_child true c n = refl
name-if_child false c n = name-add_child c n

name-set_by : (by : String) (n : Node) → name (set_by by n) ≡ name n
name-set_by by n = elim (Bool-cases (by == "")) [
  | inl e ↦ rw e refl
  | inr e ↦ rw e (name-set_attr_ns "" "by" by n)
]

pub name-error_node :
    (e : StanzaError) → name (error_node e) ≡ record { space = ""; local = "error" }
unfolding error_node
name-error_node e =
    name-add_application e.application _
    ∙ name-if_child (e.text == "") (new_text_node stanza_error_ns "text" e.text) _
    ∙ name-if_child (e.condition == "") (new_node stanza_error_ns e.condition) _
    ∙ name-set_by e.by _
    ∙ name-set_attr_ns "" "type" e.error_type (new_node "" "error")

type-set_by :
    (by : String) (n : Node) → attr_value_ns "" "type" (set_by by n) ≡ attr_value_ns "" "type" n
unfolding string_eq
type-set_by by n = elim (Bool-cases (by == "")) [
  | inl e ↦ rw e refl
  | inr e ↦ rw e (attr_value_ns-set_attr_ns "" "by" by "" "type" n)
]

by-set_by :
    (by : String) (n : Node)
    → attr_value_ns "" "by" n ≡ none
    → or_empty (attr_value_ns "" "by" (set_by by n)) ≡ by
unfolding string_eq
by-set_by by n h = elim (Bool-cases (by == "")) [
  | inl e ↦ rw (e, h) (sym ((==_iff by "").0 e))
  | inr e ↦ rw e (ap or_empty (attr_value_ns-set_attr_ns "" "by" by "" "by" n))
]

pub type-error_node :
    (e : StanzaError) → or_empty (attr_value_ns "" "type" (error_node e)) ≡ e.error_type
unfolding string_eq
type-error_node e = ap or_empty (
    attr-error_node "type" e
    ∙ type-set_by e.by _
    ∙ attr_value_ns-set_attr_ns "" "type" e.error_type "" "type" (new_node "" "error"))

pub by-error_node : (e : StanzaError) → or_empty (attr_value_ns "" "by" (error_node e)) ≡ e.by
unfolding string_eq
by-error_node e =
    ap or_empty (attr-error_node "by" e)
    ∙ by-set_by e.by _ (
        attr_value_ns-set_attr_ns "" "type" e.error_type "" "by" (new_node "" "error")
        ∙ attr_value_ns-new_node "" "by" "" "error")

error_child-application :
    (a : Node) (e : StanzaError)
    → IsApplication a
    → error_child (clone a) e ≡ record e { application = e.application ++ (a ∷ []) }
unfolding error_child
error_child-application a e h = rw (h.tidy, h.foreign) refl

each-application :
    (more : List Node) (e : StanzaError)
    → All IsApplication more
    → each error_child (map clone more) e ≡ record e { application = e.application ++ more }
each-application [] e h = ap (λ l. record e { application = l }) (sym (append-nil e.application))
each-application (a ∷ more) e h =
    ap (each error_child (map clone more)) (error_child-application a e h.0)
    ∙ each-application more (record e { application = e.application ++ (a ∷ []) }) h.1
    ∙ ap (λ l. record e { application = l }) (append_assoc e.application (a ∷ []) more)

not_text : (c : String) → c ≢ "text" → (c == "text") ≡ false
not_text c h = ground arith

abbrev text_name : String
text_name = "text"

pub each-condition :
    (c : String) (e : StanzaError)
    → c ≢ "text"
    → e.condition ≡ ""
    → each error_child (condition_nodes c) e ≡ record e { condition = c }
unfolding error_child condition_nodes
each-condition c e named free = elim (Bool-cases (c == "")) [
  | inl t ↦ rw t (ap (λ s. record e { condition = s }) (free ∙ sym ((==_iff c "").0 t)))
  | inr t ↦ rw t (rw (==-refl stanza_error_ns, not_text c named) refl)
]

pub each-text :
    (t : String) (e : StanzaError)
    → e.text ≡ ""
    → each error_child (text_nodes t) e ≡ record e { text = t }
unfolding error_child text_nodes
each-text t e free = elim (Bool-cases (t == "")) [
  | inl h ↦ rw h (ap (λ s. record e { text = s }) (free ∙ sym ((==_iff t "").0 h)))
  | inr h ↦ rw h (
      rw
        (
          clone_tidy _ (new_text_node-IsTidy stanza_error_ns "text" t),
          name-new_text_node stanza_error_ns "text" t,
          ==-refl stanza_error_ns,
          ==-refl text_name,
        )
        (ap (λ s. record e { text = s }) (text-new_text_node stanza_error_ns "text" t)))
]

-- A stanza error is read back from the node that is written for it, if its condition is not named
-- `text`, and its application's elements are tidy and outside the namespace of conditions.
pub stanza_error_from_node-error_node :
    (e : StanzaError) → IsNormal e → stanza_error_from_node (error_node e) ≡ e
unfolding stanza_error_from_node
stanza_error_from_node-error_node e n =
    let start : StanzaError = record {
      error_type = e.error_type;
      by = e.by;
      condition = "";
      text = "";
      application = [];
    } in
    rw (type-error_node e, by-error_node e, children-error_node e)
      (each-append error_child (condition_nodes e.condition)
          (text_nodes e.text ++ map clone e.application) start
        ∙ each-append error_child (text_nodes e.text) (map clone e.application) _
        ∙ ap
            (λ a.
              each error_child (map clone e.application) (each error_child (text_nodes e.text) a))
            (each-condition e.condition start n.condition_named refl)
        ∙ ap (each error_child (map clone e.application)) (each-text e.text _ refl)
        ∙ each-application e.application _ n.applications)
