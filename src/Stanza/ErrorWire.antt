-- ===== src/Stanza/ErrorWire.antt =====
-- xmpp/stanza.go: what is read from the element of a stanza error when its namespaces are declared.
use Prim.Native.String.{◌++◌ as ◌<>◌}
use slixmpp_go.Common.{
  ◌≡◌, refl, sym, ◌∙◌, ap, ap₂, true, String, ◌==◌, ==-refl, ==_iff, string_eq, List, [], ◌∷◌, ◌++◌,
  map, if◌then◌else◌, Bool-cases, inl, inr, All,
}
use mathlib.Core.List.{append_assoc, append-nil}
use slixmpp_go.Node.{
  Node, Parts, node, nil, text_part, child_part, QName, name, text, text_of, clone, clone_parts,
  children, children_of, attr_value_ns,
}
use slixmpp_go.Node.Tidy.{clone_tidy, new_text_node-IsTidy}
use slixmpp_go.Node.Laws.{name-new_text_node}
use slixmpp_go.Node.Tokens.Wire.{scoped, with_xmlns, declared, declared_parts}
use slixmpp_go.Stanza.{StanzaError, stanza_error_ns, each, error_child, stanza_error_from_node}
use slixmpp_go.Stanza.Tokens.{error_node}
use slixmpp_go.Stanza.ErrorLaws.{
  IsNormal, IsApplication, each-append, condition_nodes, text_nodes, children-error_node,
  type-error_node, by-error_node, each-condition, each-text, name-error_node,
}

or_outermost : (s : String) → (if s == "" then "" else s) ≡ s
or_outermost s = elim (Bool-cases (s == "")) [
  | inl e ↦ rw e (sym ((==_iff s "").0 e))
  | inr e ↦ rw e refl
]

scoped-outermost : (q : QName) → scoped "" q ≡ q
scoped-outermost q = ap (λ s. record q { space = s }) (or_outermost q.space)

pub name-declared : (n : Node) → name (declared "" n) ≡ name n
unfolding declared
name-declared (node q a ps) = scoped-outermost q

text_of-declared_parts :
    (around : String) (ps : Parts) → text_of (declared_parts around ps) ≡ text_of ps
unfolding declared text_of
text_of-declared_parts around nil = refl
text_of-declared_parts around (text_part t ps) = ap (λ s. t <> s) (text_of-declared_parts around ps)
text_of-declared_parts around (child_part t c ps) = text_of-declared_parts around ps

text-declared : (n : Node) → text (declared "" n) ≡ text n
unfolding declared text
text-declared (node q a ps) = text_of-declared_parts _ ps

mutual
  unfolding declared clone

  clone-declared :
      (around : String) (n : Node) → clone (declared around n) ≡ declared around (clone n)
  clone-declared around (node q a ps) =
      ap (node (scoped around q) (with_xmlns q a)) (clone_parts-declared_parts _ ps)

  clone_parts-declared_parts :
      (around : String) (ps : Parts)
      → clone_parts (declared_parts around ps) ≡ declared_parts around (clone_parts ps)
  clone_parts-declared_parts around nil = refl
  clone_parts-declared_parts around (text_part t ps) =
      ap (text_part t) (clone_parts-declared_parts around ps)
  clone_parts-declared_parts around (child_part t c ps) =
      ap₂ (child_part "") (clone-declared around c) (clone_parts-declared_parts around ps)

children_of-declared_parts :
    (around : String) (ps : Parts)
    → children_of (declared_parts around ps) ≡ map (declared around) (children_of ps)
unfolding declared children_of
children_of-declared_parts around nil = refl
children_of-declared_parts around (text_part t ps) = children_of-declared_parts around ps
children_of-declared_parts around (child_part t c ps) =
    ap₂ (◌∷◌) (clone-declared around c) (children_of-declared_parts around ps)

children-declared :
    (n : Node) → (name n).space ≡ "" → children (declared "" n) ≡ map (declared "") (children n)
unfolding declared children
children-declared (node q a ps) h =
    ap (λ s. children_of (declared_parts s ps)) (ap (λ r. r.space) (scoped-outermost q) ∙ h)
    ∙ children_of-declared_parts "" ps

attr-declared :
    (k : String) (n : Node)
    → (name n).space ≡ ""
    → attr_value_ns "" k (declared "" n) ≡ attr_value_ns "" k n
unfolding declared attr_value_ns
attr-declared k (node q a ps) h =
    let own : (q.space == "") ≡ true = (==_iff q.space "").1 h in rw own refl

map-append :
    (xs ys : List Node)
    → map (declared "") (xs ++ ys) ≡ map (declared "") xs ++ map (declared "") ys
map-append [] ys = refl
map-append (x ∷ xs) ys = ap (◌∷◌ (declared "" x)) (map-append xs ys)

-- Elements in the namespace of conditions are read alike.
error_child-declared :
    (c : Node) (e : StanzaError)
    → (name c).space ≡ stanza_error_ns
    → error_child (declared "" c) e ≡ error_child c e
unfolding error_child
error_child-declared c e h = rw (name-declared c, text-declared c, h, ==-refl stanza_error_ns) refl

each-declared :
    (cs : List Node) (e : StanzaError)
    → All (λ c. (name c).space ≡ stanza_error_ns) cs
    → each error_child (map (declared "") cs) e ≡ each error_child cs e
each-declared [] e h = refl
each-declared (c ∷ cs) e h =
    ap (each error_child (map (declared "") cs)) (error_child-declared c e h.0)
    ∙ each-declared cs _ h.1

condition_nodes-space :
    (c : String) → All (λ n. (name n).space ≡ stanza_error_ns) (condition_nodes c)
unfolding condition_nodes
condition_nodes-space c = elim (Bool-cases (c == "")) [ inl e ↦ rw e tt | inr e ↦ rw e (refl, tt) ]

text_nodes-space : (t : String) → All (λ n. (name n).space ≡ stanza_error_ns) (text_nodes t)
unfolding text_nodes
text_nodes-space t = elim (Bool-cases (t == "")) [
  | inl e ↦ rw e tt
  | inr e ↦ rw e (
    ap (λ n. (name n).space) (clone_tidy _ (new_text_node-IsTidy stanza_error_ns "text" t))
        ∙ ap (λ q. q.space) (name-new_text_node stanza_error_ns "text" t),
    tt,
  )
]

error_child-declared_application :
    (a : Node) (e : StanzaError)
    → IsApplication a
    → error_child (declared "" (clone a)) e
      ≡ record e { application = e.application ++ (declared "" a ∷ []) }
unfolding error_child
error_child-declared_application a e h = rw (h.tidy, name-declared a, h.foreign) refl

each-declared_application :
    (more : List Node) (e : StanzaError)
    → All IsApplication more
    → each error_child (map (declared "") (map clone more)) e
      ≡ record e { application = e.application ++ map (declared "") more }
each-declared_application [] e h =
    ap (λ l. record e { application = l }) (sym (append-nil e.application))
each-declared_application (a ∷ more) e h =
    ap (each error_child (map (declared "") (map clone more)))
      (error_child-declared_application a e h.0)
    ∙ each-declared_application more _ h.1
    ∙ ap (λ l. record e { application = l })
        (append_assoc e.application (declared "" a ∷ []) (map (declared "") more))

-- The application's elements come back with their namespaces declared, all else as it was.
abbrev pub declared_error : StanzaError → StanzaError
declared_error e = record e { application = map (declared "") e.application }

pub stanza_error_from_node-declared :
    (e : StanzaError)
    → IsNormal e
    → stanza_error_from_node (declared "" (error_node e)) ≡ declared_error e
unfolding stanza_error_from_node
stanza_error_from_node-declared e n =
    let outer = ap (λ q. q.space) (name-error_node e) in
    let start : StanzaError = record {
      error_type = e.error_type;
      by = e.by;
      condition = "";
      text = "";
      application = [];
    } in
    let rest = map (declared "") (map clone e.application) in
    rw
      (
        attr-declared "type" (error_node e) outer,
        attr-declared "by" (error_node e) outer,
        type-error_node e,
        by-error_node e,
        children-declared (error_node e) outer,
        children-error_node e,
        map-append (condition_nodes e.condition) (text_nodes e.text ++ map clone e.application),
        map-append (text_nodes e.text) (map clone e.application),
      )
      (each-append error_child (map (declared "") (condition_nodes e.condition))
          (map (declared "") (text_nodes e.text) ++ rest) start
        ∙ each-append error_child (map (declared "") (text_nodes e.text)) rest _
        ∙ ap
            (λ a.
              each error_child rest (each error_child (map (declared "") (text_nodes e.text)) a))
            (each-declared (condition_nodes e.condition) start (condition_nodes-space e.condition)
              ∙ each-condition e.condition start n.condition_named refl)
        ∙ ap (each error_child rest) (
            each-declared (text_nodes e.text) _ (text_nodes-space e.text) ∙ each-text e.text _ refl)
        ∙ each-declared_application e.application _ n.applications)
