-- ===== src/Node/Laws.antt =====
-- What the readers of a node see after each writer.
use Prim.Native.String.{◌++◌ as ◌<>◌}
use package.text.Mathlib.TextLemmas.{nil-append, append-nil, append_assoc}
use slixmpp_go.Common.{
  ap, ◌≡◌, refl, sym, ◌∙◌, ◌==◌, ◌&&◌, string_eq, String, List, [], ◌∷◌, ◌++◌, Option, none, some,
  if◌then◌else◌, arith, Bool-cases, inl, inr, ==_iff,
}
use slixmpp_go.Node.{
  Node, Parts, node, nil, text_part, child_part, Attr, name, attrs, clone, append_text,
  append_child, add_text, add_child, parts, set_attrs, find_attr, set_attr_ns, attr_value_ns,
  new_text_node, new_node, text, text_of, children, children_of, child, child_of, is_named,
}

find_attr-set_attrs :
    (ns l v ns' l' : String) (a : List Attr)
    → find_attr ns' l' (set_attrs ns l v a)
      ≡ (if ns == ns' && l == l' then some v else find_attr ns' l' a)
unfolding find_attr set_attrs
find_attr-set_attrs ns l v ns' l' [] = refl
find_attr-set_attrs ns l v ns' l' (a ∷ more) =
    ground (arith, find_attr-set_attrs ns l v ns' l' more)

-- An attribute that was set is read back, and every other one is as before.
pub attr_value_ns-set_attr_ns :
    (ns l v ns' l' : String) (n : Node)
    → attr_value_ns ns' l' (set_attr_ns ns l v n)
      ≡ (if ns == ns' && l == l' then some v else attr_value_ns ns' l' n)
unfolding attr_value_ns set_attr_ns
attr_value_ns-set_attr_ns ns l v ns' l' (node q a ps) = find_attr-set_attrs ns l v ns' l' a

pub attr_value_ns-new_node : (ns l ns' l' : String) → attr_value_ns ns l (new_node ns' l') ≡ none
unfolding attr_value_ns
attr_value_ns-new_node ns l ns' l' = refl

pub attr_value_ns-add_child :
    (ns l : String) (c n : Node) → attr_value_ns ns l (add_child c n) ≡ attr_value_ns ns l n
unfolding attr_value_ns add_child
attr_value_ns-add_child ns l c (node q a ps) = refl

pub name-set_attr_ns : (ns l v : String) (n : Node) → name (set_attr_ns ns l v n) ≡ name n
unfolding set_attr_ns
name-set_attr_ns ns l v (node q a ps) = refl

pub name-add_child : (c n : Node) → name (add_child c n) ≡ name n
unfolding add_child
name-add_child c (node q a ps) = refl

pub add_text-eq :
    (v : String) (n : Node)
    → add_text v n ≡ (if v == "" then n else node (name n) (attrs n) (append_text v (parts n)))
unfolding add_text
add_text-eq v (node q a ps) = refl

pub name-add_text : (v : String) (n : Node) → name (add_text v n) ≡ name n
unfolding add_text
name-add_text v (node q a ps) = ground arith

text_of-append_text : (v : String) (ps : Parts) → text_of (append_text v ps) ≡ text_of ps <> v
unfolding text_of append_text
text_of-append_text v nil = append-nil v ∙ sym (nil-append v)
text_of-append_text v (text_part t nil) =
    append-nil (t <> v) ∙ sym (ap (λ s. s <> v) (append-nil t))
text_of-append_text v (text_part t (text_part s ps)) =
    ap (λ r. t <> r) (text_of-append_text v (text_part s ps)) ∙ sym (append_assoc t _ v)
text_of-append_text v (text_part t (child_part s c ps)) =
    ap (λ r. t <> r) (text_of-append_text v (child_part s c ps)) ∙ sym (append_assoc t _ v)
text_of-append_text v (child_part t c ps) = text_of-append_text v ps

-- Added text is read at the end of the node's text.
pub text-add_text : (v : String) (n : Node) → text (add_text v n) ≡ text n <> v
unfolding text add_text
text-add_text v (node q a ps) = elim (Bool-cases (v == "")) [
  | inl e ↦ rw e (sym (ap (λ w. text_of ps <> w) ((==_iff v "").0 e) ∙ append-nil (text_of ps)))
  | inr e ↦ rw e (text_of-append_text v ps)
]

text_of-append_child : (c : Node) (ps : Parts) → text_of (append_child c ps) ≡ text_of ps
unfolding text_of append_child
text_of-append_child c nil = refl
text_of-append_child c (text_part t ps) = ap (λ r. t <> r) (text_of-append_child c ps)
text_of-append_child c (child_part t d ps) = text_of-append_child c ps

pub text-add_child : (c n : Node) → text (add_child c n) ≡ text n
unfolding text add_child
text-add_child c (node q a ps) = text_of-append_child c ps

pub text-new_text_node : (ns l v : String) → text (new_text_node ns l v) ≡ v
unfolding new_text_node text
text-new_text_node ns l v = text-add_text v (new_node ns l) ∙ nil-append v

pub name-new_text_node :
    (ns l v : String) → name (new_text_node ns l v) ≡ record { space = ns; local = l }
unfolding new_text_node
name-new_text_node ns l v = name-add_text v (new_node ns l)

children_of-append_child :
    (c : Node) (ps : Parts) → children_of (append_child c ps) ≡ children_of ps ++ (clone c ∷ [])
unfolding children_of append_child
children_of-append_child c nil = refl
children_of-append_child c (text_part t ps) = children_of-append_child c ps
children_of-append_child c (child_part t d ps) = ap (◌∷◌ (clone d)) (children_of-append_child c ps)

-- An added child is the last child.
pub children-add_child : (c n : Node) → children (add_child c n) ≡ children n ++ (clone c ∷ [])
unfolding children add_child
children-add_child c (node q a ps) = children_of-append_child c ps

pub children-set_attr_ns :
    (ns l v : String) (n : Node) → children (set_attr_ns ns l v n) ≡ children n
unfolding children set_attr_ns
children-set_attr_ns ns l v (node q a ps) = refl

pub children-new_node : (ns l : String) → children (new_node ns l) ≡ []
unfolding children
children-new_node ns l = refl

-- The first child with the name, among those that `Children` lists.
abbrev pub first_named : String → String → List Node → Option Node
first_named ns l [] = none
first_named ns l (c ∷ cs) = if is_named ns l c then some c else first_named ns l cs

name-clone : (n : Node) → name (clone n) ≡ name n
unfolding clone
name-clone (node q a ps) = refl

child_of-first_named :
    (ns l : String) (ps : Parts) → child_of ns l ps ≡ first_named ns l (children_of ps)
unfolding child_of children_of
child_of-first_named ns l nil = refl
child_of-first_named ns l (text_part t ps) = child_of-first_named ns l ps
child_of-first_named ns l (child_part t c ps) = rw (name-clone c, child_of-first_named ns l ps)

-- `Child` finds the first of `Children` that has the name.
pub child-first_named : (ns l : String) (n : Node) → child ns l n ≡ first_named ns l (children n)
unfolding child children
child-first_named ns l n = child_of-first_named ns l (parts n)

pub text-set_attr_ns : (ns l v : String) (n : Node) → text (set_attr_ns ns l v n) ≡ text n
unfolding text set_attr_ns
text-set_attr_ns ns l v (node q a ps) = refl

pub attr_value_ns-new_text_node :
    (ns l space local v : String) → attr_value_ns ns l (new_text_node space local v) ≡ none
unfolding attr_value_ns new_text_node add_text
attr_value_ns-new_text_node ns l space local v = elim (Bool-cases (v == "")) [
  | inl e ↦ rw e refl
  | inr e ↦ rw e refl
]
