-- ===== src/Node/Tidy.antt =====
-- Nodes whose child parts carry no text: what the methods build, and what `Clone` leaves alone.
use slixmpp_go.Common.{ap, ◌≡◌, refl, ◌==◌, string_eq, String, Bool-cases, inl, inr}
use slixmpp_go.Node.{
  Node, Parts, node, nil, text_part, child_part, clone, clone_parts, append_text, append_child,
  add_text, add_child, set_attr_ns, new_text_node, new_node,
}

abbrev mutual
  pub IsTidy : Node → Type 0
  IsTidy (node q a ps) = AreTidy ps

  pub AreTidy : Parts → Type 0
  AreTidy nil = Unit
  AreTidy (text_part t ps) = AreTidy ps
  AreTidy (child_part t c ps) = (t ≡ "") × IsTidy c × AreTidy ps

mutual
  unfolding clone

  clone-of_tidy : (n : Node) → IsTidy n → clone n ≡ n
  clone-of_tidy (node q a ps) h = ap (node q a) (clone_parts-of_tidy ps h)

  clone_parts-of_tidy : (ps : Parts) → AreTidy ps → clone_parts ps ≡ ps
  clone_parts-of_tidy nil h = refl
  clone_parts-of_tidy (text_part t ps) h = ap (text_part t) (clone_parts-of_tidy ps h)
  clone_parts-of_tidy (child_part t c ps) h =
      cc (h.0, clone-of_tidy c h.1, clone_parts-of_tidy ps h.2)

-- A deep copy of a tidy node is that node.
pub clone_tidy : (n : Node) → IsTidy n → clone n ≡ n
clone_tidy n h = clone-of_tidy n h

mutual
  unfolding clone

  IsTidy-clone : (n : Node) → IsTidy (clone n)
  IsTidy-clone (node q a ps) = tidy-clone_parts ps

  tidy-clone_parts : (ps : Parts) → AreTidy (clone_parts ps)
  tidy-clone_parts nil = tt
  tidy-clone_parts (text_part t ps) = tidy-clone_parts ps
  tidy-clone_parts (child_part t c ps) = (refl, IsTidy-clone c, tidy-clone_parts ps)

pub clone-IsTidy : (n : Node) → IsTidy (clone n)
clone-IsTidy n = IsTidy-clone n

append_text-AreTidy : (v : String) (ps : Parts) → AreTidy ps → AreTidy (append_text v ps)
unfolding append_text
append_text-AreTidy v nil h = tt
append_text-AreTidy v (text_part t nil) h = tt
append_text-AreTidy v (text_part t (text_part s ps)) h = append_text-AreTidy v (text_part s ps) h
append_text-AreTidy v (text_part t (child_part s c ps)) h =
    append_text-AreTidy v (child_part s c ps) h
append_text-AreTidy v (child_part t c ps) h = (h.0, h.1, append_text-AreTidy v ps h.2)

append_child-AreTidy : (c : Node) (ps : Parts) → IsTidy c → AreTidy ps → AreTidy (append_child c ps)
unfolding append_child
append_child-AreTidy c nil i h = (refl, i, tt)
append_child-AreTidy c (text_part t ps) i h = append_child-AreTidy c ps i h
append_child-AreTidy c (child_part t d ps) i h = (h.0, h.1, append_child-AreTidy c ps i h.2)

pub add_text-IsTidy : (v : String) (n : Node) → IsTidy n → IsTidy (add_text v n)
unfolding add_text
add_text-IsTidy v (node q a ps) h = elim (Bool-cases (v == "")) [
  | inl e ↦ rw e h
  | inr e ↦ rw e (append_text-AreTidy v ps h)
]

pub add_child-IsTidy : (c n : Node) → IsTidy c → IsTidy n → IsTidy (add_child c n)
unfolding add_child
add_child-IsTidy c (node q a ps) i h = append_child-AreTidy c ps i h

pub set_attr_ns-IsTidy :
    (ns local v : String) (n : Node) → IsTidy n → IsTidy (set_attr_ns ns local v n)
unfolding set_attr_ns
set_attr_ns-IsTidy ns local v (node q a ps) h = h

pub new_text_node-IsTidy : (ns local v : String) → IsTidy (new_text_node ns local v)
unfolding new_text_node
new_text_node-IsTidy ns local v = add_text-IsTidy v (new_node ns local) tt
