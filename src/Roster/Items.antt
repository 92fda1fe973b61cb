-- ===== src/Roster/Items.antt =====
-- xmpp/roster.go: an item is written as an element and read back.
use slixmpp_go.Common.{
  ◌≡◌, refl, sym, ◌∙◌, ap, false, none, String, ◌==◌, ==-refl, ==_iff, string_eq, List, [], ◌∷◌,
  ◌++◌, Bool-cases, inl, inr,
}
use mathlib.Core.List.{append_assoc, append-nil}
use slixmpp_go.Jid.{bare_jid_string}
use slixmpp_go.Node.{
  Node, name, attr_value_ns, or_empty, new_node, new_text_node, set_attr, add_child, text, clone,
  children,
}
use slixmpp_go.Node.Tidy.{clone_tidy, new_text_node-IsTidy}
use slixmpp_go.Node.Laws.{
  attr_value_ns-set_attr_ns, attr_value_ns-add_child, attr_value_ns-new_node, children-add_child,
  children-set_attr_ns, children-new_node, name-new_text_node, text-new_text_node,
}
use slixmpp_go.Roster.{
  RosterItem, roster_ns, groups_of, read_item, roster_item_node, add_groups, set_given,
}

attr-add_groups :
    (k : String) (gs : List String) (n : Node)
    → attr_value_ns "" k (add_groups gs n) ≡ attr_value_ns "" k n
attr-add_groups k [] n = refl
attr-add_groups k (g ∷ gs) n =
    attr-add_groups k gs (add_child (new_text_node roster_ns "group" g) n)
    ∙ attr_value_ns-add_child "" k (new_text_node roster_ns "group" g) n

attr-set_given_other :
    (j v k : String) (n : Node)
    → (j == k) ≡ false
    → attr_value_ns "" k (set_given j v n) ≡ attr_value_ns "" k n
attr-set_given_other j v k n h = elim (Bool-cases (v == "")) [
  | inl e ↦ rw e refl
  | inr e ↦ rw e (attr_value_ns-set_attr_ns "" j v "" k n ∙ rw (==-refl empty, h) refl)
]
  where
    empty : String
    empty = ""

attr-set_given :
    (k v : String) (n : Node)
    → attr_value_ns "" k n ≡ none
    → or_empty (attr_value_ns "" k (set_given k v n)) ≡ v
attr-set_given k v n h = elim (Bool-cases (v == "")) [
  | inl e ↦ rw (e, h) (sym ((==_iff v "").0 e))
  | inr e ↦ rw e (rw (attr_value_ns-set_attr_ns "" k v "" k n, ==-refl empty, ==-refl k) refl)
]
  where
    empty : String
    empty = ""

children-set_given : (k v : String) (n : Node) → children (set_given k v n) ≡ children n
children-set_given k v n = elim (Bool-cases (v == "")) [
  | inl e ↦ rw e refl
  | inr e ↦ rw e (children-set_attr_ns "" k v n)
]

groups_of-append : (xs ys : List Node) → groups_of (xs ++ ys) ≡ groups_of xs ++ groups_of ys
unfolding groups_of
groups_of-append [] ys = refl
groups_of-append (x ∷ xs) ys = elim (Bool-cases ((name x).local == "group")) [
  | inl e ↦ rw e (ap (◌∷◌ (text x)) (groups_of-append xs ys))
  | inr e ↦ rw e (groups_of-append xs ys)
]

abbrev group_name : String
group_name = "group"

groups_of-group : (g : String) → groups_of (clone (new_text_node roster_ns "group" g) ∷ []) ≡ g ∷ []
unfolding groups_of
groups_of-group g =
    rw
      (
        clone_tidy _ (new_text_node-IsTidy roster_ns "group" g),
        name-new_text_node roster_ns "group" g,
        ==-refl group_name,
        text-new_text_node roster_ns "group" g,
      )
      refl

groups_of-add_groups :
    (gs : List String) (n : Node)
    → groups_of (children (add_groups gs n)) ≡ groups_of (children n) ++ gs
groups_of-add_groups [] n = sym (append-nil (groups_of (children n)))
groups_of-add_groups (g ∷ gs) n =
    let c = new_text_node roster_ns "group" g in
    groups_of-add_groups gs (add_child c n)
    ∙ ap (λ l. groups_of l ++ gs) (children-add_child c n)
    ∙ ap (λ l. l ++ gs) (groups_of-append (children n) (clone c ∷ []))
    ∙ ap (λ l. (groups_of (children n) ++ l) ++ gs) (groups_of-group g)
    ∙ append_assoc (groups_of (children n)) (g ∷ []) gs

-- The element of an item without its groups.
abbrev item_base : RosterItem → Node
item_base item = set_given "subscription" item.subscription (
    set_given "name" item.name
      (set_attr "jid" (bare_jid_string item.jid) (new_node roster_ns "item")))

item_attr :
    (k : String) (item : RosterItem)
    → attr_value_ns "" k (roster_item_node item) ≡ attr_value_ns "" k (item_base item)
unfolding roster_item_node
item_attr k item = attr-add_groups k item.groups (item_base item)

-- Another attribute than the three is absent.
item_attr-absent :
    (k : String) (item : RosterItem)
    → ("subscription" == k) ≡ false
    → ("name" == k) ≡ false
    → ("jid" == k) ≡ false
    → attr_value_ns "" k (roster_item_node item) ≡ none
item_attr-absent k item a b c =
    item_attr k item
    ∙ attr-set_given_other "subscription" item.subscription k _ a
    ∙ attr-set_given_other "name" item.name k _ b
    ∙ jid_only (bare_jid_string item.jid)
  where
    empty : String
    empty = ""

    jid_only :
        (v : String) → attr_value_ns "" k (set_attr "jid" v (new_node roster_ns "item")) ≡ none
    jid_only v =
        rw (attr_value_ns-set_attr_ns "" "jid" v "" k (new_node roster_ns "item"), ==-refl empty, c)
          (attr_value_ns-new_node "" k roster_ns "item")

item_jid :
    (item : RosterItem)
    → or_empty (attr_value_ns "" "jid" (roster_item_node item)) ≡ bare_jid_string item.jid
unfolding string_eq
item_jid item = ap or_empty (
    item_attr "jid" item
    ∙ attr-set_given_other "subscription" item.subscription "jid" _ refl
    ∙ attr-set_given_other "name" item.name "jid" _ refl
    ∙ attr_value_ns-set_attr_ns "" "jid" (bare_jid_string item.jid) "" "jid" _)

item_name :
    (item : RosterItem) → or_empty (attr_value_ns "" "name" (roster_item_node item)) ≡ item.name
unfolding string_eq
item_name item =
    ap or_empty
      (item_attr "name" item ∙ attr-set_given_other "subscription" item.subscription "name" _ refl)
    ∙ attr-set_given "name" item.name _ (
        attr_value_ns-set_attr_ns "" "jid" (bare_jid_string item.jid) "" "name" _
        ∙ attr_value_ns-new_node "" "name" roster_ns "item")

item_subscription :
    (item : RosterItem)
    → or_empty (attr_value_ns "" "subscription" (roster_item_node item)) ≡ item.subscription
unfolding string_eq
item_subscription item =
    ap or_empty (item_attr "subscription" item)
    ∙ attr-set_given "subscription" item.subscription _ (
        attr-set_given_other "name" item.name "subscription" _ refl
        ∙ attr_value_ns-set_attr_ns "" "jid" (bare_jid_string item.jid) "" "subscription" _
        ∙ attr_value_ns-new_node "" "subscription" roster_ns "item")

groups_of-nil : groups_of [] ≡ []
unfolding groups_of
groups_of-nil = refl

item_groups : (item : RosterItem) → groups_of (children (roster_item_node item)) ≡ item.groups
unfolding roster_item_node
item_groups item =
    groups_of-add_groups item.groups (item_base item)
    ∙ ap (λ l. groups_of l ++ item.groups)
        (children-set_given "subscription" item.subscription _
          ∙ children-set_given "name" item.name _
          ∙ children-set_attr_ns "" "jid" (bare_jid_string item.jid) (new_node roster_ns "item")
          ∙ children-new_node roster_ns "item")
    ∙ ap (λ l. l ++ item.groups) groups_of-nil

-- The element of an item is read as the item with the bare JID, not asked for and not approved.
pub read_item-roster_item_node :
    (item : RosterItem)
    → read_item (roster_item_node item)
      ≡ record item { jid = bare_jid_string item.jid; ask = ""; approved = false }
unfolding read_item string_eq
read_item-roster_item_node item =
    rw
      (
        item_jid item,
        item_name item,
        item_subscription item,
        item_groups item,
        item_attr-absent "ask" item refl refl refl,
        item_attr-absent "approved" item refl refl refl,
      )
      refl
