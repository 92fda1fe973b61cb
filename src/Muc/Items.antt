-- ===== src/Muc/Items.antt =====
-- xep/muc.go: an item is read back from its element.
use slixmpp_go.Common.{
  ◌≡◌, refl, sym, Bool, true, false, Option, [], ◌∷◌, String, ◌==◌, string_eq, Bool-cases, inl, inr,
  ==_iff, ==-refl, ◌||◌,
}
use slixmpp_go.Common.Dict.{Dict}
use slixmpp_go.Node.{Node, name, is_named, new_text_node, text_or_empty}
use slixmpp_go.Node.Laws.{first_named, name-new_text_node, text-new_text_node}
use slixmpp_go.Node.Build.{given, text_child}
use slixmpp_go.Node.Build.Laws.{
  attr-element, name-element, child-element, child_text-element, or_empty-override,
  text_child-IsTidy,
}
use slixmpp_go.Muc.{Item, read_item, item_node, actor_of}

is_named-own :
    (ns l : String) (n : Node) → name n ≡ record { space = ns; local = l } → is_named ns l n ≡ true
is_named-own ns l n e = rw e (rw (==-refl l, ==-refl ns) (or-true (ns == "")))
  where
    or-true : (b : Bool) → b || true ≡ true
    or-true true = refl
    or-true false = refl

-- The only child of an item is its reason.
reason-first_named :
    (ns v : String) → text_or_empty (first_named ns "reason" (text_child ns "reason" v)) ≡ v
reason-first_named ns v = elim (Bool-cases (v == "")) [
  | inl e ↦ rw e (sym ((==_iff v "").0 e))
  | inr e ↦
      rw
        (
          e,
          is_named-own ns "reason" (new_text_node ns "reason" v) (name-new_text_node ns "reason" v),
        )
        (text-new_text_node ns "reason" v)
]

no_actor : (ns v : String) → actor_of (first_named ns "actor" (text_child ns "reason" v)) ≡ ""
unfolding string_eq
no_actor ns v = elim (Bool-cases (v == "")) [
  | inl e ↦ rw e refl
  | inr e ↦ rw e (rw (name-new_text_node ns "reason" v) refl)
]

-- An item is read back from the element that is written for it, in any namespace, less the actor,
-- which is not written.
pub read_item-item_node :
    (ns : String) (i : Item) → read_item (item_node ns i) ≡ record i { actor = "" }
unfolding read_item item_node string_eq
read_item-item_node ns i =
    let set : Dict String (Option String) =
      ("affiliation", given i.affiliation)
      ∷ ("role", given i.role)
      ∷ ("jid", given i.jid)
      ∷ ("nick", given i.nick)
      ∷ [] in
    let cs = text_child ns "reason" i.reason in
    let tidy = text_child-IsTidy ns "reason" i.reason in
    rw
      (
        name-element ns "item" set cs,
        attr-element "affiliation" ns "item" set cs,
        attr-element "role" ns "item" set cs,
        attr-element "jid" ns "item" set cs,
        attr-element "nick" ns "item" set cs,
        child_text-element ns "reason" ns "item" set cs tidy,
        child-element ns "actor" ns "item" set cs tidy,
        reason-first_named ns i.reason,
        no_actor ns i.reason,
        or_empty-override i.affiliation,
        or_empty-override i.role,
        or_empty-override i.jid,
        or_empty-override i.nick,
      )
      refl
