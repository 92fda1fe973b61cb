-- ===== src/Rsm/RoundTrip.antt =====
-- xep/rsm.go: a result set is written as a node and read back.
use slixmpp_go.Common.{
  ◌≡◌, refl, sym, ◌∙◌, ap, ap₂, Bool, true, false, Option, none, some, String, ◌==◌, ==-refl,
  ==_iff, string_eq, List, [], ◌∷◌, ◌++◌, map, Bool-cases, inl, inr,
}
use mathlib.Core.List.{append_assoc, append-nil}
use slixmpp_go.Common.Int.{ℤ, IsInt}
use slixmpp_go.Common.Result.{ok, >>=-eq-ok}
use slixmpp_go.Node.{Node, name, new_node, new_text_node, set_attr, add_child, clone, children}
use slixmpp_go.Node.Tidy.{clone_tidy, new_text_node-IsTidy, set_attr_ns-IsTidy}
use slixmpp_go.Node.Laws.{
  children-add_child, children-new_node, name-add_child, name-new_text_node, text-new_text_node,
  text-set_attr_ns, name-set_attr_ns, attr_value_ns-set_attr_ns, attr_value_ns-new_text_node,
}
use slixmpp_go.Rsm.{
  Rsm, rsm_ns, add_all, text_child, before_child, number_child, first_child, set_children, to_node,
  read_child, read_children, parse_rsm, no_rsm,
}

-- A number that is given is one of Go's `int`s, of 64 bits.
abbrev pub IsIntOption : Option ℤ → Type 0
IsIntOption none = Unit
IsIntOption (some v) = IsInt v

pub record IsNormal (r : Rsm) : Type 0 where
  pub before_given : r.before_set ≡ false → r.before ≡ ""
  pub first_index_fits : IsIntOption r.first_index
  pub max_fits : IsIntOption r.max
  pub count_fits : IsIntOption r.count
  pub index_fits : IsIntOption r.index

abbrev set_name : String
set_name = "set"

children-add_all :
    (cs : List Node) (n : Node) → children (add_all cs n) ≡ children n ++ map clone cs
children-add_all [] n = sym (append-nil (children n))
children-add_all (c ∷ cs) n =
    children-add_all cs (add_child c n)
    ∙ ap (λ l. l ++ map clone cs) (children-add_child c n)
    ∙ append_assoc (children n) (clone c ∷ []) (map clone cs)

name-add_all : (cs : List Node) (n : Node) → name (add_all cs n) ≡ name n
name-add_all [] n = refl
name-add_all (c ∷ cs) n = name-add_all cs (add_child c n) ∙ name-add_child c n

module _ (atoi : String → Option ℤ) where
  -- Reading the children of one part, then the rest.
  read-part :
      (xs ys : List Node) (r s : Rsm)
      → read_children atoi (map clone xs) r ≡ ok s
      → read_children atoi (map clone (xs ++ ys)) r ≡ read_children atoi (map clone ys) s
  read-part [] ys r s h = let same : r ≡ s = cc in ap (read_children atoi (map clone ys)) same
  read-part (x ∷ xs) ys r s h =
      let (t, e, f) =
        >>=-eq-ok (read_child atoi (clone x) r) (read_children atoi (map clone xs)) h in
      rw e (read-part xs ys t s f)

  -- An element with a text, as the loop sees it.
  read-text_node :
      (local v : String) (r : Rsm)
      → read_child atoi (clone (new_text_node rsm_ns local v)) r
        ≡ read_child atoi (new_text_node rsm_ns local v) r
  read-text_node local v r =
      ap (λ c. read_child atoi c r) (clone_tidy _ (new_text_node-IsTidy rsm_ns local v))

  read-after :
      (v : String) (r : Rsm)
      → r.after ≡ ""
      → read_children atoi (map clone (text_child "after" v)) r ≡ ok (record r { after = v })
  unfolding read_child string_eq
  read-after v r free = elim (Bool-cases (v == "")) [
    | inl e ↦ rw e (ap (λ t. ok (record r { after = t })) (free ∙ sym ((==_iff v "").0 e)))
    | inr e ↦ rw e (
        rw (read-text_node "after" v r)
          (rw (name-new_text_node rsm_ns "after" v, text-new_text_node rsm_ns "after" v) refl))
  ]

  read-last :
      (v : String) (r : Rsm)
      → r.last ≡ ""
      → read_children atoi (map clone (text_child "last" v)) r ≡ ok (record r { last = v })
  unfolding read_child string_eq
  read-last v r free = elim (Bool-cases (v == "")) [
    | inl e ↦ rw e (ap (λ t. ok (record r { last = t })) (free ∙ sym ((==_iff v "").0 e)))
    | inr e ↦ rw e (
        rw (read-text_node "last" v r)
          (rw (name-new_text_node rsm_ns "last" v, text-new_text_node rsm_ns "last" v) refl))
  ]

  read-before :
      (set : Bool) (v : String) (r : Rsm)
      → r.before ≡ ""
      → r.before_set ≡ false
      → (set ≡ false → v ≡ "")
      → read_children atoi (map clone (before_child set v)) r
        ≡ ok (record r { before_set = set; before = v })
  unfolding read_child string_eq
  read-before true v r free unset h =
      rw (read-text_node "before" v r)
        (rw (name-new_text_node rsm_ns "before" v, text-new_text_node rsm_ns "before" v) refl)
  read-before false v r free unset h =
      ap₂ (λ t b. ok (record r { before_set = b; before = t })) (free ∙ sym (h refl)) unset

  module _ (itoa : ℤ → String) (law : (v : ℤ) → IsInt v → atoi (itoa v) ≡ some v) where
    read-max :
        (o : Option ℤ) (r : Rsm)
        → IsIntOption o
        → r.max ≡ none
        → read_children atoi (map clone (number_child itoa "max" o)) r ≡ ok (record r { max = o })
    unfolding read_child string_eq
    read-max none r fits free = ap (λ o. ok (record r { max = o })) free
    read-max (some v) r fits free = rw (read-text_node "max" (itoa v) r) (
        rw
          (
            name-new_text_node rsm_ns "max" (itoa v),
            text-new_text_node rsm_ns "max" (itoa v),
            law v fits,
          )
          refl)

    read-count :
        (o : Option ℤ) (r : Rsm)
        → IsIntOption o
        → r.count ≡ none
        → read_children atoi (map clone (number_child itoa "count" o)) r
          ≡ ok (record r { count = o })
    unfolding read_child string_eq
    read-count none r fits free = ap (λ o. ok (record r { count = o })) free
    read-count (some v) r fits free = rw (read-text_node "count" (itoa v) r) (
        rw
          (
            name-new_text_node rsm_ns "count" (itoa v),
            text-new_text_node rsm_ns "count" (itoa v),
            law v fits,
          )
          refl)

    read-index :
        (o : Option ℤ) (r : Rsm)
        → IsIntOption o
        → r.index ≡ none
        → read_children atoi (map clone (number_child itoa "index" o)) r
          ≡ ok (record r { index = o })
    unfolding read_child string_eq
    read-index none r fits free = ap (λ o. ok (record r { index = o })) free
    read-index (some v) r fits free = rw (read-text_node "index" (itoa v) r) (
        rw
          (
            name-new_text_node rsm_ns "index" (itoa v),
            text-new_text_node rsm_ns "index" (itoa v),
            law v fits,
          )
          refl)

    read-first :
        (v : String) (o : Option ℤ) (r : Rsm)
        → IsIntOption o
        → r.first ≡ ""
        → r.first_index ≡ none
        → read_children atoi (map clone (first_child itoa v o)) r
          ≡ ok (record r { first = v; first_index = o })
    unfolding read_child string_eq
    read-first v none r fits free unset = elim (Bool-cases (v == "")) [
      | inl e ↦ rw e (
          ap₂ (λ t o. ok (record r { first = t; first_index = o })) (free ∙ sym ((==_iff v "").0 e))
            unset)
      | inr e ↦ rw e (
          rw (read-text_node "first" v r) (
            rw
              (
                name-new_text_node rsm_ns "first" v,
                text-new_text_node rsm_ns "first" v,
                attr_value_ns-new_text_node "" "index" rsm_ns "first" v,
              )
              (ap (λ o. ok (record r { first = v; first_index = o })) unset)))
    ]
    read-first v (some i) r fits free unset =
        let n = new_text_node rsm_ns "first" v in
        rw
          (
            clone_tidy (set_attr "index" (itoa i) n)
                (set_attr_ns-IsTidy "" "index" (itoa i) n (new_text_node-IsTidy rsm_ns "first" v)),
            name-set_attr_ns "" "index" (itoa i) n,
            text-set_attr_ns "" "index" (itoa i) n,
            name-new_text_node rsm_ns "first" v,
            text-new_text_node rsm_ns "first" v,
            attr_value_ns-set_attr_ns "" "index" (itoa i) "" "index" n,
            law i fits,
          )
          refl

    read-all :
        (r : Rsm) → IsNormal r → read_children atoi (map clone (set_children itoa r)) no_rsm ≡ ok r
    read-all r n =
        read-part (number_child itoa "max" r.max) _ _ _ (read-max r.max no_rsm n.max_fits refl)
        ∙ read-part (text_child "after" r.after) _ _ _ (read-after r.after _ refl)
        ∙ read-part (before_child r.before_set r.before) _ _ _
            (read-before r.before_set r.before _ refl refl n.before_given)
        ∙ read-part (number_child itoa "index" r.index) _ _ _
            (read-index r.index _ n.index_fits refl)
        ∙ read-part (first_child itoa r.first r.first_index) _ _ _
            (read-first r.first r.first_index _ n.first_index_fits refl refl)
        ∙ read-part (text_child "last" r.last) _ _ _ (read-last r.last _ refl)
        ∙ read-count r.count _ n.count_fits refl

    -- A result set with numbers that are Go's `int`s is read back from the node that is written for
    -- it, if `Before` is empty where it is not set, and every `int` is read back from its text.
    pub parse_rsm-to_node : (r : Rsm) → IsNormal r → parse_rsm atoi (to_node itoa r) ≡ ok r
    unfolding parse_rsm to_node
    parse_rsm-to_node r n =
        rw
          (
            name-add_all (set_children itoa r) (new_node rsm_ns "set"),
            ==-refl set_name,
            ==-refl rsm_ns,
          )
          (rw
            (
              children-add_all (set_children itoa r) (new_node rsm_ns "set"),
              children-new_node rsm_ns "set",
            )
            (read-all r n))
