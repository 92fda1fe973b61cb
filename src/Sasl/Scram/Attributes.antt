-- ===== src/Sasl/Scram/Attributes.antt =====
-- xmpp/sasl.go: what `parseSCRAMAttributes` finds.
use slixmpp_go.Common.{
  ◌≡◌, refl, sym, ap, Option, none, some, List, [], ◌∷◌, String, ◌==◌, string_eq, ◌⊎◌, inl, inr,
  ◌↔◌, ==_iff, Bool-cases,
}
use slixmpp_go.Common.Dict
use slixmpp_go.Common.Dict.{Dict, lookup-insert, lookup-nil}
use slixmpp_go.Common.Result.{ok, >>=-eq-ok}
use slixmpp_go.Sasl.Scram.{
  attribute, add_attribute, add_fresh, add_attributes, parse_attributes, split_all,
}

-- One of the parts is the attribute.
abbrev pub HasAttribute : String → String → List String → Type 0
HasAttribute k v [] = ⊥
HasAttribute k v (p ∷ ps) = (attribute p ≡ some (k, v)) ⊎ HasAttribute k v ps

-- One attribute is new, and is added.
added :
    (o : Option (String × String)) (attrs more : Dict String String)
    → add_attribute o attrs ≡ ok more
    → (j w : String) × (o ≡ some (j, w))
      × (Dict.lookup j attrs ≡ none)
      × (more ≡ Dict.insert j w attrs)
added none attrs more h = cc
added (some (j, w)) attrs more h = fresh (Dict.lookup j attrs) refl h
  where
    fresh :
        (old : Option String)
        → Dict.lookup j attrs ≡ old
        → add_fresh old j w attrs ≡ ok more
        → (j' w' : String) × (◌≡◌ {A = Option (String × String)} (some (j, w)) (some (j', w')))
          × (Dict.lookup j' attrs ≡ none)
          × (more ≡ Dict.insert j' w' attrs)
    fresh none e h = (j, w, refl, e, cc)
    fresh (some v) e h = cc

after_added :
    (o : Option (String × String)) (attrs more : Dict String String) (k v : String)
    → add_attribute o attrs ≡ ok more
    → (Dict.lookup k more ≡ some v) ↔ ((o ≡ some (k, v)) ⊎ (Dict.lookup k attrs ≡ some v))
after_added o attrs more k v h =
    let (j, w, given, fresh, m) = added o attrs more h in
    rw (m, given, lookup-insert k j w attrs)
      (elim (Bool-cases (k == j)) [
        | inl e ↦
            (let same = (==_iff k j).0 e in
              rw e (
                (λ p. inl (rw same (ap (λ x. some (j, x)) (unsome w v p)))),
                λ s. elim s [
                  | inl p ↦ (let q : w ≡ v = cc in ap some q)
                  | inr p ↦ (let q : Dict.lookup j attrs ≡ some v = rw (sym same) p in cc)
                ],
              ))
        | inr e ↦ rw e (
          (λ p. inr p),
          λ s. elim s [
            | inl p ↦ (let q : k ≡ j = cc in let r = (==_iff k j).1 q in cc)
            | inr p ↦ p
          ],
        )
      ])
  where
    unsome : (a b : String) → ◌≡◌ {A = Option String} (some a) (some b) → a ≡ b
    unsome a b p = cc

add_attributes-lookup :
    (parts : List String) (start attrs : Dict String String) (k v : String)
    → add_attributes parts start ≡ ok attrs
    → (Dict.lookup k attrs ≡ some v) ↔ ((Dict.lookup k start ≡ some v) ⊎ HasAttribute k v parts)
unfolding add_attributes
add_attributes-lookup [] start attrs k v h =
    let same : start ≡ attrs = cc in
    rw same ((λ p. inl p), λ s. elim s [ inl p ↦ p | inr n ↦ elim n [ ] ])
add_attributes-lookup (p ∷ ps) start attrs k v h =
    let (next, e, f) = >>=-eq-ok (add_attribute (attribute p) start) (add_attributes ps) h in
    let ih = add_attributes-lookup ps next attrs k v f in
    let step = after_added (attribute p) start next k v e in
    (
      λ q. elim (ih.0 q) [
        | inl r ↦ elim (step.0 r) [ inl a ↦ inr (inl a) | inr b ↦ inl b ]
        | inr r ↦ inr (inr r)
      ],
      λ s. elim s [
        | inl b ↦ ih.1 (inl (step.1 (inr b)))
        | inr t ↦ elim t [ inl a ↦ ih.1 (inl (step.1 (inl a))) | inr r ↦ ih.1 (inr r) ]
      ],
    )

-- Where the attributes of a message are accepted, a key has a value in the result exactly if one of
-- the parts between the commas is the attribute of that key with that value.
pub parse_attributes-lookup :
    (message : String) (attrs : Dict String String) (k v : String)
    → parse_attributes message ≡ ok attrs
    → (Dict.lookup k attrs ≡ some v) ↔ HasAttribute k v (split_all "," message)
parse_attributes-lookup message attrs k v h =
    let all = add_attributes-lookup (split_all "," message) [] attrs k v h in
    (
      λ p. elim (all.0 p) [ inl q ↦ (let r = lookup-nil {V = String} k in cc) | inr q ↦ q ],
      λ q. all.1 (inr q),
    )
