-- ===== src/Node/Build/Laws.antt =====
-- What is read from an element that was made by `element`.
use slixmpp_go.Common.{
  ◌≡◌, refl, sym, ◌∙◌, ap, Option, none, some, List, [], ◌∷◌, ◌++◌, map, String, ◌==◌, ==-refl,
  ==_iff, string_eq, if◌then◌else◌, Bool-cases, inl, inr, All,
}
use mathlib.Core.List.{append_assoc, append-nil}
use slixmpp_go.Common.Dict.{Dict}
use slixmpp_go.Common.Result.{Result, ok, ◌>>=◌, >>=-eq-ok}
use slixmpp_go.Node.{
  Node, name, new_node, new_text_node, set_attr, add_child, attr_value, or_empty, children, child,
  child_text, text_or_empty, clone, text,
}
use slixmpp_go.Node.Tidy.{
  IsTidy, clone_tidy, add_child-IsTidy, set_attr_ns-IsTidy, new_text_node-IsTidy,
}
use slixmpp_go.Node.Laws.{
  attr_value_ns-set_attr_ns, attr_value_ns-add_child, attr_value_ns-new_node, name-set_attr_ns,
  name-add_child, child-first_named, first_named, children-add_child, children-set_attr_ns,
  children-new_node, text-set_attr_ns, text-new_text_node, name-new_text_node,
  attr_value_ns-new_text_node,
}
use slixmpp_go.Node.Build.{
  given, set_option, set_all, add_all, element, text_element, each, each_ok, text_child,
  text_children, option_child,
}

-- The last call that sets the attribute decides.
abbrev pub override : Option String → Option String → Option String
override none old = old
override (some v) old = some v

abbrev pub last_set : String → Dict String (Option String) → Option String → Option String
last_set k [] old = old
last_set k ((j, o) ∷ more) old = last_set k more (if j == k then override o old else old)

attr-set_option :
    (k j : String) (o : Option String) (n : Node)
    → attr_value k (set_option j o n)
      ≡ (if j == k then override o (attr_value k n) else attr_value k n)
attr-set_option k j none n = elim (Bool-cases (j == k)) [ inl e ↦ rw e refl | inr e ↦ rw e refl ]
attr-set_option k j (some v) n = attr_value_ns-set_attr_ns "" j v "" k n ∙ rw (==-refl empty) refl
  where
    empty : String
    empty = ""

attr-set_all :
    (k : String) (set : Dict String (Option String)) (n : Node)
    → attr_value k (set_all set n) ≡ last_set k set (attr_value k n)
attr-set_all k [] n = refl
attr-set_all k ((j, o) ∷ more) n =
    attr-set_all k more (set_option j o n) ∙ ap (last_set k more) (attr-set_option k j o n)

attr-add_all :
    (k : String) (cs : List Node) (n : Node) → attr_value k (add_all cs n) ≡ attr_value k n
attr-add_all k [] n = refl
attr-add_all k (c ∷ cs) n = attr-add_all k cs (add_child c n) ∙ attr_value_ns-add_child "" k c n

pub attr-element :
    (k namespace local : String) (set : Dict String (Option String)) (cs : List Node)
    → attr_value k (element namespace local set cs) ≡ last_set k set none
attr-element k namespace local set cs =
    attr-add_all k cs (set_all set (new_node namespace local))
    ∙ attr-set_all k set (new_node namespace local)
    ∙ ap (last_set k set) (attr_value_ns-new_node "" k namespace local)

pub override-none : (o : Option String) → override o none ≡ o
override-none none = refl
override-none (some v) = refl

pub or_empty-given : (v : String) → or_empty (given v) ≡ v
or_empty-given v = elim (Bool-cases (v == "")) [
  | inl e ↦ rw e (sym ((==_iff v "").0 e))
  | inr e ↦ rw e refl
]

-- An attribute that is set once, and only if it is not empty.
pub or_empty-override : (v : String) → or_empty (override (given v) none) ≡ v
or_empty-override v = ap or_empty (override-none (given v)) ∙ or_empty-given v

name-set_all : (set : Dict String (Option String)) (n : Node) → name (set_all set n) ≡ name n
name-set_all [] n = refl
name-set_all ((k, none) ∷ more) n = name-set_all more n
name-set_all ((k, some v) ∷ more) n = name-set_all more (set_attr k v n) ∙ name-set_attr_ns "" k v n

name-add_all : (cs : List Node) (n : Node) → name (add_all cs n) ≡ name n
name-add_all [] n = refl
name-add_all (c ∷ cs) n = name-add_all cs (add_child c n) ∙ name-add_child c n

pub name-element :
    (namespace local : String) (set : Dict String (Option String)) (cs : List Node)
    → name (element namespace local set cs) ≡ record { space = namespace; local = local }
name-element namespace local set cs =
    name-add_all cs (set_all set (new_node namespace local))
    ∙ name-set_all set (new_node namespace local)

pub children-add_all :
    (cs : List Node) (n : Node) → children (add_all cs n) ≡ children n ++ map clone cs
children-add_all [] n = sym (append-nil (children n))
children-add_all (c ∷ cs) n =
    children-add_all cs (add_child c n)
    ∙ ap (λ l. l ++ map clone cs) (children-add_child c n)
    ∙ append_assoc (children n) (clone c ∷ []) (map clone cs)

children-set_all :
    (set : Dict String (Option String)) (n : Node) → children (set_all set n) ≡ children n
children-set_all [] n = refl
children-set_all ((k, none) ∷ more) n = children-set_all more n
children-set_all ((k, some v) ∷ more) n =
    children-set_all more (set_attr k v n) ∙ children-set_attr_ns "" k v n

pub map-clone_tidy : (cs : List Node) → All IsTidy cs → map clone cs ≡ cs
map-clone_tidy [] h = refl
map-clone_tidy (c ∷ cs) h = cc (clone_tidy c h.0, map-clone_tidy cs h.1)

pub children-element :
    (namespace local : String) (set : Dict String (Option String)) (cs : List Node)
    → All IsTidy cs
    → children (element namespace local set cs) ≡ cs
children-element namespace local set cs h =
    children-add_all cs (set_all set (new_node namespace local))
    ∙ ap (λ l. l ++ map clone cs)
        (children-set_all set (new_node namespace local) ∙ children-new_node namespace local)
    ∙ map-clone_tidy cs h

set_all-IsTidy : (set : Dict String (Option String)) (n : Node) → IsTidy n → IsTidy (set_all set n)
set_all-IsTidy [] n h = h
set_all-IsTidy ((k, none) ∷ more) n h = set_all-IsTidy more n h
set_all-IsTidy ((k, some v) ∷ more) n h =
    set_all-IsTidy more (set_attr k v n) (set_attr_ns-IsTidy "" k v n h)

add_all-IsTidy : (cs : List Node) (n : Node) → All IsTidy cs → IsTidy n → IsTidy (add_all cs n)
add_all-IsTidy [] n h k = k
add_all-IsTidy (c ∷ cs) n h k = add_all-IsTidy cs (add_child c n) h.1 (add_child-IsTidy c n h.0 k)

pub element-IsTidy :
    (namespace local : String) (set : Dict String (Option String)) (cs : List Node)
    → All IsTidy cs
    → IsTidy (element namespace local set cs)
element-IsTidy namespace local set cs h =
    add_all-IsTidy cs _ h (set_all-IsTidy set (new_node namespace local) tt)

text-set_all : (set : Dict String (Option String)) (n : Node) → text (set_all set n) ≡ text n
text-set_all [] n = refl
text-set_all ((k, none) ∷ more) n = text-set_all more n
text-set_all ((k, some v) ∷ more) n = text-set_all more (set_attr k v n) ∙ text-set_attr_ns "" k v n

pub text-text_element :
    (namespace local : String) (set : Dict String (Option String)) (v : String)
    → text (text_element namespace local set v) ≡ v
text-text_element namespace local set v =
    text-set_all set (new_text_node namespace local v) ∙ text-new_text_node namespace local v

pub name-text_element :
    (namespace local : String) (set : Dict String (Option String)) (v : String)
    → name (text_element namespace local set v) ≡ record { space = namespace; local = local }
name-text_element namespace local set v =
    name-set_all set (new_text_node namespace local v) ∙ name-new_text_node namespace local v

pub attr-text_element :
    (k namespace local : String) (set : Dict String (Option String)) (v : String)
    → attr_value k (text_element namespace local set v) ≡ last_set k set none
attr-text_element k namespace local set v =
    attr-set_all k set (new_text_node namespace local v)
    ∙ ap (last_set k set) (attr_value_ns-new_text_node "" k namespace local v)

pub text_element-IsTidy :
    (namespace local : String) (set : Dict String (Option String)) (v : String)
    → IsTidy (text_element namespace local set v)
text_element-IsTidy namespace local set v =
    set_all-IsTidy set _ (new_text_node-IsTidy namespace local v)

-- `Child` and `ChildText` of an element look among the children that it was made of.
pub child-element :
    (ns l namespace local : String) (set : Dict String (Option String)) (cs : List Node)
    → All IsTidy cs
    → child ns l (element namespace local set cs) ≡ first_named ns l cs
child-element ns l namespace local set cs h =
    child-first_named ns l (element namespace local set cs)
    ∙ ap (first_named ns l) (children-element namespace local set cs h)

pub child_text-element :
    (ns l namespace local : String) (set : Dict String (Option String)) (cs : List Node)
    → All IsTidy cs
    → child_text ns l (element namespace local set cs) ≡ text_or_empty (first_named ns l cs)
unfolding child_text
child_text-element ns l namespace local set cs h =
    ap text_or_empty (child-element ns l namespace local set cs h)

pub text_child-IsTidy : (namespace local v : String) → All IsTidy (text_child namespace local v)
text_child-IsTidy namespace local v = elim (Bool-cases (v == "")) [
  | inl e ↦ rw e tt
  | inr e ↦ rw e (new_text_node-IsTidy namespace local v, tt)
]

pub text_children-IsTidy :
    (namespace local : String) (vs : List String) → All IsTidy (text_children namespace local vs)
text_children-IsTidy namespace local [] = tt
text_children-IsTidy namespace local (v ∷ vs) =
    (new_text_node-IsTidy namespace local v, text_children-IsTidy namespace local vs)

pub All-map {ℓ} :
    {A : Type ℓ} (to_node : A → Node)
    → ((a : A) → IsTidy (to_node a))
    → (items : List A) → All IsTidy (map to_node items)
All-map to_node h [] = tt
All-map to_node h (a ∷ more) = (h a, All-map to_node h more)

pub option_child-IsTidy {ℓ} :
    {A : Type ℓ} (to_node : A → Node)
    → ((a : A) → IsTidy (to_node a))
    → (o : Option A) → All IsTidy (option_child to_node o)
option_child-IsTidy to_node h none = tt
option_child-IsTidy to_node h (some a) = (h a, tt)

module _ {ℓ} {A : Type ℓ} (step : Node → A → A) where
  pub each-append :
      (xs ys : List Node) (a : A) → each step (xs ++ ys) a ≡ each step ys (each step xs a)
  each-append [] ys a = refl
  each-append (x ∷ xs) ys a = each-append xs ys (step x a)

  -- One part of the children, read to `b`, and the rest.
  pub each-part :
      (xs ys : List Node) (a b : A) → each step xs a ≡ b → each step (xs ++ ys) a ≡ each step ys b
  each-part xs ys a b h = each-append xs ys a ∙ ap (each step ys) h

module _ {ℓ κ} {E : Type κ} {A : Type ℓ} (step : Node → A → Result E A) where
  pub each_ok-part :
      (xs ys : List Node) (a b : A)
      → each_ok step xs a ≡ ok b
      → each_ok step (xs ++ ys) a ≡ each_ok step ys b
  each_ok-part [] ys a b h = let same : a ≡ b = cc in ap (each_ok step ys) same
  each_ok-part (x ∷ xs) ys a b h =
      let (t, e, f) = >>=-eq-ok (step x a) (each_ok step xs) h in rw e (each_ok-part xs ys t b f)

-- A loop over nodes that were made from values, each of which is put into the result.
module _ {ℓ κ μ} {A : Type ℓ} {B : Type κ} (P : B → Type μ) (to_node : B → Node)
    (put : List B → A → A) (nothing : (a : A) → put [] a ≡ a)
    (twice : (xs ys : List B) (a : A) → put ys (put xs a) ≡ put (xs ++ ys) a) where
  pub each-map :
      (step : Node → A → A)
      → ((b : B) (a : A) → P b → step (to_node b) a ≡ put (b ∷ []) a)
      → (bs : List B) (a : A) → All P bs
      → each step (map to_node bs) a ≡ put bs a
  each-map step one [] a h = sym (nothing a)
  each-map step one (b ∷ bs) a h =
      ap (each step (map to_node bs)) (one b a h.0)
      ∙ each-map step one bs (put (b ∷ []) a) h.1
      ∙ twice (b ∷ []) bs a

  pub each_ok-map {ν} :
      {E : Type ν} (step : Node → A → Result E A)
      → ((b : B) (a : A) → P b → step (to_node b) a ≡ ok (put (b ∷ []) a))
      → (bs : List B) (a : A) → All P bs
      → each_ok step (map to_node bs) a ≡ ok (put bs a)
  each_ok-map step one [] a h = ap ok (sym (nothing a))
  each_ok-map step one (b ∷ bs) a h =
      ap (λ r. r >>= each_ok step (map to_node bs)) (one b a h.0)
      ∙ each_ok-map step one bs (put (b ∷ []) a) h.1
      ∙ ap ok (twice (b ∷ []) bs a)
