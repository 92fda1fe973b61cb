-- ===== src/Node/Build.antt =====
-- How the readers and writers of the protocols use xmpp/node.go: an element is made by a sequence
-- of `SetAttr` calls, some of them under a test, and of `AddChild` calls, and is read by a loop
-- over `Children`.
pub mod Laws
use slixmpp_go.Common.{
  Option, none, some, List, [], ◌∷◌, ◌++◌, map, String, ◌!=◌, string_eq, if◌then◌else◌,
}
use slixmpp_go.Common.Dict.{Dict}
use slixmpp_go.Common.Result.{Result, ok, err, ◌>>=◌}
use slixmpp_go.Node.{Node, new_node, new_text_node, set_attr, add_child}

-- `if v != "" { n.SetAttr(k, v) }`
abbrev pub given : String → Option String
given v = if v != "" then some v else none

-- A pointer that is not nil is written.
abbrev pub written {ℓ} : {A : Type ℓ} → (A → String) → Option A → Option String
written print none = none
written print (some a) = some (print a)

abbrev pub set_option : String → Option String → Node → Node
set_option k none n = n
set_option k (some v) n = set_attr k v n

-- Calls of `SetAttr` in order; none is a call that a test leaves out.
abbrev pub set_all : Dict String (Option String) → Node → Node
set_all [] n = n
set_all ((k, o) ∷ more) n = set_all more (set_option k o n)

-- Calls of `AddChild` in order.
abbrev pub add_all : List Node → Node → Node
add_all [] n = n
add_all (c ∷ cs) n = add_all cs (add_child c n)

abbrev pub element : String → String → Dict String (Option String) → List Node → Node
element namespace local set cs = add_all cs (set_all set (new_node namespace local))

-- `NewTextNode`, and then the calls of `SetAttr`.
abbrev pub text_element : String → String → Dict String (Option String) → String → Node
text_element namespace local set v = set_all set (new_text_node namespace local v)

-- `if v != "" { n.AddChild(NewTextNode(namespace, local, v)) }`
abbrev pub text_child : String → String → String → List Node
text_child namespace local v = if v != "" then new_text_node namespace local v ∷ [] else []

-- A text child for each value.
abbrev pub text_children : String → String → List String → List Node
text_children namespace local = map (new_text_node namespace local)

-- A child of which nothing is written where the pointer is nil.
abbrev pub option_child {ℓ} : {A : Type ℓ} → (A → Node) → Option A → List Node
option_child to_node none = []
option_child to_node (some a) = to_node a ∷ []

-- A loop over `Children` that changes a value, and one that may stop with an error.
abbrev pub each {ℓ} : {A : Type ℓ} → (Node → A → A) → List Node → A → A
each step [] a = a
each step (c ∷ cs) a = each step cs (step c a)

abbrev pub each_ok {ℓ κ} :
    {E : Type κ} {A : Type ℓ} → (Node → A → Result E A) → List Node → A → Result E A
each_ok step [] a = ok a
each_ok step (c ∷ cs) a = step c a >>= each_ok step cs
