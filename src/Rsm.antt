-- ===== src/Rsm.antt =====
-- xep/rsm.go: result sets of XEP-0059. `strconv.Itoa` and `strconv.Atoi` are parameters.
pub mod RoundTrip
mod Tests
use slixmpp_go.Common.{
  Bool, true, false, ◌||◌, Option, none, some, List, [], ◌∷◌, ◌++◌, String, ◌==◌, ◌!=◌, string_eq,
  if◌then◌else◌,
}
use slixmpp_go.Common.Int.{ℤ}
use slixmpp_go.Common.Result.{Result, ok, err, ◌>>=◌}
use slixmpp_go.Node.{
  Node, name, new_node, new_text_node, set_attr, add_child, attr_value, text, children,
}

abbrev pub rsm_ns : String
rsm_ns = "http://jabber.org/protocol/rsm"

-- The numbers are Go's `int`s.
pub record Rsm : Type 0 where
  pub after : String
  pub before : String
  pub first : String
  pub last : String
  pub before_set : Bool
  pub first_index : Option ℤ
  pub max : Option ℤ
  pub count : Option ℤ
  pub index : Option ℤ

pub data RsmError : Type 0 where
  wrong_element bad_number : RsmError

abbrev pub add_all : List Node → Node → Node
add_all [] n = n
add_all (c ∷ cs) n = add_all cs (add_child c n)

-- The children that `ToNode` adds for a text, and for a number.
abbrev pub text_child : String → String → List Node
text_child local v = if v != "" then new_text_node rsm_ns local v ∷ [] else []

abbrev pub before_child : Bool → String → List Node
before_child set v = if set then new_text_node rsm_ns "before" v ∷ [] else []

module _ (itoa : ℤ → String) where
  abbrev pub number_child : String → Option ℤ → List Node
  number_child local none = []
  number_child local (some v) = new_text_node rsm_ns local (itoa v) ∷ []

  abbrev pub first_child : String → Option ℤ → List Node
  first_child v none = if v != "" then new_text_node rsm_ns "first" v ∷ [] else []
  first_child v (some i) = set_attr "index" (itoa i) (new_text_node rsm_ns "first" v) ∷ []

  -- What `ToNode` adds, in order.
  abbrev pub set_children : Rsm → List Node
  set_children r =
      number_child "max" r.max
      ++ (text_child "after" r.after
          ++ (before_child r.before_set r.before
              ++ (number_child "index" r.index
                  ++ (first_child r.first r.first_index
                      ++ (text_child "last" r.last ++ number_child "count" r.count)))))

  -- `RSM.ToNode`
  unfoldable pub to_node : Rsm → Node
  to_node r = add_all (set_children r) (new_node rsm_ns "set")

abbrev pub no_rsm : Rsm
no_rsm = record {
  after = "";
  before = "";
  first = "";
  last = "";
  before_set = false;
  first_index = none;
  max = none;
  count = none;
  index = none;
}

module _ (atoi : String → Option ℤ) where
  abbrev pub read_int : String → (Option ℤ → Rsm) → Result RsmError Rsm
  read_int s put = with_number (atoi s) put
    where
      with_number : Option ℤ → (Option ℤ → Rsm) → Result RsmError Rsm
      with_number none put = err bad_number
      with_number (some v) put = ok (put (some v))

  -- The attribute `index` of the element `first`.
  abbrev pub read_index : Option String → Rsm → Result RsmError Rsm
  read_index none r = ok r
  read_index (some x) r = read_int x (λ v. record r { first_index = v })

  -- The body of the loop of `ParseRSM`.
  unfoldable pub read_child : Node → Rsm → Result RsmError Rsm
  read_child c r =
      let local = (name c).local in
      if local == "after"
      then ok (record r { after = text c })
      else if local == "before"
      then ok (record r { before_set = true; before = text c })
      else if local == "first"
      then read_index (attr_value "index" c) (record r { first = text c })
      else if local == "last"
      then ok (record r { last = text c })
      else if local == "max"
      then read_int (text c) (λ v. record r { max = v })
      else if local == "count"
      then read_int (text c) (λ v. record r { count = v })
      else if local == "index"
      then read_int (text c) (λ v. record r { index = v })
      else ok r

  abbrev pub read_children : List Node → Rsm → Result RsmError Rsm
  read_children [] r = ok r
  read_children (c ∷ cs) r = read_child c r >>= read_children cs

  -- `ParseRSM`
  unfoldable pub parse_rsm : Node → Result RsmError Rsm
  unfolding read_child
  parse_rsm n =
      if (name n).local != "set" || (name n).space != rsm_ns
      then err wrong_element
      else read_children (children n) no_rsm
