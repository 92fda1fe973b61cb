-- ===== src/Node/Tokens/RoundTrip.antt =====
-- `UnmarshalXML` reads a compact node from its tokens, and `MarshalXML` writes those.
use slixmpp_go.Common.{
  ap, ℕ, zero, suc, ◌+◌, ◌<◌, ◌≡◌, ◌≢◌, refl, sym, ◌∙◌, Bool, true, false, List, [], ◌∷◌, ◌++◌,
  String, ◌==◌, string_eq, length, length-append, arith,
}
use mathlib.Core.List.{append_assoc}
use slixmpp_go.Common.Result.{ok}
use slixmpp_go.Node.{
  Node, Parts, node, nil, text_part, child_part, Attr, QName, append_text, append_child, add_text,
  add_child,
}
use slixmpp_go.Node.Tokens.{
  Token, start_element, char_data, end_element, marshal, marshal_parts, read_content, parse_node,
  same_name,
}

-- Every element has a local name, no text is empty, no two texts are neighbours, and a child part
-- has no text. The flag says that a text stands before the parts.
abbrev mutual
  pub IsCompact : Node → Type 0
  IsCompact (node q a ps) = (q.local ≢ "") × AreCompact false ps

  pub AreCompact : Bool → Parts → Type 0
  AreCompact after nil = Unit
  AreCompact after (text_part t ps) = (after ≡ false) × (t ≢ "") × AreCompact true ps
  AreCompact after (child_part t c ps) = (t ≡ "") × IsCompact c × AreCompact false ps

-- The parts before, then the parts behind.
append_parts : Parts → Parts → Parts
append_parts nil qs = qs
append_parts (text_part t ps) qs = text_part t (append_parts ps qs)
append_parts (child_part t c ps) qs = child_part t c (append_parts ps qs)

-- The last part is a text.
ends_in_text : Parts → Bool
ends_in_text nil = false
ends_in_text (text_part t nil) = true
ends_in_text (text_part t (text_part s ps)) = ends_in_text (text_part s ps)
ends_in_text (text_part t (child_part s c ps)) = ends_in_text (child_part s c ps)
ends_in_text (child_part t c ps) = ends_in_text ps

append_text-append_parts :
    (t : String) (ps qs : Parts)
    → ends_in_text ps ≡ false
    → append_parts (append_text t ps) qs ≡ append_parts ps (text_part t qs)
unfolding append_parts ends_in_text append_text
append_text-append_parts t nil qs h = refl
append_text-append_parts t (text_part s nil) qs h = cc
append_text-append_parts t (text_part s (text_part r ps)) qs h =
    ap (text_part s) (append_text-append_parts t (text_part r ps) qs h)
append_text-append_parts t (text_part s (child_part r c ps)) qs h =
    ap (text_part s) (append_text-append_parts t (child_part r c ps) qs h)
append_text-append_parts t (child_part s c ps) qs h =
    ap (child_part s c) (append_text-append_parts t ps qs h)

append_child-append_parts :
    (c : Node) (ps qs : Parts)
    → append_parts (append_child c ps) qs ≡ append_parts ps (child_part "" c qs)
unfolding append_parts append_child
append_child-append_parts c nil qs = refl
append_child-append_parts c (text_part s ps) qs =
    ap (text_part s) (append_child-append_parts c ps qs)
append_child-append_parts c (child_part s d ps) qs =
    ap (child_part s d) (append_child-append_parts c ps qs)

append_parts-nil : (ps : Parts) → append_parts ps nil ≡ ps
unfolding append_parts
append_parts-nil nil = refl
append_parts-nil (text_part t ps) = ap (text_part t) (append_parts-nil ps)
append_parts-nil (child_part t c ps) = ap (child_part t c) (append_parts-nil ps)

ends_in_text-append_text : (t : String) (ps : Parts) → ends_in_text (append_text t ps) ≡ true
unfolding ends_in_text append_text
ends_in_text-append_text t nil = refl
ends_in_text-append_text t (text_part s nil) = refl
ends_in_text-append_text t (text_part s (text_part r nil)) = refl
ends_in_text-append_text t (text_part s (text_part r (text_part o ps))) =
    ends_in_text-append_text t (text_part r (text_part o ps))
ends_in_text-append_text t (text_part s (text_part r (child_part o c ps))) =
    ends_in_text-append_text t (text_part r (child_part o c ps))
ends_in_text-append_text t (text_part s (child_part r c ps)) =
    ends_in_text-append_text t (child_part r c ps)
ends_in_text-append_text t (child_part s c ps) = ends_in_text-append_text t ps

ends_in_text-append_child : (c : Node) (ps : Parts) → ends_in_text (append_child c ps) ≡ false
unfolding ends_in_text append_child
ends_in_text-append_child c nil = refl
ends_in_text-append_child c (text_part s nil) = refl
ends_in_text-append_child c (text_part s (text_part r ps)) =
    ends_in_text-append_child c (text_part r ps)
ends_in_text-append_child c (text_part s (child_part r d ps)) =
    ends_in_text-append_child c (child_part r d ps)
ends_in_text-append_child c (child_part s d ps) = ends_in_text-append_child c ps

ne_nil-test : (s : String) → s ≢ "" → (s == "") ≡ false
ne_nil-test s h = ground arith

-- The tokens of a node, as one list.
unfoldable mutual
  pub tokens : Node → List Token
  tokens (node q a ps) = start_element q a ∷ (tokens_of ps ++ (end_element q ∷ []))

  pub tokens_of : Parts → List Token
  tokens_of nil = []
  tokens_of (text_part t ps) = char_data t ∷ tokens_of ps
  tokens_of (child_part t c ps) = tokens c ++ tokens_of ps

mutual
  unfolding marshal tokens

  pub marshal-tokens : (n : Node) → IsCompact n → marshal n ≡ ok (tokens n)
  marshal-tokens (node q a ps) h =
      rw (ne_nil-test q.local h.0) (rw (marshal_parts_tokens false ps h.1))

  marshal_parts_tokens :
      (after : Bool) (ps : Parts) → AreCompact after ps → marshal_parts ps ≡ ok (tokens_of ps)
  marshal_parts_tokens after nil h = refl
  marshal_parts_tokens after (text_part t ps) h =
      rw (marshal_parts_tokens true ps h.2) (rw (ne_nil-test t h.1))
  marshal_parts_tokens after (child_part t c ps) h =
      rw (marshal-tokens c h.1) (rw (marshal_parts_tokens false ps h.2))

same_name_refl : (q : QName) → same_name q q ≡ true
same_name_refl q = ground arith

read_text :
    (fuel : ℕ) (start q : QName) (a : List Attr) (acc : Parts) (t : String) (ts : List Token)
    → t ≢ ""
    → read_content (suc fuel) start (node q a acc) (char_data t ∷ ts)
      ≡ read_content fuel start (node q a (append_text t acc)) ts
unfolding read_content add_text
read_text fuel start q a acc t ts h = rw (ne_nil-test t h)

read_child :
    (fuel : ℕ) (start q : QName) (a : List Attr) (acc : Parts) (q' : QName) (a' : List Attr)
    (ts rest : List Token) (c : Node)
    → read_content fuel q' (node q' a' nil) ts ≡ ok (c, rest)
    → read_content (suc fuel) start (node q a acc) (start_element q' a' ∷ ts)
      ≡ read_content fuel start (node q a (append_child c acc)) rest
unfolding read_content add_child
read_child fuel start q a acc q' a' ts rest c e = rw e

read_end :
    (fuel : ℕ) (q : QName) (a : List Attr) (acc : Parts) (ts : List Token)
    → read_content (suc fuel) q (node q a acc) (end_element q ∷ ts) ≡ ok (node q a acc, ts)
unfolding read_content
read_end fuel q a acc ts = rw (same_name_refl q)

regroup :
    (xs : List Token) (e : Token) (ys zs : List Token)
    → ((xs ++ (e ∷ [])) ++ ys) ++ zs ≡ xs ++ (e ∷ (ys ++ zs))
regroup xs e ys zs = simp append_assoc

-- With fuel above the number of tokens, the loop reads the parts and stops behind them.
read_parts :
    (ps : Parts) (fuel : ℕ) (q : QName) (a : List Attr) (acc : Parts) (rest : List Token)
    → AreCompact (ends_in_text acc) ps
    → length (tokens_of ps) < fuel
    → read_content fuel q (node q a acc) (tokens_of ps ++ (end_element q ∷ rest))
      ≡ ok (node q a (append_parts acc ps), rest)
unfolding tokens ends_in_text append_parts
read_parts ps zero q a acc rest h lt = elim lt [ ]
read_parts nil (suc fuel) q a acc rest h lt =
    read_end fuel q a acc rest ∙ ap (λ ps. ok (node q a ps, rest)) (sym (append_parts-nil acc))
read_parts (text_part t ps) (suc fuel) q a acc rest h lt =
    read_text fuel q q a acc t _ h.1
    ∙ read_parts ps fuel q a (append_text t acc) rest (rw (ends_in_text-append_text t acc) h.2)
        (omega arith)
    ∙ ap (λ ps. ok (node q a ps, rest)) (append_text-append_parts t acc ps h.0)
read_parts (child_part t (node q' a' ps') ps) (suc fuel) q a acc rest h lt =
    let inner =
      read_parts ps' fuel q' a' nil (tokens_of ps ++ (end_element q ∷ rest)) h.1.1
        (omega (arith, child_length)) in
    ap (λ ts. read_content (suc fuel) q (node q a acc) (start_element q' a' ∷ ts))
      (regroup (tokens_of ps') (end_element q') (tokens_of ps) (end_element q ∷ rest))
    ∙ read_child fuel q q a acc q' a' _ _ (node q' a' ps') inner
    ∙ read_parts ps fuel q a (append_child (node q' a' ps') acc) rest
        (rw (ends_in_text-append_child (node q' a' ps') acc) h.2) (omega (arith, child_length))
    ∙ ap (λ ps. ok (node q a ps, rest)) (append_child-append_parts (node q' a' ps') acc ps)
    ∙ ap (λ s. ok (node q a (append_parts acc (child_part s (node q' a' ps') ps)), rest)) (sym h.0)
  where
    child_length :
        length (tokens_of (child_part t (node q' a' ps') ps))
        ≡ length (tokens_of ps') + length (tokens_of ps) + 2
    child_length = omega (
      arith,
      length-append (tokens_of ps' ++ (end_element q' ∷ [])) (tokens_of ps),
      length-append (tokens_of ps') (end_element q' ∷ []),
    )

pub parse_tokens :
    (n : Node) (rest : List Token) → IsCompact n → parse_node (tokens n ++ rest) ≡ ok n
unfolding parse_node tokens ends_in_text append_parts
parse_tokens (node q a ps) rest h = rw (append_assoc (tokens_of ps) (end_element q ∷ []) rest) (
    rw (
      read_parts ps (suc (length (tokens_of ps ++ (end_element q ∷ rest)))) q a nil rest h.1
        (omega (arith, length-append (tokens_of ps) (end_element q ∷ rest)))))
