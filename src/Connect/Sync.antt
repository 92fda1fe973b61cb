-- ===== src/Connect/Sync.antt =====
-- xmpp/client.go: `syncIQ`. Its loop, which `Connect.await_answer` runs together with
-- `readTopLevelNode`, is the loop that reads a node and then goes on or returns.
use slixmpp_go.Common.{
  ◌≡◌, refl, subst, ==_iff, ◌∙◌, Option, none, some, List, [], ◌∷◌, String, ◌==◌, string_eq,
  Bool-cases, inl, inr,
}
use slixmpp_go.Common.Int.{ℤ}
use slixmpp_go.Common.Result.{Result, ok, err, ◌>>=◌}
use slixmpp_go.Common.Text.{Unicode}
use slixmpp_go.Node.{Node, name}
use slixmpp_go.Stanza.{Stanza, Iq, iq, message, presence, stanza_from_node}
use slixmpp_go.Transport.{
  StreamError, StreamToken, start_tag, end_tag, between, is_stream, read_tokens, closed, iq_failed,
  iq_unexpected,
}
use slixmpp_go.Connect.{answer, with_rest, check_answer, one_round, await_answer}

module _ (U : Unicode) (atoi : String → Option ℤ) where
  -- The loop of `syncIQ` reads a node, or fails as the reader fails; then a node that is the answer,
  -- or cannot be read, ends it, and after any other it goes on with the input that is left.
  pub await_answer-read_tokens :
      (id : String) (input : List StreamToken)
      → await_answer U atoi id input
        ≡ (read_tokens input >>= (λ r. one_round U atoi id r.0 r.1 (await_answer U atoi id r.1)))
  unfolding await_answer read_tokens
  await_answer-read_tokens id [] = refl
  await_answer-read_tokens id (start_tag q a none ∷ rest) = refl
  await_answer-read_tokens id (start_tag q a (some n) ∷ rest) = refl
  await_answer-read_tokens id (end_tag q ∷ rest) = elim (Bool-cases (is_stream q)) [
    | inl e ↦ rw e refl
    | inr e ↦ rw e (await_answer-read_tokens id rest)
  ]
  await_answer-read_tokens id (between ∷ rest) = await_answer-read_tokens id rest

  answer-result : (r i : Iq) → answer r ≡ ok i → (r ≡ i) × (i.kind ≡ "result")
  answer-result r i h = elim (Bool-cases (r.kind == "error")) [
    | inl e ↦ (let x : Result.err iq_failed ≡ ok i = rw e at h in cc)
    | inr e ↦ elim (Bool-cases (r.kind == "result")) [
      | inl f ↦
          (let x : Result.ok r ≡ ok i = rw (e, f) at h in
            let same : r ≡ i = cc in
            (same, subst (λ (j : Iq). j.kind ≡ "result") same ((==_iff r.kind "result").0 f)))
      | inr f ↦ (let x : Result.err iq_unexpected ≡ ok i = rw (e, f) at h in cc)
    ]
  ]

  one_round-result :
      (id : String) (n : Node) (input rest : List StreamToken) (i : Iq)
      (more : Result StreamError (Iq × List StreamToken))
      → (more ≡ ok (i, rest) → (i.id ≡ id) × (i.kind ≡ "result"))
      → one_round U atoi id n input more ≡ ok (i, rest)
      → (i.id ≡ id) × (i.kind ≡ "result")
  one_round-result id n input rest i more ih h = elim (Bool-cases ((name n).local == "iq")) [
    | inl e ↦ by_stanza (stanza_from_node U atoi n) (rw e at h)
    | inr e ↦ ih (rw e at h)
  ]
    where
      by_answer :
          (r : Iq) (a : Result StreamError Iq)
          → answer r ≡ a
          → r.id ≡ id
          → with_rest input a ≡ ok (i, rest)
          → (i.id ≡ id) × (i.kind ≡ "result")
      by_answer r (ok j) e same h =
          let (x, y) = answer-result r j e in
          let z : j ≡ i = cc in
          (subst (λ (k : Iq). k.id ≡ id) (x ∙ z) same, subst (λ (k : Iq). k.kind ≡ "result") z y)
      by_answer r (err x) e same h = cc

      by_stanza :
          (s : Option Stanza)
          → check_answer U atoi id s input more ≡ ok (i, rest)
          → (i.id ≡ id) × (i.kind ≡ "result")
      by_stanza none h = cc
      by_stanza (some (message m)) h = cc
      by_stanza (some (presence p)) h = cc
      by_stanza (some (iq r)) h = elim (Bool-cases (r.id == id)) [
        | inl e ↦ by_answer r (answer r) refl ((==_iff r.id id).0 e) (rw e at h)
        | inr e ↦ ih (rw e at h)
      ]

  -- The IQ that `syncIQ` returns is a result that carries the id of the request.
  pub await_answer-result :
      (id : String) (input rest : List StreamToken) (i : Iq)
      → await_answer U atoi id input ≡ ok (i, rest)
      → (i.id ≡ id) × (i.kind ≡ "result")
  unfolding await_answer
  await_answer-result id [] rest i h = cc
  await_answer-result id (start_tag q a none ∷ more) rest i h = cc
  await_answer-result id (start_tag q a (some n) ∷ more) rest i h =
      one_round-result id n more rest i (await_answer U atoi id more)
        (await_answer-result id more rest i) h
  await_answer-result id (end_tag q ∷ more) rest i h = elim (Bool-cases (is_stream q)) [
    | inl e ↦
        (let x : ◌≡◌ {A = Result StreamError (Iq × List StreamToken)} (err closed) (ok (i, rest)) =
            rw e at h in
          cc)
    | inr e ↦ await_answer-result id more rest i (rw e at h)
  ]
  await_answer-result id (between ∷ more) rest i h = await_answer-result id more rest i h
