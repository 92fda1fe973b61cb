-- ===== src/Requests/Laws.antt =====
-- xmpp/client.go: every answer goes to the call that asked.
use Prim.Native.String.{◌++◌ as ◌<>◌}
use slixmpp_go.Common.{
  ℕ, ◌+◌, ◌%◌, ◌^◌, ◌<◌, ◌≡◌, refl, sym, ◌∙◌, true, Option, none, some, String, ◌==◌, string_eq,
  nat_eq, Bool-cases, inl, inr, arith,
}
use slixmpp_go.Common.Dict
use slixmpp_go.Common.Dict.{Dict, lookup-insert, lookup-erase, lookup-nil}
use slixmpp_go.Stanza.{Iq}
use slixmpp_go.Requests.{
  Requests, is_request, enter, begin, offer, offer_to, is_answer, deliver, leave, finish, Moves,
  begins, delivers, ends, Reaches, here, onward, no_requests,
}

-- Calls and pending ids are one to one, call numbers are not used twice, and what a channel holds
-- answers its call.
pub record IsValid (s : Requests) : Type 0 where
  pub called :
      (n : ℕ) (id : String) → Dict.lookup n s.calls ≡ some id → Dict.lookup id s.pending ≡ some n
  pub owned :
      (n : ℕ) (id : String) → Dict.lookup id s.pending ≡ some n → Dict.lookup n s.calls ≡ some id
  pub numbered : (n : ℕ) (id : String) → Dict.lookup n s.calls ≡ some id → n < s.next_call
  pub answers :
      (n : ℕ) (i : Iq) → Dict.lookup n s.buffered ≡ some i → Dict.lookup n s.calls ≡ some i.id
  pub kinds : (n : ℕ) (i : Iq) → Dict.lookup n s.buffered ≡ some i → is_answer i.kind ≡ true

pub no_requests-IsValid : IsValid no_requests
no_requests-IsValid = record {
  called = λ n id h. let e = lookup-nil {V = String} n in cc;
  owned = λ n id h. let e = lookup-nil {V = ℕ} id in cc;
  numbered = λ n id h.
      let e = lookup-nil {V = String} n in
      absurd (let f : ◌≡◌ {A = Option String} none (some id) = sym e ∙ h in cc);
  answers = λ n i h. let e = lookup-nil {V = Iq} n in cc;
  kinds = λ n i h. let e = lookup-nil {V = Iq} n in cc;
}

enter-IsValid :
    (id : String) (s : Requests)
    → IsValid s
    → (o : Option ℕ) → Dict.lookup id s.pending ≡ o
    → IsValid (enter o id s).1
enter-IsValid id s v (some m) e = v
enter-IsValid id s v none e = record {
  called = λ m j h. ground (
    arith,
    lookup-insert m s.next_call id s.calls,
    lookup-insert j id s.next_call s.pending,
    v.called m j,
    v.owned m j,
    v.numbered m j,
  );
  owned = λ m j h. ground (
    arith,
    lookup-insert m s.next_call id s.calls,
    lookup-insert j id s.next_call s.pending,
    v.called m j,
    v.owned m j,
    v.numbered m j,
  );
  numbered = λ m j h. ground (
    arith,
    lookup-insert m s.next_call id s.calls,
    lookup-insert j id s.next_call s.pending,
    v.called m j,
    v.owned m j,
    v.numbered m j,
  );
  answers = λ m i h.
      ground (arith, lookup-insert m s.next_call id s.calls, v.answers m i h, v.numbered m i.id);
  kinds = λ m i h. v.kinds m i h;
}

deliver-IsValid : (i : Iq) (s : Requests) → IsValid s → IsValid (deliver i s)
unfolding deliver
deliver-IsValid i s v = elim (Bool-cases (is_answer i.kind)) [
  | inl e ↦ rw e (by_call (Dict.lookup i.id s.pending) refl e)
  | inr e ↦ rw e v
]
  where
    by_buffer :
        (n : ℕ) (o : Option Iq)
        → Dict.lookup i.id s.pending ≡ some n
        → is_answer i.kind ≡ true
        → IsValid (offer o n i s)
    by_buffer n (some old) e k = v
    by_buffer n none e k = record {
      called = v.called;
      owned = v.owned;
      numbered = v.numbered;
      answers =
          λ m r h. ground (arith, lookup-insert m n i s.buffered, v.answers m r, v.owned n i.id e);
      kinds = λ m r h. ground (arith, lookup-insert m n i s.buffered, v.kinds m r);
    }

    by_call :
        (o : Option ℕ)
        → Dict.lookup i.id s.pending ≡ o
        → is_answer i.kind ≡ true
        → IsValid (offer_to o i s)
    by_call none e k = v
    by_call (some n) e k = by_buffer n (Dict.lookup n s.buffered) e k

finish-IsValid : (n : ℕ) (s : Requests) → IsValid s → IsValid (finish n s)
unfolding finish
finish-IsValid n s v = by_id (Dict.lookup n s.calls) refl
  where
    by_id : (o : Option String) → Dict.lookup n s.calls ≡ o → IsValid (leave o n s)
    by_id none e = v
    by_id (some id) e = record {
      called = λ m j h. ground (
        arith,
        lookup-erase m n s.calls,
        lookup-erase j id s.pending,
        v.called m j,
        v.called n id e,
      );
      owned = λ m j h. ground (
        arith,
        lookup-erase m n s.calls,
        lookup-erase j id s.pending,
        v.owned m j,
        v.called n id e,
      );
      numbered = λ m j h. ground (arith, lookup-erase m n s.calls, v.numbered m j);
      answers = λ m r h.
          ground (arith, lookup-erase m n s.calls, lookup-erase m n s.buffered, v.answers m r);
      kinds = λ m r h. ground (arith, lookup-erase m n s.buffered, v.kinds m r);
    }

begin-IsValid :
    (base36 : ℕ → String) (i : Iq) (s : Requests) → IsValid s → IsValid (begin base36 i s).1
unfolding begin
begin-IsValid base36 i s v = elim (Bool-cases (is_request i.kind)) [
  | inr e ↦ rw e v
  | inl e ↦ elim (Bool-cases (i.id == "")) [
    | inl g ↦
        let next = (s.next_id + 1) % 2 ^ 64 in
        let moved = record s { next_id = next } in
        let kept : IsValid moved = record {
          called = v.called;
          owned = v.owned;
          numbered = v.numbered;
          answers = v.answers;
          kinds = v.kinds;
        } in
        rw (e, g) (enter-IsValid ("go-" <> base36 next) moved kept _ refl)
    | inr g ↦ rw (e, g) (enter-IsValid i.id s v _ refl)
  ]
]

module _ (base36 : ℕ → String) where
  Moves-IsValid : {s t : Requests} → Moves base36 s t → IsValid s → IsValid t
  Moves-IsValid (begins s i) v = begin-IsValid base36 i s v
  Moves-IsValid (delivers s i) v = deliver-IsValid i s v
  Moves-IsValid (ends s n) v = finish-IsValid n s v

  -- However calls begin and end and IQs come in, from a client with no requests on: the ids of the
  -- calls that wait and the entries of `pending` are one to one, and what the channel of a call holds
  -- is a result or an error with the id of that call.
  pub Reaches-IsValid : {s t : Requests} → IsValid s → Reaches base36 s t → IsValid t
  Reaches-IsValid v here = v
  Reaches-IsValid v (onward r m) = Moves-IsValid m (Reaches-IsValid v r)

-- Liveness: in a valid state, an answer with the id of a call that waits leaves an IQ for this call.
pub deliver-buffered :
    (s : Requests) (n : ℕ) (i : Iq)
    → IsValid s
    → Dict.lookup n s.calls ≡ some i.id
    → is_answer i.kind ≡ true
    → (r : Iq) × (Dict.lookup n (deliver i s).buffered ≡ some r)
      × (r.id ≡ i.id)
      × (is_answer r.kind ≡ true)
unfolding deliver
deliver-buffered s n i v waits k =
    rw (k, v.called n i.id waits) (by_buffer (Dict.lookup n s.buffered) refl)
  where
    by_buffer :
        (o : Option Iq)
        → Dict.lookup n s.buffered ≡ o
        → (r : Iq) × (Dict.lookup n (offer o n i s).buffered ≡ some r)
          × (r.id ≡ i.id)
          × (is_answer r.kind ≡ true)
    by_buffer (some old) e = (
      old,
      e,
      (let a = v.answers n old e in
          let x : ◌≡◌ {A = Option String} (some old.id) (some i.id) = sym a ∙ waits in cc),
      v.kinds n old e,
    )
    by_buffer none e = (i, ground (arith, lookup-insert n n i s.buffered), refl, k)
