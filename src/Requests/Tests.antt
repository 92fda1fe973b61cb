-- ===== src/Requests/Tests.antt =====
-- Two calls and an answer.
use slixmpp_go.Common.{◌≡◌, refl, ap, subst, true, none, some, [], ◌∷◌, string_eq, nat_eq}
use slixmpp_go.Common.Dict
use slixmpp_go.Common.Dict.{Dict}
use slixmpp_go.Common.Int.Strokes.{strokes}
use slixmpp_go.Common.Result.{ok, err}
use slixmpp_go.Stanza.{Iq}
use slixmpp_go.Requests.{
  Requests, no_requests, begin, deliver, is_answer, duplicate, Reaches, here, onward, begins,
  delivers,
}
use slixmpp_go.Requests.Laws.{IsValid, no_requests-IsValid, Reaches-IsValid, deliver-buffered}

abbrev ask : Iq
ask = record { from = ""; to = ""; id = "a"; kind = "get"; payloads = []; error = none }

abbrev reply : Iq
reply = record ask { kind = "result" }

abbrev waiting : Requests
waiting = record no_requests { next_call = 1; pending = ("a", 0) ∷ []; calls = (0, "a") ∷ [] }

begun : begin strokes ask no_requests ≡ (ok 0, waiting)
unfolding begin Dict.lookup Dict.insert string_eq
begun = refl

-- A second call with the same id is refused.
begin_again : begin strokes ask waiting ≡ (err (duplicate "a"), waiting)
unfolding begin Dict.lookup string_eq
begin_again = refl

first_call : Reaches strokes no_requests waiting
first_call =
    subst (λ r. Reaches strokes no_requests r) (ap (λ p. p.1) begun)
      (onward here (begins no_requests ask))

path : Reaches strokes no_requests (deliver reply waiting)
path = onward first_call (delivers waiting reply)

Reaches-IsValid_example : IsValid (deliver reply waiting)
Reaches-IsValid_example = Reaches-IsValid strokes no_requests-IsValid path

waits : Dict.lookup 0 waiting.calls ≡ some reply.id
unfolding Dict.lookup nat_eq
waits = refl

answers : is_answer reply.kind ≡ true
unfolding string_eq
answers = refl

waiting-IsValid : IsValid waiting
waiting-IsValid = Reaches-IsValid strokes no_requests-IsValid first_call

deliver-buffered_example :
    (r : Iq) × (Dict.lookup 0 (deliver reply waiting).buffered ≡ some r)
    × (r.id ≡ reply.id)
    × (is_answer r.kind ≡ true)
deliver-buffered_example = deliver-buffered waiting 0 reply waiting-IsValid waits answers
