-- ===== src/Muc/Presences.antt =====
-- xep/muc.go: what a presence does to a room, and how it ends a join.
use Prim.Native.String.{◌++◌ as ◌<>◌}
use slixmpp_go.Common.{
  ◌≡◌, refl, sym, subst, ◌∙◌, ap, Bool, true, false, not, ◌&&◌, Option, none, some, List, [], ◌∷◌,
  String, ◌==◌, ◌!=◌, string_eq, if◌then◌else◌, Bool-cases, inl, inr, ==_iff, arith,
}
use slixmpp_go.Common.Dict
use slixmpp_go.Common.Dict.{Dict, lookup-insert, lookup-insert_self, lookup-erase, lookup-nil}
use slixmpp_go.Common.Int.{Strconv}
use slixmpp_go.Jid.{bare_jid_string}
use slixmpp_go.Node.{Node}
use slixmpp_go.Stanza.{Presence}
use slixmpp_go.Muc.{
  Item, Status, Occupant, Room, Rooms, Effect, joined, occupant_event, event, split_occupant,
  parse_status,
}
use slixmpp_go.Muc.State.{
  nothing_to_join, new_room, join, join_as, status_or_none, room_or_new, is_unavailable, with_item,
  occupant_of, is_self, update_room, presence_effects, handle_presence,
}

-- A room under its JID, with its occupants under their nicks, each of them available.
pub record IsRoom (jid : String) (r : Room) : Type 0 where
  pub named : r.jid ≡ jid
  pub members :
      (n : String) (o : Occupant)
      → Dict.lookup n r.occupants ≡ some o
      → (o.nick ≡ n) × (o.room ≡ jid) × (o.available ≡ true)

abbrev pub IsValid : Rooms → Type 0
IsValid s = (jid : String) (r : Room) → Dict.lookup jid s.rooms ≡ some r → IsRoom jid r

new_room-IsRoom : (jid nick : String) → IsRoom jid (new_room jid nick)
new_room-IsRoom jid nick = record {
  named = refl;
  members = λ n o h.
      let e = lookup-nil {V = Occupant} n in
      absurd (let f : ◌≡◌ {A = Option Occupant} none (some o) = sym e ∙ h in cc);
}

-- An item renames the occupant of an unavailable presence only.
with_item-present :
    (p : Presence) (i : Option Item) (o : Occupant)
    → is_unavailable p ≡ false
    → ((with_item p i o).nick ≡ o.nick)
      × ((with_item p i o).room ≡ o.room)
      × ((with_item p i o).available ≡ o.available)
with_item-present p none o h = (refl, refl, refl)
with_item-present p (some i) o h = (keep (i.nick != "") (is_unavailable p) h, refl, refl)
  where
    keep : (b c : Bool) → c ≡ false → (if b && c then i.nick else o.nick) ≡ o.nick
    keep true c h = rw h refl
    keep false c h = refl

occupant_of-present :
    (p : Presence) (status : Status)
    → is_unavailable p ≡ false
    → ((occupant_of p status).nick ≡ (split_occupant p.from).1)
      × ((occupant_of p status).room ≡ (split_occupant p.from).0)
      × ((occupant_of p status).available ≡ true)
unfolding occupant_of
occupant_of-present p status h =
    let (x, y, z) = with_item-present p status.item _ h in (x, y, z ∙ ap not h)

room_or_new-IsRoom :
    (jid : String) (o : Option Room)
    → ((r : Room) → o ≡ some r → IsRoom jid r)
    → IsRoom jid (room_or_new jid o)
room_or_new-IsRoom jid none h = new_room-IsRoom jid ""
room_or_new-IsRoom jid (some r) h = h r refl

update_room-IsRoom :
    (p : Presence) (status : Status) (r : Room)
    → IsRoom (split_occupant p.from).0 r
    → IsRoom (split_occupant p.from).0 (update_room p status (split_occupant p.from).1 r)
unfolding update_room
update_room-IsRoom p status r v = elim (Bool-cases (is_unavailable p)) [
  | inl e ↦ rw e (record {
    named = v.named;
    members = λ n o h.
        v.members n o (ground (arith, lookup-erase n (split_occupant p.from).1 r.occupants));
  })
  | inr e ↦ rw e (record {
    named = v.named;
    members = λ n o h.
        entered n o (lookup-insert n (split_occupant p.from).1 (occupant_of p status) r.occupants) h
          e;
  })
]
  where
    entered :
        (n : String) (o : Occupant) {found : Option Occupant}
        → found ≡ (
            if n == (split_occupant p.from).1
            then some (occupant_of p status)
            else Dict.lookup n r.occupants)
        → found ≡ some o
        → is_unavailable p ≡ false
        → (o.nick ≡ n) × (o.room ≡ (split_occupant p.from).0) × (o.available ≡ true)
    entered n o f h e = elim (Bool-cases (n == (split_occupant p.from).1)) [
      | inl same ↦
          (let q = (==_iff n (split_occupant p.from).1).0 same in
            let x : some (occupant_of p status) ≡ some o = sym (rw same at f) ∙ h in
            let y : occupant_of p status ≡ o = cc in
            let (a, b, c) = occupant_of-present p status e in
            subst
              (λ (w : Occupant).
                (w.nick ≡ n) × (w.room ≡ (split_occupant p.from).0) × (w.available ≡ true))
              y (a ∙ sym q, b, c))
      | inr other ↦ v.members n o (sym (rw other at f) ∙ h)
    ]

occupants-update_room :
    (p : Presence) (status : Status) (old : Room) (n : String)
    → Dict.lookup n (update_room p status (split_occupant p.from).1 old).occupants ≡ (
        if n == (split_occupant p.from).1
        then (if is_unavailable p then none else some (occupant_of p status))
        else Dict.lookup n old.occupants)
unfolding update_room
occupants-update_room p status old n = elim (Bool-cases (is_unavailable p)) [
  | inl e ↦ rw e (lookup-erase n (split_occupant p.from).1 old.occupants)
  | inr e ↦ rw e (lookup-insert n (split_occupant p.from).1 (occupant_of p status) old.occupants)
]

-- The state behind a join that has begun.
join-started :
    (jid nick : String) (s : Rooms)
    → (join jid nick s).0 ≡ none
    → ((nick == "") ≡ false)
      × ((join jid nick s).1 ≡ record {
        rooms = Dict.insert (bare_jid_string jid) (new_room (bare_jid_string jid) nick) s.rooms;
        pending = Dict.insert (bare_jid_string jid <> "/" <> nick) tt s.pending;
      })
unfolding join
join-started jid nick s h = elim (Bool-cases (bare_jid_string jid == "")) [
  | inl e ↦ (let x : some nothing_to_join ≡ none = rw e at h in cc)
  | inr e ↦ elim (Bool-cases (nick == "")) [
    | inl f ↦ (let x : some nothing_to_join ≡ none = rw (e, f) at h in cc)
    | inr f ↦
        rw (e, f)
          (
            refl,
            by_pending (Dict.lookup (bare_jid_string jid <> "/" <> nick) s.pending)
                (rw (e, f) at h),
          )
  ]
]
  where
    by_pending :
        (o : Option (Unit {0}))
        → (join_as (bare_jid_string jid) nick (bare_jid_string jid <> "/" <> nick) o s).0 ≡ none
        → (join_as (bare_jid_string jid) nick (bare_jid_string jid <> "/" <> nick) o s).1 ≡ record {
          rooms = Dict.insert (bare_jid_string jid) (new_room (bare_jid_string jid) nick) s.rooms;
          pending = Dict.insert (bare_jid_string jid <> "/" <> nick) tt s.pending;
        }
    by_pending (some u) h = cc
    by_pending none h = refl

-- The client's own presence in a room that it joins with a nick.
update_room-joined :
    (p : Presence) (status : Status) (n room nick : String)
    → is_self status ≡ true
    → is_unavailable p ≡ false
    → (nick == "") ≡ false
    → ((update_room p status n (new_room room nick)).nick ≡ nick)
      × ((update_room p status n (new_room room nick)).joined ≡ true)
unfolding update_room
update_room-joined p status n room nick self present named = rw (present, self, named) (refl, refl)

presence_effects-joined :
    (p : Presence) (status : Status) (r : Room) (key : String)
    → is_self status ≡ true
    → is_unavailable p ≡ false
    → (p.kind == "error") ≡ false
    → (rest : List Effect) × (presence_effects p status r (some key) ≡ joined key r ∷ rest)
unfolding presence_effects
presence_effects-joined p status r key self present fine = (
  occupant_event "muc_occupant_online" (occupant_of p status) ∷ event "muc_presence" ∷ [],
  rw (fine, present, self) refl,
)

module _ (S : Strconv) where
  -- A presence keeps the rooms valid: every room stands under its JID, and holds its occupants under
  -- their nicks, each with the room's JID and available.
  pub handle_presence-IsValid :
      (p : Presence) (x : Node) (s : Rooms) → IsValid s → IsValid (handle_presence S p x s).0
  unfolding handle_presence
  handle_presence-IsValid p x s v jid r h =
      let room = (split_occupant p.from).0 in
      let status = status_or_none (parse_status S x) in
      let old = room_or_new room (Dict.lookup room s.rooms) in
      let new = update_room p status (split_occupant p.from).1 old in
      let f = lookup-insert jid room new s.rooms in
      let kept =
        update_room-IsRoom p status old
          (room_or_new-IsRoom room (Dict.lookup room s.rooms) (v room)) in
      elim (Bool-cases (jid == room)) [
        | inl same ↦
            (let q = (==_iff jid room).0 same in
              let y : some new ≡ some r = sym (rw same at f) ∙ h in
              let z : new ≡ r = cc in subst (λ j. IsRoom j r) (sym q) (subst (IsRoom room) z kept))
        | inr other ↦ v jid r (sym (rw other at f) ∙ h)
      ]

  -- Behind a presence its room is there, whether or not it was before, and in it the nick of the
  -- presence has no occupant if the presence is unavailable and the occupant that it shows otherwise,
  -- while every other nick has the occupant it had.
  pub occupants-handle_presence :
      (p : Presence) (x : Node) (s : Rooms) (n : String)
      → (r : Room) × (Dict.lookup (split_occupant p.from).0 (handle_presence S p x s).0.rooms
          ≡ some r)
        × (Dict.lookup n r.occupants ≡ (
            if n == (split_occupant p.from).1
            then (if is_unavailable p
                then none
                else some (occupant_of p (status_or_none (parse_status S x))))
            else Dict.lookup n
                (room_or_new
                  (split_occupant p.from).0
                  (Dict.lookup (split_occupant p.from).0 s.rooms)).occupants))
  unfolding handle_presence
  occupants-handle_presence p x s n =
      let room = (split_occupant p.from).0 in
      let status = status_or_none (parse_status S x) in
      let old = room_or_new room (Dict.lookup room s.rooms) in
      let new = update_room p status (split_occupant p.from).1 old in
      (new, lookup-insert_self room new s.rooms, occupants-update_room p status old n)

  -- After `join`, without an error, of a room and a nick, let a presence come from that room's JID and
  -- nick that is the client's own (its payload has the status 110), neither unavailable nor an error.
  -- Then the handler first ends the join with a room that is joined.
  pub handle_presence-join :
      (jid nick : String) (s : Rooms) (p : Presence) (x : Node)
      → (join jid nick s).0 ≡ none
      → split_occupant p.from ≡ (bare_jid_string jid, nick)
      → is_self (status_or_none (parse_status S x)) ≡ true
      → is_unavailable p ≡ false
      → (p.kind == "error") ≡ false
      → (r : Room) × (rest : List Effect) × ((handle_presence S p x (join jid nick s).1).1
          ≡ joined (bare_jid_string jid <> "/" <> nick) r ∷ rest)
        × (r.joined ≡ true)
  unfolding handle_presence update_room
  handle_presence-join jid nick s p x started from self present fine =
      let room = bare_jid_string jid in
      let full = room <> "/" <> nick in
      let status = status_or_none (parse_status S x) in
      let new = update_room p status nick (new_room room nick) in
      let (named, begun) = join-started jid nick s started in
      let (same_nick, is_joined) = update_room-joined p status nick room nick self present named in
      let (rest, effects) = presence_effects-joined p status new full self present fine in
      (
        new,
        rest,
        rw (begun, from)
            (rw
              (
                lookup-insert_self room (new_room room nick) s.rooms,
                same_nick,
                lookup-insert_self full tt s.pending,
              )
              effects),
        is_joined,
      )
