-- ===== src/Connect/Outcome.antt =====
-- xmpp/client.go: in what state `Connect` leaves the client.
use Prim.Native.String.{◌++◌ as ◌<>◌}
use slixmpp_go.Common.{
  ℕ, ◌+◌, ◌%◌, ◌^◌, ◌≡◌, refl, sym, subst, ◌∙◌, ap₂, Bool, true, false, ◌||◌, Option, none, some,
  if◌then◌else◌, String, ◌==◌, ◌!=◌, string_eq, Bool-cases, inl, inr,
}
use slixmpp_go.Common.Int.{ℤ}
use slixmpp_go.Common.Result.{Result, ok, err}
use slixmpp_go.Common.Text.{Unicode}
use slixmpp_go.Config.{Config}
use slixmpp_go.Jid.{Jid}
use slixmpp_go.Node.{Node}
use slixmpp_go.Stanza.{Presence}
use slixmpp_go.Transport.{Connection, StreamError, already_connected, stanza, write}
use slixmpp_go.Connect.{Link, Step, kept, on_link, on_connection, no_value}
use slixmpp_go.Connect.Negotiate.{
  Client, lifted, finish, close, Network, direct, close_on_error, send_presence, finish_connect,
  end_connect, with_connection, with_dialled, negotiate, connect, has_connection, resolve_address,
  handshake,
}

-- The client has no connection, and says so.
abbrev pub IsCleared : Link → Type 0
IsCleared l = (l.connected ≡ false) × (l.connection ≡ none)

-- The client is connected, or `Close` or `finish` has cleared it.
abbrev pub IsSettledAt : Bool → Link → Type 0
IsSettledAt true l = IsCleared l
IsSettledAt false l = l.connected ≡ true

abbrev pub IsSettled : Client → Type 0
IsSettled d = IsSettledAt (d.closing || d.finished) d.link

-- What a call of `Connect` leaves, by its result.
abbrev pub IsOutcome : Result StreamError (Unit {0}) × Client → Type 0
IsOutcome (ok u, d) = IsSettled d
IsOutcome (err e, d) = IsCleared d.link

-- What `readLoop` and the subscribers may do to a connected client: end it by `finish` or `Close`,
-- which clear it, or leave it connected.
abbrev pub IsSound : (Client → Client) → Type 0
IsSound meanwhile =
    (d : Client)
    → d.closing || d.finished ≡ false
    → d.link.connected ≡ true
    → IsSettled (meanwhile d)

-- A call on the connection leaves the flag.
connected-on_link :
    {A : Type 0} (act : Connection → Result StreamError (A × Connection)) (l : Link)
    → (on_link act l).1.connected ≡ l.connected
connected-on_link {A} act l = by_option l.connection
  where
    keep : (r : Result StreamError (A × Connection)) → (kept l r).1.connected ≡ l.connected
    keep (ok p) = refl
    keep (err e) = refl

    by_option : (o : Option Connection) → (on_connection act o l).1.connected ≡ l.connected
    by_option none = refl
    by_option (some k) = keep (act k)

-- It leaves a client that is cleared as it is, too.
connection-on_link :
    {A : Type 0} (act : Connection → Result StreamError (A × Connection)) (l : Link)
    → l.connection ≡ none
    → (on_link act l).1 ≡ l
connection-on_link act l h = rw h refl

module _ (U : Unicode) (atoi : String → Option ℤ) (base36 : ℕ → String) where
  -- `close` clears a client that is settled.
  close-IsCleared : (d : Client) → IsSettled d → IsCleared (close d).link
  unfolding close
  close-IsCleared d h = by_flags d.closing d.finished h
    where
      by_flags :
          (b c : Bool)
          → IsSettledAt (b || c) d.link
          → IsCleared
              (if b
                then record { link = d.link; closing = b; finished = c }
                else finish (record { link = d.link; closing = true; finished = c })).link
      by_flags true c h = h
      by_flags false true h = h
      by_flags false false h = (refl, refl)

  on_link-IsSettledAt :
      {A : Type 0} (act : Connection → Result StreamError (A × Connection)) (b : Bool) (l : Link)
      → IsSettledAt b l
      → IsSettledAt b (on_link act l).1
  on_link-IsSettledAt act true l h = subst (λ m. IsCleared m) (sym (connection-on_link act l h.1)) h
  on_link-IsSettledAt act false l h = connected-on_link act l ∙ h

  send_presence-IsSettledAt :
      (p : Presence) (b : Bool) (l : Link)
      → IsSettledAt b l
      → IsSettledAt b (send_presence U atoi base36 p l).1
  send_presence-IsSettledAt p b l h = elim (Bool-cases (p.id == "")) [
    | inl e ↦ rw e (
        let id = (l.next_id + 1) % 2 ^ 64 in
        let t = record p { id = "go-" <> base36 id } in
        on_link-IsSettledAt {A = Unit {0}} (λ k. no_value (write (stanza t) k)) b
          (record l { next_id = id }) (at_next_id b id h))
    | inr e ↦ rw e (on_link-IsSettledAt {A = Unit {0}} (λ k. no_value (write (stanza p) k)) b l h)
  ]
    where
      at_next_id : (b : Bool) (n : ℕ) → IsSettledAt b l → IsSettledAt b (record l { next_id = n })
      at_next_id true n h = h
      at_next_id false n h = h

  close_on_error-IsOutcome :
      (r : Result StreamError (Unit {0}) × Client)
      → IsSettled r.1
      → IsOutcome (close_on_error U atoi base36 r)
  close_on_error-IsOutcome (ok u, d) h = h
  close_on_error-IsOutcome (err e, d) h = close-IsCleared d h

  module _ (meanwhile : Client → Client) (sound : IsSound meanwhile) where
    finish_connect-IsOutcome :
        (c : Config) (first : Presence) (d : Client)
        → d.closing || d.finished ≡ false
        → IsOutcome (finish_connect U atoi base36 meanwhile c first d)
    unfolding finish_connect
    finish_connect-IsOutcome c first d running =
        let d' = meanwhile (record d { link = record d.link { connected = true } }) in
        let h = sound (record d { link = record d.link { connected = true } }) running refl in
        by_flag c.auto_presence d' h
      where
        by_flag :
            (b : Bool) (d' : Client)
            → IsSettled d'
            → IsOutcome (
                if◌then◌else◌ {A = Result StreamError (Unit {0}) × Client} b
                  (close_on_error U atoi base36 (lifted (send_presence U atoi base36 first) d'))
                  (ok tt, d'))
        by_flag true d' h =
            close_on_error-IsOutcome (lifted (send_presence U atoi base36 first) d')
              (send_presence-IsSettledAt first (d'.closing || d'.finished) d'.link h)
        by_flag false d' h = h

    with_dialled-IsOutcome :
        (steps : Step (Unit {0})) (c : Config) (first : Presence) (o : Option Connection)
        (d : Client)
        → d.closing || d.finished ≡ false
        → IsCleared d.link
        → IsOutcome (with_dialled U atoi base36 meanwhile steps c first o d)
    with_dialled-IsOutcome steps c first none d running h = h
    with_dialled-IsOutcome steps c first (some k) d running h = by_direct (direct c k)
      where
        by_end :
            (r : Result StreamError (Unit {0}) × Client)
            → r.1.closing || r.1.finished ≡ false
            → IsOutcome (end_connect U atoi base36 meanwhile c first r)
        by_end (ok u, d') running = finish_connect-IsOutcome c first d' running
        by_end (err e, d') running = (refl, refl)

        by_direct :
            (r : Result StreamError Connection)
            → IsOutcome (with_connection U atoi base36 meanwhile steps c first r d)
        by_direct (ok s) =
            by_end (lifted steps (record d { link = record d.link { connection = some s } }))
              running
        by_direct (err e) = h

  module _ (authenticate : Config → Jid → Node → Connection → Result StreamError Connection)
      (sha1_hex : String → String) (N : Network) where
    -- Let the client not be connected nor have a connection, let it never have been closed or
    -- ended, and let `readLoop` and the subscribers of its events only end it or leave it connected.
    -- `Connect` with an error leaves it not connected and with no connection, whichever step failed;
    -- without one it leaves it connected, unless it has been ended meanwhile: then it has no
    -- connection.
    pub connect-IsOutcome :
        (c : Config) (first : Presence) (d : Client)
        → IsSound N.meanwhile
        → d.closing || d.finished ≡ false
        → IsCleared d.link
        → IsOutcome (connect U atoi base36 authenticate sha1_hex N c first d)
    unfolding connect
    connect-IsOutcome c first d sound running h =
        let idle : (d.link.connected || has_connection d.link.connection) ≡ false =
          ap₂ (λ b o. b || has_connection o) h.0 h.1 in
        elim (Bool-cases (c.component_secret != "")) [
          | inl f ↦
              rw (idle, f)
                (with_dialled-IsOutcome N.meanwhile sound (handshake sha1_hex c) c first
                  (N.dial c.address) d running h)
          | inr f ↦
              rw (idle, f)
                (with_dialled-IsOutcome N.meanwhile sound (negotiate U atoi base36 authenticate c) c
                  first (N.dial (resolve_address N c d.link.jid)) d running h)
        ]

    -- A client that is connected, or has a connection, refuses to connect and stays as it is.
    pub connect-refused :
        (c : Config) (first : Presence) (d : Client)
        → d.link.connected || has_connection d.link.connection ≡ true
        → connect U atoi base36 authenticate sha1_hex N c first d ≡ (err already_connected, d)
    unfolding connect
    connect-refused c first d h = rw h refl
