-- ===== src/Connect/Secured.antt =====
-- xmpp/client.go: where TLS is required, no part of the authentication sees a connection without it.
use slixmpp_go.Common.{
  ℕ, zero, suc, ◌≡◌, refl, sym, ◌∙◌, ap, Bool, true, false, ◌||◌, Option, none, some, List, String,
  ◌!=◌, string_eq, if◌then◌else◌, Bool-cases, inl, inr,
}
use slixmpp_go.Common.Int.{ℤ}
use slixmpp_go.Common.Result.{Result, ok, err, Ensures, >>=-Ensures, Ensures-if, Ensures-Unit}
use slixmpp_go.Common.Text.{Unicode}
use slixmpp_go.Config.{Config}
use slixmpp_go.Jid.{Jid}
use slixmpp_go.Node.{Node, child, new_node}
use slixmpp_go.Stanza.{Presence}
use slixmpp_go.Transport.{
  Connection, StreamError, StreamToken, Sent, element, write, write_left, read_tokens, read_node,
  await_stream, open_stream, is_features, not_features, secure, start_tls_ns, opening,
}
use slixmpp_go.Connect.{
  Link, Step, ◌>>◌, continue, kept, on_connection, on_link, no_value, send, receive, set_features,
  open_features, proceed, is_proceed, start_tls,
}
use slixmpp_go.Connect.Negotiate.{
  Client, Network, negotiate_tls, is_there, direct, with_connection, with_dialled, authenticated,
  behind_features, open_session, negotiate, connect, has_connection, resolve_address, end_connect,
}

abbrev pub IsSecured : Option Connection → Type 0
IsSecured none = Unit
IsSecured (some k) = k.secured ≡ true

-- Where a step does not fail, the client's connection is secured behind it.
abbrev LeavesSecured {ℓ} : {A : Type ℓ} → Result StreamError A × Link → Type 0
LeavesSecured (ok a, l) = IsSecured l.connection
LeavesSecured (err e, l) = Unit

abbrev IsSecuredPair {ℓ} : {A : Type ℓ} → A × Connection → Type 0
IsSecuredPair p = p.1.secured ≡ true

continue-LeavesSecured {ℓ κ} :
    {A : Type ℓ} {B : Type κ} (r : Result StreamError A × Link) (next : A → Step B)
    → LeavesSecured r
    → ((a : A) (l : Link) → IsSecured l.connection → LeavesSecured (next a l))
    → LeavesSecured (continue r next)
continue-LeavesSecured (ok a, l) next h k = k a l h
continue-LeavesSecured (err e, l) next h k = tt

on_link-LeavesSecured {ℓ} :
    {A : Type ℓ} (act : Connection → Result StreamError (A × Connection))
    → ((k : Connection) → k.secured ≡ true → Ensures IsSecuredPair (act k))
    → (l : Link) → IsSecured l.connection
    → LeavesSecured (on_link act l)
on_link-LeavesSecured {A = A} act h l = on_option l.connection
  where
    keep :
        (r : Result StreamError (A × Connection))
        → Ensures IsSecuredPair r
        → LeavesSecured (kept l r)
    keep (ok (a, k)) g = g
    keep (err e) g = tt

    on_option : (o : Option Connection) → IsSecured o → LeavesSecured (on_connection act o l)
    on_option none s = tt
    on_option (some k) s = keep (act k) (h k s)

write-secured :
    (s : Sent) (k : Connection) → k.secured ≡ true → Ensures (λ k'. k'.secured ≡ true) (write s k)
unfolding write write_left
write-secured s k h = by_left k.writes_left
  where
    by_left : (n : ℕ) → Ensures (λ k'. k'.secured ≡ true) (write_left n s k)
    by_left zero = tt
    by_left (suc n) = h

no_value-secured :
    (r : Result StreamError Connection)
    → Ensures (λ k. k.secured ≡ true) r
    → Ensures IsSecuredPair (no_value r)
no_value-secured (ok k) h = h
no_value-secured (err e) h = tt

read_node-secured : (k : Connection) → k.secured ≡ true → Ensures IsSecuredPair (read_node k)
unfolding read_node
read_node-secured k h =
    >>=-Ensures (λ _. Unit {0}) IsSecuredPair (read_tokens k.incoming) _
      (Ensures-Unit (read_tokens k.incoming)) (λ r _. h)

open_stream-secured :
    (domain language : String) (k : Connection)
    → k.secured ≡ true
    → Ensures IsSecuredPair (open_stream domain language k)
unfolding open_stream
open_stream-secured domain language k h =
    >>=-Ensures (λ k'. k'.secured ≡ true) IsSecuredPair (write (opening domain language) k) _
      (write-secured (opening domain language) k h)
      (λ k' h'.
        >>=-Ensures (λ _. Unit {0}) IsSecuredPair (await_stream k'.incoming) _
          (Ensures-Unit (await_stream k'.incoming))
          (λ rest _.
            >>=-Ensures IsSecuredPair IsSecuredPair (read_node (record k' { incoming = rest })) _
              (read_node-secured (record k' { incoming = rest }) h')
              (λ p hp. Ensures-if IsSecuredPair (is_features p.0) (ok p) (err not_features) hp tt)))

open_features-secured :
    (c : Config) (l : Link) → IsSecured l.connection → LeavesSecured (open_features c l)
open_features-secured c l h =
    continue-LeavesSecured (on_link (open_stream l.jid.domain c.language) l) set_features
      (on_link-LeavesSecured (open_stream l.jid.domain c.language)
        (open_stream-secured l.jid.domain c.language) l h)
      (λ n l' h'. h')

continue-LeavesSecured_any {ℓ κ} :
    {A : Type ℓ} {B : Type κ} (r : Result StreamError A × Link) (next : A → Step B)
    → ((a : A) (l : Link) → LeavesSecured (next a l))
    → LeavesSecured (continue r next)
continue-LeavesSecured_any (ok a, l) next k = k a l
continue-LeavesSecured_any (err e, l) next k = tt

secure-secured : (k : Connection) → Ensures (λ k'. k'.secured ≡ true) (secure k)
secure-secured k = by_script k.handshake
  where
    by_script :
        (o : Option (List StreamToken))
        → Ensures (λ k'. k'.secured ≡ true) (secure (record k { handshake = o }))
    by_script none = tt
    by_script (some tokens) = refl

direct-secured :
    (b : Bool) (k : Connection)
    → Ensures (λ k'. b ≡ true → k'.secured ≡ true) (if b then secure k else ok k)
direct-secured false k = λ e. cc
direct-secured true k = keep (secure k) (secure-secured k)
  where
    keep :
        (r : Result StreamError Connection)
        → Ensures (λ k'. k'.secured ≡ true) r
        → Ensures (λ k'. true ≡ true → k'.secured ≡ true) r
    keep (ok k') h = λ _. h
    keep (err e) h = tt

-- Behind a handshake any connection is secured.
proceed-secured : (n : Node) (l : Link) → LeavesSecured (proceed n l)
proceed-secured n l = elim (Bool-cases (is_proceed n)) [
  | inl e ↦ rw e (by_option l.connection)
  | inr e ↦ rw e tt
]
  where
    keep :
        (r : Result StreamError Connection)
        → Ensures (λ k'. k'.secured ≡ true) r
        → LeavesSecured (kept l (no_value r))
    keep (ok k) h = h
    keep (err e) h = tt

    by_option :
        (o : Option Connection) → LeavesSecured (on_connection (λ k. no_value (secure k)) o l)
    by_option none = tt
    by_option (some k) = keep (secure k) (secure-secured k)

start_tls-secured : (l : Link) → LeavesSecured (start_tls l)
unfolding start_tls
start_tls-secured l =
    continue-LeavesSecured_any (send (element (new_node start_tls_ns "starttls")) l) _
      (λ u l'. continue-LeavesSecured_any (receive l') proceed proceed-secured)

negotiate_tls-secured :
    (c : Config) (features : Node) (l : Link)
    → c.require_tls ≡ true
    → (c.direct_tls ≡ true → IsSecured l.connection)
    → LeavesSecured (negotiate_tls c features l)
unfolding negotiate_tls
negotiate_tls-secured c features l required secured = elim (Bool-cases c.direct_tls) [
  | inl d ↦ rw d (secured d)
  | inr d ↦ elim (Bool-cases (is_there (child start_tls_ns "starttls" features))) [
    | inl s ↦
        rw (d, s)
          (continue-LeavesSecured (start_tls l) (λ _. open_features c) (start_tls-secured l)
            (λ u l' h. open_features-secured c l' h))
    | inr s ↦ rw (d, s, required) tt
  ]
]

-- Two continuations that agree behind a secured connection.
continue-agree {ℓ κ} :
    {A : Type ℓ} {B : Type κ} (r : Result StreamError A × Link) (f g : A → Step B)
    → LeavesSecured r
    → ((a : A) (l : Link) → IsSecured l.connection → f a l ≡ g a l)
    → continue r f ≡ continue r g
continue-agree (ok a, l) f g h k = k a l h
continue-agree (err e, l) f g h k = refl

continue-same {ℓ κ} :
    {A : Type ℓ} {B : Type κ} (r : Result StreamError A × Link) (f g : A → Step B)
    → ((a : A) (l : Link) → f a l ≡ g a l)
    → continue r f ≡ continue r g
continue-same (ok a, l) f g k = k a l
continue-same (err e, l) f g k = refl

module _ (U : Unicode) (atoi : String → Option ℤ) (base36 : ℕ → String)
    (auth auth' : Config → Jid → Node → Connection → Result StreamError Connection)
    (agree : (c : Config) (j : Jid) (features : Node) (k : Connection)
      → k.secured ≡ true
      → auth c j features k ≡ auth' c j features k) where
  authenticated-agree :
      (c : Config) (features : Node) (l : Link)
      → IsSecured l.connection
      → authenticated U atoi base36 auth c features l
        ≡ authenticated U atoi base36 auth' c features l
  authenticated-agree c features l h = by_option l.connection h
    where
      by_option :
          (o : Option Connection)
          → IsSecured o
          → on_connection (λ k. no_value (auth c l.jid features k)) o l
            ≡ on_connection (λ k. no_value (auth' c l.jid features k)) o l
      by_option none h = refl
      by_option (some k) h = ap (λ r. kept l (no_value r)) (agree c l.jid features k h)

  behind_features-agree :
      (c : Config) (features : Node) (l : Link)
      → c.require_tls ≡ true
      → (c.direct_tls ≡ true → IsSecured l.connection)
      → behind_features U atoi base36 auth c features l
        ≡ behind_features U atoi base36 auth' c features l
  behind_features-agree c features l required secured =
      continue-agree (negotiate_tls c features l)
        (λ f. authenticated U atoi base36 auth c f >> open_session U atoi base36 c)
        (λ f. authenticated U atoi base36 auth' c f >> open_session U atoi base36 c)
        (negotiate_tls-secured c features l required secured)
        (λ f l' h.
          ap (λ r. continue r (λ _. open_session U atoi base36 c)) (authenticated-agree c f l' h))

  negotiate-agree :
      (c : Config) (l : Link)
      → c.require_tls ≡ true
      → (c.direct_tls ≡ true → IsSecured l.connection)
      → negotiate U atoi base36 auth c l ≡ negotiate U atoi base36 auth' c l
  unfolding negotiate
  negotiate-agree c l required secured = elim (Bool-cases c.direct_tls) [
    | inl d ↦
        continue-agree (open_features c l) (behind_features U atoi base36 auth c)
          (behind_features U atoi base36 auth' c) (open_features-secured c l (secured d))
          (λ f l' h. behind_features-agree c f l' required (λ _. h))
    | inr d ↦
        continue-same (open_features c l) (behind_features U atoi base36 auth c)
          (behind_features U atoi base36 auth' c)
          (λ f l'.
            behind_features-agree c f l' required (λ e. let q : false ≡ true = sym d ∙ e in cc))
  ]

  module _ (sha1_hex : String → String) (N : Network) where
    dialled-agree :
        (c : Config) (first : Presence) (o : Option Connection) (d : Client)
        → c.require_tls ≡ true
        → with_dialled U atoi base36 N.meanwhile (negotiate U atoi base36 auth c) c first o d
          ≡ with_dialled U atoi base36 N.meanwhile (negotiate U atoi base36 auth' c) c first o d
    dialled-agree c first none d required = refl
    dialled-agree c first (some k) d required =
        by_result (direct c k) (direct-secured c.direct_tls k)
      where
        by_result :
            (r : Result StreamError Connection)
            → Ensures (λ k'. c.direct_tls ≡ true → k'.secured ≡ true) r
            → with_connection U atoi base36 N.meanwhile (negotiate U atoi base36 auth c) c first r d
              ≡ with_connection U atoi base36 N.meanwhile
                  (negotiate U atoi base36 auth' c)
                  c
                  first
                  r
                  d
        by_result (err e) h = refl
        by_result (ok k') h =
            ap
              (λ (p : Result StreamError (Unit {0}) × Link).
                end_connect U atoi base36 N.meanwhile c first (p.0, record d { link = p.1 }))
              (negotiate-agree c (record d.link { connection = some k' }) required h)

    -- Let TLS be required. Two ways to authenticate that do the same on every connection under TLS
    -- give the same `Connect`, from any state of the client and with any peer, resolver and dialer:
    -- what a way to authenticate would send or accept on a connection without TLS plays no part.
    pub connect-agree :
        (c : Config) (first : Presence) (d : Client)
        → c.require_tls ≡ true
        → connect U atoi base36 auth sha1_hex N c first d
          ≡ connect U atoi base36 auth' sha1_hex N c first d
    unfolding connect
    connect-agree c first d required =
        elim (Bool-cases (d.link.connected || has_connection d.link.connection)) [
          | inl e ↦ rw e refl
          | inr e ↦ elim (Bool-cases (c.component_secret != "")) [
            | inl f ↦ rw (e, f) refl
            | inr f ↦
                rw (e, f)
                  (dialled-agree c first (N.dial (resolve_address N c d.link.jid)) d required)
          ]
        ]
