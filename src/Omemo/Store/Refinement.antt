-- ===== src/Omemo/Store/Refinement.antt =====
-- omemo/store.go: the store as it promises to behave, a function of addresses and devices, and that
-- the maps of texts behave so.
use Prim.Native.String.{◌++◌ as ◌<>◌}
use text.Mathlib.TextLemmas.{nil-append, cons-append}
use slixmpp_go.Common.{
  ℕ, ◌≡◌, refl, sym, ◌∙◌, ap, ap₂, Bool, true, false, ◌&&◌, Option, none, some, List, [], ◌∷◌,
  String, ◌==◌, ◌!=◌, string_eq, nat_eq, if◌then◌else◌, contains, Bool-cases, inl, inr, ==_iff,
}
use mathlib.Core.Path.{fun_ext}
use slixmpp_go.Common.Dict
use slixmpp_go.Common.Dict.{Dict, lookup-insert}
use slixmpp_go.Common.Text.{split_last, has_byte}
use slixmpp_go.Common.Text.Split.{split_last-append}
use slixmpp_go.Omemo.Store.{
  Address, Bundle, DeviceList, Store, StoreError, zero_device, bad_trust, is_trust,
  set_own_device_id, put_device_list, or_undecided, to_string, bundle, put_bundle, trust_of,
  set_trust, device_list,
}
use slixmpp_go.Omemo.Store.Devices.{unique_devices_lem}

-- What can be asked of a store.
pub record View : Type 0 where
  pub own : ℕ
  pub has_device : String → ℕ → Bool
  pub bundle_of : Address → Option Bundle
  pub level_of : Address → String

pub data Operation : Type 0 where
  own_id : ℕ → Operation
  devices_at : (now : ℕ) → DeviceList → Operation
  bundle_at : Address → Bundle → Operation
  trust_at : Address → String → Operation

abbrev pub same_address : Address → Address → Bool
same_address a b = a.jid == b.jid && a.device == b.device

-- A call on the view: a wrong one is refused and changes nothing, a right one changes the view at
-- one point.
abbrev pub view_step : Operation → View → Option StoreError × View
view_step (own_id id) v = if id == 0 then (some zero_device, v) else (none, record v { own = id })
view_step (devices_at now l) v = (
  none,
  record v {
    has_device =
        λ jid d. if jid == l.jid then d != 0 && contains l.devices d else v.has_device jid d;
  },
)
view_step (bundle_at a b) v =
    (none, record v { bundle_of = λ c. if same_address c a then some b else v.bundle_of c })
view_step (trust_at a level) v =
    if is_trust level
    then (none, record v { level_of = λ c. if same_address c a then level else v.level_of c })
    else (some (bad_trust level), v)

abbrev pub view_run : List Operation → View → List (Option StoreError) × View
view_run [] v = ([], v)
view_run (o ∷ os) v = let (e, w) = view_step o v in let (es, u) = view_run os w in (e ∷ es, u)

abbrev pub listed : Option DeviceList → ℕ → Bool
listed none d = false
listed (some l) d = contains l.devices d

module _ (print : ℕ → String) (parse : String → Option ℕ) where
  abbrev pub step : Operation → Store → Option StoreError × Store
  step (own_id id) s = set_own_device_id id s
  step (devices_at now l) s = (none, put_device_list now l s)
  step (bundle_at a b) s = (none, put_bundle print parse a b s)
  step (trust_at a level) s = set_trust print parse a level s

  abbrev pub run : List Operation → Store → List (Option StoreError) × Store
  run [] s = ([], s)
  run (o ∷ os) s = let (e, t) = step o s in let (es, u) = run os t in (e ∷ es, u)

  abbrev pub view : Store → View
  view s = record {
    own = s.own;
    has_device = λ jid d. listed (device_list jid s) d;
    bundle_of = λ a. bundle print parse a s;
    level_of = λ a. trust_of print parse a s;
  }

  -- Numbers are printed with no colon, and two numbers differently.
  module _ (plain : (n : ℕ) → has_byte ":" (print n) ≡ false)
      (injective : (m n : ℕ) → print m ≡ print n → m ≡ n) where
    split-to_string :
        (a : Address) → split_last ":" (to_string print parse a) ≡ some (a.jid, print a.device)
    unfolding to_string
    split-to_string a =
        ap (λ t. split_last ":" (a.jid <> t))
          (cons-append ":" "" (print a.device) ∙ ap (String.◌∷◌ ":") (nil-append (print a.device)))
        ∙ split_last-append ":" a.jid (print a.device) (plain a.device)

    to_string-injective :
        (a b : Address)
        → to_string print parse a ≡ to_string print parse b
        → (a.jid ≡ b.jid) × (a.device ≡ b.device)
    to_string-injective a b h =
        let e : ◌≡◌ {A = Option (String × String)} (some (a.jid, print a.device))
            (some (b.jid, print b.device)) =
          sym (split-to_string a) ∙ ap (split_last ":") h ∙ split-to_string b in
        let jids : a.jid ≡ b.jid = cc in
        let digits : print a.device ≡ print b.device = cc in
        (jids, injective a.device b.device digits)

    same-to_string :
        (a b : Address) → (to_string print parse a == to_string print parse b) ≡ same_address a b
    same-to_string a b = elim (Bool-cases (to_string print parse a == to_string print parse b)) [
      | inl e ↦
          (let (j, d) = to_string-injective a b ((==_iff _ (to_string print parse b)).0 e) in
            e ∙ sym (rw ((==_iff a.jid b.jid).1 j, (==_iff a.device b.device).1 d) refl))
      | inr e ↦ e ∙ sym (differ (a.jid == b.jid) (a.device == b.device) refl refl e)
    ]
      where
        differ :
            (x y : Bool)
            → (a.jid == b.jid) ≡ x
            → (a.device == b.device) ≡ y
            → (to_string print parse a == to_string print parse b) ≡ false
            → (x && y) ≡ false
        differ true true j d h =
            let same : to_string print parse a ≡ to_string print parse b =
              ap₂ (λ u v. to_string print parse (record { jid = u; device = v }))
                ((==_iff a.jid b.jid).0 j) ((==_iff a.device b.device).0 d) in
            let t = (==_iff (to_string print parse a) (to_string print parse b)).1 same in cc
        differ true false j d h = refl
        differ false y j d h = refl

    step-own_id :
        (id : ℕ) (s : Store) → (set_own_device_id id s).0 ≡ (view_step (own_id id) (view s)).0
    unfolding set_own_device_id
    step-own_id id s = elim (Bool-cases (id == 0)) [ inl e ↦ rw e refl | inr e ↦ rw e refl ]

    view-own_id :
        (id : ℕ) (s : Store) → view (set_own_device_id id s).1 ≡ (view_step (own_id id) (view s)).1
    unfolding set_own_device_id device_list bundle trust_of
    view-own_id id s = elim (Bool-cases (id == 0)) [ inl e ↦ rw e refl | inr e ↦ rw e refl ]

    listed-put :
        (now : ℕ) (l : DeviceList) (s : Store) (jid : String) (d : ℕ)
        → listed (device_list jid (put_device_list now l s)) d
          ≡ (if jid == l.jid then d != 0 && contains l.devices d else listed (device_list jid s) d)
    unfolding device_list put_device_list
    listed-put now l s jid d =
        ap (λ o. listed o d) (lookup-insert jid l.jid _ s.lists)
        ∙ elim (Bool-cases (jid == l.jid)) [
          | inl e ↦ rw e ((unique_devices_lem l.devices).1 d)
          | inr e ↦ rw e refl
        ]

    view-devices_at :
        (now : ℕ) (l : DeviceList) (s : Store)
        → view (put_device_list now l s) ≡ (view_step (devices_at now l) (view s)).1
    unfolding bundle trust_of put_device_list
    view-devices_at now l s =
        ap (λ f. record (view s) { has_device = f })
          (fun_ext (λ jid. fun_ext (λ d. listed-put now l s jid d)))

    view-bundle_at :
        (a : Address) (b : Bundle) (s : Store)
        → view (put_bundle print parse a b s) ≡ (view_step (bundle_at a b) (view s)).1
    unfolding bundle put_bundle trust_of device_list
    view-bundle_at a b s =
        ap (λ f. record (view s) { bundle_of = f })
          (fun_ext (λ c.
            lookup-insert (to_string print parse c) (to_string print parse a) b s.bundles
            ∙ ap (λ t. if t then some b else Dict.lookup (to_string print parse c) s.bundles)
                (same-to_string c a)))

    view-trust_at :
        (a : Address) (level : String) (s : Store)
        → ((set_trust print parse a level s).0 ≡ (view_step (trust_at a level) (view s)).0)
          × (view (set_trust print parse a level s).1 ≡ (view_step (trust_at a level) (view s)).1)
    unfolding bundle set_trust trust_of device_list
    view-trust_at a level s = elim (Bool-cases (is_trust level)) [
      | inl e ↦ rw e (refl, ap (λ f. record (view s) { level_of = f }) (fun_ext (λ c. set_level c)))
      | inr e ↦ rw e (refl, refl)
    ]
      where
        set_level :
            (c : Address)
            → or_undecided (
                Dict.lookup
                  (to_string print parse c)
                  (Dict.insert (to_string print parse a) level s.trust))
              ≡ (if same_address c a
                  then level
                  else or_undecided (Dict.lookup (to_string print parse c) s.trust))
        set_level c =
            ap or_undecided
              (lookup-insert (to_string print parse c) (to_string print parse a) level s.trust)
            ∙ undecided (to_string print parse c == to_string print parse a)
                (Dict.lookup (to_string print parse c) s.trust)
            ∙ ap
                (λ t.
                  if t then level else or_undecided (Dict.lookup (to_string print parse c) s.trust))
                (same-to_string c a)
          where
            undecided :
                (t : Bool) (o : Option String)
                → or_undecided (if t then some level else o) ≡ (if t then level else or_undecided o)
            undecided true o = refl
            undecided false o = refl

    view-step :
        (o : Operation) (s : Store)
        → ((step o s).0 ≡ (view_step o (view s)).0) × (view (step o s).1 ≡ (view_step o (view s)).1)
    view-step (own_id id) s = (step-own_id id s, view-own_id id s)
    view-step (devices_at now l) s = (refl, view-devices_at now l s)
    view-step (bundle_at a b) s = (refl, view-bundle_at a b s)
    view-step (trust_at a level) s = view-trust_at a level s

    -- Let device numbers be printed without a colon and differently. Any sequence of calls that set
    -- the own ID, a device list, a bundle or a trust level returns the errors, and leaves the answers,
    -- of the abstract store: a wrong call is refused and changes nothing, and a right one changes the
    -- answer for its own address or JID alone, where a device list answers for its devices but 0.
    pub run-refines :
        (os : List Operation) (s : Store)
        → ((run os s).0 ≡ (view_run os (view s)).0) × (view (run os s).1 ≡ (view_run os (view s)).1)
    run-refines [] s = (refl, refl)
    run-refines (o ∷ os) s =
        let (e, v) = view-step o s in
        let (es, w) = run-refines os (step o s).1 in
        (ap₂ ◌∷◌ e (es ∙ ap (λ u. (view_run os u).0) v), w ∙ ap (λ u. (view_run os u).1) v)
