-- ===== src/Omemo/Store/Devices.antt =====
-- omemo/store.go: `uniqueDevices`, and the range of the client's own device ID.
use slixmpp_go.Common.{
  ℕ, ◌^◌, ◌<◌, ◌≤◌, ◌≡◌, refl, ◌∙◌, Bool, true, false, not, ◌&&◌, Option, none, some, List, [], ◌∷◌,
  ◌==◌, ◌!=◌, nat_eq, contains, Bool-cases, inl, inr, ==_iff, arith,
}
use slixmpp_go.Omemo.Store.{Store, unique_from, unique_devices, fresh_id, keep_id, own_device_id}

-- No device is there twice.
abbrev pub IsDistinct : List ℕ → Type 0
IsDistinct [] = Unit
IsDistinct (d ∷ ds) = (contains ds d ≡ false) × IsDistinct ds

contains-unique_from :
    (seen vs : List ℕ) (d : ℕ)
    → contains (unique_from seen vs) d ≡ (d != 0 && (not (contains seen d) && contains vs d))
unfolding unique_from
contains-unique_from seen [] d = by_cases (d != 0) (contains seen d)
  where
    by_cases : (a b : Bool) → false ≡ (a && (not b && false))
    by_cases true true = refl
    by_cases true false = refl
    by_cases false b = refl
contains-unique_from seen (v ∷ vs) d = ground (
  arith,
  contains-unique_from seen vs d,
  contains-unique_from (v ∷ seen) vs d,
  ==_iff v 0,
  ==_iff d 0,
  ==_iff d v,
)

unique_from-IsDistinct : (seen vs : List ℕ) → IsDistinct (unique_from seen vs)
unfolding unique_from
unique_from-IsDistinct seen [] = tt
unique_from-IsDistinct seen (v ∷ vs) = elim (Bool-cases (v != 0 && not (contains seen v))) [
  | inl e ↦ rw e (
    contains-unique_from (v ∷ seen) vs v ∙ ground (arith, ==_iff v v),
    unique_from-IsDistinct (v ∷ seen) vs,
  )
  | inr e ↦ rw e (unique_from-IsDistinct seen vs)
]

-- `uniqueDevices` keeps exactly the devices of the list that are not 0, each once.
pub unique_devices_lem :
    (vs : List ℕ)
    → IsDistinct (unique_devices vs)
      × ((d : ℕ) → contains (unique_devices vs) d ≡ (d != 0 && contains vs d))
unique_devices_lem vs = (unique_from-IsDistinct [] vs, contains-unique_from [] vs)

fresh_id_bounds : (raw : ℕ) → (1 ≤ fresh_id raw) × (fresh_id raw < 2 ^ 31)
unfolding fresh_id
fresh_id_bounds raw = (ground arith, ground arith)

-- Where the source of randomness does not fail, and the ID that is set, if one is, is in range, the
-- client's own device ID lies between 1 and 2 ^ 31 - 1, and from then on every call returns the same
-- ID and changes nothing.
pub own_device_id_bounds :
    (raw : ℕ) (s : Store)
    → s.own < 2 ^ 31
    → (id : ℕ) × (t : Store) × (own_device_id (some raw) s ≡ ((none, id), t))
      × (1 ≤ id)
      × (id < 2 ^ 31)
      × ((random : Option ℕ) → own_device_id random t ≡ ((none, id), t))
unfolding own_device_id keep_id
own_device_id_bounds raw s h = elim (Bool-cases (s.own == 0)) [
  | inl e ↦
      (let (low, high) = fresh_id_bounds raw in
        (
          fresh_id raw,
          record s { own = fresh_id raw },
          rw e refl,
          low,
          high,
          λ random. (let set : (fresh_id raw == 0) ≡ false = ground arith in rw set refl),
        ))
  | inr e ↦ (s.own, s, rw e refl, ground arith, h, λ random. rw e refl)
]
