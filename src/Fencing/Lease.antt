-- ===== src/Fencing/Lease.antt =====
-- fencing_demo.py: the lease coordinator, the two resources and `simulate`. Times are tenths of a
-- second. Tokens are counted from 1, and are natural numbers.
use staff_sre_platform_engin.Shared.{
  ℕ, suc, ℤ, pos, ◌+ℤ◌, String, Bool, true, false, Option, none, some, List, [], ◌∷◌, ltb, leb_ℤ,
  ltb_ℤ, if◌then◌else◌, Result, ok, err, ◌>>=◌, ◌>>◌, raise_if,
}

pub record Lease : Type 0 where
  pub owner : String
  pub token : ℕ
  pub issued_at : ℤ
  pub expires_at : ℤ

pub data FencingError : Type 0 where
  bad_lease_duration : FencingError
  still_held : (owner : String) → (until : ℤ) → FencingError

pub record LeaseCoordinator : Type 0 where
  pub lease_duration : ℤ
  pub next_token : ℕ
  pub active : Option Lease

unfoldable pub new_coordinator : ℤ → Result FencingError LeaseCoordinator
new_coordinator lease_duration = do
  raise_if (leb_ℤ lease_duration (pos 0)) bad_lease_duration
  ok (record { lease_duration = lease_duration; next_token = 1; active = none })

-- The active lease, where it has not expired.
unfoldable pub held_lease : Option Lease → ℤ → Option Lease
held_lease none now = none
held_lease (some l) now = if ltb_ℤ now l.expires_at then some l else none

abbrev pub new_lease : LeaseCoordinator → String → ℤ → Lease
new_lease c owner now = record {
  owner = owner;
  token = c.next_token;
  issued_at = now;
  expires_at = now +ℤ c.lease_duration;
}

unfoldable pub acquire :
    LeaseCoordinator → String → ℤ → Result FencingError (Lease × LeaseCoordinator)
acquire c owner now = elim (held_lease c.active now) [
  | some l ↦ err (still_held l.owner l.expires_at)
  | none ↦
      let lease = new_lease c owner now in
      ok (lease, record c { next_token = suc c.next_token; active = some lease })
]

pub data WriteReason : Type 0 where
  unchecked accepted_token : ℕ → WriteReason
  stale_token : (token highest : ℕ) → WriteReason

pub record FencedResource : Type 0 where
  pub value : Option String
  pub highest_token : ℕ

unfoldable pub write_fenced : FencedResource → String → ℕ → (Bool × WriteReason) × FencedResource
write_fenced r value token =
    if ltb token r.highest_token
    then ((false, stale_token token r.highest_token), r)
    else ((true, accepted_token token), record { value = some value; highest_token = token })

-- The unsafe resource has no state but its value.
unfoldable pub write_unsafe : Option String → String → ℕ → (Bool × WriteReason) × Option String
write_unsafe r value token = ((true, unchecked token), some value)

-- The `resource` of `simulate`.
pub data Resource : Type 0 where
  fenced : FencedResource → Resource
  unsafe : Option String → Resource

abbrev pub new_resource : Bool → Resource
new_resource true = fenced (record { value = none; highest_token = 0 })
new_resource false = unsafe none

abbrev pub value_of : Resource → Option String
value_of (fenced r) = r.value
value_of (unsafe r) = r

unfoldable pub write : Resource → String → ℕ → (Bool × WriteReason) × Resource
unfolding write_fenced write_unsafe
write (fenced r) value token = let (w, r') = write_fenced r value token in (w, fenced r')
write (unsafe r) value token = let (w, r') = write_unsafe r value token in (w, unsafe r')

pub data Outcome : Type 0 where
  valid_until : ℤ → Outcome
  written : Bool × WriteReason → Outcome
  no_renewal assumes_ownership : Outcome

pub record Event : Type 0 where
  pub time : ℤ
  pub actor : String
  pub action : String
  pub token : Option ℕ
  pub outcome : Outcome
  pub resource_value : Option String

abbrev pub event : ℤ → String → String → Lease → Outcome → Resource → Event
event time actor action lease outcome r = record {
  time = time;
  actor = actor;
  action = action;
  token = some lease.token;
  outcome = outcome;
  resource_value = value_of r;
}

-- The events of the two workers, with their leases.
unfoldable pub story : Resource → Lease → Lease → List Event
unfolding write
story r a b =
    let (first, r₁) = write r "A:initial-write" a.token in
    let (second, r₂) = write r₁ "B:authoritative-write" b.token in
    let (last, r₃) = write r₂ "A:stale-resumed-write" a.token in
    event (pos 0) "worker-A" "acquire lease" a (valid_until a.expires_at) r
    ∷ event (pos 10) "worker-A" "write A:initial-write" a (written first) r₁
    ∷ event (pos 20) "worker-A" "process pauses" a no_renewal r₁
    ∷ event (pos 60) "worker-B" "acquire lease" b (valid_until b.expires_at) r₁
    ∷ event (pos 65) "worker-B" "write B:authoritative-write" b (written second) r₂
    ∷ event (pos 70) "worker-A" "process resumes" a assumes_ownership r₂
    ∷ event (pos 71) "worker-A" "write A:stale-resumed-write" a (written last) r₃
    ∷ []

unfoldable pub simulate : (fenced : Bool) → ℤ → Result FencingError (List Event)
simulate is_fenced lease_duration = do
  coordinator ← new_coordinator lease_duration
  (lease_a, c) ← acquire coordinator "worker-A" (pos 0)
  (lease_b, _) ← acquire c "worker-B" (pos 60)
  ok (story (new_resource is_fenced) lease_a lease_b)
