-- ===== src/Fencing/Traces.antt =====
-- Every interleaving of acquisitions and writes of fencing_demo.py, and what it keeps.
use staff_sre_platform_engin.Shared.{
  ℕ, suc, ◌<◌, ◌≤◌, ℤ, pos, ◌<ℤ◌, ◌≤ℤ◌, +ℤ_parts, ltb→ge, String, Bool, true, false, Option, none,
  some, List, [], ◌∷◌, ◌≡◌, refl, sym, subst, arith, ok, err, ok-injective, ltb, All, All-map,
  Pairwise, Ensures-at, Ensures-bind, inl, inr, Bool-cases, raise_if, leb_ℤ,
}
use staff_sre_platform_engin.Fencing.Lease.{
  Lease, LeaseCoordinator, FencedResource, WriteReason, new_coordinator, held_lease, new_lease,
  acquire, write_fenced, bad_lease_duration, still_held,
}

-- The coordinator, the resource, and what was granted and accepted, the newest first.
pub record World : Type 0 where
  pub coordinator : LeaseCoordinator
  pub resource : FencedResource
  pub leases : List Lease
  pub accepted : List ℕ

abbrev pub first_world : LeaseCoordinator → World
first_world c = record {
  coordinator = c;
  resource = record { value = none; highest_token = 0 };
  leases = [];
  accepted = [];
}

-- Whoever was granted a lease may write with its token at any later time; nobody else has one.
pub data Holds (token : ℕ) : List Lease → Type 0 where
  newest : {l : Lease} {ls : List Lease} → l.token ≡ token → Holds token (l ∷ ls)
  older : {l : Lease} {ls : List Lease} → Holds token ls → Holds token (l ∷ ls)

abbrev pub log_write : (Bool × WriteReason) × FencedResource → ℕ → List ℕ → List ℕ
log_write ((true, _), _) token log = token ∷ log
log_write ((false, _), _) token log = log

pub data Reachable : World → Type 0 where
  start : (d : ℤ) {c : LeaseCoordinator} → new_coordinator d ≡ ok c → Reachable (first_world c)
  acquired :
      {w : World} {l : Lease} {c : LeaseCoordinator} (owner : String) (now : ℤ)
      → Reachable w
      → acquire w.coordinator owner now ≡ ok (l, c)
      → Reachable (record w { coordinator = c; leases = l ∷ w.leases })
  wrote :
      {w : World} (value : String) (token : ℕ)
      → Reachable w
      → Holds token w.leases
      → Reachable (record w {
        resource = (write_fenced w.resource value token).1;
        accepted = log_write (write_fenced w.resource value token) token w.accepted;
      })

-- Of two leases the newer has the greater token, and begins when the older has ended.
abbrev pub Succeeds : Lease → Lease → Type 0
Succeeds new old = (old.token < new.token) × (old.expires_at ≤ℤ new.issued_at)

abbrev pub Newest : Option Lease → List Lease → Type 0
Newest none [] = Unit
Newest (some l) (x ∷ xs) = l ≡ x
Newest none (_ ∷ _) = ⊥
Newest (some _) [] = ⊥

pub record IsFenced (w : World) : Type 0 where
  pub lasting : pos 0 <ℤ w.coordinator.lease_duration
  pub active : Newest w.coordinator.active w.leases
  pub below :
      All (λ l. (l.token < w.coordinator.next_token) × (l.issued_at ≤ℤ l.expires_at)) w.leases
  pub disjoint : Pairwise Succeeds w.leases
  pub highest : All (λ t. t ≤ w.resource.highest_token) w.accepted
  pub ordered : Pairwise (λ new old. old ≤ new) w.accepted

-- The former holder's lease has ended.
abbrev Ended : Option Lease → ℤ → Type 0
Ended none now = Unit
Ended (some l) now = l.expires_at ≤ℤ now

held_lease-Ended :
    (active : Option Lease) (now : ℤ) → held_lease active now ≡ none → Ended active now
unfolding held_lease
held_lease-Ended none now h = tt
held_lease-Ended (some l) now h = ground arith

abbrev granted : LeaseCoordinator → String → ℤ → Lease × LeaseCoordinator
granted c owner now = (
  new_lease c owner now,
  record c { next_token = suc c.next_token; active = some (new_lease c owner now) },
)

acquire-eq_granted :
    (c : LeaseCoordinator) (owner : String) (now : ℤ) {r : Lease × LeaseCoordinator}
    → acquire c owner now ≡ ok r
    → Ended c.active now × (r ≡ granted c owner now)
unfolding acquire
acquire-eq_granted c owner now h = after (held_lease c.active now) refl h
  where
    after :
        (o : Option Lease)
        → held_lease c.active now ≡ o
        → {r : Lease × LeaseCoordinator}
        → (elim o [
          | some l ↦ err (still_held l.owner l.expires_at)
          | none ↦ ok (granted c owner now)
        ])
          ≡ ok r
        → Ended c.active now × (r ≡ granted c owner now)
    after none e x = (held_lease-Ended c.active now e, sym (ok-injective x))
    after (some l) e x = absurd (cc x)

-- The new lease succeeds every lease before it.
new_lease-Succeeds :
    (c : LeaseCoordinator) (owner : String) (now : ℤ) (active : Option Lease) (ls : List Lease)
    → Newest active ls
    → Ended active now
    → All (λ l. (l.token < c.next_token) × (l.issued_at ≤ℤ l.expires_at)) ls
    → Pairwise Succeeds ls
    → All (Succeeds (new_lease c owner now)) ls
new_lease-Succeeds c owner now none [] h e b p = tt
new_lease-Succeeds c owner now none (x ∷ xs) h e b p = absurd h
new_lease-Succeeds c owner now (some l) [] h e b p = absurd h
new_lease-Succeeds c owner now (some l) (x ∷ xs) h e b p =
    let ends : x.expires_at ≤ℤ now = subst (λ y. y.expires_at ≤ℤ now) h e in
    (
      (b.0.0, ends),
      All-map (Succeeds x) (Succeeds (new_lease c owner now))
          (λ y s. (omega (arith, s, b.0), omega (arith, s, b.0, ends))) xs p.0,
    )

module _ (w : World) (f : IsFenced w) where
  acquired-IsFenced :
      (owner : String) (now : ℤ)
      → Ended w.coordinator.active now
      → IsFenced (record w {
        coordinator = (granted w.coordinator owner now).1;
        leases = new_lease w.coordinator owner now ∷ w.leases;
      })
  acquired-IsFenced owner now e = record {
    lasting = f.lasting;
    active = refl;
    below = (
      (omega arith, omega (arith, f.lasting, +ℤ_parts now w.coordinator.lease_duration)),
      All-map _ _ (λ l b. (omega (arith, b), b.1)) w.leases f.below,
    );
    disjoint = (
      new_lease-Succeeds w.coordinator owner now w.coordinator.active w.leases f.active e f.below
          f.disjoint,
      f.disjoint,
    );
    highest = f.highest;
    ordered = f.ordered;
  }

  wrote-IsFenced :
      (value : String) (token : ℕ)
      → IsFenced (record w {
        resource = (write_fenced w.resource value token).1;
        accepted = log_write (write_fenced w.resource value token) token w.accepted;
      })
  unfolding write_fenced
  wrote-IsFenced value token = elim (Bool-cases (ltb token w.resource.highest_token)) [
    | inl stale ↦ rw stale f
    | inr fresh ↦
        let above : (t : ℕ) → t ≤ w.resource.highest_token → t ≤ token =
          λ t h. omega (arith, h, ltb→ge token w.resource.highest_token fresh) in
        rw fresh (record {
          lasting = f.lasting;
          active = f.active;
          below = f.below;
          disjoint = f.disjoint;
          highest = (omega arith, All-map _ _ above w.accepted f.highest);
          ordered = (All-map _ _ above w.accepted f.highest, f.ordered);
        })
  ]

new_coordinator-ok :
    (d : ℤ) {c : LeaseCoordinator} → new_coordinator d ≡ ok c → IsFenced (first_world c)
unfolding new_coordinator
new_coordinator-ok d h =
    Ensures-at (λ c. IsFenced (first_world c)) (new_coordinator d)
      (Ensures-bind _ (raise_if (leb_ℤ d (pos 0)) bad_lease_duration) _ λ _ e. record {
        lasting = ground (arith, e);
        active = tt;
        below = tt;
        disjoint = tt;
        highest = tt;
        ordered = tt;
      })
      h

-- In every interleaving of acquisitions and of writes by holders of old and new leases: of two
-- leases the later has the greater token and begins when the earlier has ended, and the fenced
-- resource accepts tokens in an order in which none is smaller than one accepted before it.
pub Reachable-IsFenced : {w : World} → Reachable w → IsFenced w
Reachable-IsFenced (start d h) = new_coordinator-ok d h
Reachable-IsFenced (acquired {w = w} owner now r h) =
    let (ended, e) = acquire-eq_granted w.coordinator owner now h in
    subst (λ x. IsFenced (record w { coordinator = x.1; leases = x.0 ∷ w.leases })) (sym e)
      (acquired-IsFenced w (Reachable-IsFenced r) owner now ended)
Reachable-IsFenced (wrote {w = w} value token r h) =
    wrote-IsFenced w (Reachable-IsFenced r) value token
