-- ===== src/Rollout/Rounds.antt =====
-- The batches of one ring: `while remaining` ends, and schedules each cluster once within the limits.
use mathlib.Core.List.{Perm}
use mathlib.Core.List.Perm
use staff_sre_platform_engin.Shared.{
  ℕ, zero, suc, ◌≤◌, ◌<◌, String, List, [], ◌∷◌, ◌++◌, length, All, All-map, Pairwise, ok, ◌≡◌,
  refl, arith, subst,
}
use staff_sre_platform_engin.Rollout.Decide.{ClusterDecision}
use staff_sre_platform_engin.Rollout.Batches.{
  Batch, Selection, no_selection, choose_all, ring_batches,
}
use staff_sre_platform_engin.Rollout.Selections.{
  in_domain, IsWithin, choose_all-IsWithin, choose_all-perm, choose_all-length, choose_all-pos,
  choose_all-All,
}

nonempty-cons :
    (l : List ClusterDecision)
    → 0 < length l
    → (x : ClusterDecision) × (xs : List ClusterDecision) × (l ≡ x ∷ xs)
nonempty-cons [] h = absurd (omega arith)
nonempty-cons (x ∷ xs) h = (x, xs, refl)

-- The clusters of a plan, batch after batch.
unfoldable pub planned_members : List Batch → List ClusterDecision
planned_members [] = []
planned_members (b ∷ bs) = b.members ++ planned_members bs

-- A batch is not empty, keeps both limits, and has clusters of its ring only.
pub record IsBounded (size per_domain : ℕ) (b : Batch) : Type 0 where
  pub nonempty : 0 < length b.members
  pub bounded : length b.members ≤ size
  pub limited : (domain : String) → in_domain domain b.members ≤ per_domain
  pub of_ring : All (λ item. item.ring ≡ b.ring) b.members

-- What the loop returns for a ring.
pub record RingPlan (size per_domain : ℕ) (ring : String) (number : ℕ)
    (remaining : List ClusterDecision) (bs : List Batch) : Type 0 where
  pub bounded : All (IsBounded size per_domain) bs
  pub complete : Perm (planned_members bs) remaining
  pub numbered : All (λ b. (b.ring ≡ ring) × (number ≤ b.number)) bs
  pub ordered : Pairwise (λ a b. a.number < b.number) bs

module _ (size per_domain : ℕ) (some_size : 0 < size) (some_per_domain : 0 < per_domain)
    (ring : String) where
  abbrev OfRing : ClusterDecision → Type 0
  OfRing item = item.ring ≡ ring

  -- One batch in front of those of the clusters that it leaves.
  RingPlan-cons :
      (number : ℕ) (s : Selection) (x : ClusterDecision) (xs remaining : List ClusterDecision)
      (bs : List Batch)
      → s.selected ≡ x ∷ xs
      → IsWithin size per_domain s
      → All OfRing s.selected
      → Perm (s.selected ++ s.deferred_for_batch) remaining
      → RingPlan size per_domain ring (suc number) s.deferred_for_batch bs
      → RingPlan size per_domain ring number remaining
          (record { ring = ring; number = number; members = x ∷ xs } ∷ bs)
  unfolding planned_members
  RingPlan-cons number s x xs remaining bs e w of_ring perm later = record {
    bounded = (
      record {
        nonempty = omega arith;
        bounded = subst (λ l. length l ≤ size) e w.bounded;
        limited = λ domain.
            subst (λ l. in_domain domain l ≤ per_domain) e
              (omega (arith, w.counted domain, w.limited domain));
        of_ring = subst (All OfRing) e of_ring;
      },
      later.bounded,
    );
    complete =
        subst (λ (l : List ClusterDecision). Perm (l ++ planned_members bs) remaining) e
          (Perm.trans (Perm.append_left s.selected later.complete) perm);
    numbered = (
      (refl, omega arith),
      All-map _ (λ b. (b.ring ≡ ring) × (number ≤ b.number)) (λ b h. (h.0, omega (arith, h.1))) bs
          later.numbered,
    );
    ordered = (
      All-map _ (λ b. number < b.number) (λ b h. omega (arith, h.1)) bs later.numbered,
      later.ordered,
    );
  }

  start : IsWithin size per_domain no_selection
  start = record { bounded = omega arith; counted = λ _. refl; limited = λ _. omega arith }

  pub ring_batches-RingPlan :
      (fuel number : ℕ) (remaining : List ClusterDecision)
      → length remaining ≤ fuel
      → All OfRing remaining
      → (bs : List Batch) × (ring_batches size per_domain ring fuel number remaining ≡ ok bs)
        × RingPlan size per_domain ring number remaining bs
  unfolding ring_batches planned_members
  ring_batches-RingPlan fuel number [] enough of_ring =
      ([], refl, record { bounded = tt; complete = Perm.nil; numbered = tt; ordered = tt })
  ring_batches-RingPlan zero number (x ∷ xs) enough of_ring = absurd (omega arith)
  ring_batches-RingPlan (suc fuel) number (x ∷ xs) enough of_ring =
      let s = choose_all size per_domain (x ∷ xs) no_selection in
      let left = choose_all-length size per_domain (x ∷ xs) no_selection in
      let some = choose_all-pos size per_domain x xs some_size some_per_domain in
      let (y, ys, e) = nonempty-cons s.selected some in
      let both = choose_all-All OfRing size per_domain (x ∷ xs) no_selection of_ring (tt, tt) in
      let (bs, returned, later) =
        ring_batches-RingPlan fuel (suc number) s.deferred_for_batch
          (omega (arith, enough, left, some)) both.1 in
      (
        record { ring = ring; number = number; members = y ∷ ys } ∷ bs,
        rw (e, returned) refl,
        RingPlan-cons number s y ys (x ∷ xs) bs e
            (choose_all-IsWithin size per_domain (x ∷ xs) no_selection start) both.0
            (choose_all-perm size per_domain (x ∷ xs) no_selection) later,
      )
