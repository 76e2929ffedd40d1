-- ===== src/Rollout/Complete.antt =====
-- All rings: the batches schedule each eligible cluster once, ring after ring.
use mathlib.Core.List.{Perm, perm_middle, append_assoc}
use mathlib.Core.List.Perm
use staff_sre_platform_engin.Shared.{
  ℕ, ◌<◌, String, true, false, List, [], ◌∷◌, ◌++◌, length, filter, All, All-map, All-append,
  Pairwise, Pairwise-append, Pairwise-map, ok, ◌≡◌, ◌⊎◌, inl, inr, refl, arith, subst, sym, ◌∙◌,
  filter-All, sort_by-All, contains, all_distinct, str_eq, eq_iff, Bool-cases, sort_by,
  sort_by-perm,
}
use staff_sre_platform_engin.Rollout.Decide.{ClusterDecision}
use staff_sre_platform_engin.Rollout.Policy.{position}
use staff_sre_platform_engin.Rollout.Batches.{Batch, by_ring, item_before, create_batches}
use staff_sre_platform_engin.Rollout.Rounds.{
  planned_members, IsBounded, RingPlan, ring_batches-RingPlan,
}

-- A batch stands before another: it is of an earlier ring, or has a smaller number in the same.
abbrev pub ComesBefore : List String → Batch → Batch → Type 0
ComesBefore rings a b =
    (position rings a.ring < position rings b.ring) ⊎ ((a.ring ≡ b.ring) × (a.number < b.number))

pub record IsSchedule (rings : List String) (size per_domain : ℕ) (clusters : List ClusterDecision)
    (bs : List Batch) : Type 0 where
  pub bounded : All (IsBounded size per_domain) bs
  pub complete : Perm (planned_members bs) clusters
  pub known : All (λ b. contains rings b.ring ≡ true) bs
  pub ordered : Pairwise (ComesBefore rings) bs

abbrev pub in_rings : List String → List ClusterDecision → List ClusterDecision
in_rings rings = filter (λ item. contains rings item.ring)

planned_members-append :
    (xs ys : List Batch) → planned_members (xs ++ ys) ≡ planned_members xs ++ planned_members ys
unfolding planned_members
planned_members-append [] ys = refl
planned_members-append (x ∷ xs) ys = rw (planned_members-append xs ys, append_assoc) refl

-- The clusters of a ring, and those of the rings after it.
in_rings-perm :
    (ring : String) (rings : List String) (l : List ClusterDecision)
    → contains rings ring ≡ false
    → Perm (by_ring ring l ++ in_rings rings l) (in_rings (ring ∷ rings) l)
in_rings-perm ring rings [] h = Perm.nil
in_rings-perm ring rings (x ∷ l) h = elim (Bool-cases (str_eq ring x.ring)) [
  | inl e ↦
      let later = subst (λ r. contains rings r ≡ false) ((eq_iff ring x.ring).0 e) h in
      rw (e, later) (Perm.cons x (in_rings-perm ring rings l h))
  | inr e ↦ elim (Bool-cases (contains rings x.ring)) [
    | inl c ↦
        rw (e, c)
          (Perm.trans (perm_middle (by_ring ring l) (in_rings rings l))
            (Perm.cons x (in_rings-perm ring rings l h)))
    | inr c ↦ rw (e, c) (in_rings-perm ring rings l h)
  ]
]

other :
    (ring : String) (rings : List String) (r : String)
    → contains rings ring ≡ false
    → contains rings r ≡ true
    → str_eq ring r ≡ false
other ring rings r fresh known = elim (Bool-cases (str_eq ring r)) [
  | inl e ↦ absurd (cc (subst (λ r. contains rings r ≡ false) ((eq_iff ring r).0 e) fresh, known))
  | inr e ↦ e
]

in_no_rings : (l : List ClusterDecision) → Perm [] (in_rings [] l)
in_no_rings [] = Perm.nil
in_no_rings (x ∷ l) = in_no_rings l

distinct_rest :
    (ring : String) (rings : List String)
    → all_distinct (ring ∷ rings) ≡ true
    → (contains rings ring ≡ false) × (all_distinct rings ≡ true)
distinct_rest ring rings h = (ground (arith, h), ground (arith, h))

module _ (size per_domain : ℕ) where
  -- The batches of a ring in front of those of the rings after it.
  IsSchedule-append :
      (ring : String) (rings : List String) (l remaining : List ClusterDecision)
      (first later : List Batch)
      → contains rings ring ≡ false
      → Perm remaining (by_ring ring l)
      → RingPlan size per_domain ring 1 remaining first
      → IsSchedule rings size per_domain (in_rings rings l) later
      → IsSchedule (ring ∷ rings) size per_domain (in_rings (ring ∷ rings) l) (first ++ later)
  unfolding position
  IsSchedule-append ring rings l remaining first later fresh perm f s = record {
    bounded = All-append _ first later f.bounded s.bounded;
    complete = rw (planned_members-append first later) (
        Perm.trans (Perm.append (Perm.trans f.complete perm) s.complete)
          (in_rings-perm ring rings l fresh));
    known =
        All-append _ first later
          (All-map _ Known (λ b h. ground (arith, eq_iff ring b.ring, h.0)) first f.numbered)
          (All-map _ Known (λ b h. ground (arith, h)) later s.known);
    ordered =
        Pairwise-append Before first later
          (Pairwise-map _ _ Before (λ x y p q r. inr (p.0 ∙ sym q.0, r)) first f.numbered f.ordered)
          (Pairwise-map _ _ Before (λ x y p q r. shift x y p q r) later s.known s.ordered)
          (All-map _ (λ x. All (Before x) later)
            (λ x p.
              All-map _ (Before x)
                (λ y q.
                  inl (ground (arith, eq_iff ring x.ring, p.0, other ring rings y.ring fresh q)))
                later s.known)
            first f.numbered);
  }
    where
      Known : Batch → Type 0
      Known b = contains (ring ∷ rings) b.ring ≡ true

      Before : Batch → Batch → Type 0
      Before = ComesBefore (ring ∷ rings)

      shift :
          (x y : Batch)
          → contains rings x.ring ≡ true
          → contains rings y.ring ≡ true
          → ComesBefore rings x y
          → Before x y
      shift x y p q (inl earlier) = inl (
          ground (arith, earlier, other ring rings x.ring fresh p, other ring rings y.ring fresh q))
      shift x y p q (inr same) = inr same

  of_ring :
      (ring : String) (l : List ClusterDecision)
      → All (λ item. item.ring ≡ ring) (sort_by item_before (by_ring ring l))
  of_ring ring l = sort_by-All item_before _ (by_ring ring l) (
      All-map (λ item. str_eq ring item.ring ≡ true) (λ item. item.ring ≡ ring)
        (λ item h. sym ((eq_iff ring item.ring).0 h)) (by_ring ring l)
        (filter-All (λ item. str_eq ring item.ring) l))

  pub create_batches-IsSchedule :
      (rings : List String) (l : List ClusterDecision)
      → 0 < size
      → 0 < per_domain
      → all_distinct rings ≡ true
      → (bs : List Batch) × (create_batches l rings size per_domain ≡ ok bs)
        × IsSchedule rings size per_domain (in_rings rings l) bs
  unfolding create_batches planned_members
  create_batches-IsSchedule [] l some_size some_per_domain distinct =
      ([], refl, record { bounded = tt; complete = in_no_rings l; known = tt; ordered = tt })
  create_batches-IsSchedule (ring ∷ rings) l some_size some_per_domain distinct =
      let remaining = sort_by item_before (by_ring ring l) in
      let (first, returned, f) =
        ring_batches-RingPlan size per_domain some_size some_per_domain ring (length remaining) 1
          remaining (omega arith) (of_ring ring l) in
      let (later, others, s) =
        create_batches-IsSchedule rings l some_size some_per_domain
          (distinct_rest ring rings distinct).1 in
      (
        first ++ later,
        rw (returned, others) refl,
        IsSchedule-append ring rings l remaining first later (distinct_rest ring rings distinct).0
            (sort_by-perm item_before (by_ring ring l)) f s,
      )
