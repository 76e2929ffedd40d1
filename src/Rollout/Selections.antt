-- ===== src/Rollout/Selections.antt =====
-- What one batch takes: the limits hold, nothing is lost, and the first item is always taken.
use mathlib.Core.List.{Perm, append_assoc, append-nil, perm_append_comm}
use mathlib.Core.List.Perm
use staff_sre_platform_engin.Shared.{
  ℕ, suc, ◌+◌, ◌≤◌, ◌<◌, String, List, [], ◌∷◌, ◌++◌, length, length-append, filter, All,
  All-append, if_ind, str_eq, eq_iff, ◌≡◌, arith, leb, if◌then◌else◌, subst,
}
use staff_sre_platform_engin.Rollout.Decide.{ClusterDecision}
use staff_sre_platform_engin.Rollout.Batches.{
  Selection, no_selection, defer, take_item, choose, choose_all,
}

-- How many clusters of a failure domain a list has.
abbrev pub in_domain : String → List ClusterDecision → ℕ
in_domain domain members = length (filter (λ item. str_eq item.failure_domain domain) members)

in_domain-snoc :
    (domain : String) (l : List ClusterDecision) (x : ClusterDecision)
    → in_domain domain (l ++ x ∷ [])
      ≡ in_domain domain l + (if str_eq x.failure_domain domain then 1 else 0)
in_domain-snoc domain [] x = ground arith
in_domain-snoc domain (y ∷ l) x = ground (arith, in_domain-snoc domain l x)

abbrev pub all_of : Selection → List ClusterDecision
all_of s = s.selected ++ s.deferred_for_batch

module _ (size per_domain : ℕ) where
  pub record IsWithin (s : Selection) : Type 0 where
    pub bounded : length s.selected ≤ size
    pub counted : (domain : String) → s.counts domain ≡ in_domain domain s.selected
    pub limited : (domain : String) → s.counts domain ≤ per_domain

  choose-IsWithin :
      (item : ClusterDecision) (s : Selection)
      → IsWithin s
      → IsWithin (choose size per_domain item s)
  unfolding choose
  choose-IsWithin item s w = record {
    bounded = ground (arith, w.bounded, length-append s.selected (item ∷ []));
    counted = λ domain. ground (arith, w.counted domain, in_domain-snoc domain s.selected item);
    limited = λ domain.
        ground (
          arith,
          w.limited domain,
          w.limited item.failure_domain,
          eq_iff item.failure_domain domain,
        );
  }

  pub choose_all-IsWithin :
      (xs : List ClusterDecision) (s : Selection)
      → IsWithin s
      → IsWithin (choose_all size per_domain xs s)
  unfolding choose_all
  choose_all-IsWithin [] s w = w
  choose_all-IsWithin (x ∷ xs) s w = choose_all-IsWithin xs _ (choose-IsWithin x s w)

  choose-perm :
      (item : ClusterDecision) (s : Selection)
      → Perm (all_of (choose size per_domain item s)) (all_of s ++ item ∷ [])
  unfolding choose
  choose-perm item s =
      if_ind P (leb size (length s.selected)) (λ _. deferred)
        λ _. if_ind P (leb per_domain (s.counts item.failure_domain)) (λ _. deferred) λ _. taken
    where
      P : Selection → Type 0
      P r = Perm (all_of r) (all_of s ++ item ∷ [])

      deferred : P (defer item s)
      deferred = simp append_assoc Perm.rfl

      taken : P (take_item item s)
      taken =
          rw (append_assoc, append_assoc)
            (Perm.append_left s.selected (perm_append_comm (item ∷ []) s.deferred_for_batch))

  pub choose_all-perm :
      (xs : List ClusterDecision) (s : Selection)
      → Perm (all_of (choose_all size per_domain xs s)) (all_of s ++ xs)
  unfolding choose_all
  choose_all-perm [] s = rw append-nil Perm.rfl
  choose_all-perm (x ∷ xs) s = Perm.trans (choose_all-perm xs (choose size per_domain x s)) (
      subst (Perm _) (append_assoc (all_of s) (x ∷ []) xs) (Perm.append_right xs (choose-perm x s)))

  choose-length :
      (item : ClusterDecision) (s : Selection)
      → length (choose size per_domain item s).selected
          + length (choose size per_domain item s).deferred_for_batch
        ≡ suc (length s.selected + length s.deferred_for_batch)
  unfolding choose
  choose-length item s =
      ground (
        arith,
        length-append s.selected (item ∷ []),
        length-append s.deferred_for_batch (item ∷ []),
      )

  pub choose_all-length :
      (xs : List ClusterDecision) (s : Selection)
      → length (choose_all size per_domain xs s).selected
          + length (choose_all size per_domain xs s).deferred_for_batch
        ≡ length s.selected + length s.deferred_for_batch + length xs
  unfolding choose_all
  choose_all-length [] s = omega arith
  choose_all-length (x ∷ xs) s =
      omega (arith, choose_all-length xs (choose size per_domain x s), choose-length x s)

  choose-le :
      (item : ClusterDecision) (s : Selection)
      → length s.selected ≤ length (choose size per_domain item s).selected
  unfolding choose
  choose-le item s = ground (arith, length-append s.selected (item ∷ []))

  choose_all-le :
      (xs : List ClusterDecision) (s : Selection)
      → length s.selected ≤ length (choose_all size per_domain xs s).selected
  unfolding choose_all
  choose_all-le [] s = omega arith
  choose_all-le (x ∷ xs) s =
      omega (arith, choose_all-le xs (choose size per_domain x s), choose-le x s)

  choose-first :
      (x : ClusterDecision)
      → 0 < size
      → 0 < per_domain
      → 0 < length (choose size per_domain x no_selection).selected
  unfolding choose
  choose-first x h k = ground arith

  -- A round makes progress.
  pub choose_all-pos :
      (x : ClusterDecision) (xs : List ClusterDecision)
      → 0 < size
      → 0 < per_domain
      → 0 < length (choose_all size per_domain (x ∷ xs) no_selection).selected
  unfolding choose_all
  choose_all-pos x xs h k =
      omega (arith, choose-first x h k, choose_all-le xs (choose size per_domain x no_selection))

module _ {κ} (P : ClusterDecision → Type κ) (size per_domain : ℕ) where
  abbrev pub BothAll : Selection → Type κ
  BothAll s = All P s.selected × All P s.deferred_for_batch

  choose-All :
      (item : ClusterDecision) (s : Selection)
      → P item
      → BothAll s
      → BothAll (choose size per_domain item s)
  unfolding choose
  choose-All item s p h =
      if_ind BothAll (leb size (length s.selected)) (λ _. deferred)
        λ _.
          if_ind BothAll (leb per_domain (s.counts item.failure_domain)) (λ _. deferred)
            λ _. (All-append P s.selected (item ∷ []) h.0 (p, tt), h.1)
    where
      deferred : BothAll (defer item s)
      deferred = (h.0, All-append P s.deferred_for_batch (item ∷ []) h.1 (p, tt))

  pub choose_all-All :
      (xs : List ClusterDecision) (s : Selection)
      → All P xs
      → BothAll s
      → BothAll (choose_all size per_domain xs s)
  unfolding choose_all
  choose_all-All [] s p h = h
  choose_all-All (x ∷ xs) s p h = choose_all-All xs _ p.1 (choose-All x s p.0 h)
