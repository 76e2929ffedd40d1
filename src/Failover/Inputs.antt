-- ===== src/Failover/Inputs.antt =====
-- Input that dr_failover.py accepts leads to contexts that it accepts.
use staff_sre_platform_engin.Shared.{
  refl, ◌∙◌, ◌≡◌, sym, subst, arith, pos, +ℤ_parts, max_ℤ, max_ℤ_bounds, ◌≤ℤ◌,
}
use staff_sre_platform_engin.Failover.Types.{DrPolicy, DrContext, Region}
use staff_sre_platform_engin.Failover.Step.{next_epoch}
use staff_sre_platform_engin.Failover.Spec.{
  Move, stay, safety_stop, declare_outage, freeze, check, fence, elect, promote, grow, complete,
  prepare, fail_back, shrink, restore,
}
use staff_sre_platform_engin.Failover.Validity.{IsValidInput, IsValidRegion}

-- `d` has the regions of `c`.
record SameRegions (c d : DrContext) : Type 0 where
  same_primary : d.primary ≡ c.primary
  same_secondary : d.secondary ≡ c.secondary

module _ {c : DrContext} {p : DrPolicy} (v : IsValidInput c p) where
  same-IsValidInput : {d : DrContext} → SameRegions c d → IsValidInput d p
  same-IsValidInput s = record {
    primary_valid = subst IsValidRegion (sym s.same_primary) v.primary_valid;
    secondary_valid = subst IsValidRegion (sym s.same_secondary) v.secondary_valid;
    policy_valid = v.policy_valid;
  }

  next_epoch_nonneg : pos 0 ≤ℤ next_epoch c
  next_epoch_nonneg =
      let bounds = max_ℤ_bounds c.primary.writer_epoch c.secondary.writer_epoch in
      let parts = +ℤ_parts (max_ℤ c.primary.writer_epoch c.secondary.writer_epoch) (pos 1) in
      omega (arith, v.primary_valid.epoch_nonneg)

  -- A new epoch and a new right to write leave a region valid.
  written-IsValidRegion :
      (r q : Region)
      → IsValidRegion r
      → q.name ≡ r.name
      → q.capacity_percent_of_peak ≡ r.capacity_percent_of_peak
      → q.replication_lag_seconds ≡ r.replication_lag_seconds
      → pos 0 ≤ℤ q.writer_epoch
      → IsValidRegion q
  written-IsValidRegion r q w name capacity lag epoch = record {
    named = λ e. w.named (sym name ∙ e);
    capacity_nonneg = rw capacity w.capacity_nonneg;
    lag_nonneg = rw lag w.lag_nonneg;
    epoch_nonneg = epoch;
  }

  pub Move-IsValidInput : {d : DrContext} → Move p c d → IsValidInput d p
  Move-IsValidInput (stay e) = same-IsValidInput (ground arith)
  Move-IsValidInput (safety_stop e) = same-IsValidInput (ground arith)
  Move-IsValidInput (declare_outage q s a e) = same-IsValidInput (ground arith)
  Move-IsValidInput (freeze q s a e) = same-IsValidInput (ground arith)
  Move-IsValidInput (check q s e) = same-IsValidInput (ground arith)
  Move-IsValidInput (fence q s a e) = same-IsValidInput (ground arith)
  Move-IsValidInput (elect q s a e) = same-IsValidInput (ground arith)
  Move-IsValidInput (promote q s e) =
      subst (λ x. IsValidInput x p) (sym e)
        (record {
          primary_valid =
              written-IsValidRegion c.primary _ v.primary_valid refl refl refl
                v.primary_valid.epoch_nonneg;
          secondary_valid =
              written-IsValidRegion c.secondary _ v.secondary_valid refl refl refl
                next_epoch_nonneg;
          policy_valid = v.policy_valid;
        })
  Move-IsValidInput (grow q s a b e) = same-IsValidInput (ground arith)
  Move-IsValidInput (complete q s a b e) = same-IsValidInput (ground arith)
  Move-IsValidInput (prepare q s a b e) = same-IsValidInput (ground arith)
  Move-IsValidInput (fail_back q s a b e) =
      subst (λ x. IsValidInput x p) (sym e)
        (record {
          primary_valid =
              written-IsValidRegion c.primary _ v.primary_valid refl refl refl next_epoch_nonneg;
          secondary_valid =
              written-IsValidRegion c.secondary _ v.secondary_valid refl refl refl
                v.secondary_valid.epoch_nonneg;
          policy_valid = v.policy_valid;
        })
  Move-IsValidInput (shrink q s a e) = same-IsValidInput (ground arith)
  Move-IsValidInput (restore q s a e) = same-IsValidInput (ground arith)
