-- ===== src/Failover/Traffic.antt =====
-- The share of the traffic that the secondary region takes.
use staff_sre_platform_engin.Shared.{
  ℤ, pos, ◌≤ℤ◌, ◌≡◌, ◌⊎◌, inl, inr, arith, ok, ap, sym, subst, ◌+ℤ◌, ◌-ℤ◌, -ℤ_parts, +ℤ_parts,
  max_ℤ, min_ℤ,
}
use staff_sre_platform_engin.Failover.Types.{
  DrPolicy, DrContext, TransitionResult, promoting, failback_prep, hundred,
}
use staff_sre_platform_engin.Failover.Step.{reconcile_once}
use staff_sre_platform_engin.Failover.Spec.{
  Move, stay, safety_stop, declare_outage, freeze, check, fence, elect, promote, grow, complete,
  prepare, fail_back, shrink, restore, reconcile_once-Move, lowered_traffic, raised_traffic,
  promoted_context, failed_back_context,
}
use staff_sre_platform_engin.Failover.Validity.{IsValidPolicy, reconcile_once-IsValidInput}

abbrev pub IsPercent : ℤ → Type 0
IsPercent t = (pos 0 ≤ℤ t) × (t ≤ℤ hundred)

-- `t'` lies within `step` of `t`.
abbrev pub Within : ℤ → ℤ → ℤ → Type 0
Within step t t' = (t' ≤ℤ t +ℤ step) × (t ≤ℤ t' +ℤ step)

abbrev share : DrContext → ℤ
share c = c.traffic_percent_secondary

-- What a move does to the share: only the promotion of the secondary, and of the primary in the
-- failback, set it.
pub record IsSmooth (c : DrContext) (p : DrPolicy) (d : DrContext) : Type 0 where
  pub percent : IsPercent d.traffic_percent_secondary
  pub bounded :
      ((c.state ≡ promoting) × (d ≡ promoted_context c p))
      ⊎ ((c.state ≡ failback_prep) × (d ≡ failed_back_context c p))
      ⊎ Within p.maximum_traffic_step_percent c.traffic_percent_secondary
          d.traffic_percent_secondary

record IsStep (c : DrContext) (p : DrPolicy) (t : ℤ) : Type 0 where
  percent : IsPercent t
  within : Within p.maximum_traffic_step_percent c.traffic_percent_secondary t

module _ (c : DrContext) (p : DrPolicy) (v : IsValidPolicy p)
    (h : IsPercent c.traffic_percent_secondary) where
  same_share : IsStep c p c.traffic_percent_secondary
  same_share =
      let sum = +ℤ_parts c.traffic_percent_secondary p.maximum_traffic_step_percent in
      record { percent = h; within = (omega (arith, v.step_pos), omega (arith, v.step_pos)) }

  raised_share : IsStep c p (raised_traffic c p)
  unfolding min_ℤ
  raised_share =
      let sum = +ℤ_parts c.traffic_percent_secondary p.maximum_traffic_step_percent in
      let sum' = +ℤ_parts (raised_traffic c p) p.maximum_traffic_step_percent in
      record {
        percent = ground (arith, v.step_pos);
        within = (ground (arith, v.step_pos), ground (arith, v.step_pos));
      }

  lowered_share : IsStep c p (lowered_traffic c p)
  unfolding max_ℤ
  lowered_share =
      let sum = +ℤ_parts c.traffic_percent_secondary p.maximum_traffic_step_percent in
      let less = -ℤ_parts c.traffic_percent_secondary p.maximum_traffic_step_percent in
      let sum' = +ℤ_parts (lowered_traffic c p) p.maximum_traffic_step_percent in
      record {
        percent = ground (arith, v.step_pos);
        within = (ground (arith, v.step_pos), ground (arith, v.step_pos));
      }

  complement : IsPercent (max_ℤ (pos 0) (hundred -ℤ p.initial_canary_percent))
  unfolding max_ℤ
  complement =
      let less = -ℤ_parts hundred p.initial_canary_percent in
      (ground (arith, v.canary_pos), ground (arith, v.canary_pos))

  -- The moves that leave the share alone, and those that set it.
  step-IsSmooth :
      {d : DrContext} {t : ℤ} → d.traffic_percent_secondary ≡ t → IsStep c p t → IsSmooth c p d
  step-IsSmooth e s = record { percent = rw e s.percent; bounded = inr (inr (rw e s.within)) }

  kept_share :
      {d : DrContext} → d.traffic_percent_secondary ≡ c.traffic_percent_secondary → IsSmooth c p d
  kept_share e = step-IsSmooth e same_share

  Move-IsSmooth : {d : DrContext} → Move p c d → IsSmooth c p d
  Move-IsSmooth (stay e) = kept_share (ap share e)
  Move-IsSmooth (safety_stop e) = kept_share (ap share e)
  Move-IsSmooth (declare_outage k s a e) = kept_share (ap share e)
  Move-IsSmooth (freeze k s a e) = kept_share (ap share e)
  Move-IsSmooth (check k s e) = kept_share (ap share e)
  Move-IsSmooth (fence k s a e) = kept_share (ap share e)
  Move-IsSmooth (elect k s a e) = kept_share (ap share e)
  Move-IsSmooth (promote k s e) = record {
    percent = subst IsPercent (sym (ap share e)) (omega (arith, v.canary_pos), v.canary_le);
    bounded = inl (s, e);
  }
  Move-IsSmooth (grow k s a b e) = step-IsSmooth (ap share e) raised_share
  Move-IsSmooth (complete k s a b e) = step-IsSmooth (ap share e) raised_share
  Move-IsSmooth (prepare k s a b e) = kept_share (ap share e)
  Move-IsSmooth (fail_back k s a b e) = record {
    percent = subst IsPercent (sym (ap share e)) complement;
    bounded = inr (inl (s, e));
  }
  Move-IsSmooth (shrink k s a e) = step-IsSmooth (ap share e) lowered_share
  Move-IsSmooth (restore k s a e) = step-IsSmooth (ap share e) lowered_share

-- A reconciliation keeps the secondary's share between 0 and 100 percent, and changes it by at most
-- the policy's traffic step, except for the two that promote a writer: out of PROMOTING to the
-- context with the secondary as writer and the initial canary share, and out of FAILBACK_PREP to the
-- context with the primary as writer and all but that share.
pub reconcile_once-IsSmooth :
    (c : DrContext) (p : DrPolicy) {r : TransitionResult}
    → IsPercent c.traffic_percent_secondary
    → reconcile_once c p ≡ ok r
    → IsSmooth c p r.context
reconcile_once-IsSmooth c p h e =
    Move-IsSmooth c p (reconcile_once-IsValidInput c p e).policy_valid h (reconcile_once-Move c p e)
