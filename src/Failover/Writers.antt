-- ===== src/Failover/Writers.antt =====
-- The write path of dr_failover.py: at most one writer, no promotion before fencing, and stale
-- tokens refused.
use staff_sre_platform_engin.Shared.{
  ok-injective, ◌∙◌, ap, subst, ℤ, pos, ◌≤ℤ◌, ◌<ℤ◌, ◌≡◌, Bool, true, false, ◌&&◌, arith, ok, refl,
  max_ℤ, max_ℤ_bounds, +ℤ_parts, sym, eqb_ℤ, eqb_ℤ_iff, ◌↔◌,
}
use staff_sre_platform_engin.Failover.Types.{
  Region, DrPolicy, DrContext, DrState, TransitionResult, promoting, canary, expanding,
  recovered_secondary, failback_prep, failback_canary, normal_restored,
}
use staff_sre_platform_engin.Failover.Guards.{write_allowed}
use staff_sre_platform_engin.Failover.Step.{
  reconcile_once, next_epoch, transition_of, dispatch, on_promoting,
}
use staff_sre_platform_engin.Failover.Spec.{
  Move, stay, safety_stop, declare_outage, freeze, check, fence, elect, promote, grow, complete,
  prepare, fail_back, shrink, restore, reconcile_once-Move, promoted_context,
}
use staff_sre_platform_engin.Failover.Validity.{
  IsValidRegion, validate_region_iff, reconcile_once-IsValidInput, reconcile_once_valid,
  IsValidInput,
}

-- The states behind the fencing of the old writer.
abbrev pub is_past_fencing : DrState → Bool
is_past_fencing promoting = true
is_past_fencing canary = true
is_past_fencing expanding = true
is_past_fencing recovered_secondary = true
is_past_fencing failback_prep = true
is_past_fencing failback_canary = true
is_past_fencing normal_restored = true
is_past_fencing _ = false

-- The states in which the secondary region holds the writer's role.
abbrev pub is_on_secondary : DrState → Bool
is_on_secondary canary = true
is_on_secondary expanding = true
is_on_secondary recovered_secondary = true
is_on_secondary failback_prep = true
is_on_secondary _ = false

-- The states in which it has been given back to the primary.
abbrev pub is_given_back : DrState → Bool
is_given_back failback_canary = true
is_given_back normal_restored = true
is_given_back _ = false

pub record HasOneWriter (c : DrContext) : Type 0 where
  pub single : (c.primary.accepting_writes && c.secondary.accepting_writes) ≡ false
  pub fenced : is_past_fencing c.state ≡ true → c.old_writer_fenced ≡ true
  pub promoted : is_on_secondary c.state ≡ true → c.secondary.accepting_writes ≡ true
  pub returned : is_given_back c.state ≡ true → c.primary.accepting_writes ≡ true

Move-HasOneWriter : {p : DrPolicy} {c d : DrContext} → Move p c d → HasOneWriter c → HasOneWriter d
Move-HasOneWriter (stay e) h = ground arith
Move-HasOneWriter (safety_stop e) h = ground arith
Move-HasOneWriter (declare_outage k s a e) h = ground arith
Move-HasOneWriter (freeze k s a e) h = ground arith
Move-HasOneWriter (check k s e) h = ground arith
Move-HasOneWriter (fence k s a e) h = ground arith
Move-HasOneWriter (elect k s a e) h = ground arith
Move-HasOneWriter (promote k s e) h = ground arith
Move-HasOneWriter (grow k s a b e) h = ground arith
Move-HasOneWriter (complete k s a b e) h = ground arith
Move-HasOneWriter (prepare k s a b e) h = ground arith
Move-HasOneWriter (fail_back k s a b e) h = ground arith
Move-HasOneWriter (shrink k s a e) h = ground arith
Move-HasOneWriter (restore k s a e) h = ground arith

-- A reconciliation keeps the writer's invariant: never two regions that accept writes, no state
-- behind fencing without the fence, and the region that the state names as writer accepts writes.
pub reconcile_once-HasOneWriter :
    (c : DrContext) (p : DrPolicy) {r : TransitionResult}
    → HasOneWriter c
    → reconcile_once c p ≡ ok r
    → HasOneWriter r.context
reconcile_once-HasOneWriter c p h e = Move-HasOneWriter (reconcile_once-Move c p e) h

-- The secondary starts to accept writes only from PROMOTING, whose reconciliation takes the right to write from
-- the primary in the same step.
secondary_gains :
    {p : DrPolicy} {c d : DrContext}
    → Move p c d
    → c.secondary.accepting_writes ≡ false
    → d.secondary.accepting_writes ≡ true
    → (c.state ≡ promoting) × (d ≡ promoted_context c p)
secondary_gains (stay e) h g = absurd (ground arith)
secondary_gains (safety_stop e) h g = absurd (ground arith)
secondary_gains (declare_outage k s a e) h g = absurd (ground arith)
secondary_gains (freeze k s a e) h g = absurd (ground arith)
secondary_gains (check k s e) h g = absurd (ground arith)
secondary_gains (fence k s a e) h g = absurd (ground arith)
secondary_gains (elect k s a e) h g = absurd (ground arith)
secondary_gains (promote k s e) h g = (s, e)
secondary_gains (grow k s a b e) h g = absurd (ground arith)
secondary_gains (complete k s a b e) h g = absurd (ground arith)
secondary_gains (prepare k s a b e) h g = absurd (ground arith)
secondary_gains (fail_back k s a b e) h g = absurd (ground arith)
secondary_gains (shrink k s a e) h g = absurd (ground arith)
secondary_gains (restore k s a e) h g = absurd (ground arith)

next_epoch_above :
    (c : DrContext)
    → (c.primary.writer_epoch <ℤ next_epoch c) × (c.secondary.writer_epoch <ℤ next_epoch c)
next_epoch_above c =
    let bounds = max_ℤ_bounds c.primary.writer_epoch c.secondary.writer_epoch in
    let parts = +ℤ_parts (max_ℤ c.primary.writer_epoch c.secondary.writer_epoch) (pos 1) in
    (omega arith, omega arith)

write_allowed-closed :
    (r : Region) (token : ℤ)
    → IsValidRegion r
    → pos 0 ≤ℤ token
    → r.accepting_writes ≡ false
    → write_allowed r token ≡ ok false
unfolding write_allowed
write_allowed-closed r token v low h = rw ((validate_region_iff r).1 v) (ground arith)

write_allowed-open :
    (r : Region) (token : ℤ)
    → IsValidRegion r
    → pos 0 ≤ℤ token
    → r.accepting_writes ≡ true
    → write_allowed r token ≡ ok (eqb_ℤ token r.writer_epoch)
unfolding write_allowed
write_allowed-open r token v low h = rw ((validate_region_iff r).1 v) (ground arith)

transition_of-promoting :
    (c : DrContext) (p : DrPolicy)
    → c.state ≡ promoting
    → c.data_inconsistency_detected ≡ false
    → transition_of c p ≡ ok (on_promoting c p)
unfolding transition_of dispatch
transition_of-promoting c p s clear = ground arith

promoted-context :
    (c : DrContext) (p : DrPolicy) {r : TransitionResult}
    → c.state ≡ promoting
    → c.data_inconsistency_detected ≡ false
    → reconcile_once c p ≡ ok r
    → promoted_context c p ≡ r.context
unfolding on_promoting
promoted-context c p s clear e =
    let same = reconcile_once_valid c p (reconcile_once-IsValidInput c p e) in
    ap (λ (t : TransitionResult). t.context)
      (ok-injective (sym (transition_of-promoting c p s clear) ∙ sym same ∙ e))

-- Who may write in a context whose new epoch is the given one: nobody in the primary, in the
-- secondary the holder of that epoch and nobody else, and the epoch is above those of `c`.
pub record IsTakenOver (c d : DrContext) (token : ℤ) : Type 0 where
  pub primary_refuses : write_allowed d.primary token ≡ ok false
  pub secondary_decides :
      (allowed : Bool) × (write_allowed d.secondary token ≡ ok allowed)
      × ((allowed ≡ true) ↔ (token ≡ next_epoch c))
  pub above_primary : c.primary.writer_epoch <ℤ next_epoch c
  pub above_secondary : c.secondary.writer_epoch <ℤ next_epoch c

promoted-IsTakenOver :
    (c : DrContext) (p : DrPolicy) (token : ℤ)
    → IsValidInput c p
    → pos 0 ≤ℤ token
    → IsTakenOver c (promoted_context c p) token
promoted-IsTakenOver c p token v low =
    let above = next_epoch_above c in
    let primary' : IsValidRegion (promoted_context c p).primary = record {
      named = v.primary_valid.named;
      capacity_nonneg = v.primary_valid.capacity_nonneg;
      lag_nonneg = v.primary_valid.lag_nonneg;
      epoch_nonneg = v.primary_valid.epoch_nonneg;
    } in
    let secondary' : IsValidRegion (promoted_context c p).secondary = record {
      named = v.secondary_valid.named;
      capacity_nonneg = v.secondary_valid.capacity_nonneg;
      lag_nonneg = v.secondary_valid.lag_nonneg;
      epoch_nonneg = omega (arith, above, v.secondary_valid.epoch_nonneg);
    } in
    record {
      primary_refuses = write_allowed-closed _ token primary' low refl;
      secondary_decides = (
        eqb_ℤ token (next_epoch c),
        write_allowed-open _ token secondary' low refl,
        eqb_ℤ_iff token (next_epoch c),
      );
      above_primary = above.0;
      above_secondary = above.1;
    }

-- A successful reconciliation at PROMOTING, with nothing that stops the run, leaves exactly one token
-- that can write, the new epoch, and only in the secondary. For any token that is not negative, the
-- primary refuses it, and the secondary answers, and accepts it exactly if it is the new epoch, which
-- is above the epoch that each of the regions had before.
pub promotion_fences_old_tokens :
    (c : DrContext) (p : DrPolicy) (token : ℤ) {r : TransitionResult}
    → c.state ≡ promoting
    → c.data_inconsistency_detected ≡ false
    → reconcile_once c p ≡ ok r
    → pos 0 ≤ℤ token
    → IsTakenOver c r.context token
promotion_fences_old_tokens c p token s clear e low =
    subst (λ d. IsTakenOver c d token) (promoted-context c p s clear e)
      (promoted-IsTakenOver c p token (reconcile_once-IsValidInput c p e) low)

-- A reconciliation that lets the secondary start to accept writes is the promotion: it leaves
-- PROMOTING, and takes the right to write from the primary in the same step.
pub secondary-promoted :
    (c : DrContext) (p : DrPolicy) {r : TransitionResult}
    → reconcile_once c p ≡ ok r
    → c.secondary.accepting_writes ≡ false
    → r.context.secondary.accepting_writes ≡ true
    → (c.state ≡ promoting) × (r.context ≡ promoted_context c p)
secondary-promoted c p e h g = secondary_gains (reconcile_once-Move c p e) h g
