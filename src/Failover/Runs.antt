-- ===== src/Failover/Runs.antt =====
-- `run_until_stable` of dr_failover.py: what holds along a run, and that a run ends.
use staff_sre_platform_engin.Shared.{
  ℕ, zero, suc, ℤ, pos, negsuc, pos_part, ◌≡◌, ◌⊎◌, inl, inr, ok, >>=-eq-ok, List, [], ◌∷◌, All,
  ◌>>=◌, sym, ok-injective,
}
use staff_sre_platform_engin.Failover.Types.{
  DrPolicy, DrContext, TransitionResult, DrContext-discrete,
}
use staff_sre_platform_engin.Failover.Step.{reconcile_once, run_rounds, run_until_stable}
use staff_sre_platform_engin.Failover.Writers.{HasOneWriter, reconcile_once-HasOneWriter}

-- The end of one round: `break` where nothing changed, and the rounds that follow otherwise.
Round : ℕ → DrPolicy → DrContext → TransitionResult → List TransitionResult → Type 0
Round n p c r h =
    ((r.context ≡ c) × (h ≡ r ∷ []))
    ⊎ ((rest : List TransitionResult) × (run_rounds n r.context p ≡ ok rest) × (h ≡ r ∷ rest))

run_rounds-suc :
    (n : ℕ) (c : DrContext) (p : DrPolicy) (h : List TransitionResult)
    → run_rounds (suc n) c p ≡ ok h
    → (r : TransitionResult) × (reconcile_once c p ≡ ok r) × Round n p c r h
unfolding run_rounds Round
run_rounds-suc n c p h e =
    let (r, got, e') = >>=-eq-ok (reconcile_once c p) _ e in
    (r, got, ending r (DrContext-discrete r.context c) e')
  where
    ending :
        (r : TransitionResult) (d : Dec (r.context ≡ c))
        → (elim d [
          | yes _ ↦ ok (r ∷ [])
          | no _ ↦ (do rest ← run_rounds n r.context p; ok (r ∷ rest))
        ])
          ≡ ok h
        → Round n p c r h
    ending r (yes same) x = inl (same, sym (ok-injective x))
    ending r (no _) x =
        let (rest, ran, x') = >>=-eq-ok (run_rounds n r.context p) _ x in
        inr (rest, ran, sym (ok-injective x'))

-- An invariant of the reconciliation holds of each context in the history.
run_rounds-All :
    (P : DrContext → Type 0) (p : DrPolicy)
    → ((c : DrContext) (r : TransitionResult) → P c → reconcile_once c p ≡ ok r → P r.context)
    → (n : ℕ) (c : DrContext) (h : List TransitionResult) → P c
    → run_rounds n c p ≡ ok h
    → All (λ r. P r.context) h
unfolding run_rounds Round
run_rounds-All P p keep zero c h pc e = absurd (cc e)
run_rounds-All P p keep (suc n) c h pc e =
    let (r, got, round) = run_rounds-suc n c p h e in
    let kept = keep c r pc got in
    elim round [
      | inl (same, e') ↦ rw e' (kept, tt)
      | inr (rest, ran, e') ↦ rw e' (kept, run_rounds-All P p keep n r.context rest kept ran)
    ]

-- The last reconciliation of a history would be repeated for ever.
abbrev pub EndsStable : DrPolicy → List TransitionResult → Type 0
EndsStable p [] = ⊥
EndsStable p (r ∷ []) = reconcile_once r.context p ≡ ok r
EndsStable p (r ∷ s ∷ rest) = EndsStable p (s ∷ rest)

EndsStable-cons :
    (p : DrPolicy) (r : TransitionResult) (l : List TransitionResult)
    → EndsStable p l
    → EndsStable p (r ∷ l)
EndsStable-cons p r [] h = absurd h
EndsStable-cons p r (x ∷ l) h = h

run_rounds-EndsStable :
    (n : ℕ) (c : DrContext) (p : DrPolicy) (h : List TransitionResult)
    → run_rounds n c p ≡ ok h
    → EndsStable p h
unfolding run_rounds Round
run_rounds-EndsStable zero c p h e = absurd (cc e)
run_rounds-EndsStable (suc n) c p h e =
    let (r, got, round) = run_rounds-suc n c p h e in
    elim round [
      | inl (same, e') ↦ rw (e', same) got
      | inr (rest, ran, e') ↦
          rw e' (EndsStable-cons p r rest (run_rounds-EndsStable n r.context p rest ran))
    ]

-- The rounds of a run that returned.
run_until_stable-rounds :
    (m : ℤ) (c : DrContext) (p : DrPolicy) (h : List TransitionResult)
    → run_until_stable m c p ≡ ok h
    → run_rounds (pos_part m) c p ≡ ok h
unfolding run_until_stable
run_until_stable-rounds (pos zero) c p h e = absurd (cc e)
run_until_stable-rounds (pos (suc n)) c p h e = e
run_until_stable-rounds (negsuc n) c p h e = absurd (cc e)

-- A run that starts with one writer keeps it: in every context of the returned history at most one
-- region accepts writes, and no state behind fencing is reached without the fence.
pub run_until_stable-HasOneWriter :
    (m : ℤ) (c : DrContext) (p : DrPolicy) (h : List TransitionResult)
    → HasOneWriter c
    → run_until_stable m c p ≡ ok h
    → All (λ r. HasOneWriter r.context) h
run_until_stable-HasOneWriter m c p h w e =
    run_rounds-All HasOneWriter p (λ d r. reconcile_once-HasOneWriter d p) (pos_part m) c h w
      (run_until_stable-rounds m c p h e)

-- A returned history is not empty, and its last result is stable: reconciling the context that it
-- leaves returns the same result again.
pub run_until_stable-EndsStable :
    (m : ℤ) (c : DrContext) (p : DrPolicy) (h : List TransitionResult)
    → run_until_stable m c p ≡ ok h
    → EndsStable p h
run_until_stable-EndsStable m c p h e =
    run_rounds-EndsStable (pos_part m) c p h (run_until_stable-rounds m c p h e)
