-- ===== src/Repair/Justified.antt =====
-- Why the controller of node_repair.py decides what it decides: the guards behind each action.
use staff_sre_platform_engin.Shared.{
  ℕ, ◌*◌, ◌≤◌, ◌<◌, ◌≤ℤ◌, Bool, ltb→lt, true, false, not, ◌&&◌, List, ◌≡◌, refl, if_ind, leb, leb_ℤ,
  leb→le, leb→gt, ltb→ge, and-true, not-false, not-true,
}
use staff_sre_platform_engin.Repair.Types.{
  NodeState, suspect, fenced, replacing, verifying, Node, FleetPolicy, Percent, is_below,
  restart_once_and_verify, cordon_and_fence, replace_with_known_good, Reason, bounded_transient,
  writer_not_fenced, guardrails_satisfied, RepairDecision, cluster_limit, zone_limit,
  replacement_not_ready, capacity_below,
}
use staff_sre_platform_engin.Repair.Fleet.{projected_capacity_after_removal}
use staff_sre_platform_engin.Repair.Controller.{
  Loop, is_suspect, decision, held, start_repair, is_fenced, decide,
}

-- At least the bound, for a bound in thousandths of a percent.
abbrev pub AtLeast : ℕ → Percent → Type 0
AtLeast bound x = bound * x.whole ≤ x.part * 100000

-- A suspect within the failure limit is due for a restart, before anything else is looked at.
abbrev pub is_restart_due : FleetPolicy → Node → Bool
is_restart_due p n = is_suspect n.state && leb_ℤ n.failure_count p.restart_failure_limit

-- The guards that a removal passes.
pub record IsGuarded (fleet : List Node) (p : FleetPolicy) (s : Loop) (n : Node) : Type 0 where
  pub not_due : is_restart_due p n ≡ false
  pub cluster_room : s.cluster < p.max_concurrent_repairs_cluster
  pub zone_room : s.zones n.zone < p.max_concurrent_repairs_per_zone
  pub gate_open : s.gate ≡ true
  pub capacity_left :
      AtLeast p.min_healthy_capacity_percent (projected_capacity_after_removal fleet n)

-- Why a node is held.
pub data Blocked (fleet : List Node) (p : FleetPolicy) (s : Loop) (n : Node) : Reason → Type 0 where
  cluster_full : p.max_concurrent_repairs_cluster ≤ s.cluster → Blocked fleet p s n cluster_limit
  zone_full : p.max_concurrent_repairs_per_zone ≤ s.zones n.zone → Blocked fleet p s n zone_limit
  gate_shut : s.gate ≡ false → Blocked fleet p s n replacement_not_ready
  capacity_short :
      (projected_capacity_after_removal fleet n).part * 100000
        < p.min_healthy_capacity_percent * (projected_capacity_after_removal fleet n).whole
      → Blocked fleet p s n
          (capacity_below (projected_capacity_after_removal fleet n) p.min_healthy_capacity_percent)

abbrev pub after_fence : List Node → Loop → Node → Loop
after_fence fleet s n = start_repair s n (projected_capacity_after_removal fleet n)

abbrev pub after_replace : List Node → FleetPolicy → Loop → Node → Loop
after_replace fleet p s n = record (after_fence fleet s n) {
  gate = not p.require_replacement_ready_before_next;
}

pub data Justified (fleet : List Node) (p : FleetPolicy) (s : Loop) (n : Node)
    (r : RepairDecision × Loop) : Type 0 where
  restarts :
      n.state ≡ suspect
      → n.failure_count ≤ℤ p.restart_failure_limit
      → r ≡ (decision n restart_once_and_verify bounded_transient verifying, s)
      → Justified fleet p s n r
  holds :
      (why : Reason)
      → is_restart_due p n ≡ false
      → Blocked fleet p s n why
      → r ≡ (held n why, s)
      → Justified fleet p s n r
  fences :
      IsGuarded fleet p s n
      → n.storage_writer ≡ true
      → is_fenced n ≡ false
      → r ≡ (decision n cordon_and_fence writer_not_fenced fenced, after_fence fleet s n)
      → Justified fleet p s n r
  replaces :
      IsGuarded fleet p s n
      → (n.storage_writer && not (is_fenced n)) ≡ false
      → r ≡ (
        decision n replace_with_known_good guardrails_satisfied replacing,
        after_replace fleet p s n,
      )
      → Justified fleet p s n r

suspected : (s : NodeState) → is_suspect s ≡ true → s ≡ suspect
suspected suspect h = refl
suspected _ h = cc

pub decide-Justified :
    (fleet : List Node) (p : FleetPolicy) (s : Loop) (n : Node)
    → Justified fleet p s n (decide fleet p s n)
unfolding decide
decide-Justified fleet p s n =
    let J = Justified fleet p s n in
    if_ind J (is_restart_due p n)
      (λ h. let (a, b) = and-true _ _ h in restarts (suspected n.state a) (leb→le _ _ b) refl)
      λ due.
        if_ind J (leb p.max_concurrent_repairs_cluster s.cluster)
          (λ full. holds _ due (cluster_full (leb→le _ _ full)) refl)
          λ room.
            if_ind J (leb p.max_concurrent_repairs_per_zone (s.zones n.zone))
              (λ full. holds _ due (zone_full (leb→le _ _ full)) refl)
              λ zone.
                if_ind J (not s.gate) (λ shut. holds _ due (gate_shut (not-true _ shut)) refl)
                  λ gate.
                    if_ind J
                      (is_below (projected_capacity_after_removal fleet n)
                        p.min_healthy_capacity_percent)
                      (λ short. holds _ due (capacity_short (ltb→lt _ _ short)) refl)
                      λ enough.
                        let guards : IsGuarded fleet p s n = record {
                          not_due = due;
                          cluster_room = leb→gt _ _ room;
                          zone_room = leb→gt _ _ zone;
                          gate_open = not-false _ gate;
                          capacity_left = ltb→ge _ _ enough;
                        } in
                        if_ind J (n.storage_writer && not (is_fenced n))
                          (λ h. let (a, b) = and-true _ _ h in fences guards a (not-true _ b) refl)
                          (λ h. replaces guards h refl)
