-- ===== src/Repair/Limits.antt =====
-- The limits of node_repair.py over one reconciliation: repairs in the cluster and in each zone, and
-- replacements.
use staff_sre_platform_engin.Shared.{
  ok, eq_iff, subst, sym, ℕ, suc, ◌+◌, ◌≤◌, ◌<◌, String, Bool, true, false, ◌&&◌, List, [], ◌∷◌,
  ◌≡◌, refl, ◌⊎◌, inl, inr, arith, str_eq, if◌then◌else◌, Bool-cases,
}
use staff_sre_platform_engin.Repair.Types.{
  Node, FleetPolicy, Action, cordon_and_fence, replace_with_known_good, RepairDecision,
  ControllerResult,
}
use staff_sre_platform_engin.Repair.Controller.{
  Loop, decide, decide_all, evaluate_repair, first_loop, candidates,
}
use staff_sre_platform_engin.Repair.Fleet.{cluster_repairs, zone_repairs, replacement_gate_open}
use staff_sre_platform_engin.Repair.Outcome.{disabled, systemic, closed, evaluate_repair-Outcome}
use staff_sre_platform_engin.Repair.Justified.{
  Justified, restarts, holds, fences, replaces, IsGuarded, decide-Justified,
}

-- The actions that take a node out of service.
abbrev pub removes : Action → Bool
removes cordon_and_fence = true
removes replace_with_known_good = true
removes _ = false

abbrev pub is_replacement : Action → Bool
is_replacement replace_with_known_good = true
is_replacement _ = false

abbrev pub if_one : Bool → ℕ
if_one true = 1
if_one false = 0

-- How many of the decisions fence or replace a node, how many of these are in a zone, and how many
-- replace a node. Decisions stand in the order of the nodes.
unfoldable pub removed : List RepairDecision → ℕ
removed [] = 0
removed (d ∷ ds) = if_one (removes d.action) + removed ds

unfoldable pub removed_in : String → List Node → List RepairDecision → ℕ
removed_in zone (n ∷ ns) (d ∷ ds) =
    if_one (removes d.action && str_eq n.zone zone) + removed_in zone ns ds
removed_in zone _ _ = 0

unfoldable pub replaced : List RepairDecision → ℕ
replaced [] = 0
replaced (d ∷ ds) = if_one (is_replacement d.action) + replaced ds

-- What one decision does to the counters.
record IsCounted (p : FleetPolicy) (s : Loop) (n : Node) (r : RepairDecision × Loop) : Type 0 where
  cluster : r.1.cluster ≡ s.cluster + if_one (removes r.0.action)
  cluster_room :
      (if_one (removes r.0.action) ≡ 0) ⊎ (r.1.cluster ≤ p.max_concurrent_repairs_cluster)
  zones :
      (zone : String)
      → r.1.zones zone ≡ s.zones zone + if_one (removes r.0.action && str_eq n.zone zone)
  zone_room :
      (zone : String)
      → (if_one (removes r.0.action && str_eq n.zone zone) ≡ 0)
        ⊎ (r.1.zones zone ≤ p.max_concurrent_repairs_per_zone)
  replacement :
      p.require_replacement_ready_before_next ≡ true
      → if_one (is_replacement r.0.action) + if_one r.1.gate ≤ if_one s.gate

module _ (fleet : List Node) (p : FleetPolicy) (s : Loop) (n : Node) where
  -- A decision that starts no repair leaves the loop's state.
  idle-IsCounted :
      (d : RepairDecision)
      → removes d.action ≡ false
      → is_replacement d.action ≡ false
      → IsCounted p s n (d, s)
  idle-IsCounted d a b = record {
    cluster = ground arith;
    cluster_room = inl (ground arith);
    zones = λ zone. ground arith;
    zone_room = λ zone. inl (ground arith);
    replacement = λ _. ground arith;
  }

  zone_count :
      (zone : String)
      → (if str_eq n.zone zone then suc (s.zones zone) else s.zones zone)
        ≡ s.zones zone + if_one (str_eq n.zone zone)
  zone_count zone = ground arith

  zone_limit :
      IsGuarded fleet p s n
      → (zone : String)
      → (if_one (str_eq n.zone zone) ≡ 0)
        ⊎ ((if str_eq n.zone zone then suc (s.zones zone) else s.zones zone)
            ≤ p.max_concurrent_repairs_per_zone)
  zone_limit g zone = elim (Bool-cases (str_eq n.zone zone)) [
    | inl same ↦ inr (
        rw same (
          subst (λ z. s.zones z < p.max_concurrent_repairs_per_zone) ((eq_iff n.zone zone).0 same)
            g.zone_room))
    | inr other ↦ inl (rw other)
  ]

  Justified-IsCounted : {r : RepairDecision × Loop} → Justified fleet p s n r → IsCounted p s n r
  Justified-IsCounted (restarts a b e) =
      subst (IsCounted p s n) (sym e) (idle-IsCounted _ refl refl)
  Justified-IsCounted (holds why a b e) =
      subst (IsCounted p s n) (sym e) (idle-IsCounted _ refl refl)
  Justified-IsCounted (fences g a b e) = subst (IsCounted p s n) (sym e) (record {
    cluster = omega arith;
    cluster_room = inr g.cluster_room;
    zones = zone_count;
    zone_room = zone_limit g;
    replacement = λ _. omega arith;
  })
  Justified-IsCounted (replaces g a e) = subst (IsCounted p s n) (sym e) (record {
    cluster = omega arith;
    cluster_room = inr g.cluster_room;
    zones = zone_count;
    zone_room = zone_limit g;
    replacement = λ h. ground (arith, h, g.gate_open);
  })

decide-IsCounted :
    (fleet : List Node) (p : FleetPolicy) (s : Loop) (n : Node)
    → IsCounted p s n (decide fleet p s n)
decide-IsCounted fleet p s n = Justified-IsCounted fleet p s n (decide-Justified fleet p s n)

-- What all the decisions of a reconciliation do to the counters.
record AreCounted (p : FleetPolicy) (s : Loop) (ns : List Node) (r : List RepairDecision × Loop)
    : Type 0 where
  cluster : r.1.cluster ≡ s.cluster + removed r.0
  cluster_room : (removed r.0 ≡ 0) ⊎ (r.1.cluster ≤ p.max_concurrent_repairs_cluster)
  zones : (zone : String) → r.1.zones zone ≡ s.zones zone + removed_in zone ns r.0
  zone_room :
      (zone : String)
      → (removed_in zone ns r.0 ≡ 0) ⊎ (r.1.zones zone ≤ p.max_concurrent_repairs_per_zone)
  replacement :
      p.require_replacement_ready_before_next ≡ true
      → replaced r.0 + if_one r.1.gate ≤ if_one s.gate

decide_all-AreCounted :
    (fleet : List Node) (p : FleetPolicy) (s : Loop) (ns : List Node)
    → AreCounted p s ns (decide_all fleet p s ns)
unfolding decide_all removed removed_in replaced
decide_all-AreCounted fleet p s [] = record {
  cluster = omega arith;
  cluster_room = inl refl;
  zones = λ zone. omega arith;
  zone_room = λ zone. inl refl;
  replacement = λ _. omega arith;
}
decide_all-AreCounted fleet p s (n ∷ ns) =
    let one = decide-IsCounted fleet p s n in
    let rest = decide_all-AreCounted fleet p (decide fleet p s n).1 ns in
    record {
      cluster = omega (arith, one.cluster, rest.cluster);
      cluster_room = grind (arith, one.cluster, rest.cluster, one.cluster_room, rest.cluster_room);
      zones = λ zone. omega (arith, one.zones zone, rest.zones zone);
      zone_room = λ zone.
          grind (arith, one.zones zone, rest.zones zone, one.zone_room zone, rest.zone_room zone);
      replacement = λ h. omega (arith, one.replacement h, rest.replacement h);
    }

removed_in-nil : (zone : String) (ns : List Node) → removed_in zone ns [] ≡ 0
unfolding removed_in
removed_in-nil zone [] = refl
removed_in-nil zone (n ∷ ns) = refl

-- One reconciliation never takes the cluster over its limit: it starts no repair, or the repairs
-- under way and those that it starts are together within the limit.
pub removed-le_limit :
    (nodes : List Node) (p : FleetPolicy) (disable : Bool) {r : ControllerResult}
    → evaluate_repair nodes p disable ≡ ok r
    → (removed r.decisions ≡ 0)
      ⊎ (cluster_repairs nodes + removed r.decisions ≤ p.max_concurrent_repairs_cluster)
unfolding removed
removed-le_limit nodes p disable h = elim (evaluate_repair-Outcome nodes p disable h) [
  | disabled d e ↦ inl (rw e)
  | systemic why d s e ↦ inl (rw e)
  | closed d s e ↦
      let all = decide_all-AreCounted nodes p (first_loop nodes p) (candidates nodes) in
      rw e (elim all.cluster_room [
        | inl idle ↦ inl idle
        | inr room ↦ inr (omega (arith, all.cluster, room))
      ])
]

-- Nor does it take a zone over the limit for a zone. Decisions are in the order of the candidates.
pub removed_in-le_limit :
    (nodes : List Node) (p : FleetPolicy) (disable : Bool) (zone : String) {r : ControllerResult}
    → evaluate_repair nodes p disable ≡ ok r
    → (removed_in zone (candidates nodes) r.decisions ≡ 0)
      ⊎ (zone_repairs nodes zone + removed_in zone (candidates nodes) r.decisions
          ≤ p.max_concurrent_repairs_per_zone)
removed_in-le_limit nodes p disable zone h = elim (evaluate_repair-Outcome nodes p disable h) [
  | disabled d e ↦ inl (rw e (removed_in-nil zone (candidates nodes)))
  | systemic why d s e ↦ inl (rw e (removed_in-nil zone (candidates nodes)))
  | closed d s e ↦
      let all = decide_all-AreCounted nodes p (first_loop nodes p) (candidates nodes) in
      rw e (elim (all.zone_room zone) [
        | inl idle ↦ inl idle
        | inr room ↦ inr (omega (arith, all.zones zone, room))
      ])
]

-- Where the policy requires a replacement to be ready before the next, one reconciliation replaces
-- at most one node, and none while a replacement under way is not ready.
pub replaced-le_one :
    (nodes : List Node) (p : FleetPolicy) (disable : Bool) {r : ControllerResult}
    → evaluate_repair nodes p disable ≡ ok r
    → p.require_replacement_ready_before_next ≡ true
    → replaced r.decisions ≤ if_one (replacement_gate_open nodes p)
unfolding replaced
replaced-le_one nodes p disable h needs = elim (evaluate_repair-Outcome nodes p disable h) [
  | disabled d e ↦ rw e (omega arith)
  | systemic why d s e ↦ rw e (omega arith)
  | closed d s e ↦
      let all = decide_all-AreCounted nodes p (first_loop nodes p) (candidates nodes) in
      rw e (omega (arith, all.replacement needs))
]
