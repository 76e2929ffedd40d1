-- ===== src/Repair/Safety.antt =====
-- The decisions of one reconciliation of node_repair.py, as rules on the counts of the loop.
use staff_sre_platform_engin.Shared.{List, [], ◌∷◌}
use staff_sre_platform_engin.Repair.Types.{Node, FleetPolicy, RepairDecision}
use staff_sre_platform_engin.Repair.Controller.{Loop}
use staff_sre_platform_engin.Repair.Justified.{Justified}

-- One decision for each node, in the same order, each by a rule on the counts that those before it
-- leave.
pub data AllJustified (fleet : List Node) (p : FleetPolicy)
    : Loop → List Node → List RepairDecision → Type 0 where
  no_node : {s : Loop} → AllJustified fleet p s [] []
  next_node :
      {s s' : Loop} {n : Node} {ns : List Node} {d : RepairDecision} {ds : List RepairDecision}
      → Justified fleet p s n (d, s')
      → AllJustified fleet p s' ns ds
      → AllJustified fleet p s (n ∷ ns) (d ∷ ds)
