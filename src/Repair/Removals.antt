-- ===== src/Repair/Removals.antt =====
-- How many nodes one reconciliation of node_repair.py takes out of service.
use staff_sre_platform_engin.Shared.{ℕ, ◌+◌, Bool, true, false, not, ◌&&◌, List, [], ◌∷◌}
use staff_sre_platform_engin.Repair.Types.{Action, restart_once_and_verify, RepairDecision}
use staff_sre_platform_engin.Repair.Fleet.{is_repair}
use staff_sre_platform_engin.Repair.Controller.{is_hold}
use staff_sre_platform_engin.Repair.Justified.{Justified}
use staff_sre_platform_engin.Repair.Limits.{if_one}

abbrev pub is_restart : Action → Bool
is_restart restart_once_and_verify = true
is_restart _ = false

-- How many of the decisions restart a node, and how many put a node into a repair state.
unfoldable pub restarted : List RepairDecision → ℕ
restarted [] = 0
restarted (d ∷ ds) = if_one (is_restart d.action) + restarted ds

unfoldable pub entering : List RepairDecision → ℕ
entering [] = 0
entering (d ∷ ds) = if_one (not (is_hold d.action) && is_repair d.next_state) + entering ds
