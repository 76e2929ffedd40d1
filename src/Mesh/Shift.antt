-- ===== src/Mesh/Shift.antt =====
-- mesh_contract_lab.py: when traffic may be shifted to a remote cell.
use staff_sre_platform_engin.Shared.{
  ℕ, pos, ◌≤ℤ◌, Bool, true, not, ◌&&◌, ◌||◌, ◌≡◌, ◌↔◌, arith, with_margin,
}
use staff_sre_platform_engin.Mesh.Contract.{RemoteCell, cell_headroom, evaluate_failover}

-- Every check of the paths, the data and the authority is passed.
abbrev pub is_ready : RemoteCell → (requires_write_authority : Bool) → Bool
is_ready cell requires =
    cell.gateway_healthy
    && (cell.identity_healthy && (cell.data_fresh && (not requires || cell.write_authority)))

pub evaluate_failover-allowed_iff :
    (cell : RemoteCell) (traffic margin : ℕ) (requires : Bool)
    → ((evaluate_failover cell traffic margin requires).allowed ≡ true)
      ↔ ((is_ready cell requires ≡ true) × (pos (with_margin traffic margin) ≤ℤ cell_headroom cell))
unfolding evaluate_failover
evaluate_failover-allowed_iff cell traffic margin requires =
    (λ h. (ground (arith, h), ground (arith, h)), λ (a, b). ground (arith, a, b))
