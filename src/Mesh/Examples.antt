-- ===== src/Mesh/Examples.antt =====
-- The scenario of mesh_contract_lab.py as tests, and the theorems at concrete inputs.
use staff_sre_platform_engin.Shared.{
  ℕ, pos, ◌+ℤ◌, ◌-ℤ◌, max_ℤ, String, Bool, true, false, List, [], ◌∷◌, ◌≡◌, refl, ◌⊎◌, arith, ok,
  err, with_margin, share_of,
}
use staff_sre_platform_engin.Mesh.Contract.{
  ConfigSnapshot, nack, ack, apply_xds, Certificate, valid_at, evaluate_handshake, DnsEntry, fresh,
  bounded_stale_fallback, expired, evaluate_dns, RemoteCell, cell_headroom,
  write_authority_not_fenced, safe_to_shift, evaluate_failover, FailoverResult, retry_attempts,
  bad_retry_budget,
}
use staff_sre_platform_engin.Mesh.Xds.{next_active, after_all, IsLastGood, after_all-IsLastGood}
use staff_sre_platform_engin.Mesh.Rotation.{rotation-allowed}

-- To open this opens the contracts.
shift : RemoteCell → ℕ → ℕ → Bool → FailoverResult
unfolding apply_xds valid_at evaluate_handshake evaluate_dns cell_headroom evaluate_failover
    retry_attempts next_active after_all ◌+ℤ◌ ◌-ℤ◌ max_ℤ with_margin share_of
shift = evaluate_failover

abbrev snapshot : String → Bool → List String → ConfigSnapshot
snapshot version valid endpoints = record {
  version = version;
  is_valid = valid;
  endpoints = endpoints;
}

abbrev v41 : ConfigSnapshot
v41 = snapshot "v41" true ("10.0.1.10" ∷ "10.0.1.11" ∷ [])

abbrev v42 : ConfigSnapshot
v42 = snapshot "v42" false []

abbrev v43 : ConfigSnapshot
v43 = snapshot "v43" true ("10.0.2.10" ∷ "10.0.2.11" ∷ [])

xds_answers : ((apply_xds v41 v42).response ≡ nack) × ((apply_xds v41 v43).response ≡ ack)
unfolding shift
xds_answers = (refl, refl)

last_good : after_all v41 (v43 ∷ v42 ∷ []) ≡ v43
unfolding shift
last_good = refl

after_all-IsLastGood_example : IsLastGood v41 (v43 ∷ v42 ∷ []) (after_all v41 (v43 ∷ v42 ∷ []))
after_all-IsLastGood_example = after_all-IsLastGood v41 (v43 ∷ v42 ∷ [])

abbrev old_leaf : Certificate
old_leaf = record { serial = "leaf-old"; not_before = pos 0; not_after = pos 100; root = "root-a" }

abbrev new_leaf : Certificate
new_leaf = record { serial = "leaf-new"; not_before = pos 50; not_after = pos 200; root = "root-b" }

abbrev roots : List String
roots = "root-a" ∷ "root-b" ∷ []

retired_leaf : (evaluate_handshake old_leaf (pos 110) ("root-b" ∷ [])).handshake_allowed ≡ false
unfolding shift
retired_leaf = refl

rotation-allowed_example :
    ((evaluate_handshake old_leaf (pos 75) roots).handshake_allowed ≡ true)
    ⊎ ((evaluate_handshake new_leaf (pos 75) roots).handshake_allowed ≡ true)
rotation-allowed_example =
    rotation-allowed old_leaf new_leaf roots (pos 75) refl refl (omega arith) (omega arith)
      (omega arith)

abbrev dns : DnsEntry
dns = record {
  address = "10.0.9.10";
  observed_at = pos 0;
  ttl_seconds = pos 30;
  stale_if_error_seconds = pos 20;
}

dns_ages :
    (evaluate_dns dns (pos 20) true
      ≡ ok (record { usable = true; is_stale = false; reason = fresh }))
    × (evaluate_dns dns (pos 40) false
        ≡ ok (record { usable = true; is_stale = true; reason = bounded_stale_fallback }))
    × (evaluate_dns dns (pos 55) false
        ≡ ok (record { usable = false; is_stale = false; reason = expired }))
unfolding shift
dns_ages = (refl, refl, refl)

abbrev remote : Bool → RemoteCell
remote authority = record {
  name = "remote-b";
  capacity = pos 100;
  current_load = pos 50;
  gateway_healthy = true;
  identity_healthy = true;
  data_fresh = true;
  write_authority = authority;
}

shifts :
    ((shift (remote false) 25 20 true).reason ≡ write_authority_not_fenced)
    × ((shift (remote true) 25 20 true).reason ≡ safe_to_shift)
unfolding shift
shifts = (refl, refl)

budget : (retry_attempts 100 20 ≡ ok 120) × (retry_attempts 100 101 ≡ err bad_retry_budget)
unfolding shift
budget = (refl, refl)
