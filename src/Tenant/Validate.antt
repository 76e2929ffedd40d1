-- ===== src/Tenant/Validate.antt =====
-- validate_tenant.py: `validate` and the outcome of `main`.
use staff_sre_platform_engin.Shared.{ℕ, List, [], ◌∷◌, Object, Json, obj, fields, top}
use staff_sre_platform_engin.Shared.Contracts.{Checked, Problem, ◌>>=◌, ◌>>◌, mapping}
use staff_sre_platform_engin.Tenant.Package.{
  read_tenant, check_tenant, check_labels, check_rbac, check_network, check_quota, read_identity,
  check_identity, check_storage, check_observability,
}
use staff_sre_platform_engin.Tenant.Workload.{workload, check_metadata, check_spec}

unfoldable pub checked_sections :
    (tenant labels rbac network quota identity storage observability workload_document : Object)
    → Checked (Unit {0})
unfolding read_tenant check_tenant check_labels check_rbac check_network check_quota read_identity
    check_identity check_storage check_observability check_metadata check_spec
checked_sections tenant labels rbac network quota identity storage observability workload_document =
    do
      t ← read_tenant tenant
      check_tenant t
      check_labels t labels
      check_rbac rbac
      allowed ← check_network network
      check_quota quota
      i ← read_identity identity
      check_identity t i identity
      check_storage t storage
      check_observability observability
      metadata ← mapping workload_document "metadata" (top "workload")
      spec ← mapping workload_document "spec" (top "workload")
      workload_labels ← mapping metadata "labels" (workload "metadata")
      check_metadata t metadata workload_labels
      check_spec allowed i spec

unfoldable pub checked_package : (document workload_document : Object) → Checked (Unit {0})
unfolding checked_sections
checked_package document workload_document = do
  let path = top "package"
  tenant ← mapping document "tenant" path
  labels ← mapping document "namespaceLabels" path
  rbac ← mapping document "rbac" path
  network ← mapping document "network" path
  quota ← mapping document "quota" path
  identity ← mapping document "identity" path
  storage ← mapping document "storage" path
  observability ← mapping document "observability" path
  checked_sections tenant labels rbac network quota identity storage observability workload_document

unfoldable pub validate : (document workload_document : Object) → List Problem
unfolding checked_package
validate document workload_document = (checked_package document workload_document).errors

-- What `main` returns for the two parsed files.
unfoldable pub exit_code : (document workload_document : Json) → ℕ
unfolding validate
exit_code (obj p) (obj w) = elim (validate (fields p) (fields w)) [ [] ↦ 0 | _ ∷ _ ↦ 1 ]
exit_code _ _ = 2
