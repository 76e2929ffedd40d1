-- ===== src/Tenant/Examples.antt =====
-- The package and the workload of the lab, and one that takes too much.
use staff_sre_platform_engin.Shared.{
  pos, String, true, false, List, [], ◌∷◌, map, ◌≡◌, refl, Json, int, str, bool, array, object,
  Object, strip, includes,
}
use staff_sre_platform_engin.Shared.Contracts.{
  Problem, ◌>>=◌, ◌>>◌, report, mapping, nonempty_string, flag, object_of,
}
use staff_sre_platform_engin.Tenant.Validate.{validate, exit_code}
use staff_sre_platform_engin.Tenant.Promises.{IsIsolated, validate-IsIsolated}

abbrev tenant_part : Json
tenant_part = object (
    ("name", str "team-payments")
    ∷ ("trustLevel", str "cooperative-internal")
    ∷ ("namespace", str "payments-prod")
    ∷ ("environment", str "production")
    ∷ [])

abbrev labels_part : Json
labels_part = object (
    ("platform.example.com/owner", str "team-payments")
    ∷ ("pod-security.kubernetes.io/enforce", str "restricted")
    ∷ ("pod-security.kubernetes.io/enforce-version", str "v1.36")
    ∷ [])

abbrev rbac_part : Json
rbac_part = object (
    ("humanGroup", str "group:team-payments")
    ∷ ("allowClusterAdmin", bool false)
    ∷ ("allowRoleEscalation", bool false)
    ∷ ("allowImpersonation", bool false)
    ∷ [])

abbrev network_part : Json
network_part = object (
    ("defaultDenyIngress", bool true)
    ∷ ("defaultDenyEgress", bool true)
    ∷ (
      "allowedEgress",
      array ((str "platform-dns") ∷ (str "payments-database") ∷ (str "telemetry-gateway") ∷ []),
    )
    ∷ [])

abbrev quota_part : Json
quota_part = object (
    ("cpuRequests", str "20")
    ∷ ("memoryRequestsGiB", int (pos 64))
    ∷ ("pods", int (pos 100))
    ∷ ("servicesLoadBalancers", int (pos 2))
    ∷ [])

abbrev identity_part : Json
identity_part = object (
    ("serviceAccount", str "payments-api")
    ∷ ("cloudRole", str "payments-prod-api")
    ∷ ("trustedNamespace", str "payments-prod")
    ∷ ("trustedServiceAccount", str "payments-api")
    ∷ ("allowNodeRoleFallback", bool false)
    ∷ [])

abbrev storage_part : Json
storage_part = object (
    ("allowHostPath", bool false)
    ∷ ("encryptionRequired", bool true)
    ∷ ("deletionProtection", bool true)
    ∷ [])

abbrev observability_part : Json
observability_part =
    object (
      ("tenantScopedBackendAuthorization", bool true)
      ∷ ("crossTenantQueryAllowed", bool false)
      ∷ [])

abbrev lab_package : Object
lab_package =
    ("tenant", tenant_part)
    ∷ ("namespaceLabels", labels_part)
    ∷ ("rbac", rbac_part)
    ∷ ("network", network_part)
    ∷ ("quota", quota_part)
    ∷ ("identity", identity_part)
    ∷ ("storage", storage_part)
    ∷ ("observability", observability_part)
    ∷ []

abbrev metadata_part : Json
metadata_part = object (
    ("namespace", str "payments-prod")
    ∷ ("name", str "payments-api")
    ∷ ("labels", object (("platform.example.com/owner", str "team-payments") ∷ []))
    ∷ [])

abbrev spec_part : Json
spec_part = object (
    ("serviceAccountName", str "payments-api")
    ∷ ("hostNetwork", bool false)
    ∷ ("hostPID", bool false)
    ∷ ("hostIPC", bool false)
    ∷ (
      "containers",
      array (
          (object (
            ("name", str "app")
            ∷ (
              "image",
              str
                  "registry.example.com/payments/api@sha256:cccccccccccccccccccccccccccccccccccccccccccccccccccccccccccccccc",
            )
            ∷ (
              "securityContext",
              object (
                  ("privileged", bool false)
                  ∷ ("runAsNonRoot", bool true)
                  ∷ ("allowPrivilegeEscalation", bool false)
                  ∷ ("readOnlyRootFilesystem", bool true)
                  ∷ []),
            )
            ∷ (
              "resources",
              object (
                  ("requests", object (("cpu", str "500m") ∷ ("memoryMiB", int (pos 512)) ∷ []))
                  ∷ ("limits", object (("cpu", str "2") ∷ ("memoryMiB", int (pos 2048)) ∷ []))
                  ∷ []),
            )
            ∷ (
              "requestedEgress",
              array (
                  (str "platform-dns")
                  ∷ (str "payments-database")
                  ∷ (str "telemetry-gateway")
                  ∷ []),
            )
            ∷ []))
          ∷ []),
    )
    ∷ ("volumes", array ((object (("name", str "tmp") ∷ ("type", str "emptyDir") ∷ [])) ∷ []))
    ∷ [])

abbrev lab_workload : Object
lab_workload = ("metadata", metadata_part) ∷ ("spec", spec_part) ∷ []

lab_valid : validate lab_package lab_workload ≡ []
unfolding validate ◌>>=◌ ◌>>◌ report mapping nonempty_string flag strip includes
lab_valid = refl

not_objects : exit_code (array []) (object []) ≡ 2
unfolding exit_code
not_objects = refl

-- A workload that shares the host's network and mounts its paths, with no containers.
abbrev host_workload : Object
host_workload =
    ("metadata", metadata_part)
    ∷ (
      "spec",
      object (
          ("serviceAccountName", str "payments-api")
          ∷ ("hostNetwork", bool true)
          ∷ ("hostPID", bool false)
          ∷ ("hostIPC", bool false)
          ∷ ("volumes", array (object (("type", str "hostPath") ∷ []) ∷ []))
          ∷ []),
    )
    ∷ []

abbrev messages : List Problem → List String
messages = map (λ p. p.message)

host_refused :
    messages (validate lab_package host_workload)
    ≡ "must be false" ∷ "hostPath is prohibited" ∷ "must be a non-empty array" ∷ []
unfolding validate ◌>>=◌ ◌>>◌ report mapping nonempty_string flag strip includes
host_refused = refl

validate-IsIsolated_example :
    IsIsolated
      (object_of tenant_part)
      (object_of rbac_part)
      (object_of network_part)
      (object_of identity_part)
      (object_of observability_part)
      lab_workload
validate-IsIsolated_example = validate-IsIsolated lab_package lab_workload lab_valid
