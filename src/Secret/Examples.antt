-- ===== src/Secret/Examples.antt =====
-- The contract of the lab, and contracts with errors.
use staff_sre_platform_engin.Shared.{
  pos, true, false, [], ◌∷◌, map, ◌≡◌, refl, Json, int, str, bool, array, object, Object, key,
  strip, Place,
}
use staff_sre_platform_engin.Shared.Contracts.{
  Problem, ◌>>=◌, ◌>>◌, report, mapping, nonempty_string, flag, positive_int, nonnegative_int,
  string_list, object_of,
}
use staff_sre_platform_engin.Secret.Authority.{contract}
use staff_sre_platform_engin.Secret.Validate.{validate, exit_code}
use staff_sre_platform_engin.Secret.Promises.{IsSafe, validate-IsSafe}

abbrev service_part : Json
service_part = object (
    ("name", str "payments-api")
    ∷ ("owner", str "team-payments")
    ∷ ("environment", str "production")
    ∷ ("namespace", str "payments-prod")
    ∷ ("serviceAccount", str "payments-api")
    ∷ [])

abbrev authority_part : Json
authority_part = object (
    ("system", str "external-secret-manager")
    ∷ ("authoritative", bool true)
    ∷ ("region", str "us-east-1")
    ∷ ("remotePath", str "teams/payments/prod/database")
    ∷ ("allowedPathPrefix", str "teams/payments/prod/")
    ∷ ("credentialType", str "rotated-static")
    ∷ ("rotationPeriodHours", int (pos 168))
    ∷ ("overlapHours", int (pos 24))
    ∷ [])

abbrev auth_part : Json
auth_part = object (
    ("method", str "workload-identity")
    ∷ ("staticCredentialUsed", bool false)
    ∷ ("trustedNamespace", str "payments-prod")
    ∷ ("trustedServiceAccount", str "payments-api")
    ∷ ("audience", str "secrets.platform.example.com")
    ∷ ("maximumTokenTtlMinutes", int (pos 60))
    ∷ [])

abbrev delivery_part : Json
delivery_part = object (
    ("mechanism", str "operator-sync")
    ∷ ("storeScope", str "Namespace")
    ∷ ("storeNamespace", str "payments-prod")
    ∷ ("allowedNamespaces", array (str "payments-prod" ∷ []))
    ∷ ("targetKind", str "KubernetesSecret")
    ∷ ("targetName", str "payments-api-database")
    ∷ ("targetIsAuthority", bool false)
    ∷ ("refreshPolicy", str "Periodic")
    ∷ ("refreshIntervalMinutes", int (pos 30))
    ∷ ("deletionPolicy", str "Retain")
    ∷ ("creationPolicy", str "Owner")
    ∷ [])

abbrev application_part : Json
application_part = object (
    ("consumption", str "mounted-file")
    ∷ ("reloadMethod", str "signal-and-reopen")
    ∷ ("confirmsDeliveredVersion", bool true)
    ∷ ("startupTimeoutSeconds", int (pos 120))
    ∷ ("livenessDependsOnProvider", bool false)
    ∷ ("readinessRequiresUsableCredential", bool true)
    ∷ [])

abbrev outage_part : Json
outage_part = object (
    ("existingWorkloadsMayUseValidCache", bool true)
    ∷ ("newPodsMayUseStaleCache", bool false)
    ∷ ("maximumStaleMinutes", int (pos 0))
    ∷ ("boundedRetry", bool true)
    ∷ ("expiryMarginAlertMinutes", int (pos 120))
    ∷ [])

abbrev audit_part : Json
audit_part = object (
    ("secretReadsAudited", bool true)
    ∷ ("policyChangesAudited", bool true)
    ∷ ("rotationEventsAudited", bool true)
    ∷ ("valueRedactionRequired", bool true)
    ∷ [])

abbrev document_with : (auth delivery : Json) → Object
document_with auth delivery =
    ("service", service_part)
    ∷ ("authority", authority_part)
    ∷ ("providerAuthentication", auth)
    ∷ ("delivery", delivery)
    ∷ ("application", application_part)
    ∷ ("outage", outage_part)
    ∷ ("audit", audit_part)
    ∷ []

abbrev lab_contract : Object
lab_contract = document_with auth_part delivery_part

lab_contract_valid : validate lab_contract ≡ []
unfolding validate ◌>>=◌ ◌>>◌ report mapping nonempty_string flag positive_int nonnegative_int
    string_list strip
lab_contract_valid = refl

-- A contract with no section has an error for each, and for what is then missing.
empty_contract : exit_code (object []) ≡ 1
unfolding exit_code ◌>>=◌ ◌>>◌ report mapping nonempty_string flag positive_int nonnegative_int
    string_list strip
empty_contract = refl

not_an_object : exit_code (array []) ≡ 2
unfolding exit_code
not_an_object = refl

-- A delivery with no fields, under a sound contract.
abbrev place_of : Problem → Place
place_of p = p.place

no_delivery :
    map place_of (
      validate (
        document_with auth_part
          (object (("storeScope", str "Cluster") ∷ ("mechanism", str "direct-api") ∷ []))))
    ≡ map (key (contract "delivery")) (
        "storeNamespace" ∷ "allowedNamespaces" ∷ "targetKind" ∷ "targetName" ∷ "targetIsAuthority"
        ∷ "refreshPolicy" ∷ "refreshIntervalMinutes" ∷ "deletionPolicy" ∷ "creationPolicy"
        ∷ "allowedNamespaces" ∷ "targetKind" ∷ "targetName" ∷ "deletionPolicy" ∷ "creationPolicy"
        ∷ [])
unfolding validate ◌>>=◌ ◌>>◌ report mapping nonempty_string flag positive_int nonnegative_int
    string_list strip
no_delivery = refl

validate-IsSafe_example :
    IsSafe
      (object_of service_part)
      (object_of authority_part)
      (object_of auth_part)
      (object_of delivery_part)
      (object_of application_part)
      (object_of outage_part)
      (object_of audit_part)
validate-IsSafe_example = validate-IsSafe lab_contract lab_contract_valid
