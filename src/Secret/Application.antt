-- ===== src/Secret/Application.antt =====
-- validate_secret_contract.py: the application, outages and the audit.
use staff_sre_platform_engin.Shared.{
  ℕ, ◌==◌, ltb, String, Bool, true, false, not, ◌&&◌, Option, none, some, List, [], ◌∷◌, Object,
  Place, key, contains, str_eq,
}
use staff_sre_platform_engin.Shared.Contracts.{
  Checked, fine, ◌>>=◌, ◌>>◌, report, nonempty_string, flag, positive_int, nonnegative_int, is_true,
  is_false,
}
use staff_sre_platform_engin.Secret.Authority.{Authentication, contract, exceeds}

pub record Application : Type 0 where
  pub consumption : String
  pub reload_method : String
  pub confirms_version : Option Bool
  pub startup_timeout : Option ℕ
  pub liveness_provider : Option Bool
  pub readiness_credential : Option Bool

pub record Outage : Type 0 where
  pub existing_cache : Option Bool
  pub new_stale : Option Bool
  pub maximum_stale : Option ℕ
  pub bounded_retry : Option Bool
  pub expiry_alert : Option ℕ

unfoldable pub read_application : Object → Checked Application
read_application application = do
  let path = contract "application"
  consumption ← nonempty_string application "consumption" path
  reload_method ← nonempty_string application "reloadMethod" path
  confirms_version ← flag application "confirmsDeliveredVersion" path
  startup_timeout ← positive_int application "startupTimeoutSeconds" path
  liveness_provider ← flag application "livenessDependsOnProvider" path
  readiness_credential ← flag application "readinessRequiresUsableCredential" path
  fine (record {
    consumption = consumption;
    reload_method = reload_method;
    confirms_version = confirms_version;
    startup_timeout = startup_timeout;
    liveness_provider = liveness_provider;
    readiness_credential = readiness_credential;
  })

unfoldable pub check_application : Application → Checked (Unit {0})
check_application a = do
  let path = contract "application"
  report
      (not (
        contains ("mounted-file" ∷ "environment-variable" ∷ "local-agent-api" ∷ "direct-api" ∷ [])
          a.consumption))
      (key path "consumption") "unsupported pattern"
  report
      (str_eq a.consumption "environment-variable"
        && not (contains ("rolling-restart" ∷ "process-restart" ∷ []) a.reload_method))
      (key path "reloadMethod") "environment variables require process restart"
  report
      (str_eq a.consumption "mounted-file"
        && contains ("none" ∷ "environment-refresh" ∷ []) a.reload_method)
      (key path "reloadMethod") "mounted files need explicit reopen or restart"
  report (not (is_true a.confirms_version)) (key path "confirmsDeliveredVersion")
      "application adoption evidence is required"
  report (exceeds a.startup_timeout 600) (key path "startupTimeoutSeconds")
      "exceeds bounded platform startup window"
  report (not (is_false a.liveness_provider)) (key path "livenessDependsOnProvider")
      "provider outage must not cause restart storms"
  report (not (is_true a.readiness_credential)) (key path "readinessRequiresUsableCredential")
      "must be true"

unfoldable pub read_outage : Object → Checked Outage
read_outage outage = do
  let path = contract "outage"
  existing_cache ← flag outage "existingWorkloadsMayUseValidCache" path
  new_stale ← flag outage "newPodsMayUseStaleCache" path
  maximum_stale ← nonnegative_int outage "maximumStaleMinutes" path
  bounded_retry ← flag outage "boundedRetry" path
  expiry_alert ← positive_int outage "expiryMarginAlertMinutes" path
  fine (record {
    existing_cache = existing_cache;
    new_stale = new_stale;
    maximum_stale = maximum_stale;
    bounded_retry = bounded_retry;
    expiry_alert = expiry_alert;
  })

-- `maximum in {None, 0}`
abbrev pub is_none_or_zero : Option ℕ → Bool
is_none_or_zero none = true
is_none_or_zero (some n) = n == 0

-- `a is not None and b is not None and a < b`
abbrev pub falls_short : Option ℕ → Option ℕ → Bool
falls_short (some a) (some b) = ltb a b
falls_short (some a) none = false
falls_short none b = false

unfoldable pub check_outage : Authentication → Outage → Checked (Unit {0})
check_outage auth o = do
  let path = contract "outage"
  report (not (is_true o.existing_cache)) (key path "existingWorkloadsMayUseValidCache")
      "continuity with still-valid credentials should be explicit"
  report (is_true o.new_stale && is_none_or_zero o.maximum_stale) (key path "maximumStaleMinutes")
      "stale startup requires a non-zero explicit bound"
  report (is_false o.new_stale && not (is_none_or_zero o.maximum_stale))
      (key path "maximumStaleMinutes") "must be zero when stale startup is prohibited"
  report (not (is_true o.bounded_retry)) (key path "boundedRetry") "must be true"
  report (falls_short o.expiry_alert auth.token_ttl) (key path "expiryMarginAlertMinutes")
      "should exceed one provider-auth token lifetime"

-- `for field in (...)`
unfoldable pub check_true : Object → Place → List String → Checked (Unit {0})
check_true parent path [] = fine tt
check_true parent path (field ∷ rest) = do
  value ← flag parent field path
  report (not (is_true value)) (key path field) "must be true"
  check_true parent path rest

abbrev pub audited : List String
audited =
    "secretReadsAudited" ∷ "policyChangesAudited" ∷ "rotationEventsAudited"
    ∷ "valueRedactionRequired" ∷ []
