-- ===== src/Secret/Outages.antt =====
-- The sections about the application, outages and the audit, where they have no error.
use staff_sre_platform_engin.Shared.{
  ◌≢◌, ◌⊎◌, inl, inr, same-or, ℕ, ◌≤◌, String, Bool, true, false, not, ◌&&◌, some, List, [], ◌∷◌,
  All, int, pos, bool, Object, get, Place, contains, str_eq, eq_iff, ◌≡◌, arith, subst, ◌∙◌,
  not-false,
}
use staff_sre_platform_engin.Shared.Contracts.{
  Clean, ◌>>=◌, parts, both, report-none, flag-true, flag-false, positive_int-int, word,
  nonempty_string-value, nonempty_string, flag, positive_int, nonnegative_int, is_true, is_false,
}
use staff_sre_platform_engin.Secret.Authority.{Authentication, contract}
use staff_sre_platform_engin.Secret.Application.{
  Application, Outage, read_application, check_application, read_outage, check_outage, check_true,
  is_none_or_zero, falls_short,
}

-- The application takes up new versions, and only readiness depends on the credential.
pub record ApplicationFacts (o : Object) : Type 0 where
  pub confirms : get o "confirmsDeliveredVersion" ≡ bool true
  pub alive_without_provider : get o "livenessDependsOnProvider" ≡ bool false
  pub ready_with_credential : get o "readinessRequiresUsableCredential" ≡ bool true
  pub restarts :
      (word (get o "consumption") ≢ "environment-variable")
      ⊎ (contains ("rolling-restart" ∷ "process-restart" ∷ []) (word (get o "reloadMethod")) ≡ true)

check_application-facts :
    (a : Application)
    → Clean (check_application a)
    → ((str_eq a.consumption "environment-variable"
          && not (contains ("rolling-restart" ∷ "process-restart" ∷ []) a.reload_method))
        ≡ false)
      × (is_true a.confirms_version ≡ true)
      × (is_false a.liveness_provider ≡ true)
      × (is_true a.readiness_credential ≡ true)
unfolding check_application
check_application-facts a h =
    let (_, h) = both _ _ h in
    let (restart, h) = both _ _ h in
    let (_, h) = both _ _ h in
    let (confirms, h) = both _ _ h in
    let (_, h) = both _ _ h in
    let (liveness, readiness) = both _ _ h in
    (
      report-none _ _ _ restart,
      not-false _ (report-none _ _ _ confirms),
      not-false _ (report-none _ _ _ liveness),
      not-false _ (report-none _ _ _ readiness),
    )

-- The second test holds where the first does.
implied : (a b : Bool) → (a && not b) ≡ false → a ≡ true → b ≡ true
implied a b h e = ground (arith, h, e)

module _ (o : Object) where
  pub read_application-ApplicationFacts :
      Clean (check_application (read_application o).value) → ApplicationFacts o
  unfolding read_application ◌>>=◌
  read_application-ApplicationFacts c =
      let (restart, confirms, liveness, readiness) =
        check_application-facts (read_application o).value c in
      record {
        confirms = flag-true o "confirmsDeliveredVersion" _ confirms;
        alive_without_provider = flag-false o "livenessDependsOnProvider" _ liveness;
        ready_with_credential = flag-true o "readinessRequiresUsableCredential" _ readiness;
        restarts = same-or (word (get o "consumption")) "environment-variable" λ e.
            subst (λ t. contains ("rolling-restart" ∷ "process-restart" ∷ []) t ≡ true)
              (nonempty_string-value o "reloadMethod" _)
              (implied _ _ restart (
                (eq_iff (nonempty_string o "consumption" _).value "environment-variable").1
                  (nonempty_string-value o "consumption" _ ∙ e)));
      }

-- Workloads outlast an outage of the provider, within the stated bound.
pub record OutageFacts (o : Object) (token_minutes : ℕ) : Type 0 where
  pub continues : get o "existingWorkloadsMayUseValidCache" ≡ bool true
  pub bounded_retry : get o "boundedRetry" ≡ bool true
  pub no_stale_start :
      (get o "newPodsMayUseStaleCache" ≡ bool true) ⊎ (get o "maximumStaleMinutes" ≡ int (pos 0))
  pub margin : ℕ
  pub margin_read : get o "expiryMarginAlertMinutes" ≡ int (pos margin)
  pub margin_enough : token_minutes ≤ margin

module _ (o : Object) where
  outage_reads :
      Clean (read_outage o)
      → Clean (flag o "newPodsMayUseStaleCache" (contract "outage"))
        × Clean (nonnegative_int o "maximumStaleMinutes" (contract "outage"))
        × Clean (positive_int o "expiryMarginAlertMinutes" (contract "outage"))
  unfolding read_outage
  outage_reads h =
      let (_, h) = parts _ _ h in
      let (new, h) = parts _ _ h in
      let (stale, h) = parts _ _ h in
      let (_, h) = parts _ _ h in let (margin, _) = parts _ _ h in (new, stale, margin)

  check_outage-facts :
      (p : Authentication) (u : Outage)
      → Clean (check_outage p u)
      → (is_true u.existing_cache ≡ true)
        × ((is_false u.new_stale && not (is_none_or_zero u.maximum_stale)) ≡ false)
        × (is_true u.bounded_retry ≡ true)
        × (falls_short u.expiry_alert p.token_ttl ≡ false)
  unfolding check_outage
  check_outage-facts p u h =
      let (continues, h) = both _ _ h in
      let (_, h) = both _ _ h in
      let (stale, h) = both _ _ h in
      let (retry, margin) = both _ _ h in
      (
        not-false _ (report-none _ _ _ continues),
        report-none _ _ _ stale,
        not-false _ (report-none _ _ _ retry),
        report-none _ _ _ margin,
      )

  -- A stale bound that is read, and none or zero, is zero.
  zero_bound :
      (path : Place)
      → Clean (nonnegative_int o "maximumStaleMinutes" path)
      → is_none_or_zero (nonnegative_int o "maximumStaleMinutes" path).value ≡ true
      → get o "maximumStaleMinutes" ≡ int (pos 0)
  unfolding nonnegative_int
  zero_bound path h e = ground (arith, h, e)

  -- A flag that is read is set, or read as false.
  true_or_false :
      (name : String) (path : Place)
      → Clean (flag o name path)
      → (get o name ≡ bool true) ⊎ (is_false (flag o name path).value ≡ true)
  unfolding flag
  true_or_false name path h = ground (arith, h)

  pub read_outage-OutageFacts :
      (p : Authentication) {token_minutes : ℕ}
      → p.token_ttl ≡ some token_minutes
      → Clean (read_outage o)
      → Clean (check_outage p (read_outage o).value)
      → OutageFacts o token_minutes
  unfolding read_outage ◌>>=◌
  read_outage-OutageFacts p tv h c =
      let (n, s, m) = outage_reads h in
      let (margin, mv, mg) = positive_int-int o "expiryMarginAlertMinutes" _ m in
      let (continues, stale, retry, enough) = check_outage-facts p (read_outage o).value c in
      record {
        continues = flag-true o "existingWorkloadsMayUseValidCache" _ continues;
        bounded_retry = flag-true o "boundedRetry" _ retry;
        no_stale_start = elim (true_or_false "newPodsMayUseStaleCache" _ n) [
          | inl set ↦ inl set
          | inr unset ↦ inr (zero_bound _ s (implied _ _ stale unset))
        ];
        margin = margin;
        margin_read = mg;
        margin_enough = ground (arith, enough, mv, tv);
      }

  pub check_true-All :
      (path : Place) (names : List String)
      → Clean (check_true o path names)
      → All (λ name. get o name ≡ bool true) names
  unfolding check_true
  check_true-All path [] h = tt
  check_true-All path (name ∷ rest) h =
      let (_, h) = parts _ _ h in
      let (set, h) = both _ _ h in
      (flag-true o name _ (not-false _ (report-none _ _ _ set)), check_true-All path rest h)
