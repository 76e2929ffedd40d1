-- ===== src/Policy/Denied.antt =====
-- When a resource is denied, without reference to the loop that collects violations.
use staff_sre_platform_engin.Shared.{
  has_text, DateTime, is_text, eq_iff, ℕ, suc, String, Bool, true, false, not, ◌&&◌, ◌||◌, Option,
  List, [], ◌∷◌, ◌++◌ as append, any, ok, Ensures, Ensures-bind, Ensures-at, Json, bool, str, obj,
  Object, get, get_or, ◌≡◌, ◌↔◌, refl, arith, sym, ◌∙◌, subst, is_empty_text, arr, null, int, float,
}
use staff_sre_platform_engin.Shared.Contracts.{object_of}
use staff_sre_platform_engin.Policy.Resource.{Violation, Identity, resource_identity, require_dict}
use staff_sre_platform_engin.Policy.Digests.{IsDigestImage, is_digest_image_iff}
use staff_sre_platform_engin.Policy.Evaluate.{
  Mode, enforce, Evaluation, deny, decision, is_active, evaluate, image_violations,
  privileged_violations, container_violations, is_digest_image, mode_of, Rules, read_rules,
  full_name, owner_violations,
}
use staff_sre_platform_engin.Policy.Documents.{
  require_dict-object, AreRead, read_rules-AreRead, IsIdentity, resource_identity-IsIdentity,
}
use staff_sre_platform_engin.Policy.Exceptions.{excepts, exceptions_of, active_exception-any}

-- A container has no image, or one without a digest in an environment that requires it.
abbrev pub bad_image : (environment : String) → List Json → Json → Bool
bad_image environment digest_environments (str image) =
    is_empty_text image
    || (any (λ v. is_text v environment) digest_environments && not (is_digest_image image))
bad_image environment digest_environments _ = true

abbrev pub is_set : Json → Bool
is_set (bool b) = b
is_set _ = false

module _ (from_iso : String → Option DateTime) (policy : Object)
    (resource_name environment : String) (now : ℕ) where
  -- A container has a bad image, or is privileged where that is denied, with no active exception.
  abbrev pub offends : (digest_environments privileged_environments : List Json) → Object → Bool
  offends digest_environments privileged_environments container =
      bad_image environment digest_environments (get container "image")
      || (any (λ v. is_text v environment) privileged_environments
          && is_set (get_or container "privileged" (bool false))
          && not
              (any (excepts from_iso resource_name "deny-privileged" now) (exceptions_of policy)))

any-append_or :
    (xs ys : List Violation) → any is_active (append xs ys) ≡ (any is_active xs || any is_active ys)
any-append_or [] ys = refl
any-append_or (x ∷ xs) ys = ground (arith, any-append_or xs ys)

image_violations-active :
    (environment : String) (digest_environments : List Json) (image : Json)
    → any is_active (image_violations environment digest_environments image)
      ≡ bad_image environment digest_environments image
unfolding image_violations
image_violations-active environment digest_environments image = ground arith

module _ (from_iso : String → Option DateTime) (policy : Object)
    (resource_name environment : String) (now : ℕ) where
  privileged_violations-active :
      (privileged_environments : List Json) (i : ℕ) (v : Json) {vs : List Violation}
      → privileged_violations from_iso policy resource_name environment now privileged_environments
          i v
        ≡ ok vs
      → any is_active vs ≡ (
          any (λ v. is_text v environment) privileged_environments
          && is_set v
          && not
              (any (excepts from_iso resource_name "deny-privileged" now) (exceptions_of policy)))
  unfolding privileged_violations
  privileged_violations-active privileged_environments i v h =
      ground (arith, h, active_exception-any from_iso resource_name "deny-privileged" now policy)

  container_violations-active :
      (digest_environments privileged_environments : List Json) (i : ℕ) (raws : List Json)
      → Ensures
          (λ vs.
            any is_active vs
            ≡ any
                (λ raw.
                  offends from_iso policy resource_name environment now digest_environments
                    privileged_environments
                    (object_of raw))
                raws)
          (container_violations from_iso policy resource_name environment now digest_environments
            privileged_environments i raws)
  unfolding container_violations
  container_violations-active ds ps i [] = refl
  container_violations-active ds ps i (raw ∷ rest) =
      Ensures-bind _ (require_dict raw "spec.containers[]") _ λ container e.
        Ensures-bind _
          (privileged_violations from_iso policy resource_name environment now ps i
            (get_or container "privileged" (bool false)))
          _
          λ privileged f.
            Ensures-bind _
              (container_violations from_iso policy resource_name environment now ds ps (suc i)
                rest)
              _
              λ others g.
                let image = get container "image" in
                ground (
                  arith,
                  any-append_or (image_violations environment ds image) (append privileged others),
                  any-append_or privileged others,
                  image_violations-active environment ds image,
                  privileged_violations-active ps i (get_or container "privileged" (bool false)) f,
                  require_dict-object raw _ e,
                  Ensures-at _ _ (container_violations-active ds ps (suc i) rest) g,
                )

mode_of-enforce_iff :
    (v : Json) (resource environment : String)
    → Ensures
        (λ (m : Mode). (m ≡ enforce) ↔ (is_text v "enforce" ≡ true))
        (mode_of v resource environment)
mode_of-enforce_iff (str m) resource environment = ground (
  arith,
  eq_iff m "audit",
  eq_iff m "warn",
  eq_iff m "enforce",
  eq_iff "audit" "enforce",
  eq_iff "warn" "enforce",
)
mode_of-enforce_iff null resource environment = tt
mode_of-enforce_iff (bool _) resource environment = tt
mode_of-enforce_iff (int _) resource environment = tt
mode_of-enforce_iff (float _ _) resource environment = tt
mode_of-enforce_iff (arr _) resource environment = tt
mode_of-enforce_iff (obj _) resource environment = tt

-- The owner's label is missing or empty, or a container offends.
abbrev pub is_offending :
    (String → Option DateTime) → (policy : Object) → Identity → Rules → (now : ℕ) → Bool
is_offending from_iso policy i rules now =
    not (has_text (get i.labels rules.owner_label))
    || any
        (λ raw.
          offends from_iso policy (full_name i) i.environment now rules.digest_environments
            rules.privileged_environments (object_of raw))
        rules.containers

-- The mode of the policy for an environment is "enforce".
abbrev pub is_enforced : Object → String → Bool
is_enforced policy environment =
    is_text (get (object_of (get policy "modesByEnvironment")) environment) "enforce"

decision-deny_iff :
    (mode : Mode) (vs : List Violation)
    → (decision mode vs ≡ deny) ↔ ((mode ≡ enforce) × (any is_active vs ≡ true))
unfolding decision
decision-deny_iff mode vs =
    (λ h. (ground (arith, h), ground (arith, h)), λ (h, k). ground (arith, h, k))

owner_violations-active :
    (labels : Object) (owner_label : String)
    → any is_active (owner_violations labels owner_label) ≡ not (has_text (get labels owner_label))
owner_violations-active labels owner_label = ground arith

module _ (from_iso : String → Option DateTime) (resource policy : Object) (now : ℕ) {i : Identity}
    {rules : Rules} (identified : resource_identity resource ≡ ok i)
    (ruled : read_rules resource policy ≡ ok rules) where
  abbrev Described : Evaluation → Type 0
  Described e =
      (any is_active e.violations ≡ is_offending from_iso policy i rules now)
      × ((e.mode ≡ enforce) ↔ (is_enforced policy i.environment ≡ true))

  evaluate-Described : Ensures Described (evaluate from_iso resource policy now)
  unfolding evaluate
  evaluate-Described = rw identified (
      Ensures-bind Described
        (require_dict (get policy "modesByEnvironment") "policy.modesByEnvironment") _
        λ modes e.
          Ensures-bind Described (mode_of (get modes i.environment) (full_name i) i.environment) _
            λ mode f. rw ruled (
              Ensures-bind Described
                (container_violations from_iso policy (full_name i) i.environment now
                  rules.digest_environments rules.privileged_environments 0 rules.containers)
                _
                λ found g. (
                  any-append_or (owner_violations i.labels rules.owner_label) found
                      ∙ cc (
                        owner_violations-active i.labels rules.owner_label,
                        Ensures-at _ _
                            (container_violations-active from_iso policy (full_name i) i.environment
                              now rules.digest_environments rules.privileged_environments 0
                              rules.containers)
                            g,
                      ),
                  subst
                      (λ (o : Object).
                        (mode ≡ enforce) ↔ (is_text (get o i.environment) "enforce" ≡ true))
                      (require_dict-object (get policy "modesByEnvironment") _ e)
                      (Ensures-at _ _
                        (mode_of-enforce_iff (get modes i.environment) (full_name i) i.environment)
                        f),
                )))

-- When an evaluation denies, what its identity and its rules are in the documents, and what an image by digest is.
pub record Denial (from_iso : String → Option DateTime) (resource policy : Object) (now : ℕ)
    (i : Identity) (rules : Rules) (e : Evaluation) : Type 0 where
  pub denied_iff : (decision e.mode e.violations ≡ deny) ↔ (
      (is_enforced policy i.environment ≡ true) × (is_offending from_iso policy i rules now ≡ true))
  pub identity_read : IsIdentity resource i
  pub rules_read : AreRead resource policy rules
  pub by_digest : (image : String) → (is_digest_image image ≡ true) ↔ IsDigestImage image

-- A resource that can be evaluated is denied exactly where the policy enforces in its environment, and
-- it has no owner's label or one of its containers offends: it has no image, or one without a digest
-- where that is required, or it asks for privilege where that is denied, and the policy has no
-- exception for this resource and this rule that expires after now. The identity, the owner's label,
-- the environments and the containers are those of the documents, and an image has a digest exactly where
-- it is a name on one line, "@sha256:" and 64 hexadecimal digits.
pub evaluate-denied_iff :
    (from_iso : String → Option DateTime) (resource policy : Object) (now : ℕ) {i : Identity}
    {rules : Rules} {e : Evaluation}
    → resource_identity resource ≡ ok i
    → read_rules resource policy ≡ ok rules
    → evaluate from_iso resource policy now ≡ ok e
    → Denial from_iso resource policy now i rules e
evaluate-denied_iff from_iso resource policy now {i} {rules} {e} identified ruled h =
    let (same, enforced) =
      Ensures-at _ _ (evaluate-Described from_iso resource policy now identified ruled) h in
    let (there, back) = decision-deny_iff e.mode e.violations in
    record {
      denied_iff = (
        λ d. (enforced.0 (there d).0, sym same ∙ (there d).1),
        λ (m, o). back (enforced.1 m, same ∙ o),
      );
      identity_read = Ensures-at _ _ (resource_identity-IsIdentity resource) identified;
      rules_read = Ensures-at _ _ (read_rules-AreRead resource policy) ruled;
      by_digest = is_digest_image_iff;
    }
