-- ===== src/Tenant/Confined.antt =====
-- What the checks of a workload's containers say, where they find no error.
use staff_sre_platform_engin.Shared.{
  ℕ, suc, String, true, false, not, ◌&&◌, some, List, [], ◌∷◌, All, All-map, any-none, Json, bool,
  arr, obj, null, int, float, str, Object, get, get_or, fields, array, Place, key, contains,
  includes, is_empty_text, ◌≡◌, arith, subst, not-false, Option-cases, inl, inr,
}
use staff_sre_platform_engin.Shared.Contracts.{
  Clean, parts, both, report-none, flag-true, flag-false, mapping-value, object_of, word,
  word-nonempty, nonempty_string-value,
}
use staff_sre_platform_engin.Tenant.Package.{must_be_false, must_be_true, any_texts}
use staff_sre_platform_engin.Tenant.Workload.{
  check_security, check_egress, check_requested, check_container, check_raw_container,
  check_container_list,
}

pub must_be_false-bool :
    (o : Object) (name : String) (path : Place) (message : String)
    → Clean (must_be_false o name path message)
    → get o name ≡ bool false
unfolding must_be_false
must_be_false-bool o name path message h =
    let (_, h) = parts _ _ h in flag-false o name path (not-false _ (report-none _ _ _ h))

pub must_be_true-bool :
    (o : Object) (name : String) (path : Place) (message : String)
    → Clean (must_be_true o name path message)
    → get o name ≡ bool true
unfolding must_be_true
must_be_true-bool o name path message h =
    let (_, h) = parts _ _ h in flag-true o name path (not-false _ (report-none _ _ _ h))

-- A container: unprivileged, with an image by digest, and with declared destinations only.
pub record IsConfined (allowed : List String) (container : Object) : Type 0 where
  pub by_digest : includes (word (get container "image")) "@sha256:" ≡ true
  pub unprivileged : get (object_of (get container "securityContext")) "privileged" ≡ bool false
  pub not_root : get (object_of (get container "securityContext")) "runAsNonRoot" ≡ bool true
  pub no_escalation :
      get (object_of (get container "securityContext")) "allowPrivilegeEscalation" ≡ bool false
  pub requested : List String
  pub requested_read : any_texts (get_or container "requestedEgress" (array [])) ≡ some requested
  pub declared : All (λ d. contains allowed d ≡ true) requested

check_security-facts :
    (security : Object) (path : Place)
    → Clean (check_security security path)
    → (get security "privileged" ≡ bool false)
      × (get security "runAsNonRoot" ≡ bool true)
      × (get security "allowPrivilegeEscalation" ≡ bool false)
unfolding check_security
check_security-facts security path h =
    let (privileged, h) = both _ _ h in
    let (root, escalation) = both _ _ h in
    (
      must_be_false-bool security _ _ _ privileged,
      must_be_true-bool security _ _ _ root,
      must_be_false-bool security _ _ _ escalation,
    )

check_egress-facts :
    (allowed : List String) (v : Json) (path : Place)
    → Clean (check_egress allowed v path)
    → (requested : List String) × (any_texts v ≡ some requested)
      × All (λ d. contains allowed d ≡ true) requested
unfolding check_egress
check_egress-facts allowed v path h = elim (Option-cases (any_texts v)) [
  | inl e ↦ absurd (ground (arith, h, e))
  | inr (requested, e) ↦ (
    requested,
    e,
    All-map (λ d. not (contains allowed d) ≡ false) (λ d. contains allowed d ≡ true)
        (λ d n. not-false _ n) requested
        (any-none (λ d. not (contains allowed d)) requested
          (report-none _ _ _ (subst (λ o. Clean (check_requested allowed o path)) e h))),
  )
]

check_container-IsConfined :
    (allowed : List String) (container : Object) (path : Place)
    → Clean (check_container allowed container path)
    → IsConfined allowed container
unfolding check_container
check_container-IsConfined allowed container path h =
    let (_, h) = parts _ _ h in
    let (image, h) = parts _ _ h in
    let (digest, h) = both _ _ h in
    let (_, h) = parts _ _ h in
    let (security, h) = both _ _ h in
    let (_, h) = parts _ _ h in
    let (_, h) = parts _ _ h in
    let (_, h) = parts _ _ h in
    let (_, egress) = both _ _ h in
    let (privileged, root, escalation) =
      check_security-facts (object_of (get container "securityContext")) _ (
        subst (λ o. Clean (check_security o (key path "securityContext")))
          (mapping-value container "securityContext" path) security) in
    let (requested, read, declared) =
      check_egress-facts allowed (get_or container "requestedEgress" (array []))
        (key path "requestedEgress") egress in
    record {
      by_digest =
          pinned (word (get container "image")) (word-nonempty container "image" path image) (
            subst (λ t. (not (is_empty_text t) && not (includes t "@sha256:")) ≡ false)
              (nonempty_string-value container "image" path) (report-none _ _ _ digest));
      unprivileged = privileged;
      not_root = root;
      no_escalation = escalation;
      requested = requested;
      requested_read = read;
      declared = declared;
    }
  where
    pinned :
        (t : String)
        → is_empty_text t ≡ false
        → (not (is_empty_text t) && not (includes t "@sha256:")) ≡ false
        → includes t "@sha256:" ≡ true
    pinned t full e = ground (arith, full, e)

module _ (allowed : List String) where
  check_raw_container-IsConfined :
      (v : Json) (i : ℕ)
      → Clean (check_raw_container allowed v i)
      → IsConfined allowed (object_of v)
  unfolding check_raw_container
  check_raw_container-IsConfined (obj fs) i h = check_container-IsConfined allowed (fields fs) _ h
  check_raw_container-IsConfined null i h = absurd (cc h)
  check_raw_container-IsConfined (bool _) i h = absurd (cc h)
  check_raw_container-IsConfined (int _) i h = absurd (cc h)
  check_raw_container-IsConfined (float _ _) i h = absurd (cc h)
  check_raw_container-IsConfined (str _) i h = absurd (cc h)
  check_raw_container-IsConfined (arr _) i h = absurd (cc h)

  pub check_container_list-All :
      (i : ℕ) (vs : List Json)
      → Clean (check_container_list allowed i vs)
      → All (λ v. IsConfined allowed (object_of v)) vs
  unfolding check_container_list
  check_container_list-All i [] h = tt
  check_container_list-All i (v ∷ rest) h =
      let (first, h) = both _ _ h in
      (check_raw_container-IsConfined v i first, check_container_list-All (suc i) rest h)
