-- ===== src/Secret/Sound.antt =====
-- What the readers and checks of each section say, where they find no error.
use text.Mathlib.Text.{starts_with}
use staff_sre_platform_engin.Shared.{
  contains, [], ◌∷◌, not, ◌&&◌, ℕ, ◌≤◌, ◌<◌, String, true, false, some, int, pos, bool, Object, get,
  Place, is_empty_text, ◌≡◌, arith, subst, sym, ◌∙◌, not-false,
}
use staff_sre_platform_engin.Shared.Contracts.{
  Clean, ◌>>=◌, parts, both, report-none, flag-true, flag-false, positive_int-int, disagree-eq,
  word, word-nonempty, nonempty_string-value, nonempty_string, positive_int, is_true, is_false,
  disagree,
}
use staff_sre_platform_engin.Secret.Authority.{
  Service, Authority, Authentication, contract, read_service, read_authority, check_authority,
  read_authentication, check_authentication, reaches, exceeds,
}

-- What the validator reads of a service.
pub record ServiceFacts (o : Object) (s : Service) : Type 0 where
  pub namespace_read : s.namespace ≡ word (get o "namespace")
  pub account_read : s.service_account ≡ word (get o "serviceAccount")
  pub has_namespace : is_empty_text s.namespace ≡ false
  pub has_account : is_empty_text s.service_account ≡ false

module _ (o : Object) where
  service_names :
      Clean (read_service o)
      → (is_empty_text (word (get o "namespace")) ≡ false)
        × (is_empty_text (word (get o "serviceAccount")) ≡ false)
  unfolding read_service
  service_names h =
      let (_, h) = parts _ _ h in
      let (_, h) = parts _ _ h in
      let (_, h) = parts _ _ h in
      let (namespace, h) = parts _ _ h in
      let (account, _) = parts _ _ h in (word-nonempty o _ _ namespace, word-nonempty o _ _ account)

  read_service-namespace : (read_service o).value.namespace ≡ word (get o "namespace")
  unfolding read_service ◌>>=◌
  read_service-namespace = nonempty_string-value o "namespace" _

  read_service-account : (read_service o).value.service_account ≡ word (get o "serviceAccount")
  unfolding read_service ◌>>=◌
  read_service-account = nonempty_string-value o "serviceAccount" _

  pub read_service-ServiceFacts : Clean (read_service o) → ServiceFacts o (read_service o).value
  read_service-ServiceFacts h =
      let (n, a) = service_names h in
      record {
        namespace_read = read_service-namespace;
        account_read = read_service-account;
        has_namespace = subst (λ t. is_empty_text t ≡ false) (sym read_service-namespace) n;
        has_account = subst (λ t. is_empty_text t ≡ false) (sym read_service-account) a;
      }

-- The authority, and the hours for which an old credential stays valid.
pub record AuthorityFacts (o : Object) (a : Authority) : Type 0 where
  pub authoritative : get o "authoritative" ≡ bool true
  pub external :
      contains ("kubernetes-secret" ∷ "environment-variable" ∷ "git" ∷ []) (word (get o "system"))
      ≡ false
  pub within_prefix :
      starts_with (word (get o "remotePath")) (word (get o "allowedPathPrefix")) ≡ true
  pub lifecycle :
      contains
        ("dynamic" ∷ "rotated-static" ∷ "certificate" ∷ "token" ∷ [])
        (word (get o "credentialType"))
      ≡ true
  pub rotation : ℕ
  pub overlap : ℕ
  pub rotation_read : get o "rotationPeriodHours" ≡ int (pos rotation)
  pub overlap_read : get o "overlapHours" ≡ int (pos overlap)
  pub overlap_value : a.overlap_hours ≡ some overlap
  pub shorter : overlap < rotation

module _ (o : Object) where
  authority_hours :
      Clean (read_authority o)
      → (is_empty_text (word (get o "remotePath")) ≡ false)
        × (is_empty_text (word (get o "allowedPathPrefix")) ≡ false)
        × Clean (positive_int o "rotationPeriodHours" (contract "authority"))
        × Clean (positive_int o "overlapHours" (contract "authority"))
  unfolding read_authority
  authority_hours h =
      let (_, h) = parts _ _ h in
      let (_, h) = parts _ _ h in
      let (_, h) = parts _ _ h in
      let (path, h) = parts _ _ h in
      let (prefix, h) = parts _ _ h in
      let (_, h) = parts _ _ h in
      let (rotation, h) = parts _ _ h in
      let (overlap, _) = parts _ _ h in
      (word-nonempty o _ _ path, word-nonempty o _ _ prefix, rotation, overlap)

  check_authority-facts :
      (a : Authority)
      → Clean (check_authority a)
      → (is_true a.authoritative ≡ true)
        × (contains ("kubernetes-secret" ∷ "environment-variable" ∷ "git" ∷ []) a.system ≡ false)
        × ((not (is_empty_text a.remote_path)
              && not (is_empty_text a.allowed_prefix)
              && not (starts_with a.remote_path a.allowed_prefix))
            ≡ false)
        × (contains ("dynamic" ∷ "rotated-static" ∷ "certificate" ∷ "token" ∷ []) a.credential_type
            ≡ true)
        × (reaches a.overlap_hours a.rotation_hours 1 ≡ false)
  unfolding check_authority
  check_authority-facts a h =
      let (authoritative, h) = both _ _ h in
      let (system, h) = both _ _ h in
      let (prefix, h) = both _ _ h in
      let (lifecycle, hours) = both _ _ h in
      (
        not-false _ (report-none _ _ _ authoritative),
        report-none _ _ _ system,
        report-none _ _ _ prefix,
        not-false _ (report-none _ _ _ lifecycle),
        report-none _ _ _ hours,
      )

  read_authority-system : (read_authority o).value.system ≡ word (get o "system")
  unfolding read_authority ◌>>=◌
  read_authority-system = nonempty_string-value o "system" _

  read_authority-path : (read_authority o).value.remote_path ≡ word (get o "remotePath")
  unfolding read_authority ◌>>=◌
  read_authority-path = nonempty_string-value o "remotePath" _

  read_authority-prefix : (read_authority o).value.allowed_prefix ≡ word (get o "allowedPathPrefix")
  unfolding read_authority ◌>>=◌
  read_authority-prefix = nonempty_string-value o "allowedPathPrefix" _

  read_authority-lifecycle :
      (read_authority o).value.credential_type ≡ word (get o "credentialType")
  unfolding read_authority ◌>>=◌
  read_authority-lifecycle = nonempty_string-value o "credentialType" _

  -- A path that is not outside its prefix, where neither is empty, starts with it.
  prefixed :
      (path prefix : String)
      → is_empty_text path ≡ false
      → is_empty_text prefix ≡ false
      → (not (is_empty_text path) && not (is_empty_text prefix) && not (starts_with path prefix))
        ≡ false
      → starts_with path prefix ≡ true
  prefixed path prefix a b e = ground (arith, a, b, e)

  pub read_authority-AuthorityFacts :
      Clean (read_authority o)
      → Clean (check_authority (read_authority o).value)
      → AuthorityFacts o (read_authority o).value
  unfolding read_authority ◌>>=◌
  read_authority-AuthorityFacts h c =
      let (path, prefix, r, v) = authority_hours h in
      let (rotation, rv, rg) = positive_int-int o "rotationPeriodHours" _ r in
      let (overlap, ov, og) = positive_int-int o "overlapHours" _ v in
      let (authoritative, system, inside, lifecycle, shorter) =
        check_authority-facts (read_authority o).value c in
      record {
        authoritative = flag-true o "authoritative" _ authoritative;
        external = rw (sym read_authority-system) system;
        within_prefix =
            prefixed _ _ path prefix
              (rw (sym read_authority-path, sym read_authority-prefix) inside);
        lifecycle = rw (sym read_authority-lifecycle) lifecycle;
        rotation = rotation;
        overlap = overlap;
        rotation_read = rg;
        overlap_read = og;
        overlap_value = ov;
        shorter = ground (arith, shorter, rv, ov);
      }

-- The workload identity: bound to the service, without a static credential, and short-lived.
pub record AuthenticationFacts (service o : Object) (p : Authentication) : Type 0 where
  pub workload_method :
      contains
        ("workload-identity" ∷ "federated-oidc" ∷ "vault-kubernetes-auth" ∷ [])
        (word (get o "method"))
      ≡ true
  pub specific_audience : contains ("*" ∷ "default" ∷ "" ∷ []) (word (get o "audience")) ≡ false
  pub no_static_credential : get o "staticCredentialUsed" ≡ bool false
  pub bound_namespace : word (get o "trustedNamespace") ≡ word (get service "namespace")
  pub bound_account : word (get o "trustedServiceAccount") ≡ word (get service "serviceAccount")
  pub token_minutes : ℕ
  pub token_read : get o "maximumTokenTtlMinutes" ≡ int (pos token_minutes)
  pub token_value : p.token_ttl ≡ some token_minutes
  pub short_lived : token_minutes ≤ 120

module _ (o : Object) where
  authentication_reads :
      Clean (read_authentication o)
      → (is_empty_text (word (get o "trustedNamespace")) ≡ false)
        × (is_empty_text (word (get o "trustedServiceAccount")) ≡ false)
        × Clean (positive_int o "maximumTokenTtlMinutes" (contract "providerAuthentication"))
  unfolding read_authentication
  authentication_reads h =
      let (_, h) = parts _ _ h in
      let (_, h) = parts _ _ h in
      let (namespace, h) = parts _ _ h in
      let (account, h) = parts _ _ h in
      let (_, h) = parts _ _ h in
      let (token, _) = parts _ _ h in
      (word-nonempty o _ _ namespace, word-nonempty o _ _ account, token)

  check_authentication-facts :
      (s : Service) (p : Authentication)
      → Clean (check_authentication s p)
      → (contains ("workload-identity" ∷ "federated-oidc" ∷ "vault-kubernetes-auth" ∷ []) p.method
          ≡ true)
        × (is_false p.static_used ≡ true)
        × (disagree p.trusted_namespace s.namespace ≡ false)
        × (disagree p.trusted_service_account s.service_account ≡ false)
        × (contains ("*" ∷ "default" ∷ "" ∷ []) p.audience ≡ false)
        × (exceeds p.token_ttl 120 ≡ false)
  unfolding check_authentication
  check_authentication-facts s p h =
      let (method, h) = both _ _ h in
      let (static, h) = both _ _ h in
      let (namespace, h) = both _ _ h in
      let (account, h) = both _ _ h in
      let (audience, token) = both _ _ h in
      (
        not-false _ (report-none _ _ _ method),
        not-false _ (report-none _ _ _ static),
        report-none _ _ _ namespace,
        report-none _ _ _ account,
        report-none _ _ _ audience,
        report-none _ _ _ token,
      )

  read_authentication-method : (read_authentication o).value.method ≡ word (get o "method")
  unfolding read_authentication ◌>>=◌
  read_authentication-method = nonempty_string-value o "method" _

  read_authentication-audience : (read_authentication o).value.audience ≡ word (get o "audience")
  unfolding read_authentication ◌>>=◌
  read_authentication-audience = nonempty_string-value o "audience" _

  -- A name that does not disagree with one of the service is the same.
  agreed :
      (name : String) (path : Place) {theirs known : String}
      → is_empty_text (word (get o name)) ≡ false
      → is_empty_text theirs ≡ false
      → theirs ≡ known
      → disagree (nonempty_string o name path).value theirs ≡ false
      → word (get o name) ≡ known
  agreed name path {theirs} full full' same e =
      disagree-eq (word (get o name)) theirs full full'
        (subst (λ t. disagree t theirs ≡ false) (nonempty_string-value o name path) e)
      ∙ same

  pub read_authentication-AuthenticationFacts :
      (service : Object) (s : Service)
      → ServiceFacts service s
      → Clean (read_authentication o)
      → Clean (check_authentication s (read_authentication o).value)
      → AuthenticationFacts service o (read_authentication o).value
  unfolding read_authentication ◌>>=◌
  read_authentication-AuthenticationFacts service s f h c =
      let (n, a, t) = authentication_reads h in
      let (token, tv, tg) = positive_int-int o "maximumTokenTtlMinutes" _ t in
      let (method, static, dn, da, audience, short) =
        check_authentication-facts s (read_authentication o).value c in
      record {
        workload_method = rw (sym read_authentication-method) method;
        specific_audience = rw (sym read_authentication-audience) audience;
        no_static_credential = flag-false o "staticCredentialUsed" _ static;
        bound_namespace = agreed "trustedNamespace" _ n f.has_namespace f.namespace_read dn;
        bound_account = agreed "trustedServiceAccount" _ a f.has_account f.account_read da;
        token_minutes = token;
        token_read = tg;
        token_value = tv;
        short_lived = ground (arith, short, tv);
      }
