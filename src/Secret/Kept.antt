-- ===== src/Secret/Kept.antt =====
-- The sections about delivery, application, outages and audit, where they have no error.
use staff_sre_platform_engin.Shared.{
  ◌≢◌, ◌⊎◌, same-or, ◌*◌, ℕ, ◌<◌, String, true, false, not, ◌&&◌, some, List, All, int, pos, bool,
  Object, get, Place, contains, is_empty_text, str_eq, eq_iff, ◌≡◌, refl, arith, any, any-none,
  All-map, subst, ◌∙◌, if◌then◌else◌, not-false,
}
use staff_sre_platform_engin.Shared.Contracts.{
  Clean, ◌>>=◌, parts, both, report-none, flag-false, positive_int-int, disagree-eq, word,
  word-nonempty, nonempty_string-value, nonempty_string, positive_int, is_false, disagree,
}
use staff_sre_platform_engin.Secret.Authority.{Service, Authority, contract, reaches}
use staff_sre_platform_engin.Secret.Delivery.{
  Delivery, read_delivery, check_delivery, check_namespaced_store, check_cluster_store,
  check_target, check_operator_sync,
}
use staff_sre_platform_engin.Secret.Sound.{ServiceFacts}

-- A refresh comes within the time in which the old credential is valid; a namespaced store serves
-- the namespace of the service only; and a synchronized Secret is a cache.
pub record DeliveryFacts (service o : Object) (overlap : ℕ) (d : Delivery) : Type 0 where
  pub refresh : ℕ
  pub refresh_read : get o "refreshIntervalMinutes" ≡ int (pos refresh)
  pub in_time : refresh < overlap * 60
  pub own_store :
      (word (get o "storeScope") ≢ "Namespace")
      ⊎ ((word (get o "storeNamespace") ≡ word (get service "namespace"))
          × (contains d.allowed_namespaces (word (get service "namespace")) ≡ true)
          × All (λ n. n ≡ word (get service "namespace")) d.allowed_namespaces)
  pub only_a_cache :
      (word (get o "mechanism") ≢ "operator-sync") ⊎ (get o "targetIsAuthority" ≡ bool false)

check_namespaced_store-facts :
    (s : Service) (d : Delivery)
    → Clean (check_namespaced_store s d)
    → (disagree d.store_namespace s.namespace ≡ false)
      × ((not (is_empty_text s.namespace) && not (contains d.allowed_namespaces s.namespace))
          ≡ false)
      × (any (λ n. not (str_eq n s.namespace)) d.allowed_namespaces ≡ false)
unfolding check_namespaced_store
check_namespaced_store-facts s d h =
    let (store, h) = both _ _ h in
    let (own, others) = both _ _ h in
    (report-none _ _ _ store, report-none _ _ _ own, report-none _ _ _ others)

check_operator_sync-facts :
    (d : Delivery) → Clean (check_operator_sync d) → is_false d.target_is_authority ≡ true
unfolding check_operator_sync
check_operator_sync-facts d h =
    let (_, h) = both _ _ h in let (cache, _) = both _ _ h in not-false _ (report-none _ _ _ cache)

check_target-sync :
    (d : Delivery)
    → str_eq d.mechanism "operator-sync" ≡ true
    → check_target d ≡ check_operator_sync d
unfolding check_target
check_target-sync d e = rw e refl

check_delivery-facts :
    (s : Service) (a : Authority) (d : Delivery)
    → Clean (check_delivery s a d)
    → (str_eq d.store_scope "Namespace" ≡ true → Clean (check_namespaced_store s d))
      × (str_eq d.mechanism "operator-sync" ≡ true → Clean (check_operator_sync d))
      × (reaches d.refresh_minutes a.overlap_hours 60 ≡ false)
unfolding check_delivery
check_delivery-facts s a d h =
    let (_, h) = both _ _ h in
    let (_, h) = both _ _ h in
    let (store, h) = both _ _ h in
    let (target, h) = both _ _ h in
    let (_, h) = both _ _ h in
    let (in_time, _) = both _ _ h in
    (
      λ e.
          subst (λ b. Clean (if b then check_namespaced_store s d else check_cluster_store s d)) e
            store,
      λ e. subst (λ m. Clean m) (check_target-sync d e) target,
      report-none _ _ _ in_time,
    )

module _ (service o : Object) (s : Service) (a : Authority) (f : ServiceFacts service s) where
  delivery_reads :
      Clean (read_delivery o)
      → (is_empty_text (word (get o "storeNamespace")) ≡ false)
        × Clean (positive_int o "refreshIntervalMinutes" (contract "delivery"))
  unfolding read_delivery
  delivery_reads h =
      let (_, h) = parts _ _ h in
      let (_, h) = parts _ _ h in
      let (store, h) = parts _ _ h in
      let (_, h) = parts _ _ h in
      let (_, h) = parts _ _ h in
      let (_, h) = parts _ _ h in
      let (_, h) = parts _ _ h in
      let (_, h) = parts _ _ h in
      let (refresh, _) = parts _ _ h in (word-nonempty o _ _ store, refresh)

  -- The text that the document has is the one that the check compares.
  same_word :
      (name literal : String) (path : Place)
      → word (get o name) ≡ literal
      → str_eq (nonempty_string o name path).value literal ≡ true
  same_word name literal path e =
      (eq_iff (nonempty_string o name path).value literal).1 (nonempty_string-value o name path ∙ e)

  own_namespaces :
      (known : String) (l : List String)
      → s.namespace ≡ known
      → (not (is_empty_text s.namespace) && not (contains l s.namespace)) ≡ false
      → any (λ n. not (str_eq n s.namespace)) l ≡ false
      → (contains l known ≡ true) × All (λ n. n ≡ known) l
  own_namespaces known l e own others = (
    subst (λ t. contains l t ≡ true) e (ground (arith, f.has_namespace, own)),
    All-map (λ n. not (str_eq n s.namespace) ≡ false) (λ n. n ≡ known)
        (λ n h. (eq_iff n s.namespace).0 (not-false _ h) ∙ e) l
        (any-none (λ n. not (str_eq n s.namespace)) l others),
  )

  pub read_delivery-DeliveryFacts :
      {overlap : ℕ}
      → a.overlap_hours ≡ some overlap
      → Clean (read_delivery o)
      → Clean (check_delivery s a (read_delivery o).value)
      → DeliveryFacts service o overlap (read_delivery o).value
  unfolding read_delivery ◌>>=◌
  read_delivery-DeliveryFacts ov h c =
      let (store, r) = delivery_reads h in
      let (refresh, rv, rg) = positive_int-int o "refreshIntervalMinutes" _ r in
      let (scoped, synced, timely) = check_delivery-facts s a (read_delivery o).value c in
      let named = λ (e : word (get o "storeScope") ≡ "Namespace").
        check_namespaced_store-facts s (read_delivery o).value
          (scoped (same_word "storeScope" "Namespace" _ e)) in
      let own = λ (e : word (get o "storeScope") ≡ "Namespace").
        own_namespaces (word (get service "namespace")) (read_delivery o).value.allowed_namespaces
          f.namespace_read (named e).1 (named e).2 in
      record {
        refresh = refresh;
        refresh_read = rg;
        in_time = ground (arith, timely, rv, ov);
        own_store = same-or (word (get o "storeScope")) "Namespace" λ e. (
          disagree-eq (word (get o "storeNamespace")) s.namespace store f.has_namespace (
                subst (λ t. disagree t s.namespace ≡ false)
                  (nonempty_string-value o "storeNamespace" _) (named e).0)
              ∙ f.namespace_read,
          (own e).0,
          (own e).1,
        );
        only_a_cache = same-or (word (get o "mechanism")) "operator-sync" λ e.
            flag-false o "targetIsAuthority" _ (
              check_operator_sync-facts (read_delivery o).value
                (synced (same_word "mechanism" "operator-sync" _ e)));
      }
