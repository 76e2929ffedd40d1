-- ===== src/Tenant/Specs.antt =====
-- What the checks of a workload's specification say, where they find no error.
use staff_sre_platform_engin.Shared.{
  ℕ, suc, String, false, List, [], ◌∷◌, All, Json, bool, arr, obj, null, int, float, str, Items,
  nil, item, Object, get, get_or, items, is_text, array, Place, is_empty_text, ◌≡◌, refl, subst,
}
use staff_sre_platform_engin.Shared.Contracts.{
  Clean, parts, both, report-none, object_of, word, word-nonempty, nonempty_string-value, disagree,
  disagree-eq,
}
use staff_sre_platform_engin.Tenant.Package.{Identity}
use staff_sre_platform_engin.Tenant.Workload.{
  check_account, check_false, host_fields, check_volume, check_volume_list, check_volumes,
  check_container_list, container_list, check_spec,
}
use staff_sre_platform_engin.Tenant.Confined.{
  must_be_false-bool, IsConfined, check_container_list-All,
}

container_list-items :
    (v : Json)
    → Clean (container_list v)
    → (vs : Items) × (v ≡ arr vs) × ((container_list v).value ≡ items vs)
unfolding container_list
container_list-items (arr nil) h = absurd (cc h)
container_list-items (arr (item v vs)) h = (item v vs, refl, refl)
container_list-items null h = absurd (cc h)
container_list-items (bool _) h = absurd (cc h)
container_list-items (int _) h = absurd (cc h)
container_list-items (float _ _) h = absurd (cc h)
container_list-items (str _) h = absurd (cc h)
container_list-items (obj _) h = absurd (cc h)

abbrev pub NoHostPath : Json → Type 0
NoHostPath v = is_text (get (object_of v) "type") "hostPath" ≡ false

check_volume-NoHostPath : (v : Json) (i : ℕ) → Clean (check_volume v i) → NoHostPath v
unfolding check_volume
check_volume-NoHostPath (obj fs) i h = report-none _ _ _ h
check_volume-NoHostPath null i h = refl
check_volume-NoHostPath (bool _) i h = refl
check_volume-NoHostPath (int _) i h = refl
check_volume-NoHostPath (float _ _) i h = refl
check_volume-NoHostPath (str _) i h = refl
check_volume-NoHostPath (arr _) i h = refl

check_volume_list-All :
    (i : ℕ) (vs : List Json) → Clean (check_volume_list i vs) → All NoHostPath vs
unfolding check_volume_list
check_volume_list-All i [] h = tt
check_volume_list-All i (v ∷ rest) h =
    let (first, h) = both _ _ h in
    (check_volume-NoHostPath v i first, check_volume_list-All (suc i) rest h)

check_volumes-items :
    (v : Json) → Clean (check_volumes v) → (vs : Items) × (v ≡ arr vs) × All NoHostPath (items vs)
unfolding check_volumes
check_volumes-items (arr vs) h = (vs, refl, check_volume_list-All 0 (items vs) h)
check_volumes-items null h = absurd (cc h)
check_volumes-items (bool _) h = absurd (cc h)
check_volumes-items (int _) h = absurd (cc h)
check_volumes-items (float _ _) h = absurd (cc h)
check_volumes-items (str _) h = absurd (cc h)
check_volumes-items (obj _) h = absurd (cc h)

check_false-All :
    (o : Object) (path : Place) (names : List String)
    → Clean (check_false o path names)
    → All (λ name. get o name ≡ bool false) names
unfolding check_false
check_false-All o path [] h = tt
check_false-All o path (name ∷ rest) h =
    let (first, h) = both _ _ h in
    (must_be_false-bool o name _ _ first, check_false-All o path rest h)

-- A workload's specification: the tenant's account, nothing of the host, and confined containers.
pub record SpecFacts (allowed : List String) (i : Identity) (spec : Object) : Type 0 where
  pub own_account : word (get spec "serviceAccountName") ≡ i.service_account
  pub off_host : All (λ name. get spec name ≡ bool false) host_fields
  pub volumes : Items
  pub volumes_read : get_or spec "volumes" (array []) ≡ arr volumes
  pub no_host_path : All NoHostPath (items volumes)
  pub containers : Items
  pub containers_read : get spec "containers" ≡ arr containers
  pub confined : All (λ v. IsConfined allowed (object_of v)) (items containers)

check_account-eq :
    (i : Identity) (spec : Object)
    → is_empty_text i.service_account ≡ false
    → Clean (check_account i spec)
    → word (get spec "serviceAccountName") ≡ i.service_account
unfolding check_account
check_account-eq i spec full h =
    let (account, h) = parts _ _ h in
    disagree-eq (word (get spec "serviceAccountName")) i.service_account
      (word-nonempty spec _ _ account) full
      (subst (λ t. disagree t i.service_account ≡ false)
        (nonempty_string-value spec "serviceAccountName" _) (report-none _ _ _ h))

pub check_spec-SpecFacts :
    (allowed : List String) (i : Identity) (spec : Object)
    → is_empty_text i.service_account ≡ false
    → Clean (check_spec allowed i spec)
    → SpecFacts allowed i spec
unfolding check_spec
check_spec-SpecFacts allowed i spec full h =
    let (account, h) = both _ _ h in
    let (host, h) = both _ _ h in
    let (volumes, h) = both _ _ h in
    let (list, h) = parts _ _ h in
    let (vs, ve, no_host_path) = check_volumes-items (get_or spec "volumes" (array [])) volumes in
    let (cs, ce, cv) = container_list-items (get spec "containers") list in
    record {
      own_account = check_account-eq i spec full account;
      off_host = check_false-All spec _ host_fields host;
      volumes = vs;
      volumes_read = ve;
      no_host_path = no_host_path;
      containers = cs;
      containers_read = ce;
      confined =
          check_container_list-All allowed 0 (items cs)
            (subst (λ l. Clean (check_container_list allowed 0 l)) cv h);
    }
