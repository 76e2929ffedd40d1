-- ===== src/Rebalance/Partition.antt =====
-- shard_rebalance_demo.py: `range_partition` and `tenant_skew`. The ratio counts hundredths, and is
-- compared exactly; requests are natural numbers.
use native.Mathlib.Nat.{le_of_mul-le-mul_right, mul_assoc, mul_comm}
use staff_sre_platform_engin.Shared.{
  ℤ, leb_ℤ, ltb_ℤ, ℕ, suc, ◌*◌, ◌≤◌, ltb, leb, ◌==◌, String, Bool, true, false, not, ◌&&◌, ◌||◌,
  List, [], ◌∷◌, map, filter, length, sum_by, sort_by, text_lt, if◌then◌else◌, Result, ok, err,
  ◌>>◌, raise_if, ◌≡◌, refl, arith, subst, sym, ap, ◌∙◌, if_ind, sort_by-sum, and-true, leb→le,
  Ensures, Bool-cases, inl, inr,
}

pub data PartitionError : Type 0 where
  unsorted_bounds bad_ratio : PartitionError

-- `tuple(sorted(bounds)) == bounds`
unfoldable pub is_sorted : List ℤ → Bool
is_sorted [] = true
is_sorted (a ∷ []) = true
is_sorted (a ∷ b ∷ rest) = leb_ℤ a b && is_sorted (b ∷ rest)

unfoldable pub first_above : ℤ → List ℤ → ℕ
first_above value [] = 0
first_above value (b ∷ rest) =
    let later = first_above value rest in if ltb_ℤ value b then 0 else suc later

unfoldable pub range_partition : ℤ → List ℤ → Result PartitionError ℕ
unfolding is_sorted first_above
range_partition value bounds = do
  raise_if (not (is_sorted bounds)) unsorted_bounds
  ok (first_above value bounds)

unfoldable pub tenant_skew :
    List (String × ℕ) → (dominant_ratio : ℕ) → Result PartitionError (List String)
tenant_skew requests_by_tenant dominant_ratio =
    let total = sum_by (λ (_, count). count) requests_by_tenant in
    if dominant_ratio == 0 || ltb 100 dominant_ratio
    then err bad_ratio
    else if total == 0
    then ok []
    else ok (
        map (λ (tenant, _). tenant)
          (filter (λ (_, count). leb (dominant_ratio * total) (count * 100))
            (sort_by (λ (a, _) (b, _). not (text_lt b a)) requests_by_tenant)))

-- How many bounds a value has reached.
reached : ℤ → List ℤ → ℕ
reached value bounds = length (filter (λ b. leb_ℤ b value) bounds)

none_reached :
    (value b : ℤ) (rest : List ℤ)
    → ltb_ℤ value b ≡ true
    → is_sorted (b ∷ rest) ≡ true
    → reached value (b ∷ rest) ≡ 0
unfolding reached is_sorted
none_reached value b [] below sorted = ground (arith, below)
none_reached value b (c ∷ rest) below sorted =
    ground (arith, below, sorted, none_reached value c rest)

is_sorted-rest : (b : ℤ) (rest : List ℤ) → is_sorted (b ∷ rest) ≡ true → is_sorted rest ≡ true
unfolding is_sorted
is_sorted-rest b [] sorted = refl
is_sorted-rest b (c ∷ rest) sorted = (and-true _ _ sorted).1

first_above-reached :
    (value : ℤ) (bounds : List ℤ)
    → is_sorted bounds ≡ true
    → first_above value bounds ≡ reached value bounds
unfolding first_above reached
first_above-reached value [] sorted = refl
first_above-reached value (b ∷ rest) sorted = ground (
  arith,
  none_reached value b rest,
  sorted,
  first_above-reached value rest (is_sorted-rest b rest sorted),
)

-- The partition of a value is the number of bounds that it has reached.
range_partition-reached :
    (value : ℤ) (bounds : List ℤ)
    → Ensures (λ i. i ≡ reached value bounds) (range_partition value bounds)
unfolding range_partition
range_partition-reached value bounds = elim (Bool-cases (is_sorted bounds)) [
  | inl sorted ↦ rw sorted (first_above-reached value bounds sorted)
  | inr unsorted ↦ rw unsorted tt
]

large_counts :
    (least : ℕ) (l : List (String × ℕ))
    → least * length (filter (λ (_, count). leb least (count * 100)) l)
      ≤ 100 * sum_by (λ (_, count). count) l
large_counts least [] = omega arith
large_counts least ((_, count) ∷ l) = elim (Bool-cases (leb least (count * 100))) [
  | inl e ↦ rw e (omega (arith, large_counts least l, leb→le least (count * 100) e))
  | inr e ↦ rw e (omega (arith, large_counts least l))
]

length-map {ℓ κ} : {A : Type ℓ} {B : Type κ} (f : A → B) (l : List A) → length (map f l) ≡ length l
length-map f [] = refl
length-map f (x ∷ l) = omega (arith, length-map f l)

-- What remains of a bound on r * total * n where there is a total.
per_total : (r total n : ℕ) → (total == 0) ≡ false → r * total * n ≤ 100 * total → r * n ≤ 100
per_total r total n some_total h =
    le_of_mul-le-mul_right
      (subst (λ t. t ≤ 100 * total)
        (mul_assoc r total n ∙ ap (λ (t : ℕ). r * t) (mul_comm total n) ∙ sym (mul_assoc r n total))
        h)
      (ground (arith, some_total))

-- Few tenants dominate: with a ratio of r hundredths, r times their number is at most 100.
tenant_skew-few :
    (requests_by_tenant : List (String × ℕ)) (dominant_ratio : ℕ)
    → Ensures
        (λ tenants. dominant_ratio * length tenants ≤ 100)
        (tenant_skew requests_by_tenant dominant_ratio)
unfolding tenant_skew
tenant_skew-few requests_by_tenant dominant_ratio =
    let total = sum_by (λ (_, count). count) requests_by_tenant in
    let s = sort_by (λ (a, _) (b, _). not (text_lt b a)) requests_by_tenant in
    if_ind Few (dominant_ratio == 0 || ltb 100 dominant_ratio) (λ _. tt)
      λ _.
        if_ind Few (total == 0) (λ _. omega arith)
          λ some_requests.
            let large = filter (λ (_, count). leb (dominant_ratio * total) (count * 100)) s in
            subst (λ n. dominant_ratio * n ≤ 100) (sym (length-map (λ (tenant, _). tenant) large))
              (per_total dominant_ratio total (length large) some_requests (
                subst (λ n. dominant_ratio * total * length large ≤ 100 * n)
                  (sort_by-sum (λ (a, _) (b, _). not (text_lt b a)) (λ (_, count). count)
                    requests_by_tenant)
                  (large_counts (dominant_ratio * total) s)))
  where
    Few : Result PartitionError (List String) → Type 0
    Few = Ensures (λ tenants. dominant_ratio * length tenants ≤ 100)
