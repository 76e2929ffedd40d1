-- ===== src/Repair/Systemic.antt =====
-- What the search of node_repair.py for a systemic failure finds, without reference to its two loops.
use staff_sre_platform_engin.Shared.{
  ◌≤◌, ◌==◌, String, Bool, true, false, some, List, [], ◌∷◌, map, length, ltb, ltb→lt, ltb→ge,
  str_eq, eq_iff, ◌≡◌, ◌↔◌, ◌⊎◌, inl, inr, refl, arith, sym, subst, Bool-cases, Option-cases,
}
use staff_sre_platform_engin.Repair.Types.{
  Node, FleetPolicy, BreakerReason, image_failures, signature_zones, is_below,
}
use staff_sre_platform_engin.Repair.Fleet.{
  has_text, distinct, unhealthy, of_image, signature_of, zones_of, failing_image, spread_signature,
  systemic_failure_reason, is_empty,
}
use staff_sre_platform_engin.Repair.Justified.{AtLeast}
use staff_sre_platform_engin.Repair.Distinct.{has_text-distinct, distinct-has_text}

-- Nodes of the image are unhealthy, and their share of all its nodes is at least the policy's.
pub record ImageFails (p : FleetPolicy) (nodes : List Node) (image : String) : Type 0 where
  pub some_failed : 1 ≤ length (of_image image (unhealthy nodes))
  pub share : AtLeast p.systemic_image_failure_percent (record {
    part = length (of_image image (unhealthy nodes));
    whole = length (of_image image nodes);
  })

-- The signature is that of an unhealthy node, and it is found in at least the policy's number of zones.
pub record SignatureSpreads (p : FleetPolicy) (nodes : List Node) (signature : String)
    : Type 0 where
  pub seen : has_text signature (map signature_of (unhealthy nodes)) ≡ true
  pub zones : p.systemic_signature_zone_count ≤ length (zones_of signature nodes)

image-has_text :
    (image : String) (nodes : List Node)
    → 1 ≤ length (of_image image (unhealthy nodes))
    → has_text image (map (λ n. n.image) nodes) ≡ true
image-has_text image [] h = ground (arith, h)
image-has_text image (n ∷ nodes) h = ground (arith, h, image-has_text image nodes)

module _ (p : FleetPolicy) (nodes : List Node) where
  abbrev image_below : String → Bool
  image_below image =
      is_below
        (record {
          part = length (of_image image (unhealthy nodes));
          whole = length (of_image image nodes);
        })
        p.systemic_image_failure_percent

  failing_image-ImageFails :
      (images : List String) (why : BreakerReason)
      → failing_image p nodes images ≡ some why
      → (image : String) × ImageFails p nodes image
  unfolding failing_image
  failing_image-ImageFails [] why h = absurd (cc h)
  failing_image-ImageFails (x ∷ rest) why h =
      elim (Bool-cases (length (of_image x (unhealthy nodes)) == 0)) [
        | inl sound ↦ failing_image-ImageFails rest why (rw sound at h)
        | inr failed ↦ elim (Bool-cases (image_below x)) [
          | inl few ↦ failing_image-ImageFails rest why (rw (failed, few) at h)
          | inr many ↦ (x, record { some_failed = ground (arith, failed); share = ltb→ge _ _ many })
        ]
      ]

  ImageFails-failing_image :
      (images : List String) (image : String)
      → has_text image images ≡ true
      → ImageFails p nodes image
      → (why : BreakerReason) × (failing_image p nodes images ≡ some why)
  unfolding failing_image
  ImageFails-failing_image [] image h f = absurd (cc h)
  ImageFails-failing_image (x ∷ rest) image h f = elim (Bool-cases (str_eq x image)) [
    | inl same ↦
        let g : ImageFails p nodes x =
          subst (λ t. ImageFails p nodes t) (sym ((eq_iff x image).0 same)) f in
        let failed : (length (of_image x (unhealthy nodes)) == 0) ≡ false =
          ground (arith, g.some_failed) in
        let many : image_below x ≡ false = ground (arith, g.share) in
        (
          image_failures x (length (of_image x (unhealthy nodes))) (length (of_image x nodes)),
          rw (failed, many) refl,
        )
    | inr other ↦
        let (why, e) = ImageFails-failing_image rest image (rw other at h) f in
        elim (Bool-cases (length (of_image x (unhealthy nodes)) == 0)) [
          | inl sound ↦ (why, rw sound e)
          | inr failed ↦ elim (Bool-cases (image_below x)) [
            | inl few ↦ (why, rw (failed, few) e)
            | inr many ↦ (
              image_failures x (length (of_image x (unhealthy nodes))) (length (of_image x nodes)),
              rw (failed, many) refl,
            )
          ]
        ]
  ]

  spread_signature-found :
      (signatures : List String) (why : BreakerReason)
      → spread_signature p nodes signatures ≡ some why
      → (signature : String) × (has_text signature signatures ≡ true)
        × (p.systemic_signature_zone_count ≤ length (zones_of signature nodes))
  unfolding spread_signature
  spread_signature-found [] why h = absurd (cc h)
  spread_signature-found (x ∷ rest) why h =
      elim (Bool-cases (ltb (length (zones_of x nodes)) p.systemic_signature_zone_count)) [
        | inl few ↦
            let (signature, seen, zones) = spread_signature-found rest why (rw few at h) in
            (signature, ground (arith, seen), zones)
        | inr many ↦ (x, ground (arith, (eq_iff x x).1 refl), ltb→ge _ _ many)
      ]

  found-spread_signature :
      (signatures : List String) (signature : String)
      → has_text signature signatures ≡ true
      → p.systemic_signature_zone_count ≤ length (zones_of signature nodes)
      → (why : BreakerReason) × (spread_signature p nodes signatures ≡ some why)
  unfolding spread_signature
  found-spread_signature [] signature h z = absurd (cc h)
  found-spread_signature (x ∷ rest) signature h z =
      elim (Bool-cases (ltb (length (zones_of x nodes)) p.systemic_signature_zone_count)) [
        | inl few ↦ elim (Bool-cases (str_eq x signature)) [
          | inl same ↦
              let z' =
                subst (λ t. p.systemic_signature_zone_count ≤ length (zones_of t nodes))
                  (sym ((eq_iff x signature).0 same)) z in
              absurd (omega (arith, ltb→lt _ _ few, z'))
          | inr other ↦
              let (why, e) = found-spread_signature rest signature (rw other at h) z in
              (why, rw few e)
        ]
        | inr many ↦ (signature_zones x (length (zones_of x nodes)), rw many refl)
      ]

  fails-not_empty : (image : String) → ImageFails p nodes image → is_empty (unhealthy nodes) ≡ false
  fails-not_empty image f = not_empty (unhealthy nodes) f.some_failed
    where
      not_empty : (l : List Node) → 1 ≤ length (of_image image l) → is_empty l ≡ false
      not_empty [] h = ground (arith, h)
      not_empty (_ ∷ _) h = refl

  spreads-not_empty :
      (signature : String)
      → has_text signature (map signature_of (unhealthy nodes)) ≡ true
      → is_empty (unhealthy nodes) ≡ false
  spreads-not_empty signature h = not_empty (unhealthy nodes) h
    where
      not_empty :
          (l : List Node) → has_text signature (map signature_of l) ≡ true → is_empty l ≡ false
      not_empty [] h = cc h
      not_empty (_ ∷ _) h = refl

  abbrev images : List String
  images = distinct (map (λ n. n.image) nodes)

  pub systemic-found :
      (why : BreakerReason)
      → systemic_failure_reason nodes p ≡ some why
      → ((image : String) × ImageFails p nodes image)
        ⊎ ((signature : String) × SignatureSpreads p nodes signature)
  unfolding systemic_failure_reason
  systemic-found why h = elim (Bool-cases (is_empty (unhealthy nodes))) [
    | inl sound ↦ absurd (cc (rw sound at h))
    | inr failed ↦ elim (Option-cases (failing_image p nodes images)) [
      | inr (image_why, e) ↦ inl (failing_image-ImageFails images image_why e)
      | inl e ↦
          let (signature, seen, zones) = spread_signature-found _ why (rw (failed, e) at h) in
          inr (signature, record { seen = distinct-has_text signature _ seen; zones = zones })
    ]
  ]

  image-systemic :
      (image : String)
      → ImageFails p nodes image
      → (why : BreakerReason) × (systemic_failure_reason nodes p ≡ some why)
  unfolding systemic_failure_reason
  image-systemic image f =
      let here = has_text-distinct image _ (image-has_text image nodes f.some_failed) in
      let (why, e) = ImageFails-failing_image images image here f in
      (why, rw (fails-not_empty image f, e) refl)

  signature-systemic :
      (signature : String)
      → SignatureSpreads p nodes signature
      → (why : BreakerReason) × (systemic_failure_reason nodes p ≡ some why)
  unfolding systemic_failure_reason
  signature-systemic signature f = elim (Option-cases (failing_image p nodes images)) [
    | inr (why, e) ↦ (why, rw (spreads-not_empty signature f.seen, e) refl)
    | inl e ↦
        let (why, e') =
          found-spread_signature (distinct (map signature_of (unhealthy nodes))) signature
            (has_text-distinct signature _ f.seen) f.zones in
        (why, rw (spreads-not_empty signature f.seen, e) e')
  ]

  pub systemic_iff : ((why : BreakerReason) × (systemic_failure_reason nodes p ≡ some why)) ↔ (
      ((image : String) × ImageFails p nodes image)
      ⊎ ((signature : String) × SignatureSpreads p nodes signature))
  systemic_iff = (
    λ (why, h). systemic-found why h,
    elim [
      | inl (image, f) ↦ image-systemic image f
      | inr (signature, f) ↦ signature-systemic signature f
    ],
  )
