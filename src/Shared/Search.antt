-- ===== src/Shared/Search.antt =====
-- Searches in lists: `any`, and lists that grow at the end or are changed item by item.
use mathlib.Core.Path.{◌≡◌, refl}
use mathlib.Core.Logic.{inl, inr}
use mathlib.Core.Bool.{Bool, true, false}
use mathlib.Core.List.{List, [], ◌∷◌, ◌++◌, map}
use staff_sre_platform_engin.Shared.Tests.{Bool-cases, or-false, if_ind}
use staff_sre_platform_engin.Shared.Lists.{any, filter, All}

module _ {ℓ} {A : Type ℓ} where
  pub any-append : (p : A → Bool) (xs ys : List A) → any p xs ≡ true → any p (xs ++ ys) ≡ true
  any-append p [] ys h = absurd (cc h)
  any-append p (x ∷ xs) ys h = elim (Bool-cases (p x)) [
    | inl found ↦ rw found refl
    | inr other ↦ rw other (any-append p xs ys (rw other at h))
  ]

  pub any-last : (p : A → Bool) (xs : List A) (y : A) → p y ≡ true → any p (xs ++ y ∷ []) ≡ true
  any-last p [] y h = rw h refl
  any-last p (x ∷ xs) y h = elim (Bool-cases (p x)) [
    | inl found ↦ rw found refl
    | inr other ↦ rw other (any-last p xs y h)
  ]

  -- A search that succeeds finds an item, with what holds of all items.
  pub any-All {κ} :
      (p : A → Bool) (P : A → Type κ) (xs : List A)
      → any p xs ≡ true
      → All P xs
      → (x : A) × (p x ≡ true) × P x
  any-All p P [] h all = absurd (cc h)
  any-All p P (x ∷ xs) h all = elim (Bool-cases (p x)) [
    | inl found ↦ (x, found, all.0)
    | inr other ↦ any-All p P xs (rw other at h) all.1
  ]

  -- A search that fails passes over every item.
  pub any-none : (p : A → Bool) (xs : List A) → any p xs ≡ false → All (λ x. p x ≡ false) xs
  any-none p [] h = tt
  any-none p (x ∷ xs) h = let (a, b) = or-false _ _ h in (a, any-none p xs b)

  pub any-map :
      (p : A → Bool) (f : A → A) (xs : List A)
      → ((x : A) → p (f x) ≡ p x)
      → any p (map f xs) ≡ any p xs
  any-map p f [] h = refl
  any-map p f (x ∷ xs) h = rw (h x, any-map p f xs h) refl

  pub All-map_items {κ μ} :
      (P : A → Type κ) (Q : A → Type μ) (f : A → A) (xs : List A)
      → ((x : A) → P x → Q (f x))
      → All P xs
      → All Q (map f xs)
  All-map_items P Q f [] h all = tt
  All-map_items P Q f (x ∷ xs) h all = (h x all.0, All-map_items P Q f xs h all.1)

  pub All-both {κ μ} :
      (P : A → Type κ) (Q : A → Type μ) (xs : List A)
      → All P xs
      → All Q xs
      → All (λ x. P x × Q x) xs
  All-both P Q [] h k = tt
  All-both P Q (x ∷ xs) h k = ((h.0, k.0), All-both P Q xs h.1 k.1)

  pub filter-All : (p : A → Bool) (xs : List A) → All (λ x. p x ≡ true) (filter p xs)
  filter-All p [] = tt
  filter-All p (x ∷ xs) =
      if_ind (All (λ y. p y ≡ true)) (p x) (λ e. (e, filter-All p xs)) λ _. filter-All p xs

  pub filter-eq_of_All : (p : A → Bool) (xs : List A) → All (λ x. p x ≡ true) xs → filter p xs ≡ xs
  filter-eq_of_All p [] h = refl
  filter-eq_of_All p (x ∷ xs) h = rw (h.0, filter-eq_of_All p xs h.1) refl

  pub All-filter {κ} :
      (P : A → Type κ) (p : A → Bool) (xs : List A) → All P xs → All P (filter p xs)
  All-filter P p [] h = tt
  All-filter P p (x ∷ xs) h =
      if_ind (All P) (p x) (λ _. (h.0, All-filter P p xs h.1)) λ _. All-filter P p xs h.1
