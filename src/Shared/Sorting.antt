-- ===== src/Shared/Sorting.antt =====
-- Python's `sorted` with a key: stable, by insertion.
use Prim.Native.Nat.{ℕ, ◌+◌}
use mathlib.Core.Path.{◌≡◌, refl}
use native.Mathlib.Omega.{arith}
use mathlib.Core.Bool.{Bool}
use mathlib.Core.List.{List, [], ◌∷◌, Perm}
use mathlib.Core.List.Perm
use staff_sre_platform_engin.Shared.Tests.{if◌then◌else◌, if_ind}
use staff_sre_platform_engin.Shared.Lists.{All, sum_by}

module _ {ℓ} {A : Type ℓ} (before : A → A → Bool) where
  -- `before x y`: x may stand before y. An item goes in front of those equal to it.
  unfoldable pub insert_by : A → List A → List A
  insert_by x [] = x ∷ []
  insert_by x (y ∷ ys) = let later = insert_by x ys in if before x y then x ∷ y ∷ ys else y ∷ later

  unfoldable pub sort_by : List A → List A
  unfolding insert_by
  sort_by [] = []
  sort_by (x ∷ xs) = insert_by x (sort_by xs)

  insert_by-perm : (x : A) (l : List A) → Perm (insert_by x l) (x ∷ l)
  unfolding insert_by
  insert_by-perm x [] = Perm.rfl
  insert_by-perm x (y ∷ ys) =
      if_ind (λ (r : List A). Perm r (x ∷ y ∷ ys)) (before x y) (λ _. Perm.rfl)
        λ _. Perm.trans (Perm.cons y (insert_by-perm x ys)) (Perm.swap x y ys)

  pub sort_by-perm : (l : List A) → Perm (sort_by l) l
  unfolding sort_by
  sort_by-perm [] = Perm.rfl
  sort_by-perm (x ∷ xs) = Perm.trans (insert_by-perm x (sort_by xs)) (Perm.cons x (sort_by-perm xs))

  module _ {κ} (P : A → Type κ) where
    insert_by-All : (x : A) (l : List A) → P x → All P l → All P (insert_by x l)
    unfolding insert_by
    insert_by-All x [] p h = (p, tt)
    insert_by-All x (y ∷ ys) p h =
        if_ind (All P) (before x y) (λ _. (p, h)) λ _. (h.0, insert_by-All x ys p h.1)

    pub sort_by-All : (l : List A) → All P l → All P (sort_by l)
    unfolding sort_by
    sort_by-All [] h = tt
    sort_by-All (x ∷ xs) h = insert_by-All x (sort_by xs) h.0 (sort_by-All xs h.1)

  insert_by-sum : (f : A → ℕ) (x : A) (l : List A) → sum_by f (insert_by x l) ≡ f x + sum_by f l
  unfolding insert_by
  insert_by-sum f x [] = refl
  insert_by-sum f x (y ∷ ys) =
      if_ind (λ (r : List A). sum_by f r ≡ f x + sum_by f (y ∷ ys)) (before x y) (λ _. refl)
        λ _. omega (arith, insert_by-sum f x ys)

  pub sort_by-sum : (f : A → ℕ) (l : List A) → sum_by f (sort_by l) ≡ sum_by f l
  unfolding sort_by
  sort_by-sum f [] = refl
  sort_by-sum f (x ∷ xs) = omega (arith, insert_by-sum f x (sort_by xs), sort_by-sum f xs)
