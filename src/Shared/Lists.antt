-- ===== src/Shared/Lists.antt =====
-- Lists measured by native numbers, and predicates on them.
use Prim.Native.Nat.{ℕ, suc, ◌+◌}
use mathlib.Core.Path.{◌≡◌}
use mathlib.Core.Bool.{Bool, true, false, ◌&&◌, ◌||◌}
use mathlib.Core.List.{List, [], ◌∷◌, ◌++◌}
use native.Mathlib.Omega.{arith}
use staff_sre_platform_engin.Shared.Tests.{if◌then◌else◌}

module _ {ℓ} {A : Type ℓ} where
  abbrev pub length : List A → ℕ
  length [] = 0
  length (x ∷ xs) = suc (length xs)

  pub length-append : (xs ys : List A) → length (xs ++ ys) ≡ length xs + length ys
  length-append [] ys = omega arith
  length-append (x ∷ xs) ys = omega (arith, length-append xs ys)

  -- `any(p(x) for x in xs)` and `all(p(x) for x in xs)`
  abbrev pub any : (A → Bool) → List A → Bool
  any p [] = false
  any p (x ∷ xs) = p x || any p xs

  abbrev pub all : (A → Bool) → List A → Bool
  all p [] = true
  all p (x ∷ xs) = p x && all p xs

  -- `[x for x in xs if p(x)]`
  abbrev pub filter : (A → Bool) → List A → List A
  filter p [] = []
  filter p (x ∷ xs) = let rest = filter p xs in if p x then x ∷ rest else rest

  -- `sum(f(x) for x in xs)`
  abbrev pub sum_by : (A → ℕ) → List A → ℕ
  sum_by f [] = 0
  sum_by f (x ∷ xs) = f x + sum_by f xs

  -- A predicate by recursion computes to tuples, which the tactics read and build.
  abbrev pub All {κ} : (A → Type κ) → List A → Type κ
  All P [] = Unit
  All P (x ∷ xs) = P x × All P xs

  pub All-append {κ} : (P : A → Type κ) (xs ys : List A) → All P xs → All P ys → All P (xs ++ ys)
  All-append P [] ys hx hy = hy
  All-append P (x ∷ xs) ys hx hy = (hx.0, All-append P xs ys hx.1 hy)

  pub All-append_split {κ} :
      (P : A → Type κ) (xs ys : List A) → All P (xs ++ ys) → All P xs × All P ys
  All-append_split P [] ys h = (tt, h)
  All-append_split P (x ∷ xs) ys h = let (l, r) = All-append_split P xs ys h.1 in ((h.0, l), r)

  pub All-map {κ μ} :
      (P : A → Type κ) (Q : A → Type μ)
      → ((x : A) → P x → Q x)
      → (xs : List A) → All P xs
      → All Q xs
  All-map P Q f [] h = tt
  All-map P Q f (x ∷ xs) h = (f x h.0, All-map P Q f xs h.1)

module _ {ℓ κ} {A : Type ℓ} (R : A → A → Type κ) where
  -- `R x y` for each two elements, `x` before `y`.
  abbrev pub Pairwise : List A → Type κ
  Pairwise [] = Unit
  Pairwise (x ∷ xs) = All (R x) xs × Pairwise xs

module _ {ℓ κ} {A : Type ℓ} (P : A → Type κ) where
  pub All-remove : (xs : List A) (y : A) (zs : List A) → All P (xs ++ y ∷ zs) → All P (xs ++ zs)
  All-remove [] y zs h = h.1
  All-remove (x ∷ xs) y zs h = (h.0, All-remove xs y zs h.1)

  pub All-replace :
      (xs : List A) (y y' : A) (zs : List A)
      → (P y → P y')
      → All P (xs ++ y ∷ zs)
      → All P (xs ++ y' ∷ zs)
  All-replace [] y y' zs f h = (f h.0, h.1)
  All-replace (x ∷ xs) y y' zs f h = (h.0, All-replace xs y y' zs f h.1)

  pub All-put :
      (xs : List A) (y y' : A) (zs : List A) → All P (xs ++ y ∷ zs) → P y' → All P (xs ++ y' ∷ zs)
  All-put xs y y' zs h h' = All-replace xs y y' zs (λ _. h') h

  pub All-beside : (xs : List A) (y : A) (zs : List A) → All P (xs ++ y ∷ zs) → All P xs × All P zs
  All-beside [] y zs h = (tt, h.1)
  All-beside (x ∷ xs) y zs h = let (l, r) = All-beside xs y zs h.1 in ((h.0, l), r)

  pub All-middle : (xs : List A) (y : A) (zs : List A) → All P (xs ++ y ∷ zs) → P y
  All-middle [] y zs h = h.0
  All-middle (x ∷ xs) y zs h = All-middle xs y zs h.1

module _ {ℓ κ} {A : Type ℓ} (R : A → A → Type κ) where
  pub Pairwise-remove :
      (xs : List A) (y : A) (zs : List A) → Pairwise R (xs ++ y ∷ zs) → Pairwise R (xs ++ zs)
  Pairwise-remove [] y zs h = h.1
  Pairwise-remove (x ∷ xs) y zs h = (All-remove (R x) xs y zs h.0, Pairwise-remove xs y zs h.1)

  pub Pairwise-replace :
      (xs : List A) (y y' : A) (zs : List A)
      → ((x : A) → R x y → R x y')
      → ((z : A) → R y z → R y' z)
      → Pairwise R (xs ++ y ∷ zs)
      → Pairwise R (xs ++ y' ∷ zs)
  Pairwise-replace [] y y' zs f g h = (All-map (R y) (R y') g zs h.0, h.1)
  Pairwise-replace (x ∷ xs) y y' zs f g h =
      (All-replace (R x) xs y y' zs (f x) h.0, Pairwise-replace xs y y' zs f g h.1)

  -- What stands beside an element.
  pub Pairwise-middle :
      (xs : List A) (y : A) (zs : List A)
      → Pairwise R (xs ++ y ∷ zs)
      → All (λ x. R x y) xs × All (R y) zs
  Pairwise-middle [] y zs h = (tt, h.0)
  Pairwise-middle (x ∷ xs) y zs h =
      let (before, after) = Pairwise-middle xs y zs h.1 in
      ((All-middle (R x) xs y zs h.0, before), after)

  pub Pairwise-snoc :
      (xs : List A) (y : A) → Pairwise R xs → All (λ x. R x y) xs → Pairwise R (xs ++ y ∷ [])
  Pairwise-snoc [] y h a = (tt, tt)
  Pairwise-snoc (x ∷ xs) y h a =
      (All-append (R x) xs (y ∷ []) h.0 (a.0, tt), Pairwise-snoc xs y h.1 a.1)

  -- An element replaced by one that fits those beside it.
  pub Pairwise-put :
      (xs : List A) (y y' : A) (zs : List A)
      → Pairwise R (xs ++ y ∷ zs)
      → All (λ x. R x y') xs
      → All (R y') zs
      → Pairwise R (xs ++ y' ∷ zs)
  Pairwise-put [] y y' zs h before after = (after, h.1)
  Pairwise-put (x ∷ xs) y y' zs h before after =
      (All-put (R x) xs y y' zs h.0 before.0, Pairwise-put xs y y' zs h.1 before.1 after)

  pub Pairwise-append :
      (xs ys : List A)
      → Pairwise R xs
      → Pairwise R ys
      → All (λ x. All (R x) ys) xs
      → Pairwise R (xs ++ ys)
  Pairwise-append [] ys hx hy across = hy
  Pairwise-append (x ∷ xs) ys hx hy across =
      (All-append (R x) xs ys hx.0 across.0, Pairwise-append xs ys hx.1 hy across.1)

  pub Pairwise-map {μ ν} :
      (P : A → Type μ) (Q : A → A → Type ν)
      → ((x y : A) → P x → P y → R x y → Q x y)
      → (xs : List A) → All P xs
      → Pairwise R xs
      → Pairwise Q xs
  Pairwise-map P Q f [] all h = tt
  Pairwise-map P Q f (x ∷ xs) all h = (above xs all.1 h.0, Pairwise-map P Q f xs all.1 h.1)
    where
      above : (ys : List A) → All P ys → All (R x) ys → All (Q x) ys
      above [] p r = tt
      above (y ∷ ys) p r = (f x y all.0 p.0 r.0, above ys p.1 r.1)
