-- ===== src/Repair/Distinct.antt =====
-- node_repair.py: the keys of a dictionary, each once.
use staff_sre_platform_engin.Shared.{
  String, Bool, true, false, not, List, [], ◌∷◌, filter, str_eq, eq_iff, ◌≡◌, ◌↔◌, inl, inr, refl,
  arith, sym, subst, Bool-cases,
}
use staff_sre_platform_engin.Repair.Fleet.{has_text, distinct}

has_text-filter :
    (q : String → Bool) (x : String) (l : List String)
    → has_text x l ≡ true
    → q x ≡ true
    → has_text x (filter q l) ≡ true
has_text-filter q x [] h k = h
has_text-filter q x (y ∷ l) h k = elim (Bool-cases (str_eq y x)) [
  | inl same ↦
      let kept : q y ≡ true = subst (λ t. q t ≡ true) (sym ((eq_iff y x).0 same)) k in
      ground (arith, same, kept)
  | inr other ↦ ground (arith, other, h, has_text-filter q x l (ground (arith, other, h)) k)
]

filter-has_text :
    (q : String → Bool) (x : String) (l : List String)
    → has_text x (filter q l) ≡ true
    → has_text x l ≡ true
filter-has_text q x [] h = h
filter-has_text q x (y ∷ l) h = ground (arith, h, filter-has_text q x l)

pub has_text-distinct :
    (x : String) (l : List String) → has_text x l ≡ true → has_text x (distinct l) ≡ true
unfolding distinct
has_text-distinct x [] h = h
has_text-distinct x (y ∷ l) h = elim (Bool-cases (str_eq y x)) [
  | inl same ↦ ground (arith, same)
  | inr other ↦
      let apart : str_eq x y ≡ false = ground (arith, other, eq_iff x y, eq_iff y x) in
      rw other (
        has_text-filter (λ z. not (str_eq z y)) x (distinct l)
          (has_text-distinct x l (ground (arith, other, h))) (ground (arith, apart)))
]

pub distinct-has_text :
    (x : String) (l : List String) → has_text x (distinct l) ≡ true → has_text x l ≡ true
unfolding distinct
distinct-has_text x [] h = h
distinct-has_text x (y ∷ l) h = elim (Bool-cases (str_eq y x)) [
  | inl same ↦ ground (arith, same)
  | inr other ↦ rw other (
      distinct-has_text x l
        (filter-has_text (λ z. not (str_eq z y)) x (distinct l) (rw other at h)))
]

-- Each text once.
abbrev pub AllDifferent : List String → Type 0
AllDifferent [] = Unit
AllDifferent (x ∷ xs) = (has_text x xs ≡ false) × AllDifferent xs

filter-apart :
    (x : String) (l : List String) → has_text x (filter (λ z. not (str_eq z x)) l) ≡ false
filter-apart x [] = refl
filter-apart x (y ∷ l) = elim (Bool-cases (str_eq y x)) [
  | inl same ↦ rw same (filter-apart x l)
  | inr other ↦ rw (other, other) (filter-apart x l)
]

has_text-filter_none :
    (q : String → Bool) (x : String) (l : List String)
    → has_text x l ≡ false
    → has_text x (filter q l) ≡ false
has_text-filter_none q x [] h = refl
has_text-filter_none q x (y ∷ l) h = ground (arith, h, has_text-filter_none q x l)

filter-AllDifferent :
    (q : String → Bool) (l : List String) → AllDifferent l → AllDifferent (filter q l)
filter-AllDifferent q [] h = tt
filter-AllDifferent q (y ∷ l) (one, rest) = elim (Bool-cases (q y)) [
  | inl kept ↦ rw kept (has_text-filter_none q y l one, filter-AllDifferent q l rest)
  | inr left_out ↦ rw left_out (filter-AllDifferent q l rest)
]

pub distinct-AllDifferent : (l : List String) → AllDifferent (distinct l)
unfolding distinct
distinct-AllDifferent [] = tt
distinct-AllDifferent (x ∷ l) = (
  filter-apart x (distinct l),
  filter-AllDifferent (λ z. not (str_eq z x)) (distinct l) (distinct-AllDifferent l),
)

-- A list that has each of the texts of another once, and no other text.
pub record IsSetOf (texts set : List String) : Type 0 where
  pub different : AllDifferent set
  pub same : (x : String) → (has_text x set ≡ true) ↔ (has_text x texts ≡ true)
