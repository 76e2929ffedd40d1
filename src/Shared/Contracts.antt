-- ===== src/Shared/Contracts.antt =====
-- Validators that collect errors: each reader gives a value and the errors that Python appends to the
-- list `errors`, in this order. `>>=` stays shut, so that the laws below take a validator apart.
use Prim.Native.Nat.{ℕ, ◌<◌}
use Prim.Native.String.{String}
use mathlib.Core.Path.{◌≡◌, refl, subst}
use mathlib.Core.Bool.{Bool, true, false, not, ◌&&◌}
use mathlib.Core.Logic.{inl, inr}
use text.Mathlib.Text.{◌==◌ as str_eq}
use text.Mathlib.TextEquality.{eq_iff}
use mathlib.Core.Option.{Option, none, some}
use mathlib.Core.List.{List, [], ◌∷◌, ◌++◌}
use native.Mathlib.Omega.{arith}
use staff_sre_platform_engin.Shared.Tests.{Option-cases, ◌==◌, if◌then◌else◌}
use staff_sre_platform_engin.Shared.Ints.{pos}
use staff_sre_platform_engin.Shared.Lists.{any}
use staff_sre_platform_engin.Shared.JsonValues.{
  Json, null, float, bool, int, str, arr, obj, Object, items, fields, get, texts, Place, key,
}
use staff_sre_platform_engin.Shared.Strings.{is_empty_text, strip}

pub record Problem : Type 0 where
  pub place : Place
  pub message : String

pub record Checked (A : Type 0) : Type 0 where
  pub value : A
  pub errors : List Problem

abbrev pub fine : {A : Type 0} → A → Checked A
fine a = record { value = a; errors = [] }

infixl 5 ◌>>=◌ ◌>>◌
unfoldable pub ◌>>=◌ : {A B : Type 0} → Checked A → (A → Checked B) → Checked B
m >>= f = record { value = (f m.value).value; errors = m.errors ++ (f m.value).errors }

unfoldable pub ◌>>◌ : {B : Type 0} → Checked (Unit {0}) → Checked B → Checked B
m >> rest = record { value = rest.value; errors = m.errors ++ rest.errors }

-- `if bad: errors.append(...)`
unfoldable pub report : Bool → Place → String → Checked (Unit {0})
report true place message = record {
  value = tt;
  errors = record { place = place; message = message } ∷ [];
}
report false place message = fine tt

abbrev pub failed : {A : Type 0} → A → Place → String → Checked A
failed a place message = record {
  value = a;
  errors = record { place = place; message = message } ∷ [];
}

unfoldable pub mapping : Object → String → Place → Checked Object
mapping parent name path = elim (get parent name) [
  | obj fs ↦ fine (fields fs)
  | _ ↦ failed [] (key path name) "must be an object"
]

unfoldable pub text_of : Json → Place → Checked String
text_of (str s) place =
    if is_empty_text (strip s) then failed "" place "must be a non-empty string" else fine (strip s)
text_of _ place = failed "" place "must be a non-empty string"

unfoldable pub nonempty_string : Object → String → Place → Checked String
unfolding text_of
nonempty_string parent name path = text_of (get parent name) (key path name)

unfoldable pub flag : Object → String → Place → Checked (Option Bool)
flag parent name path = elim (get parent name) [
  | bool b ↦ fine (some b)
  | _ ↦ failed none (key path name) "must be true or false"
]

unfoldable pub positive_int : Object → String → Place → Checked (Option ℕ)
positive_int parent name path = elim (get parent name) [
  | int (pos n) ↦
      if n == 0 then failed none (key path name) "must be a positive integer" else fine (some n)
  | _ ↦ failed none (key path name) "must be a positive integer"
]

unfoldable pub nonnegative_int : Object → String → Place → Checked (Option ℕ)
nonnegative_int parent name path = elim (get parent name) [
  | int (pos n) ↦ fine (some n)
  | _ ↦ failed none (key path name) "must be a non-negative integer"
]

abbrev nonempty_texts : Option (List String) → Place → Checked (List String)
nonempty_texts none path = failed [] path "must be an array of non-empty strings"
nonempty_texts (some ts) path =
    if any is_empty_text ts then failed [] path "must be an array of non-empty strings" else fine ts

unfoldable pub string_list : Object → String → Place → Checked (List String)
string_list parent name path = elim (get parent name) [
  | arr vs ↦ nonempty_texts (texts (items vs)) (key path name)
  | _ ↦ failed [] (key path name) "must be an array of non-empty strings"
]

abbrev pub is_true : Option Bool → Bool
is_true (some true) = true
is_true _ = false

abbrev pub is_false : Option Bool → Bool
is_false (some false) = true
is_false _ = false

abbrev pub Clean : {A : Type 0} → Checked A → Type 0
Clean m = m.errors ≡ []

append-nil_split : (xs ys : List Problem) → xs ++ ys ≡ [] → (xs ≡ []) × (ys ≡ [])
append-nil_split [] ys h = (refl, h)
append-nil_split (x ∷ xs) ys h = absurd (cc h)

-- No errors in a validator: none in its first part and none in the rest.
pub parts :
    {A B : Type 0} (m : Checked A) (f : A → Checked B)
    → Clean (m >>= f)
    → Clean m × Clean (f m.value)
unfolding ◌>>=◌
parts m f h = append-nil_split m.errors (f m.value).errors h

pub both :
    {B : Type 0} (m : Checked (Unit {0})) (rest : Checked B)
    → Clean (m >> rest)
    → Clean m × Clean rest
unfolding ◌>>◌
both m rest h = append-nil_split m.errors rest.errors h

pub report-none :
    (bad : Bool) (place : Place) (message : String) → Clean (report bad place message) → bad ≡ false
unfolding report
report-none bad place message h = ground (arith, h)

-- What a reader without errors read.
module _ (o : Object) (name : String) (path : Place) where
  pub flag-true : is_true (flag o name path).value ≡ true → get o name ≡ bool true
  unfolding flag
  flag-true e = ground (arith, e)

  pub flag-false : is_false (flag o name path).value ≡ true → get o name ≡ bool false
  unfolding flag
  flag-false e = ground (arith, e)

  pub positive_int-pos :
      {n : ℕ} → (positive_int o name path).value ≡ some n → (get o name ≡ int (pos n)) × (0 < n)
  unfolding positive_int
  positive_int-pos h = (ground (arith, h), ground (arith, h))

  pub positive_int-read :
      Clean (positive_int o name path) → (n : ℕ) × ((positive_int o name path).value ≡ some n)
  unfolding positive_int
  positive_int-read h = elim (Option-cases (positive_int o name path).value) [
    | inl e ↦ absurd (ground (arith, h, e))
    | inr n ↦ n
  ]

  pub nonempty_string-nonempty :
      Clean (nonempty_string o name path)
      → is_empty_text (nonempty_string o name path).value ≡ false
  unfolding nonempty_string
  nonempty_string-nonempty h = ground (arith, h)

-- `a and b and a != b`
abbrev pub disagree : String → String → Bool
disagree a b = not (is_empty_text a) && not (is_empty_text b) && not (str_eq a b)

pub disagree-eq :
    (a b : String)
    → is_empty_text a ≡ false
    → is_empty_text b ≡ false
    → disagree a b ≡ false
    → a ≡ b
disagree-eq a b h k e = ground (arith, h, k, e, eq_iff a b)

-- What a document says, read without errors: an object, the stripped text.
abbrev pub object_of : Json → Object
object_of (obj fs) = fields fs
object_of _ = []

abbrev pub word : Json → String
word (str s) = strip s
word _ = ""

pub mapping-value :
    (o : Object) (name : String) (path : Place)
    → (mapping o name path).value ≡ object_of (get o name)
unfolding mapping
mapping-value o name path = ground arith

is_empty_text-eq : (s : String) → is_empty_text s ≡ true → s ≡ ""
is_empty_text-eq String.[] h = refl
is_empty_text-eq (String.◌∷◌ c s) h = absurd (cc h)

text_of-value : (v : Json) (place : Place) → (text_of v place).value ≡ word v
unfolding text_of
text_of-value (str s) place = ground (arith, is_empty_text-eq (strip s))
text_of-value null place = refl
text_of-value (bool _) place = refl
text_of-value (int _) place = refl
text_of-value (float _ _) place = refl
text_of-value (arr _) place = refl
text_of-value (obj _) place = refl

pub nonempty_string-value :
    (o : Object) (name : String) (path : Place)
    → (nonempty_string o name path).value ≡ word (get o name)
unfolding nonempty_string
nonempty_string-value o name path = text_of-value (get o name) (key path name)

pub word-nonempty :
    (o : Object) (name : String) (path : Place)
    → Clean (nonempty_string o name path)
    → is_empty_text (word (get o name)) ≡ false
word-nonempty o name path h =
    subst (λ t. is_empty_text t ≡ false) (nonempty_string-value o name path)
      (nonempty_string-nonempty o name path h)

-- A positive integer, as the reader gives it and as the document has it.
pub positive_int-int :
    (o : Object) (name : String) (path : Place)
    → Clean (positive_int o name path)
    → (n : ℕ) × ((positive_int o name path).value ≡ some n) × (get o name ≡ int (pos n))
positive_int-int o name path h =
    let (n, e) = positive_int-read o name path h in (n, e, (positive_int-pos o name path e).0)
