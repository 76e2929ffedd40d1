-- ===== src/Shared/JsonValues.antt =====
-- What Python's `json.loads` returns. An object holds each key once; `float` is a decimal fraction,
-- digits / 10 ^ scale, which Python keeps apart from integers. The infinities and NaN are left out.
use Prim.Native.Nat.{ℕ}
use Prim.Native.String.{String}
use mathlib.Core.Bool.{Bool, true, false, not}
use mathlib.Core.Option.{Option, none, some}
use mathlib.Core.List.{List, [], ◌∷◌}
use text.Mathlib.Text.{◌==◌}
use staff_sre_platform_engin.Shared.Tests.{if◌then◌else◌}
use staff_sre_platform_engin.Shared.Ints.{ℤ}
use staff_sre_platform_engin.Shared.Strings.{is_empty_text}

mutual
  pub data Json : Type 0 where
    null : Json
    bool : Bool → Json
    int : ℤ → Json
    float : (digits : ℤ) (scale : ℕ) → Json
    str : String → Json
    arr : Items → Json
    obj : Fields → Json

  pub data Items : Type 0 where
    nil : Items
    item : Json → Items → Items

  pub data Fields : Type 0 where
    end : Fields
    field : String → Json → Fields → Fields

abbrev pub Object : Type 0
Object = List (String × Json)

abbrev pub items : Items → List Json
items nil = []
items (item v vs) = v ∷ items vs

abbrev pub fields : Fields → Object
fields end = []
fields (field k v ps) = (k, v) ∷ fields ps

-- `parent.get(key)`, with `null` for a missing key too.
abbrev pub get : Object → String → Json
get [] key = null
get ((k, v) ∷ rest) key = if k == key then v else get rest key

-- `parent.get(key, default)`
abbrev pub get_or : Object → String → Json → Json
get_or [] key default = default
get_or ((k, v) ∷ rest) key default = if k == key then v else get_or rest key default

-- `item in texts`
abbrev pub contains : List String → String → Bool
contains [] s = false
contains (t ∷ rest) s = if t == s then true else contains rest s

-- `len(set(texts)) == len(texts)`
abbrev pub all_distinct : List String → Bool
all_distinct [] = true
all_distinct (t ∷ rest) = if contains rest t then false else all_distinct rest

-- A list of texts, if each item is one.
abbrev and_text : Json → Option (List String) → Option (List String)
and_text (str s) (some rest) = some (s ∷ rest)
and_text _ _ = none

abbrev pub texts : List Json → Option (List String)
texts [] = some []
texts (v ∷ vs) = and_text v (texts vs)

-- `value == text`
abbrev pub is_text : Json → String → Bool
is_text (str s) t = s == t
is_text _ t = false

-- `isinstance(value, str) and value`
abbrev pub has_text : Json → Bool
has_text (str s) = not (is_empty_text s)
has_text _ = false

-- Where in a document an error is.
pub data Place : Type 0 where
  top : String → Place
  key : Place → String → Place
  index : Place → ℕ → Place

-- Values written out in tests.
abbrev pub array : List Json → Json
array vs = arr (of_list vs)
  where
    of_list : List Json → Items
    of_list [] = nil
    of_list (v ∷ rest) = item v (of_list rest)

abbrev pub object : Object → Json
object o = obj (of_list o)
  where
    of_list : Object → Fields
    of_list [] = end
    of_list ((k, v) ∷ rest) = field k v (of_list rest)
