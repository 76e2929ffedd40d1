-- ===== src/Shared/Strings.antt =====
-- The functions of Python's texts that the programs call.
use Prim.Native.Nat.{ℕ, Ordering}
use Prim.Native.Char.{Char, code}
use Prim.Native.String.{String, ◌++◌, compare}
use mathlib.Core.Bool.{Bool, true, false, ◌&&◌, ◌||◌}
use text.Mathlib.Text.{starts_with}
use mathlib.Core.Path.{◌≡◌, refl}
use mathlib.Core.Option.{Option, none, some}
use staff_sre_platform_engin.Shared.Tests.{leb, ◌==◌, if◌then◌else◌}

-- `str.isspace`
unfoldable pub is_space : ℕ → Bool
is_space c =
    (leb 9 c && leb c 13)
    || (leb 28 c && leb c 32)
    || (c == 133)
    || (c == 160)
    || (c == 0x1680)
    || (leb 0x2000 c && leb c 0x200a)
    || (c == 0x2028)
    || (c == 0x2029)
    || (c == 0x202f)
    || (c == 0x205f)
    || (c == 0x3000)

abbrev pub is_empty_text : String → Bool
is_empty_text String.[] = true
is_empty_text (String.◌∷◌ c s) = false

unfoldable pub lstrip : String → String
unfolding is_space
lstrip String.[] = String.[]
lstrip (String.◌∷◌ c s) = let rest = lstrip s in if is_space (code c) then rest else String.◌∷◌ c s

unfoldable pub rstrip : String → String
unfolding is_space
rstrip String.[] = String.[]
rstrip (String.◌∷◌ c s) =
    let rest = rstrip s in
    if is_empty_text rest && is_space (code c) then String.[] else String.◌∷◌ c rest

-- `text.strip()`
unfoldable pub strip : String → String
unfolding lstrip rstrip
strip s = rstrip (lstrip s)

-- `t in s`
unfoldable pub includes : String → String → Bool
includes String.[] t = starts_with String.[] t
includes (String.◌∷◌ c s) t = let rest = includes s t in starts_with (String.◌∷◌ c s) t || rest

-- `a < b` for texts
unfoldable pub text_lt : String → String → Bool
text_lt a b = elim (compare a b) [ Ordering.lt ↦ true | _ ↦ false ]

abbrev pub is_digit : Char → Bool
is_digit c = leb b'0' (code c) && leb (code c) b'9'

-- `[0-9]+` at the start of a text, as long as it goes, and the rest.
unfoldable pub span_digits : String → String × String
span_digits String.[] = (String.[], String.[])
span_digits (String.◌∷◌ c s) =
    let (digits, rest) = span_digits s in
    if is_digit c then (String.◌∷◌ c digits, rest) else (String.[], String.◌∷◌ c s)

abbrev dot_after : String × String → Option (String × String)
dot_after (String.[], rest) = none
dot_after (digits, String.[]) = none
dot_after (digits, String.◌∷◌ c rest) = if code c == b'.' then some (digits, rest) else none

abbrev last_number : String × String → Option String
last_number (String.[], rest) = none
last_number (digits, String.[]) = some digits
last_number (digits, String.◌∷◌ c rest) = none

-- The text of `[0-9]+\.[0-9]+` before `\.[0-9]+`, where a whole text is these.
unfoldable pub version_minor : String → Option String
unfolding span_digits
version_minor s = elim (dot_after (span_digits s)) [
  | none ↦ none
  | some (major, rest) ↦ elim (dot_after (span_digits rest)) [
    | none ↦ none
    | some (minor, patch) ↦ elim (last_number (span_digits patch)) [
      | none ↦ none
      | some _ ↦ some (major ++ "." ++ minor)
    ]
  ]
]

-- `[0-9]+\.[0-9]+\.[0-9]+`
unfoldable pub is_semver : String → Bool
unfolding version_minor
is_semver s = elim (version_minor s) [ none ↦ false | some _ ↦ true ]

minor_of_version : version_minor "1.35.10" ≡ some "1.35"
unfolding version_minor
minor_of_version = refl

not_a_version : version_minor "1.35" ≡ none
unfolding version_minor
not_a_version = refl

stripped : strip " \t eu west \n" ≡ "eu west"
unfolding strip
stripped = refl
