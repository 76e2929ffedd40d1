-- ===== src/Policy/Digests.antt =====
-- The pattern of evaluate_policy.py for an image that is given by its digest, without reference to the
-- functions that match it.
use Prim.Native.Char.{Char, code}
use text.Mathlib.TextEquality.{Char-path}
use staff_sre_platform_engin.Shared.{
  ℕ, zero, suc, String, Bool, true, false, not, ◌==◌, ==_iff, Option, none, some, ◌≡◌, ◌≢◌, ◌↔◌,
  refl, arith, ap, sym, ◌∙◌, subst, Bool-cases, Option-cases, inl, inr, and-true, not-true,
}
use staff_sre_platform_engin.Policy.Evaluate.{
  is_hex, hex_only, drop_prefix, is_digest, ends_in_digest, is_digest_image,
}

-- A text of the given number of hexadecimal digits.
pub data HexDigits : ℕ → String → Type 0 where
  no_digit : HexDigits zero String.[]
  digit :
      {n : ℕ} {s : String}
      → (c : Char) → is_hex c ≡ true
      → HexDigits n s
      → HexDigits (suc n) (String.◌∷◌ c s)

-- One text and then the other.
unfoldable pub join : String → String → String
join String.[] t = t
join (String.◌∷◌ c s) t = String.◌∷◌ c (join s t)

-- A text on one line.
abbrev pub IsLine : String → Type 0
IsLine String.[] = Unit
IsLine (String.◌∷◌ c s) = ((code c == b'\n') ≡ false) × IsLine s

-- A name on one line, the tag, and 64 hexadecimal digits.
pub record IsDigestImage (image : String) : Type 0 where
  pub name : String
  pub digits : String
  pub parts : image ≡ join name (join "@sha256:" digits)
  pub named : name ≢ String.[]
  pub line : IsLine name
  pub hex : HexDigits 64 digits

hex_only-HexDigits : (n : ℕ) (s : String) → hex_only n s ≡ true → HexDigits n s
unfolding hex_only
hex_only-HexDigits zero String.[] h = no_digit
hex_only-HexDigits zero (String.◌∷◌ c s) h = absurd (cc h)
hex_only-HexDigits (suc n) String.[] h = absurd (cc h)
hex_only-HexDigits (suc n) (String.◌∷◌ c s) h =
    let (x, rest) = and-true (is_hex c) (hex_only n s) h in digit c x (hex_only-HexDigits n s rest)

HexDigits-hex_only : (n : ℕ) (s : String) → HexDigits n s → hex_only n s ≡ true
unfolding hex_only
HexDigits-hex_only zero String.[] h = refl
HexDigits-hex_only zero (String.◌∷◌ _ _) h = elim h [ ]
HexDigits-hex_only (suc n) _ (digit {s = s} c x rest) = rw x (HexDigits-hex_only n s rest)

drop_prefix-join : (p s : String) → drop_prefix p (join p s) ≡ some s
unfolding drop_prefix join
drop_prefix-join String.[] s = refl
drop_prefix-join (String.◌∷◌ c p) s = rw ((==_iff (code c) (code c)).1 refl) (drop_prefix-join p s)

drop_prefix-parts : (p s d : String) → drop_prefix p s ≡ some d → s ≡ join p d
unfolding drop_prefix join
drop_prefix-parts String.[] s d h = cc h
drop_prefix-parts (String.◌∷◌ c p) String.[] d h = absurd (cc h)
drop_prefix-parts (String.◌∷◌ c p) (String.◌∷◌ x s) d h = elim (Bool-cases (code c == code x)) [
  | inl same ↦ cc (Char-path c x ((==_iff _ _).0 same), drop_prefix-parts p s d (rw same at h))
  | inr other ↦ absurd (cc (rw other at h))
]

-- The test behind the tag.
abbrev matched : Option String → Bool
matched none = false
matched (some digits) = hex_only 64 digits

is_digest-matched : (s : String) → is_digest s ≡ matched (drop_prefix "@sha256:" s)
unfolding is_digest
is_digest-matched s = refl

is_digest-parts :
    (s : String)
    → is_digest s ≡ true
    → (digits : String) × (s ≡ join "@sha256:" digits) × HexDigits 64 digits
is_digest-parts s h =
    let h' = sym (is_digest-matched s) ∙ h in
    elim (Option-cases (drop_prefix "@sha256:" s)) [
      | inl e ↦ absurd (cc (h', e))
      | inr (digits, e) ↦ (
        digits,
        drop_prefix-parts "@sha256:" s digits e,
        hex_only-HexDigits 64 digits (sym (ap matched e) ∙ h'),
      )
    ]

parts-is_digest :
    (digits : String) → HexDigits 64 digits → is_digest (join "@sha256:" digits) ≡ true
parts-is_digest digits h =
    is_digest-matched _
    ∙ (ap matched (drop_prefix-join "@sha256:" digits) ∙ HexDigits-hex_only 64 digits h)

-- A name that may be empty, and the rest.
record Parts (s : String) : Type 0 where
  name : String
  digits : String
  parts : s ≡ join name (join "@sha256:" digits)
  line : IsLine name
  hex : HexDigits 64 digits

ends_in_digest-Parts : (s : String) → ends_in_digest s ≡ true → Parts s
unfolding ends_in_digest join
ends_in_digest-Parts String.[] h = absurd (cc h)
ends_in_digest-Parts (String.◌∷◌ c s) h = elim (Bool-cases (is_digest (String.◌∷◌ c s))) [
  | inl found ↦
      let (digits, e, x) = is_digest-parts (String.◌∷◌ c s) found in
      record { name = String.[]; digits = digits; parts = e; line = tt; hex = x }
  | inr other ↦
      let (line, rest) = and-true (not (code c == b'\n')) (ends_in_digest s) (rw other at h) in
      let ih = ends_in_digest-Parts s rest in
      record {
        name = String.◌∷◌ c ih.name;
        digits = ih.digits;
        parts = ap (λ t. String.◌∷◌ c t) ih.parts;
        line = (not-true _ line, ih.line);
        hex = ih.hex;
      }
]

parts-ends_in_digest :
    (name digits : String)
    → IsLine name
    → HexDigits 64 digits
    → ends_in_digest (join name (join "@sha256:" digits)) ≡ true
unfolding ends_in_digest join
parts-ends_in_digest String.[] digits line hex = rw (parts-is_digest digits hex) refl
parts-ends_in_digest (String.◌∷◌ c name) digits (one, line) hex =
    ground (arith, one, parts-ends_in_digest name digits line hex)

is_digest_image-parts : (image : String) → is_digest_image image ≡ true → IsDigestImage image
unfolding is_digest_image join
is_digest_image-parts String.[] h = absurd (cc h)
is_digest_image-parts (String.◌∷◌ c s) h =
    let (line, rest) = and-true (not (code c == b'\n')) (ends_in_digest s) h in
    let p = ends_in_digest-Parts s rest in
    record {
      name = String.◌∷◌ c p.name;
      digits = p.digits;
      parts = ap (λ t. String.◌∷◌ c t) p.parts;
      named = λ e. cc e;
      line = (not-true _ line, p.line);
      hex = p.hex;
    }

parts-is_digest_image :
    (name digits : String)
    → name ≢ String.[]
    → IsLine name
    → HexDigits 64 digits
    → is_digest_image (join name (join "@sha256:" digits)) ≡ true
unfolding is_digest_image join
parts-is_digest_image String.[] digits named line hex = absurd (named refl)
parts-is_digest_image (String.◌∷◌ c name) digits named (one, line) hex =
    ground (arith, one, parts-ends_in_digest name digits line hex)

-- An image is given by its digest exactly where it is a name on one line, the tag, and 64
-- hexadecimal digits.
pub is_digest_image_iff : (image : String) → (is_digest_image image ≡ true) ↔ IsDigestImage image
is_digest_image_iff image = (
  is_digest_image-parts image,
  λ h.
      subst (λ t. is_digest_image t ≡ true) (sym h.parts)
        (parts-is_digest_image h.name h.digits h.named h.line h.hex),
)
