-- ===== src/Shared/Texts.antt =====
-- Equality of texts, as a test and as a decision.
use Prim.Native.String.{String}
use mathlib.Core.Path.{◌≡◌}
use mathlib.Core.Logic.{◌≢◌, ◌⊎◌, inl, inr}
use text.Mathlib.Text.{◌==◌}
use text.Mathlib.TextEquality.{eq_iff}
use staff_sre_platform_engin.Shared.Tests.{Bool-cases}

unfoldable pub String-discrete : Discrete String
unfolding Bool-cases
String-discrete a b = elim (Bool-cases (a == b)) [
  | inl e ↦ yes ((eq_iff a b).0 e)
  | inr e ↦ no (λ p. cc (e, (eq_iff a b).1 p))
]

-- What holds where two texts are the same.
pub same-or {ℓ} : (a b : String) {Q : Type ℓ} → (a ≡ b → Q) → (a ≢ b) ⊎ Q
same-or a b f = elim (String-discrete a b) [ yes e ↦ inr (f e) | no other ↦ inl other ]
