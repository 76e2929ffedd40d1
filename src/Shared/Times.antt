-- ===== src/Shared/Times.antt =====
-- Times as texts. Python's `datetime.fromisoformat` is a parameter of the programs; what it returns is
-- a `DateTime`: with a timezone, the microseconds in UTC since the start of year 1, a midnight.
use Prim.Native.Nat.{ℕ}
use Prim.Native.Char.{code}
use Prim.Native.String.{String}
use mathlib.Core.Bool.{◌&&◌}
use staff_sre_platform_engin.Shared.Tests.{◌==◌, if◌then◌else◌}
use staff_sre_platform_engin.Shared.Strings.{is_empty_text}

pub data DateTime : Type 0 where
  naive : DateTime
  aware : (microseconds : ℕ) → DateTime

-- `value[:-1] + "+00:00" if value.endswith("Z") else value`
unfoldable pub normalized : String → String
normalized String.[] = String.[]
normalized (String.◌∷◌ c s) =
    let rest = normalized s in
    if is_empty_text s && code c == b'Z' then "+00:00" else String.◌∷◌ c rest
