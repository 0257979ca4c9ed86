-- ===== src/Base/Text.antt =====
-- Byte strings: ASCII literals, and numbers by their big-endian bytes.
use Prim.Native.Char.{code}
use Prim.Native.String.{String}
use Prim.Native.Nat.{ℕ, zero, suc, ◌+◌, ◌*◌, ◌/◌, ◌%◌}
use mathlib.Core.Path.{◌≡◌, refl}
use mathlib.Core.Bool.{Bool, true, false, ◌&&◌}
use mathlib.Core.List.{List, [], ◌∷◌, ◌++◌}
use native.Mathlib.Omega.{arith}
use anymone.Base.Lists.{length, length-append}
use anymone.Base.Equality.{nat_eq, ◌==◌}

-- `b"…"`
abbrev pub codes : String → List ℕ
codes String.[] = []
codes (String.◌∷◌ c s) = code c ∷ codes s

-- `starts_with`
abbrev pub has_prefix : List ℕ → List ℕ → Bool
has_prefix [] bytes = true
has_prefix (p ∷ ps) [] = false
has_prefix (p ∷ ps) (b ∷ bs) = p == b && has_prefix ps bs

-- The lowest `width` bytes of a number, the highest first: `to_be_bytes`, and a key's array.
unfoldable pub be_bytes : ℕ → ℕ → List ℕ
be_bytes zero v = []
be_bytes (suc width) v = be_bytes width (v / 256) ++ v % 256 ∷ []

pub length-be_bytes : (width v : ℕ) → length (be_bytes width v) ≡ width
unfolding be_bytes
length-be_bytes zero v = refl
length-be_bytes (suc width) v = omega (
  arith,
  length-append (be_bytes width (v / 256)) (v % 256 ∷ []),
  length-be_bytes width (v / 256),
)

-- The lowest `width` bytes of a number, the lowest first: `to_le_bytes`.
unfoldable pub le_bytes : ℕ → ℕ → List ℕ
le_bytes zero v = []
le_bytes (suc width) v = v % 256 ∷ le_bytes width (v / 256)

-- `from_le_bytes`
unfoldable pub le_value : List ℕ → ℕ
le_value [] = 0
le_value (b ∷ bs) = b + 256 * le_value bs
