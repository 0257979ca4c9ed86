-- ===== src/Base/Options.antt =====
-- `?` in a function that returns an option.
use mathlib.Core.Path.{◌≡◌, refl}
use mathlib.Core.Bool.{Bool, true, false}
use mathlib.Core.Option.{Option, none, some}

infixl 5 ◌>>=◌ ◌>>◌
abbrev pub ◌>>=◌ {ℓ κ} : {A : Type ℓ} {B : Type κ} → Option A → (A → Option B) → Option B
none >>= k = none
some x >>= k = k x

abbrev pub ◌>>◌ {κ} : {B : Type κ} → Option (Unit {0}) → Option B → Option B
first >> second = first >>= λ _. second

-- `return None` unless the condition holds.
abbrev pub require : Bool → Option (Unit {0})
require true = some tt
require false = none

-- What a bind that succeeds says of its two parts.
pub >>=-eq-some {ℓ κ} :
    {A : Type ℓ} {B : Type κ} (m : Option A) (k : A → Option B) {out : B}
    → (m >>= k) ≡ some out
    → (x : A) × (m ≡ some x) × (k x ≡ some out)
>>=-eq-some (some x) k same = (x, refl, same)
>>=-eq-some none k same = cc
