-- ===== src/Base/Results.antt =====
-- Rust's `Result`, with `?` as a bind.
use mathlib.Core.Path.{◌≡◌, refl}
use mathlib.Core.Logic.{◌⊎◌, inl, inr}
use mathlib.Core.List.{List, [], ◌∷◌}
use mathlib.Core.Bool.{Bool, true, false}

pub data Result {ℓ κ} (A : Type ℓ) (E : Type κ) : Type (ℓ ⊔ κ) where
  ok : A → Result A E
  err : E → Result A E

-- An early `return Err(e)` unless the condition holds.
abbrev pub require {ι} : {E : Type ι} → Bool → E → Result (Unit {0}) E
require true e = ok tt
require false e = err e

infixl 5 ◌>>=◌ ◌>>◌
abbrev pub ◌>>=◌ {ℓ κ ι} :
    {A : Type ℓ} {B : Type κ} {E : Type ι} → Result A E → (A → Result B E) → Result B E
ok x >>= k = k x
err why >>= k = err why

abbrev pub ◌>>◌ {ℓ ι} : {B : Type ℓ} {E : Type ι} → Result (Unit {0}) E → Result B E → Result B E
first >> second = first >>= λ _. second

pub Result-cases {ℓ κ} :
    {A : Type ℓ} {E : Type κ} (r : Result A E) → ((x : A) × (r ≡ ok x)) ⊎ ((e : E) × (r ≡ err e))
Result-cases (ok x) = inl (x, refl)
Result-cases (err e) = inr (e, refl)

-- What a bind that succeeds says of its two parts.
pub >>=-eq-ok {ℓ κ ι} :
    {A : Type ℓ} {B : Type κ} {E : Type ι} (m : Result A E) (k : A → Result B E) {out : B}
    → (m >>= k) ≡ ok out
    → (x : A) × (m ≡ ok x) × (k x ≡ ok out)
>>=-eq-ok (ok x) k same = (x, refl, same)
>>=-eq-ok (err why) k same = cc

pub require-eq-ok {ι} :
    {E : Type ι} (b : Bool) (e : E) {u : Unit {0}} → require b e ≡ ok u → b ≡ true
require-eq-ok true e h = refl
require-eq-ok false e h = cc

-- `iter().map(f).collect::<Result<Vec<_>, _>>()`.
abbrev pub collect {ℓ κ ι} :
    {A : Type ℓ} {B : Type κ} {E : Type ι} → (A → Result B E) → List A → Result (List B) E
collect f [] = ok []
collect f (x ∷ xs) = f x >>= λ y. collect f xs >>= λ ys. ok (y ∷ ys)
