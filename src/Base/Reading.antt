-- ===== src/Base/Reading.antt =====
-- Reading a byte string at an offset: `bytes.get(at..end)?` and `from_le_bytes`, with arrays read
-- back as the numbers that they hold.
use Prim.Native.Nat.{ℕ, zero, suc, ◌+◌, ◌-◌, ◌*◌, ◌/◌, ◌%◌, ◌<◌}
use mathlib.Core.Path.{◌≡◌, refl, sym, ap, ◌∙◌}
use mathlib.Core.Option.{some}
use mathlib.Core.List.{List, [], ◌∷◌, ◌++◌, append_assoc, append-nil}
use native.Mathlib.Omega.{arith}
use anymone.Base.Tests.{le→leb}
use anymone.Base.Lists.{length, length-append, take-append_length, drop-append_length, get_range}
use anymone.Base.Text.{be_bytes, le_bytes, le_value}

-- `256^w`
abbrev pub pow256 : ℕ → ℕ
pow256 zero = 1
pow256 (suc w) = 256 * pow256 w

abbrev pub u32_bound : ℕ
u32_bound = 4294967296

-- `from_be_bytes`, and an array as a number in the order of its bytes.
abbrev pub be_from : ℕ → List ℕ → ℕ
be_from acc [] = acc
be_from acc (b ∷ bs) = be_from (acc * 256 + b) bs

pub length-le_bytes : (w v : ℕ) → length (le_bytes w v) ≡ w
unfolding le_bytes
length-le_bytes zero v = refl
length-le_bytes (suc w) v = omega (arith, length-le_bytes w (v / 256))

pub le_value-le_bytes : (w v : ℕ) → v < pow256 w → le_value (le_bytes w v) ≡ v
unfolding le_bytes le_value
le_value-le_bytes zero v h = omega arith
le_value-le_bytes (suc w) v h = omega (arith, le_value-le_bytes w (v / 256) (omega arith))

be_from-append :
    (acc : ℕ) (bs : List ℕ) (b : ℕ) → be_from acc (bs ++ b ∷ []) ≡ be_from acc bs * 256 + b
be_from-append acc [] b = refl
be_from-append acc (x ∷ bs) b = be_from-append (acc * 256 + x) bs b

pub be_from-be_bytes : (w v : ℕ) → v < pow256 w → be_from 0 (be_bytes w v) ≡ v
unfolding be_bytes
be_from-be_bytes zero v h = omega arith
be_from-be_bytes (suc w) v h = omega (
  arith,
  be_from-append 0 (be_bytes w (v / 256)) (v % 256),
  be_from-be_bytes w (v / 256) (omega arith),
)

module _ {ℓ} {A : Type ℓ} where
  -- From `at` on, `xs` is `rest`.
  abbrev pub At : List A → ℕ → List A → Type ℓ
  At xs at rest = (before : List A) × (xs ≡ before ++ rest) × (length before ≡ at)

  pub At-start : (xs : List A) → At xs 0 xs
  At-start xs = ([], refl, refl)

  pub At-next :
      {xs : List A} (at n : ℕ) (mid rest : List A)
      → At xs at (mid ++ rest)
      → length mid ≡ n
      → At xs (at + n) rest
  At-next at n mid rest (before, same, len) h = (
    before ++ mid,
    same ∙ sym (append_assoc before mid rest),
    omega (arith, length-append before mid),
  )

  pub At-get :
      {xs : List A} (at to : ℕ) (mid rest : List A)
      → At xs at (mid ++ rest)
      → at + length mid ≡ to
      → get_range xs at to ≡ some mid
  At-get at to mid rest (before, same, len) h = rw (
    same,
    drop-append_length at before (mid ++ rest) len,
    take-append_length (to - at) mid rest (omega arith),
    le→leb at to (omega arith),
    le→leb to (length (before ++ (mid ++ rest)))
        (omega (arith, length-append before (mid ++ rest), length-append mid rest)),
  )

  pub At-length :
      {xs : List A} (at : ℕ) (rest : List A) → At xs at rest → length xs ≡ at + length rest
  At-length at rest (before, same, len) = ap length same ∙ omega (arith, length-append before rest)

  pub At-end :
      {xs : List A} (at : ℕ) (rest : List A)
      → At xs at rest
      → get_range xs at (length xs) ≡ some rest
  At-end {xs} at rest (before, same, len) =
      At-get at (length xs) rest []
        (before, same ∙ ap (λ ys. before ++ ys) (sym (append-nil rest)), len)
        (sym (At-length at rest (before, same, len)))

  pub At-get_last :
      {xs : List A} (at to : ℕ) (rest : List A)
      → At xs at rest
      → at + length rest ≡ to
      → get_range xs at to ≡ some rest
  At-get_last {xs} at to rest here h =
      ap (get_range xs at) (sym h ∙ sym (At-length at rest here)) ∙ At-end at rest here

  pub At-split :
      {xs : List A} (at : ℕ) (one two rest : List A)
      → At xs at ((one ++ two) ++ rest)
      → At xs at (one ++ (two ++ rest))
  At-split at one two rest (before, same, len) =
      (before, same ∙ ap (λ ys. before ++ ys) (append_assoc one two rest), len)
