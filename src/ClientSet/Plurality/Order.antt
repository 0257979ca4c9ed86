-- ===== src/ClientSet/Plurality/Order.antt =====
-- The order of the counted sets is total.
use anymone.Base.{ℕ, ◌≡◌, refl, ◌⊎◌, inl, inr, true, false, List, [], ◌∷◌, arith}
use anymone.Base.Equality.{nat_eq, list_eq}
use anymone.ClientSet.Plurality.{lex_less, is_below}

pub lex_less-cases :
    (xs ys : List ℕ) → (lex_less xs ys ≡ true) ⊎ ((lex_less ys xs ≡ true) ⊎ (xs ≡ ys))
unfolding lex_less
lex_less-cases [] [] = inr (inr refl)
lex_less-cases [] (y ∷ ys) = inl refl
lex_less-cases (x ∷ xs) [] = inr (inl refl)
lex_less-cases (x ∷ xs) (y ∷ ys) = elim (lex_less-cases xs ys) [
  | inl h ↦ ground (arith, h)
  | inr (inl h) ↦ ground (arith, h)
  | inr (inr h) ↦ ground (arith, h)
]

lex_less_irrefl : (xs : List ℕ) → lex_less xs xs ≡ false
unfolding lex_less
lex_less_irrefl [] = refl
lex_less_irrefl (x ∷ xs) = ground (arith, lex_less_irrefl xs)

lex_less_trans :
    (xs ys zs : List ℕ) → lex_less xs ys ≡ true → lex_less ys zs ≡ true → lex_less xs zs ≡ true
unfolding lex_less
lex_less_trans [] [] zs h k = cc
lex_less_trans [] (y ∷ ys) [] h k = cc
lex_less_trans [] (y ∷ ys) (z ∷ zs) h k = refl
lex_less_trans (x ∷ xs) [] zs h k = cc
lex_less_trans (x ∷ xs) (y ∷ ys) [] h k = cc
lex_less_trans (x ∷ xs) (y ∷ ys) (z ∷ zs) h k = ground (arith, h, k, lex_less_trans xs ys zs)

pub is_below_trans :
    (a b d : List ℕ × ℕ) → is_below a b ≡ true → is_below b d ≡ true → is_below a d ≡ true
unfolding is_below
is_below_trans (sa, na) (sb, nb) (sd, nd) h k = ground (arith, h, k, lex_less_trans sa sb sd)

pub is_below_antisym : (a b : List ℕ × ℕ) → is_below a b ≡ false → is_below b a ≡ false → a.0 ≡ b.0
unfolding is_below
is_below_antisym (sa, na) (sb, nb) h k = ground (arith, h, k, lex_less-cases sa sb)

pub is_below_irrefl : (a : List ℕ × ℕ) → is_below a a ≡ false
unfolding is_below
is_below_irrefl (sa, na) = ground (arith, lex_less_irrefl sa)
