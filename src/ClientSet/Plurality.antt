-- ===== src/ClientSet/Plurality.antt =====
-- crates/anymone-core/src/client_set.rs: the set that the most servers published.
pub mod Order
pub mod Counts
pub mod Choice
use anymone.Base.{
  ℕ, ◌+◌, ◌<◌, ◌≤◌, ◌≡◌, refl, sym, subst, ◌∙◌, ap, ◌⊎◌, inl, inr, Bool, true, false, ◌&&◌, ◌||◌,
  Option, none, some, List, [], ◌∷◌, length, ltb, map_or, unwrap_or, if◌then◌else◌, arith,
  Bool-cases, Option-cases,
}
use anymone.Base.Equality.{Eq, nat_eq, list_eq, ◌==◌, list_beq_iff}
use anymone.Base.Maps.{get, put, get-put}

-- `Ord` on vectors of client numbers.
unfoldable pub lex_less : List ℕ → List ℕ → Bool
lex_less [] [] = false
lex_less [] (y ∷ ys) = true
lex_less (x ∷ xs) [] = false
lex_less (x ∷ xs) (y ∷ ys) = ltb x y || (x == y && lex_less xs ys)

-- `(na, sa.len(), sa) < (nb, sb.len(), sb)`
unfoldable pub is_below : List ℕ × ℕ → List ℕ × ℕ → Bool
is_below (sa, na) (sb, nb) =
    ltb na nb
    || (na == nb && (ltb (length sa) (length sb) || (length sa == length sb && lex_less sa sb)))

-- The loop that counts each published set.
unfoldable pub count_sets : List (List ℕ) → List (List ℕ × ℕ) → List (List ℕ × ℕ)
count_sets [] counts = counts
count_sets (o ∷ outputs) counts = count_sets outputs (put counts o (unwrap_or 0 (get counts o) + 1))

-- `max_by`
unfoldable pub best_of : List (List ℕ × ℕ) → Option (List ℕ × ℕ)
best_of [] = none
best_of (e ∷ entries) =
    some (elim (best_of entries) [ none ↦ e | some b ↦ if is_below b e then e else b ])

-- The `clients` of each published entry.
unfoldable pub plurality_set : List (List ℕ) → List ℕ
plurality_set outputs = elim (best_of (count_sets outputs [])) [ none ↦ [] | some e ↦ e.0 ]

-- How many servers published a set.
abbrev pub votes : List (List ℕ) → List ℕ → ℕ
votes [] set = 0
votes (o ∷ outputs) set = let rest = votes outputs set in if o == set then rest + 1 else rest
