-- ===== src/ClientSet/Agreement/Collecting.antt =====
-- The mail of a round, put together from what each honest lane forwards.
use anymone.Base.{
  ℕ, ◌≡◌, refl, sym, subst, inl, inr, true, ◌||◌, List, [], ◌∷◌, ◌++◌, map, concat, All, append-All,
  arith, Bool-cases,
}
use anymone.Base.Equality.{nat_eq, ◌==◌}
use anymone.Base.Sets.{contains}
use anymone.ClientSet.{Crates, SetServer, Relay}
use anymone.ClientSet.Once.{hashes_of}

contains-hashes :
    {P Q O : Type 0} (c : Crates P Q O) (sid : List ℕ) (xs ys : List (Relay P)) (h : ℕ)
    → contains (hashes_of c sid (xs ++ ys)) h
      ≡ (contains (hashes_of c sid xs) h || contains (hashes_of c sid ys) h)
contains-hashes c sid [] ys h = refl
contains-hashes c sid (x ∷ xs) ys h = ground (arith, contains-hashes c sid xs ys h)

pub hashes_left :
    {P Q O : Type 0} (c : Crates P Q O) (sid : List ℕ) (xs ys : List (Relay P)) (h : ℕ)
    → contains (hashes_of c sid xs) h ≡ true
    → contains (hashes_of c sid (xs ++ ys)) h ≡ true
hashes_left c sid xs ys h first = ground (arith, first, contains-hashes c sid xs ys h)

pub collected-hash :
    {P Q O : Type 0} (c : Crates P Q O) (sid : List ℕ) (turns : ℕ → SetServer P Q × List (Relay P))
    (is : List ℕ) (i h : ℕ)
    → contains is i ≡ true
    → contains (hashes_of c sid (turns i).1) h ≡ true
    → contains (hashes_of c sid (concat (map (λ i. (turns i).1) is))) h ≡ true
collected-hash c sid turns [] i h own at = cc
collected-hash c sid turns (k ∷ is) i h own at =
    let both = contains-hashes c sid (turns k).1 (concat (map (λ i. (turns i).1) is)) h in
    elim (Bool-cases (k == i)) [
      | inl same ↦
          let first : contains (hashes_of c sid (turns k).1) h ≡ true =
            subst (λ x. contains (hashes_of c sid (turns x).1) h ≡ true)
              (sym ((nat_eq.beq_iff k i).0 same)) at in
          ground (arith, both, first)
      | inr other ↦
          ground (arith, both, collected-hash c sid turns is i h (ground (arith, own, other)) at)
    ]

pub collected-All :
    {P Q : Type 0} (Good : Relay P → Type 0) (turns : ℕ → SetServer P Q × List (Relay P))
    (is : List ℕ)
    → ((i : ℕ) → contains is i ≡ true → All Good (turns i).1)
    → All Good (concat (map (λ i. (turns i).1) is))
collected-All Good turns [] each = tt
collected-All Good turns (i ∷ is) each =
    append-All Good (turns i).1 _ (each i (ground (arith, nat_eq.beq_iff i i)))
      (collected-All Good turns is (λ j h. each j (ground (arith, h))))
