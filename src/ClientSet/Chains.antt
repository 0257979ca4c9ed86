-- ===== src/ClientSet/Chains.antt =====
-- The signature chains of relayed items: who counts, and what a server adds.
pub mod Extends
use anymone.Base.{
  ℕ, ◌+◌, ◌≤◌, ◌≡◌, refl, ap, ◌⊎◌, inl, inr, Bool, true, false, ◌&&◌, ◌||◌, not, some, List, [],
  ◌∷◌, ◌++◌, length, any_of, any_of-append, any_of-retain, retain, map_or, get_elem?, suc, arith,
  Bool-cases, Option-cases,
}
use anymone.Base.Equality.{nat_eq, ◌==◌, beq_refl}
use anymone.Base.Sets.{contains, Distinct, length-le_of_Distinct}
use anymone.ClientSet.{Crates}
use anymone.ClientSet.Relaying.{next_signers, chain_signers}

module _ {P Q O : Type 0} (c : Crates P Q O) (pks msg : List ℕ) where
  -- Whether an entry of a chain is the signature of the server it names.
  abbrev pub is_signed : ℕ → ℕ × List ℕ → Bool
  is_signed id e = e.0 == id && map_or false (λ vk. c.verify vk msg e.1) (get_elem? pks e.0)

  next_signers_lem :
      (seen : List ℕ) (e : ℕ × List ℕ) (x : ℕ)
      → contains (next_signers c pks msg seen e) x ≡ (contains seen x || is_signed x e)
  unfolding next_signers
  next_signers_lem seen e x = ground (arith, nat_eq.beq_iff e.0 x, ap (contains seen))

  next_signers-Distinct :
      (seen : List ℕ) (e : ℕ × List ℕ) → Distinct seen → Distinct (next_signers c pks msg seen e)
  unfolding next_signers
  next_signers-Distinct seen e d = ground (arith, d)

  pub contains-chain_signers :
      (chain : List (ℕ × List ℕ)) (seen : List ℕ) (x : ℕ)
      → contains (chain_signers c pks msg chain seen) x
        ≡ (contains seen x || any_of (is_signed x) chain)
  unfolding chain_signers
  contains-chain_signers [] seen x = ground arith
  contains-chain_signers (e ∷ chain) seen x = ground (
    arith,
    contains-chain_signers chain (next_signers c pks msg seen e) x,
    next_signers_lem seen e x,
  )

  pub chain_signers-Distinct :
      (chain : List (ℕ × List ℕ)) (seen : List ℕ)
      → Distinct seen
      → Distinct (chain_signers c pks msg chain seen)
  unfolding chain_signers
  chain_signers-Distinct [] seen d = d
  chain_signers-Distinct (e ∷ chain) seen d =
      chain_signers-Distinct chain (next_signers c pks msg seen e) (next_signers-Distinct seen e d)

  -- The entries of the other servers stay when a server's own are taken out.
  others-stay :
      (own x : ℕ) (chain : List (ℕ × List ℕ))
      → (own == x) ≡ false
      → any_of (is_signed x) (retain (λ (e : ℕ × List ℕ). not (e.0 == own)) chain)
        ≡ any_of (is_signed x) chain
  others-stay own x [] h = refl
  others-stay own x (e ∷ chain) h =
      ground (arith, others-stay own x chain, h, nat_eq.beq_iff e.0 own, nat_eq.beq_iff e.0 x)

  -- A valid signature of a server that was not counted makes the count one larger.
  pub signed_longer :
      (own : ℕ) (sig : List ℕ) (chain : List (ℕ × List ℕ))
      → is_signed own (own, sig) ≡ true
      → contains (chain_signers c pks msg chain []) own ≡ false
      → length (chain_signers c pks msg chain []) + 1
        ≤ length (
            chain_signers c pks msg
              (retain (λ (e : ℕ × List ℕ). not (e.0 == own)) chain ++ (own, sig) ∷ [])
              [])
  signed_longer own sig chain valid new =
      let rest = retain (λ (e : ℕ × List ℕ). not (e.0 == own)) chain in
      let before = chain_signers c pks msg chain [] in
      let after = chain_signers c pks msg (rest ++ (own, sig) ∷ []) [] in
      let counted : suc (length before) ≤ length after =
        length-le_of_Distinct (own ∷ before) after (new, chain_signers-Distinct chain [] tt)
          (λ x h. ground (
            arith,
            h,
            valid,
            contains-chain_signers (rest ++ (own, sig) ∷ []) [] x,
            contains-chain_signers chain [] x,
            any_of-append (is_signed x) rest ((own, sig) ∷ []),
            nat_eq.beq_iff own x,
            others-stay own x chain,
          )) in
      omega (arith, counted)

  -- Who counts after an entry is added is its server or counted before.
  pub chain_signers-append :
      (chain : List (ℕ × List ℕ)) (own : ℕ) (sig : List ℕ) (x : ℕ)
      → contains (chain_signers c pks msg (chain ++ (own, sig) ∷ []) []) x ≡ true
      → ((own == x) ≡ true) ⊎ (contains (chain_signers c pks msg chain []) x ≡ true)
  chain_signers-append chain own sig x h = elim (Bool-cases (own == x)) [
    | inl same ↦ inl same
    | inr other ↦ inr (
        ground (
          arith,
          h,
          other,
          contains-chain_signers (chain ++ (own, sig) ∷ []) [] x,
          contains-chain_signers chain [] x,
          any_of-append (is_signed x) chain ((own, sig) ∷ []),
        ))
  ]

  pub chain_signers-retain :
      (q : ℕ × List ℕ → Bool) (chain : List (ℕ × List ℕ)) (x : ℕ)
      → contains (chain_signers c pks msg (retain q chain) []) x ≡ true
      → contains (chain_signers c pks msg chain []) x ≡ true
  chain_signers-retain q chain x h = ground (
    arith,
    h,
    contains-chain_signers (retain q chain) [] x,
    contains-chain_signers chain [] x,
    any_of-retain (is_signed x) q chain,
  )

  -- Who counts has its key listed.
  pub chain_signers-listed :
      (chain : List (ℕ × List ℕ)) (x : ℕ)
      → contains (chain_signers c pks msg chain []) x ≡ true
      → (pk : ℕ) × (get_elem? pks x ≡ some pk)
  chain_signers-listed chain x h =
      listed chain (ground (arith, h, contains-chain_signers chain [] x))
    where
      listed :
          (chain : List (ℕ × List ℕ))
          → any_of (is_signed x) chain ≡ true
          → (pk : ℕ) × (get_elem? pks x ≡ some pk)
      listed [] k = cc
      listed (e ∷ chain) k = elim (Bool-cases (is_signed x e)) [
        | inr other ↦ listed chain (ground (arith, other, k))
        | inl good ↦ elim (Option-cases (get_elem? pks x)) [
          | inr key ↦ key
          | inl missing ↦ absurd (
              ground (
                arith,
                good,
                missing,
                ap (get_elem? pks) ((nat_eq.beq_iff e.0 x).0 (ground (arith, good))),
              ))
        ]
      ]
