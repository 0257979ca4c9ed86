-- ===== src/Faults/Turns.antt =====
-- One turn of the evaluation loop, and what every turn leaves alone.
use anymone.Base.{ℕ, suc, ◌+◌, ◌≡◌, refl, List, [], ◌∷◌, ◌++◌, Option, none, some, All, zero}
use anymone.Base.Equality.{nat_eq}
use anymone.Faults.{
  OutputFaultTracker, Fault, Turn, stop, go, evaluate_round, evaluate_rounds, evaluate,
}

-- A property of trackers that every turn keeps, and of faults that every turn establishes.
pub record Keeps (P : OutputFaultTracker → Type 0) (Q : Fault → Type 0) : Type 0 where
  pub at_turn :
      (t : OutputFaultTracker) (r : ℕ) (t' : OutputFaultTracker) (faults : List Fault)
      → P t
      → evaluate_round t r ≡ go t' faults
      → P t' × All Q faults

All-append {ℓ κ} :
    {A : Type ℓ} (P : A → Type κ) (xs ys : List A) → All P xs → All P ys → All P (xs ++ ys)
All-append P [] ys hx hy = hy
All-append P (x ∷ xs) ys hx hy = (hx.0, All-append P xs ys hx.1 hy)

module _ {P : OutputFaultTracker → Type 0} {Q : Fault → Type 0} (k : Keeps P Q) where
  -- What the turns keep and establish, the loop keeps and establishes.
  evaluate_rounds_rule :
      (n r : ℕ) (t : OutputFaultTracker)
      → P t
      → P (evaluate_rounds n r t).0 × All Q (evaluate_rounds n r t).1
  unfolding evaluate_rounds
  evaluate_rounds_rule zero r t p = (p, tt)
  evaluate_rounds_rule (suc n) r t p = split (evaluate_round t r) refl (evaluate_rounds_rule n)
    where
      split :
          (turn : Turn)
          → evaluate_round t r ≡ turn
          → ((r' : ℕ) (t' : OutputFaultTracker)
              → P t'
              → P (evaluate_rounds n r' t').0 × All Q (evaluate_rounds n r' t').1)
          → P (evaluate_rounds (suc n) r t).0 × All Q (evaluate_rounds (suc n) r t).1
      split stop e ih = rw (e, evaluate_rounds) (p, tt)
      split (go t' faults) e ih =
          let now = k.at_turn t r t' faults p e in
          let later = ih (r + 1) t' now.0 in
          rw (e, evaluate_rounds) (later.0, All-append Q faults _ now.1 later.1)

  pub evaluate_rule : (t : OutputFaultTracker) → P t → P (evaluate t).0 × All Q (evaluate t).1
  unfolding evaluate
  evaluate_rule t p = split t.max_share_round refl
    where
      split : (o : Option ℕ) → t.max_share_round ≡ o → P (evaluate t).0 × All Q (evaluate t).1
      split none e = rw (e, evaluate) (p, tt)
      split (some f) e = rw (e, evaluate) (evaluate_rounds_rule _ _ t p)
