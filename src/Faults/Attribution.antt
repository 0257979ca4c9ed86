-- ===== src/Faults/Attribution.antt =====
-- Whom a liveness fault blames.
use anymone.Base.{
  ℕ, zero, suc, ◌<◌, ◌≡◌, refl, true, List, [], ◌∷◌, ◌++◌, map, length, arith, All, unwrap_or,
  retain, at_or, length-map,
}
use anymone.Base.Equality.{nat_eq}
use anymone.Base.Sets.{contains, contains-retain}
use anymone.Base.Maps.{get}
use anymone.Base.Sort.{length-sort}
use anymone.Faults.{
  OutputFaultTracker, Fault, Blame, nobody, peers, liveness, go, evaluate_round, evaluate,
  missing_from, culprits_of, blame,
}
use anymone.Faults.Turns.{Keeps, evaluate_rule}

-- Every key that the blame names satisfies `P`.
abbrev pub Blames : (ℕ → Type 0) → Blame → Type 0
Blames P nobody = Unit
Blames P (peers pks) = (key : ℕ) → contains pks key ≡ true → P key

-- A blame names at least one relay and not the whole roster.
abbrev pub IsProper : ℕ → Blame → Type 0
IsProper n nobody = Unit
IsProper n (peers pks) = (0 < length pks) × (length pks < n)

blame-IsProper : (roster culprits : List ℕ) → IsProper (length roster) (blame roster culprits)
unfolding blame
blame-IsProper roster culprits =
    ground
      (arith, length-sort (map (at_or 0 roster) culprits), length-map (at_or 0 roster) culprits)

-- A culprit of a run of failed rounds is missing in each of them.
contains-culprits_of :
    (n : ℕ) (run : List (List ℕ)) (s : List ℕ) (i : ℕ)
    → length run ≡ n
    → contains (culprits_of (s ∷ run)) i ≡ true
    → All (λ set. contains set i ≡ true) (s ∷ run)
unfolding culprits_of
contains-culprits_of n [] s i len h = (h, tt)
contains-culprits_of zero (s' ∷ rest) s i len h = absurd (omega arith)
contains-culprits_of (suc n) (s' ∷ rest) s i len h =
    let tail = contains-culprits_of n rest (retain (contains s') s) i (omega arith) h in
    ground (arith, tail, contains-retain (contains s') s i)

-- What every fault of the evaluation is: a liveness fault without evidence, with a proper blame.
pub record IsReport (n : ℕ) (f : Fault) : Type 0 where
  pub kind : f.kind ≡ liveness
  pub evidence : f.evidence ≡ []
  pub proper : IsProper n f.attribution

turn-IsReport : (n : ℕ) → Keeps (λ t. length t.roster ≡ n) (IsReport n)
unfolding evaluate_round
turn-IsReport n = record { at_turn = λ t r t' faults e turn. turn_report t r t' faults e turn }
  where
    turn_report :
        (t : OutputFaultTracker) (r : ℕ) (t' : OutputFaultTracker) (faults : List Fault)
        → length t.roster ≡ n
        → evaluate_round t r ≡ go t' faults
        → (length t'.roster ≡ n) × All (IsReport n) faults
    turn_report t r t' [] e turn = (ground arith, tt)
    turn_report t r t' (f ∷ []) e turn =
        let run = t.fail_run ++ missing_from t.roster (unwrap_or [] (get t.shares r)) ∷ [] in
        (
          ground arith,
          (
            record {
              kind = ground arith;
              evidence = ground arith;
              proper =
                  let same : f.attribution ≡ blame t.roster (culprits_of run) = ground arith in
                  rw (same, ← e) (blame-IsProper t.roster (culprits_of run));
            },
            tt,
          ),
        )
    turn_report t r t' (f ∷ g ∷ fs) e turn = ground arith

-- Every fault that an evaluation reports is a liveness fault without evidence, and blames nobody,
-- or at least one relay and fewer than all of the roster.
pub evaluate-IsReport : (t : OutputFaultTracker) → All (IsReport (length t.roster)) (evaluate t).1
evaluate-IsReport t = (evaluate_rule (turn-IsReport (length t.roster)) t refl).1
