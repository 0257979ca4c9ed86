-- ===== src/Faults/Laws.antt =====
-- The tracker's invariant, and the rounds that are not judged.
use anymone.Base.{
  ℕ, ◌-◌, ◌≤◌, ◌<◌, ◌≡◌, refl, true, false, ◌&&◌, ◌||◌, List, [], ◌∷◌, length, some, arith, All,
  any_of, leb, ltb, length-append, map_or, unwrap_or, ◌∙◌,
}
use anymone.Base.Equality.{nat_eq}
use anymone.Base.Sets.{contains, insert, contains-insert}
use anymone.Base.Maps.{get}
use anymone.Base.Sort.{contains-sort}
use anymone.Faults.{
  OutputFaultTracker, Fault, evaluate_round, evaluate, output_frozen, observe_share, observe_output,
  fast_forward, new, shared_since, union, relays_shared_recent, missing_from,
}
use anymone.Faults.Turns.{Keeps, evaluate_rule}

-- The run of failures is below the threshold until it is reported, and holds exactly `threshold`
-- failures from then on.
pub record IsValid (t : OutputFaultTracker) : Type 0 where
  pub positive : 1 ≤ t.threshold
  pub pending : t.reported ≡ false → length t.fail_run < t.threshold
  pub latched : t.reported ≡ true → length t.fail_run ≡ t.threshold

-- A call on the tracker, as the protocol observers make them.
pub data Call : Type 0 where
  share : (round idx : ℕ) → Call
  output : (round : ℕ) → Call
  forward : (round : ℕ) → Call
  judge_rounds : Call

unfoldable pub apply : OutputFaultTracker → Call → OutputFaultTracker
apply t (share round idx) = observe_share t round idx
apply t (output round) = observe_output t round
apply t (forward round) = fast_forward t round
apply t judge_rounds = (evaluate t).0

unfoldable pub apply_all : OutputFaultTracker → List Call → OutputFaultTracker
unfolding apply
apply_all t [] = t
apply_all t (c ∷ cs) = apply_all (apply t c) cs

All-trivial : (faults : List Fault) → All (λ _. Unit {0}) faults
All-trivial [] = tt
All-trivial (f ∷ fs) = (tt, All-trivial fs)

turn-IsValid : Keeps IsValid (λ _. Unit {0})
unfolding evaluate_round
turn-IsValid = record {
  at_turn = λ t r t' faults v e.
      let grown =
        length-append t.fail_run (missing_from t.roster (unwrap_or [] (get t.shares r)) ∷ []) in
      (
        record {
          positive = ground (arith, v.positive);
          pending = ground (arith, v.positive, v.pending, grown);
          latched = ground (arith, v.latched, v.pending, grown);
        },
        All-trivial faults,
      );
}

apply-IsValid : (t : OutputFaultTracker) (c : Call) → IsValid t → IsValid (apply t c)
unfolding apply observe_share observe_output fast_forward
apply-IsValid t (share round idx) v = ground (arith, v.positive, v.pending, v.latched)
apply-IsValid t (output round) v = ground (arith, v.positive, v.pending, v.latched)
apply-IsValid t (forward round) v = record {
  positive = v.positive;
  pending = λ _. v.positive;
  latched = λ h. cc;
}
apply-IsValid t judge_rounds v = (evaluate_rule turn-IsValid t v).0

apply_all-IsValid : (t : OutputFaultTracker) (cs : List Call) → IsValid t → IsValid (apply_all t cs)
unfolding apply_all
apply_all-IsValid t [] v = v
apply_all-IsValid t (c ∷ cs) v = apply_all-IsValid (apply t c) cs (apply-IsValid t c v)

new-IsValid : (roster : List ℕ) (threshold : ℕ) → IsValid (new roster threshold)
unfolding new
new-IsValid roster threshold = record {
  positive = omega arith;
  pending = λ _. omega arith;
  latched = λ h. cc;
}

-- After any calls on a new tracker, the run of failed rounds is shorter than the threshold as long
-- as nothing is reported for it, and as long as the threshold from the report on: a report is made
-- when the run reaches the threshold, and once for the run.
pub apply_all-new-IsValid :
    (roster : List ℕ) (threshold : ℕ) (cs : List Call)
    → IsValid (apply_all (new roster threshold) cs)
apply_all-new-IsValid roster threshold cs =
    apply_all-IsValid (new roster threshold) cs (new-IsValid roster threshold)

-- The parts of the state that the evaluation reads and never writes.
record SameView (t u : OutputFaultTracker) : Type 0 where
  outputs : u.outputs ≡ t.outputs
  shares : u.shares ≡ t.shares
  top_output : u.max_output_round ≡ t.max_output_round
  top_share : u.max_share_round ≡ t.max_share_round
  margin : u.stall_margin ≡ t.stall_margin
  base : u.share_at_last_output ≡ t.share_at_last_output

All-absurd : (faults : List Fault) → All (λ _. ⊥) faults → faults ≡ []
All-absurd [] h = refl
All-absurd (f ∷ fs) h = absurd h.0

module _ (t : OutputFaultTracker) (advancing : output_frozen t ≡ false)
    (answered : (r : ℕ)
      → map_or false (λ m. ltb r m) t.max_output_round ≡ true
      → contains t.outputs r ≡ false
      → length (unwrap_or [] (get t.shares r)) ≡ 0) where
  calm_turn : Keeps (SameView t) (λ _. ⊥)
  unfolding evaluate_round output_frozen
  calm_turn = record {
    at_turn = λ u r u' faults v e.
        ground
          (arith, answered r, v.outputs, v.shares, v.top_output, v.top_share, v.margin, v.base);
  }

  -- A subnet whose output lags but still advances is not faulted: if output is not frozen, and each
  -- round below the newest output that had shares has its output, an evaluation reports nothing.
  pub evaluate_advancing : (evaluate t).1 ≡ []
  evaluate_advancing =
      All-absurd _
        (evaluate_rule calm_turn t (record {
          outputs = refl;
          shares = refl;
          top_output = refl;
          top_share = refl;
          margin = refl;
          base = refl;
        })).1

contains-union :
    (xs ys : List ℕ) (i : ℕ) → contains (union xs ys) i ≡ (contains xs i || contains ys i)
unfolding union
contains-union [] ys i = refl
contains-union (x ∷ xs) ys i =
    ground (arith, contains-union xs (insert ys x) i, contains-insert ys x i)

contains-shared_since :
    (oldest : ℕ) (shares : List (ℕ × List ℕ)) (i : ℕ)
    → contains (shared_since oldest shares) i
      ≡ any_of (λ entry. leb oldest entry.0 && contains entry.1 i) shares
unfolding shared_since
contains-shared_since oldest [] i = refl
contains-shared_since oldest ((r, set) ∷ rest) i =
    ground
      (arith, contains-union set (shared_since oldest rest) i, contains-shared_since oldest rest i)

-- Once some relay has shared, the relays called alive are exactly those with a share in a round
-- that lies at most `window` behind the newest one.
pub contains-relays_shared_recent :
    (t : OutputFaultTracker) (window frontier i : ℕ)
    → t.max_share_round ≡ some frontier
    → contains (relays_shared_recent t window) i
      ≡ any_of (λ entry. leb (frontier - window) entry.0 && contains entry.1 i) t.shares
unfolding relays_shared_recent
contains-relays_shared_recent t window frontier i e =
    rw (e, relays_shared_recent)
      (contains-sort (shared_since (frontier - window) t.shares) i
        ∙ contains-shared_since (frontier - window) t.shares i)
