-- ===== src/Examples/Faults.antt =====
-- The theorems on liveness faults, on trackers of three relays.
use anymone.Base.{
  ℕ, ◌≡◌, refl, true, false, none, some, List, [], ◌∷◌, length, leb, at_or, All, arith, unwrap_or,
}
use anymone.Base.Equality.{nat_eq}
use anymone.Base.Sets.{contains}
use anymone.Base.Maps.{get}
use anymone.Faults.{OutputFaultTracker, evaluate}
use anymone.Faults.Innocence.{Spares, evaluate-Spares}

abbrev roster : List ℕ
roster = 11 ∷ 12 ∷ 13 ∷ []

abbrev tracker : OutputFaultTracker
tracker = record {
  roster = roster;
  threshold = 2;
  stall_margin = 4;
  shares = (1, 0 ∷ 1 ∷ []) ∷ (2, 0 ∷ 1 ∷ []) ∷ (7, 0 ∷ 1 ∷ 2 ∷ []) ∷ [];
  outputs = [];
  max_share_round = some 7;
  max_output_round = none;
  share_at_last_output = some 1;
  evaluated_through = none;
  fail_run = (1 ∷ 2 ∷ []) ∷ [];
  reported = false;
}

abbrev missing_third : List (ℕ × List ℕ)
missing_third = (1, 0 ∷ 1 ∷ []) ∷ (2, 0 ∷ 1 ∷ []) ∷ (7, 0 ∷ 1 ∷ 2 ∷ []) ∷ []

shares_each :
    (r : ℕ)
    → leb (length (unwrap_or [] (get missing_third r))) 0 ≡ false
    → contains (unwrap_or [] (get missing_third r)) 1 ≡ true
shares_each r some_share = ground (arith, some_share)

evaluate-Spares_example : All (λ f. Spares (at_or 0 roster 1) f.attribution) (evaluate tracker).1
evaluate-Spares_example =
    evaluate-Spares roster missing_third 1 (refl, (refl, (refl, tt))) (omega arith) shares_each
      tracker refl refl ((omega arith, (omega arith, tt)), tt)
