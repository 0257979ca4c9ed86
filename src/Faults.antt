-- ===== src/Faults.antt =====
-- crates/anymone-core/src/faults.rs: the fault types and the liveness tracker. Rounds are `u64`;
-- `r + 1` is made at rounds below a frontier only, so it does not overflow. A `HashSet` of relay
-- indices is a list, of which the order does not matter: what comes out of one is sorted.
pub mod Turns
pub mod Attribution
pub mod Innocence
pub mod Laws
use anymone.Base.{
  ℕ, zero, suc, ◌+◌, ◌-◌, ◌^◌, Bool, true, false, ◌&&◌, ◌||◌, not, Option, none, some, List, [],
  ◌∷◌, ◌++◌, map, length, ltb, leb, if◌then◌else◌, min, max, map_or, unwrap_or, retain, at_or,
  range_from,
}
use anymone.Base.Equality.{nat_eq}
use anymone.Base.Sets.{contains, insert}
use anymone.Base.Maps.{get, put}
use anymone.Base.Sort.{sort}

pub data FaultKind : Type 0 where
  decryption integrity liveness censorship : FaultKind

-- `Attribution::None` is `nobody`.
pub data Blame : Type 0 where
  nobody : Blame
  peers : List ℕ → Blame

pub record Fault : Type 0 where
  pub kind : FaultKind
  pub attribution : Blame
  pub evidence : List ℕ

pub record OutputFaultTracker : Type 0 where
  pub roster : List ℕ
  pub threshold : ℕ
  pub stall_margin : ℕ
  pub shares : List (ℕ × List ℕ)
  pub outputs : List ℕ
  pub max_share_round : Option ℕ
  pub max_output_round : Option ℕ
  pub share_at_last_output : Option ℕ
  pub evaluated_through : Option ℕ
  pub fail_run : List (List ℕ)
  pub reported : Bool

abbrev pub default_stall_margin : ℕ
default_stall_margin = 4

abbrev pub max_evaluate_span : ℕ
max_evaluate_span = 4096

abbrev pub u64_max : ℕ
u64_max = 18446744073709551615

unfoldable pub new : List ℕ → ℕ → OutputFaultTracker
new roster threshold = record {
  roster = roster;
  threshold = max threshold 1;
  stall_margin = default_stall_margin;
  shares = [];
  outputs = [];
  max_share_round = none;
  max_output_round = none;
  share_at_last_output = none;
  evaluated_through = none;
  fail_run = [];
  reported = false;
}

unfoldable pub observe_share : OutputFaultTracker → ℕ → ℕ → OutputFaultTracker
observe_share t round idx =
    if ltb idx (length t.roster)
    then record t {
      shares = put t.shares round (insert (unwrap_or [] (get t.shares round)) idx);
      max_share_round = some (map_or round (λ m. max m round) t.max_share_round);
      share_at_last_output = some (unwrap_or round t.share_at_last_output);
    }
    else t

unfoldable pub observe_output : OutputFaultTracker → ℕ → OutputFaultTracker
observe_output t round =
    let seen = insert t.outputs round in
    if map_or true (λ m. ltb m round) t.max_output_round
    then record t {
      outputs = seen;
      max_output_round = some (map_or round (λ m. max m round) t.max_output_round);
      share_at_last_output = elim t.max_share_round [ none ↦ some round | some s ↦ some s ];
    }
    else record t { outputs = seen }

unfoldable pub fast_forward : OutputFaultTracker → ℕ → OutputFaultTracker
fast_forward t round = record t {
  evaluated_through = some (map_or (round - 1) (λ e. max e (round - 1)) t.evaluated_through);
  fail_run = [];
  reported = false;
  share_at_last_output = none;
}

frozen_at : ℕ → Option ℕ → Option ℕ → Bool
frozen_at margin (some s) (some base) = ltb margin (s - base)
frozen_at margin _ _ = false

unfoldable pub output_frozen : OutputFaultTracker → Bool
unfolding frozen_at
output_frozen t = frozen_at t.stall_margin t.max_share_round t.share_at_last_output

-- The relays that did not share, by their indices.
unfoldable pub missing_from : List ℕ → List ℕ → List ℕ
missing_from roster shared = retain (λ i. not (contains shared i)) (range_from 0 (length roster))

-- The relays missing in every failed round of the run.
unfoldable pub culprits_of : List (List ℕ) → List ℕ
culprits_of [] = []
culprits_of (s ∷ []) = s
culprits_of (s ∷ s' ∷ rest) = culprits_of (retain (contains s') s ∷ rest)

unfoldable pub blame : List ℕ → List ℕ → Blame
blame roster culprits =
    if not (leb (length culprits) 0) && ltb (length culprits) (length roster)
    then peers (sort (map (at_or 0 roster) culprits))
    else nobody

-- What one turn of the loop over rounds does: `break`, or go on with new state and faults.
pub data Turn : Type 0 where
  stop : Turn
  go : OutputFaultTracker → List Fault → Turn

-- The end of a turn: a failed round joins the run, and a run of `threshold` is reported once.
unfoldable pub judge : OutputFaultTracker → List ℕ → Turn
judge t shared =
    if t.reported
    then go t []
    else let run = t.fail_run ++ missing_from t.roster shared ∷ [] in
      if leb t.threshold (length run)
      then go (record t { fail_run = run; reported = true })
          (record { kind = liveness; attribution = blame t.roster (culprits_of run); evidence = [] }
            ∷ [])
      else go (record t { fail_run = run }) []

unfoldable pub evaluate_round : OutputFaultTracker → ℕ → Turn
unfolding judge
evaluate_round t r =
    if contains t.outputs r
    then go (record t { evaluated_through = some r; fail_run = []; reported = false }) []
    else let shared = unwrap_or [] (get t.shares r) in
      if leb (length shared) 0
      then go (record t { evaluated_through = some r }) []
      else if not (map_or false (λ m. ltb r m) t.max_output_round || output_frozen t)
      then stop
      else judge (record t { evaluated_through = some r }) shared

-- `for r in r..r + n`
unfoldable pub evaluate_rounds : ℕ → ℕ → OutputFaultTracker → OutputFaultTracker × List Fault
evaluate_rounds zero r t = (t, [])
evaluate_rounds (suc n) r t = elim (evaluate_round t r) [
  | stop ↦ (t, [])
  | go t' faults ↦ let (t'', rest) = evaluate_rounds n (r + 1) t' in (t'', faults ++ rest)
]

-- `shares.keys().min()`
unfoldable pub first_share : List (ℕ × List ℕ) → Option ℕ
first_share [] = none
first_share ((r, _) ∷ rest) = some (map_or r (min r) (first_share rest))

unfoldable pub evaluate : OutputFaultTracker → OutputFaultTracker × List Fault
unfolding evaluate_rounds evaluate_round first_share
evaluate t = elim t.max_share_round [
  | none ↦ (t, [])
  | some frontier ↦
      let start : ℕ = elim t.evaluated_through [
        | none ↦ unwrap_or frontier (first_share t.shares)
        | some r ↦ r + 1
      ] in
      evaluate_rounds (min frontier (min (start + max_evaluate_span) u64_max) - start) start t
]

-- `idxs.extend(set)`
union : List ℕ → List ℕ → List ℕ
union [] ys = ys
union (x ∷ xs) ys = union xs (insert ys x)

-- Roster indices that shared within `window` rounds of the frontier, sorted.
unfoldable pub shared_since : ℕ → List (ℕ × List ℕ) → List ℕ
unfolding union
shared_since oldest [] = []
shared_since oldest ((round, set) ∷ rest) =
    let later = shared_since oldest rest in if leb oldest round then union set later else later

unfoldable pub relays_shared_recent : OutputFaultTracker → ℕ → List ℕ
relays_shared_recent t window = elim t.max_share_round [
  | none ↦ []
  | some frontier ↦ sort (shared_since (frontier - window) t.shares)
]
