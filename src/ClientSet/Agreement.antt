-- ===== src/ClientSet/Agreement.antt =====
-- The relay rounds of several honest lanes: each fixes its row with `originate` and takes fragments
-- with `submit`, and in every round each absorbs what the others forwarded in the round before and
-- whatever an adversary adds, which differs from lane to lane.
pub mod Accepting
pub mod Vouching
pub mod Collecting
pub mod Originating
pub mod Opening
pub mod Rounds
pub mod Reach
use anymone.Base.{ℕ, zero, suc, ◌≡◌, true, List, ◌++◌, map, length, concat, some, get_elem?}
use anymone.Base.Equality.{nat_eq}
use anymone.Base.Sets.{contains}
use anymone.ClientSet.{Crates, Fragment, SetServer, Relay, item_hash}
use anymone.ClientSet.Server.{submit}
use anymone.ClientSet.Relaying.{originate, absorb}
use anymone.ClientSet.Agreement.Accepting.{signers_of}

-- The lanes by their numbers, and what the honest ones forwarded last.
abbrev pub World : Type 0 → Type 0 → Type 0
World P Q = (ℕ → SetServer P Q) × List (Relay P)

abbrev pub collect : {P Q : Type 0} → List ℕ → (ℕ → SetServer P Q × List (Relay P)) → World P Q
collect honest turns = (λ i. (turns i).0, concat (map (λ i. (turns i).1) honest))

module _ {P Q O : Type 0} (c : Crates P Q O) (sid : List ℕ) where
  abbrev pub opened : SetServer P Q → List (Fragment P) → SetServer P Q × List (Relay P)
  opened s fragments =
      let begun = originate c s sid in
      let taken = submit c begun.0 sid fragments in (taken.0, begun.1 ++ taken.1)

  module _ (honest : List ℕ) (start : ℕ → SetServer P Q) (fragments : ℕ → List (Fragment P))
      (adversary : ℕ → ℕ → List (Relay P)) where
    -- The world after so many rounds; the adversary's relays of round `r + 1` are `adversary r`.
    abbrev pub world : ℕ → World P Q
    world zero = collect honest (λ i. opened (start i) (fragments i))
    world (suc r) =
        let before = world r in
        collect honest (λ i. absorb c (before.0 i) sid (suc r) (before.1 ++ adversary r i))
