-- ===== src/ClientSet/Steps.antt =====
-- Runs of a server: what reaches it, in any order.
use anymone.Base.{ℕ, List, [], ◌∷◌, ◌++◌}
use anymone.ClientSet.{Crates, Bundle, Fragment, SetServer, Relay}
use anymone.ClientSet.Server.{receive, note_bulletin, submit}
use anymone.ClientSet.Relaying.{absorb}

-- What reaches a server before and during the relay rounds.
pub data Input (P Q : Type 0) : Type 0 where
  on_bundle : Bundle P Q → Input P Q
  on_bulletin : (cid : ℕ) (pk : List ℕ) → Input P Q
  on_fragments : List (Fragment P) → Input P Q
  on_relays : (round : ℕ) (incoming : List (Relay P)) → Input P Q

module _ {P Q O : Type 0} (c : Crates P Q O) where
  -- One input, with what the server forwards.
  abbrev pub step : SetServer P Q → List ℕ → Input P Q → SetServer P Q × List (Relay P)
  step s sid (on_bundle b) = ((receive c s sid b).0, [])
  step s sid (on_bulletin cid pk) = (note_bulletin s cid pk, [])
  step s sid (on_fragments fs) = submit c s sid fs
  step s sid (on_relays round incoming) = absorb c s sid round incoming

  abbrev pub run : List (Input P Q) → SetServer P Q → List ℕ → SetServer P Q × List (Relay P)
  run [] s sid = (s, [])
  run (x ∷ xs) s sid =
      let now = step s sid x in
      let later : SetServer P Q × List (Relay P) = run xs now.0 sid in (later.0, now.1 ++ later.1)
