-- ===== src/Panetiere.antt =====
-- crates/anymone-core/src/panetiere.rs: the messages of a Panetiere round. A public key is a number, and
-- what serde writes as bytes is a list of them.
use anymone.Base.{ℕ, ◌+◌, Bool, true, ◌&&◌, Option, none, some, List, leb, min}

abbrev u64_max : ℕ
u64_max = 18446744073709551615

pub data PanetiereWire : Type 0 where
  client_public :
      (round client_id : ℕ) (entry : List ℕ) (signer : ℕ) (signature : List ℕ) → PanetiereWire
  client_slice :
      (round client_id lane : ℕ) (share path : List ℕ) (signer : ℕ) (signature : List ℕ)
      → PanetiereWire
  opening :
      (round client_id target_server : ℕ) (sealed : List ℕ) (signer : ℕ) (signature : List ℕ)
      → PanetiereWire
  server_public :
      (round server_id : ℕ) (clients : List ℕ)
      (agg_open agg_share share_sum lane_open signature : List ℕ)
      → PanetiereWire
  decoded : (round : ℕ) (payloads : List (List ℕ)) → PanetiereWire
  client_set : (round : ℕ) (clients : List ℕ) (demand : ℕ) → PanetiereWire
  reservations : (round : ℕ) (entries : List (ℕ × ℕ)) (signature : List ℕ) → PanetiereWire
  bundle :
      (round client_id lane : ℕ) (bytes : List ℕ) (signer : ℕ) (signature : List ℕ) → PanetiereWire
  set_batch : (round : ℕ) (bytes : List ℕ) → PanetiereWire
  set_fragment :
      (round client_id target_server : ℕ) (bytes : List ℕ) (signer : ℕ) (signature : List ℕ)
      → PanetiereWire
  set_relay : (round : ℕ) (bytes : List ℕ) → PanetiereWire

-- `PanetiereWire::round`
abbrev pub round_of : PanetiereWire → ℕ
round_of (client_public round c e p s) = round
round_of (client_slice round c l h p r s) = round
round_of (opening round c t e p s) = round
round_of (server_public round s c o h m l t) = round
round_of (decoded round p) = round
round_of (client_set round c d) = round
round_of (reservations round e s) = round
round_of (bundle round c l b p s) = round
round_of (set_batch round b) = round
round_of (set_fragment round c t b p s) = round
round_of (set_relay round b) = round

-- `PANETIERE_ROUND_RETENTION`, and `PANETIERE_ROUND_WINDOW`, which is the same.
abbrev pub round_retention : ℕ
round_retention = 4

unfoldable pub round_in_window : ℕ → Option ℕ → Bool
round_in_window round none = true
round_in_window round (some cur) =
    leb round (min (cur + round_retention) u64_max)
    && leb cur (min (round + round_retention) u64_max)
