-- ===== src/Examples/Wire.antt =====
-- The theorems on frames.
use anymone.Base.{ℕ, ◌≡◌, ◌↔◌, List, [], ◌∷◌, ◌++◌}
use anymone.Base.Results.{ok}
use anymone.Wire.{raw, decode, to_bytes}
use anymone.Wire.RoundTrip.{IsWellFormed, decode-eq-ok_iff}

abbrev tag : List ℕ
tag = 1 ∷ 2 ∷ 3 ∷ 4 ∷ 5 ∷ 6 ∷ 7 ∷ 8 ∷ 9 ∷ 10 ∷ 11 ∷ 12 ∷ 13 ∷ 14 ∷ 15 ∷ 16 ∷ 17 ∷ 18 ∷ 19 ∷ 20 ∷ []

decode-eq-ok_iff_example :
    (decode (0 ∷ (tag ++ 42 ∷ [])) ≡ ok (raw tag (42 ∷ [])))
    ↔ (IsWellFormed (raw tag (42 ∷ [])) × (to_bytes (raw tag (42 ∷ [])) ≡ 0 ∷ (tag ++ 42 ∷ [])))
decode-eq-ok_iff_example = decode-eq-ok_iff (0 ∷ (tag ++ 42 ∷ [])) (raw tag (42 ∷ []))

abbrev chunks : ℕ
chunks = 3

abbrev index : ℕ
index = 1
