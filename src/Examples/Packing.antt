-- ===== src/Examples/Packing.antt =====
-- The theorem on packed relays: a fragment of two polynomials, relayed by two servers.
use anymone.Base.{ℕ, ◌≡◌, refl, some, [], ◌∷◌, le_bytes, arith}
use anymone.ClientSet.{Fragment, fragment, Relay}
use anymone.ClientSet.Packing.{pack_fragment, pack_item, pack_relay, unpack_relay}
use anymone.ClientSet.Packing.RoundTrip.{RelayFits, ReadsShares, unpack_relay-pack_relay}
use anymone.Examples.ClientSets.{crates}

abbrev piece : Fragment ℕ
piece = record { client_id = 1; idx = 2; data' = 20 ∷ 21 ∷ []; sig = 5 ∷ [] }

abbrev relayed : Relay ℕ
relayed = record { item = fragment piece; chain = (1, 11 ∷ []) ∷ (2, 12 ∷ []) ∷ [] }

reads : ReadsShares crates
reads = (omega arith, λ share. omega arith, λ share. refl)

fits : RelayFits crates relayed
unfolding pack_item pack_fragment le_bytes
fits = (
  (omega arith, omega arith, omega arith, refl),
  omega arith,
  omega arith,
  ((omega arith, refl), ((omega arith, refl), tt)),
)

unpack_relay-pack_relay_example : unpack_relay crates (pack_relay crates relayed) ≡ some relayed
unpack_relay-pack_relay_example = unpack_relay-pack_relay crates relayed reads fits
