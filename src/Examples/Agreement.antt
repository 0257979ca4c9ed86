-- ===== src/Examples/Agreement.antt =====
-- The theorem on the relay rounds: three lanes, of which lane 1 is faulty and shows its row to lane 0
-- only. A hash is odd for a batch and even for a fragment.
use anymone.Base.{
  ℕ, zero, suc, ◌+◌, ◌*◌, ◌≡◌, refl, true, false, some, List, [], ◌∷◌, length, get_elem?, at_or,
  if◌then◌else◌, arith, ap, none, le_bytes, be_bytes,
}
use anymone.Base.Equality.{nat_eq, list_eq, ◌==◌}
use anymone.Base.Sets.{contains}
use anymone.Base.Ordered.{put_at}
use anymone.ClientSet.{
  Crates, ProtocolParams, relay_rounds, batch, Fragment, SetServer, Relay, new, item_hash,
  fragment_item_hash, batch_signing_bytes, receipt_bytes, relay_signing_bytes, verify_batch,
}
use anymone.ClientSet.Server.{own_batch, accept_batch, accept_fragments, store_fragments, submit}
use anymone.ClientSet.Relaying.{
  chain_signers, next_signers, chain_len, extended, accept_item, absorb_one, absorb_each, absorb,
  forward_all, originate,
}
use anymone.ClientSet.Agreement.{world}
use anymone.ClientSet.Agreement.Accepting.{signers_of}
use anymone.ClientSet.Agreement.Rounds.{IsSetUp, IsUnforged}
use anymone.ClientSet.Agreement.Reach.{rounds_agree}
use anymone.Examples.ClientSets.{crates}

abbrev tagged : Crates ℕ ℕ ℕ
tagged = record crates {
  sha256 = λ bytes. if at_or 0 bytes 21 == 102 then 2 * length bytes else 2 * length bytes + 1;
}

abbrev pp : ProtocolParams
pp = record { n = 3; k = 2; share_comm = none }

abbrev keys : List ℕ
keys = 10 ∷ 11 ∷ 12 ∷ []

abbrev honest : List ℕ
honest = 0 ∷ 2 ∷ []

abbrev start : ℕ → SetServer ℕ ℕ
start i = new pp i (10 + i) keys

abbrev shown : Relay ℕ
shown = record {
  item = batch (record {
    server_id = 1;
    receipts = record { client_id = 1; pk_c = 5 ∷ []; bundle_hash = 70 } ∷ [];
    sig = 11 ∷ [];
  });
  chain = (1, 11 ∷ []) ∷ [];
}

abbrev adversary : ℕ → ℕ → List (Relay ℕ)
adversary zero zero = shown ∷ []
adversary zero (suc i) = []
adversary (suc r) i = []

abbrev none_sent : ℕ → List (Fragment ℕ)
none_sent i = []

set_up : IsSetUp tagged [] keys honest start none_sent adversary
unfolding new
set_up zero h = (refl, refl, (10, refl, λ msg. refl))
set_up (suc zero) h = absurd (ground (arith, h))
set_up (suc (suc zero)) h = (refl, refl, (12, refl, λ msg. refl))
set_up (suc (suc (suc n))) h = absurd (ground (arith, h))

only_one : signers_of tagged keys [] shown ≡ 1 ∷ []
unfolding chain_signers next_signers
only_one = refl

unforged : IsUnforged tagged [] keys honest start none_sent adversary
unforged zero zero h =
    ((λ x signed own. absurd (ground (arith, ap (λ xs. contains xs x) only_one, signed, own))), tt)
unforged zero (suc i) h = tt
unforged (suc r) i h = tt

abbrev shown_hash : ℕ
shown_hash = item_hash tagged [] shown.item

covered :
    (x pk : ℕ) → get_elem? keys x ≡ some pk → contains (1 ∷ []) x ≡ false → contains honest x ≡ true
covered zero pk h other = refl
covered (suc zero) pk h other = absurd (ground (arith, other))
covered (suc (suc zero)) pk h other = refl
covered (suc (suc (suc n))) pk h other = cc

whole : (f : Fragment ℕ) → (fragment_item_hash tagged [] f == shown_hash) ≡ false
unfolding item_hash fragment_item_hash batch_signing_bytes receipt_bytes le_bytes be_bytes
whole f = ground arith

unseen : (x : ℕ) → contains honest x ≡ true → contains (start x).accepted shown_hash ≡ false
unfolding new
unseen x h = refl

rounds_agree_example :
    let last = world tagged [] honest start none_sent adversary (relay_rounds pp) in
    contains (last.0 0).accepted shown_hash ≡ contains (last.0 2).accepted shown_hash
rounds_agree_example =
    rounds_agree tagged [] keys honest start none_sent adversary set_up unforged pp (1 ∷ [])
      shown_hash 0 2 covered (omega arith) whole unseen refl refl

-- The row that only lane 0 was shown has reached lane 2.
shown_spreads :
    let last = world tagged [] honest start none_sent adversary (relay_rounds pp) in
    contains (last.0 2).accepted shown_hash ≡ true
unfolding relay_rounds originate forward_all absorb absorb_each absorb_one chain_len chain_signers
    next_signers extended accept_item accept_batch own_batch verify_batch item_hash
    fragment_item_hash batch_signing_bytes relay_signing_bytes receipt_bytes le_bytes be_bytes new
    submit accept_fragments store_fragments put_at
shown_spreads = refl
