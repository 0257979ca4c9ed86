-- ===== src/Examples/Clients.antt =====
-- The theorems on the client's side of a set: a client with key 5 and three lanes, of which the last
-- denies its bundle. The code repeats the blob.
use anymone.Base.{
  ℕ, zero, suc, ◌≡◌, refl, true, ◌||◌, ap, unwrap_or, get_elem?, some, List, [], ◌∷◌, map, length,
  ltb, All, at_or, range_from, if◌then◌else◌, arith,
}
use anymone.Base.Equality.{nat_eq, list_eq, ◌==◌}
use anymone.Base.Ordered.{put_at}
use anymone.ClientSet.{ProtocolParams, ShareCommitmentParams, Fragment, SetServer, new}
use anymone.ClientSet.Server.{reported_key, note_bulletin, fragment_ok}
use anymone.ClientSet.Wire.{polys_to_blob}
use anymone.ClientSet.Client.{
  ClientCrates, RsClientRoundOutput, ClientSetRound, client_set_round_from_rs, uncovered_lanes,
  build_fragments, blob_to_polys,
}
use anymone.ClientSet.Client.Served.{IsKey, IsRound, IsTaken, built_bundles_taken}
use anymone.ClientSet.Client.Repairing.{IsCode, KnowsClient, built_fragments_ok}
use anymone.ClientSet.Client.Blobs.{ReadsSlots, polys_to_blob-blob_to_polys}
use anymone.Examples.ClientSets.{crates, bundle_one}

abbrev coder : ClientCrates ℕ
coder = record {
  from_ntt_slots = λ xs. at_or 0 xs 0;
  encode = λ k n polys. polys ∷ polys ∷ polys ∷ [];
  to_sec1_bytes = λ key. key ∷ [];
}

abbrev scp : ShareCommitmentParams
scp = record { block_len = 1; n_lanes = 3 }

abbrev pp : ProtocolParams
pp = record { n = 3; k = 2; share_comm = some scp }

abbrev output : RsClientRoundOutput ℕ ℕ ℕ
output = record {
  client_id = 1;
  bulletin = 0;
  rs_shares = (7 ∷ []) ∷ (8 ∷ []) ∷ (9 ∷ []) ∷ [];
  share_paths = 0 ∷ 1 ∷ 2 ∷ [];
  sealed_openings = (0, 1 ∷ []) ∷ (1, 2 ∷ []) ∷ (2, 3 ∷ []) ∷ [];
}

is_key : IsKey crates coder 5
is_key = (5, refl, λ msg. refl)

opens : (lane path : ℕ) → get_elem? output.share_paths lane ≡ some path → path ≡ lane
opens zero path h = ground (arith, ap (unwrap_or 0) h)
opens (suc zero) path h = ground (arith, ap (unwrap_or 0) h)
opens (suc (suc zero)) path h = ground (arith, ap (unwrap_or 0) h)
opens (suc (suc (suc n))) path h = cc

is_round : IsRound crates coder 5 pp output
is_round = (refl, refl, refl, opens)

built_bundles_taken_example :
    (out : ClientSetRound ℕ ℕ ℕ) × (client_set_round_from_rs crates coder pp [] output 5 ≡ some out)
    × (map (λ b. b.lane) out.bundles ≡ range_from 0 3)
    × All (IsTaken crates coder 5 pp [] 1) out.bundles
built_bundles_taken_example = built_bundles_taken crates coder 5 pp [] output is_key is_round

abbrev round : ClientSetRound ℕ ℕ ℕ
round = record { client_id = 1; bulletin = 0; bundles = bundle_one ∷ bundle_one ∷ bundle_one ∷ [] }

abbrev told : SetServer ℕ ℕ
told = note_bulletin (new pp 0 10 (10 ∷ 11 ∷ 12 ∷ [])) 1 (5 ∷ [])

is_code : IsCode crates coder 5 pp
is_code = (λ polys. refl, λ path. (path ∷ [], refl))

knows : KnowsClient crates coder 5 pp 1 told
unfolding note_bulletin new put_at reported_key
knows = (refl, refl, refl)

built_fragments_ok_example :
    (fs : List (Fragment ℕ)) × (build_fragments crates coder pp [] round (0 ∷ 1 ∷ []) 5 ≡ some fs)
    × (length fs ≡ (if length (uncovered_lanes pp (0 ∷ 1 ∷ [])) == 0 || ltb 2 1 then 0 else 3))
    × All (λ f. fragment_ok crates told [] f ≡ true) fs
built_fragments_ok_example =
    built_fragments_ok crates coder 5 pp scp [] round (0 ∷ 1 ∷ []) told is_key is_code refl refl
      knows

reads : ReadsSlots crates coder
reads [] few small = absurd (omega arith)
reads (x ∷ []) few small = refl
reads (x ∷ y ∷ xs) few small = absurd (omega arith)

abbrev blob : List ℕ
blob = 1 ∷ 2 ∷ 3 ∷ 4 ∷ 5 ∷ 6 ∷ 255 ∷ []

polys_to_blob-blob_to_polys_example :
    polys_to_blob crates (blob_to_polys crates coder blob) 7 ≡ blob
polys_to_blob-blob_to_polys_example =
    polys_to_blob-blob_to_polys crates coder blob (omega arith) reads (
      omega arith,
      (omega arith, (omega arith, (omega arith, (omega arith, (omega arith, (omega arith, tt)))))),
    )
