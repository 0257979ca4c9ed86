-- ===== src/Examples/ClientSets.antt =====
-- The theorems on client sets: a signature is the signer's key, a hash is a length, a polynomial is
-- one slot. Three lanes, of which one may sit the round out. Client 1 reached every lane, client 2
-- one lane, client 3 two lanes, and client 4 posted two keys.
use anymone.Base.{
  ℕ, ◌+◌, ◌-◌, ◌≤◌, ◌<◌, ◌≡◌, refl, ◌⊎◌, inl, inr, true, false, ◌&&◌, ◌||◌, Option, none, some,
  List, [], ◌∷◌, length, map, concat, All, be_bytes, arith,
}
use anymone.Base.Equality.{nat_eq, list_eq, ◌==◌}
use anymone.Base.Sets.{contains, Distinct}
use anymone.Base.Maps.{get}
use anymone.Base.Sort.{sort}
use anymone.Base.Dedup.{dedup}
use anymone.Base.Ordered.{put_at}
use anymone.ClientSet.{
  Crates, ProtocolParams, Bundle, Receipt, ReceiptBatch, batch, Relay, SetServer, new, item_hash,
  verify_batch, verify_bundle, bundle_hash_of,
}
use anymone.ClientSet.Server.{reported_key, accept_batch, receive}
use anymone.ClientSet.Relaying.{absorb, chain_len, chain_signers, next_signers}
use anymone.ClientSet.Finalize.{
  finalize, serve_all, serve, own_bundle, decide_all, decide, decide_known, rebuild,
  reported_clients, covered, missing_lanes, reports,
}
use anymone.ClientSet.Steps.{Input, on_bundle, on_bulletin, on_relays, run}
use anymone.ClientSet.Membership.{rebuilt_of}
use anymone.ClientSet.Membership.Budget.{finalize-Budget}
use anymone.ClientSet.Membership.Partition.{rebooted, finalize-Partition}
use anymone.ClientSet.Membership.Inclusion.{finalize_includes}
use anymone.ClientSet.Membership.Pool.{pool_of, set_of, finalize-set_of}
use anymone.ClientSet.Chains.Extends.{absorb_extends}
use anymone.ClientSet.Once.{hashes_of, run_forwards_once}
use anymone.ClientSet.Held.{IsGenuine, run-new-IsHeld}
use anymone.ClientSet.Rows.{first_batch_stays}
use anymone.ClientSet.Plurality.{is_below, plurality_set, votes}
use anymone.ClientSet.Plurality.Choice.{plurality_set_agrees}

abbrev first_of : List ℕ → Option ℕ
first_of [] = none
first_of (k ∷ ks) = some k

abbrev pub crates : Crates ℕ ℕ ℕ
crates = record {
  sha256 = length;
  from_sec1_bytes = first_of;
  verify = λ key msg sig. sig == key ∷ [];
  sign = λ key msg. key ∷ [];
  pack_share = λ share. share;
  unpack_share = λ bytes n. some bytes;
  lane_index = λ path. path;
  path_coeffs = λ path. [];
  path_to_bytes = λ path. some (path ∷ []);
  path_from_bytes = λ scp lane bytes. some lane;
  ntt_slots = λ p. p ∷ [];
  slots = 1;
  rs_poly_packed_len = 1;
  fresh_path_packed_len = λ lanes. 1;
  pubkey_len = 1;
  sig_len = 1;
  reconstruct = λ k n polys samples. some (concat (map (λ (e : ℕ × List ℕ). e.1) samples));
  unseal_opening = λ key sid cid server envelope. some 0;
}

abbrev pp : ProtocolParams
pp = record { n = 3; k = 2; share_comm = none }

abbrev fresh_server : SetServer ℕ ℕ
fresh_server = new pp 0 10 (10 ∷ 11 ∷ 12 ∷ [])

abbrev receipt : ℕ → ℕ → Receipt
receipt cid key = record { client_id = cid; pk_c = key ∷ []; bundle_hash = 70 }

abbrev row : ℕ → List Receipt → ReceiptBatch
row lane receipts = record { server_id = lane; receipts = receipts; sig = (10 + lane) ∷ [] }

abbrev pub bundle_one : Bundle ℕ ℕ
bundle_one = record {
  client_id = 1;
  lane = 0;
  share = [];
  path = 0;
  envelope = 1 ∷ [];
  pubkey = 5 ∷ [];
  sig = 5 ∷ [];
}

abbrev agreed : SetServer ℕ ℕ
agreed = record {
  server_id = 0;
  n_lanes = 3;
  k = 2;
  signer = 10;
  server_pks = 10 ∷ 11 ∷ 12 ∷ [];
  relaying = true;
  accepted = [];
  held = (1, (67, bundle_one) ∷ []) ∷ [];
  batches =
      (0, row 0 (receipt 1 5 ∷ receipt 3 7 ∷ []))
      ∷ (1, row 1 (receipt 1 5 ∷ receipt 2 6 ∷ receipt 3 7 ∷ receipt 4 8 ∷ []))
      ∷ (2, row 2 (receipt 1 5 ∷ []))
      ∷ [];
  fragments = [];
  bulletins =
      (1, (5 ∷ []) ∷ [])
      ∷ (2, (6 ∷ []) ∷ [])
      ∷ (3, (7 ∷ []) ∷ [])
      ∷ (4, (8 ∷ []) ∷ (9 ∷ []) ∷ [])
      ∷ [];
}

-- Client 3 costs lane 2, and client 2 would cost a second lane.
agreed_set : (finalize crates agreed pp 1 []).set ≡ 1 ∷ 3 ∷ []
unfolding finalize serve_all decide_all reported_clients dedup sort decide reported_key decide_known
    missing_lanes covered reports rebuild serve own_bundle
agreed_set = refl

finalize-set_of_example :
    (finalize crates agreed pp 1 []).set ≡ set_of crates (pool_of agreed) pp []
finalize-set_of_example = finalize-set_of crates agreed pp 1 []

finalize-Budget_example :
    (lanes : List ℕ) × (length lanes ≤ 3 - 2)
    × ((cid : ℕ)
        → contains (finalize crates agreed pp 1 []).set cid ≡ true
        → (pk : List ℕ) × (reported_key agreed cid ≡ some pk)
          × (((bundles : List (Bundle ℕ ℕ)) × (rebuilt_of crates agreed pp [] cid pk
                  ≡ some bundles))
              ⊎ ((l : ℕ)
                  → l < 3
                  → contains lanes l ≡ false
                  → contains (covered agreed cid pk) l ≡ true)))
finalize-Budget_example = finalize-Budget crates agreed pp 1 []

finalize-Partition_example :
    (contains (reported_clients agreed) 4 ≡ (
      contains (finalize crates agreed pp 1 []).set 4
      || contains (finalize crates agreed pp 1 []).excluded 4))
    × ((contains (finalize crates agreed pp 1 []).set 4
          && contains (finalize crates agreed pp 1 []).excluded 4)
        ≡ false)
    × (contains (finalize crates agreed pp 1 []).conflicted 4
        ≡ (contains (reported_clients agreed) 4 && rebooted agreed 4))
finalize-Partition_example = finalize-Partition crates agreed pp 1 [] 4

finalize_includes_example : contains (finalize crates agreed pp 1 []).set 1 ≡ true
unfolding reported_clients dedup sort reported_key missing_lanes covered reports
finalize_includes_example = finalize_includes crates agreed pp 1 [] 1 (5 ∷ []) refl refl (inl refl)

abbrev row_relay : Relay ℕ
row_relay = record { item = batch (row 1 (receipt 1 5 ∷ [])); chain = (1, 11 ∷ []) ∷ [] }

absorb_extends_example :
    All
      (λ out. 1 + 1 ≤ chain_len crates fresh_server [] (item_hash crates [] out.item) out.chain)
      (absorb crates fresh_server [] 1 (row_relay ∷ [])).1
unfolding new chain_signers next_signers
absorb_extends_example =
    absorb_extends crates fresh_server [] 1 (row_relay ∷ []) 10 refl (λ msg. refl) (inr refl, tt)

abbrev inputs : List (Input ℕ ℕ)
inputs =
    on_bulletin 1 (5 ∷ [])
    ∷ on_bundle bundle_one
    ∷ on_relays 1 (row_relay ∷ row_relay ∷ [])
    ∷ on_relays 2 (row_relay ∷ [])
    ∷ []

run_forwards_once_example :
    Distinct (hashes_of crates [] (run crates inputs fresh_server []).1)
    × ((h : ℕ)
        → contains (hashes_of crates [] (run crates inputs fresh_server []).1) h ≡ true
        → (contains fresh_server.accepted h ≡ false)
          × (contains (run crates inputs fresh_server []).0.accepted h ≡ true))
run_forwards_once_example = run_forwards_once crates inputs fresh_server []

run-new-IsHeld_example :
    (1 ≤ 4)
    × ((hash : ℕ) (b : Bundle ℕ ℕ)
        → get ((67, bundle_one) ∷ []) hash ≡ some b
        → IsGenuine crates [] (run crates (on_bundle bundle_one ∷ []) fresh_server []).0 1 hash b)
unfolding new receive verify_bundle bundle_hash_of put_at be_bytes
run-new-IsHeld_example =
    run-new-IsHeld crates [] pp 0 10 (10 ∷ 11 ∷ 12 ∷ []) (on_bundle bundle_one ∷ []) 1
      ((67, bundle_one) ∷ []) refl

first_batch_stays_example :
    ((accept_batch crates
        (accept_batch crates fresh_server [] (row 1 [])).0
        []
        (row 1 (receipt 1 5 ∷ []))).1
      ≡ true)
    × ((accept_batch crates
          (accept_batch crates fresh_server [] (row 1 (receipt 1 5 ∷ []))).0
          []
          (row 1 [])).1
        ≡ true)
    × (get
          (run crates []
            (accept_batch crates
              (accept_batch crates fresh_server [] (row 1 [])).0
              []
              (row 1 (receipt 1 5 ∷ []))).0
            []).0.batches
          1
        ≡ some (row 1 []))
    × (get
          (run crates []
            (accept_batch crates
              (accept_batch crates fresh_server [] (row 1 (receipt 1 5 ∷ []))).0
              []
              (row 1 [])).0
            []).0.batches
          1
        ≡ some (row 1 (receipt 1 5 ∷ [])))
unfolding new verify_batch
first_batch_stays_example =
    first_batch_stays crates [] fresh_server (row 1 []) (row 1 (receipt 1 5 ∷ [])) [] [] refl refl
      refl refl

abbrev published : List (List ℕ)
published = (1 ∷ 2 ∷ []) ∷ (1 ∷ []) ∷ (1 ∷ 2 ∷ []) ∷ []

abbrev reordered : List (List ℕ)
reordered = (1 ∷ []) ∷ (1 ∷ 2 ∷ []) ∷ (1 ∷ 2 ∷ []) ∷ []

same_votes : (s : List ℕ) → votes published s ≡ votes reordered s
same_votes s = ground arith

plurality_set_agrees_example :
    (plurality_set published ≡ plurality_set reordered)
    × ((s : List ℕ)
        → 0 < votes published s
        → (0 < votes published (plurality_set published))
          × (is_below
                (plurality_set published, votes published (plurality_set published))
                (s, votes published s)
              ≡ false))
plurality_set_agrees_example = plurality_set_agrees published reordered same_votes
