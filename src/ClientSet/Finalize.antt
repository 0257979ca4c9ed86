-- ===== src/ClientSet/Finalize.antt =====
-- crates/anymone-core/src/client_set.rs: the set that a server fixes from its pool.
use anymone.Base.{
  ℕ, ◌+◌, ◌*◌, ◌-◌, Bool, ◌&&◌, not, Option, none, some, List, [], ◌∷◌, ◌++◌, map, length, ltb, leb,
  any_of, retain, take, concat, range_from, unwrap_or, if◌then◌else◌, get_range,
}
use anymone.Base.Equality.{nat_eq, list_eq, ◌==◌}
use anymone.Base.Sets.{contains, insert}
use anymone.Base.Maps.{get}
use anymone.Base.Sort.{sort}
use anymone.Base.Dedup.{dedup}
use anymone.Base.Ordered.{put_at}
use anymone.Base.Options.{◌>>=◌, ◌>>◌, require}
use anymone.ClientSet.{
  Crates, ProtocolParams, ShareCommitmentParams, Bundle, Receipt, ReceiptBatch, Fragment, SetServer,
  verify_bundle,
}
use anymone.ClientSet.Wire.{unpack_bundle, polys_to_blob, bytes_per_coeff}
use anymone.ClientSet.Server.{reported_key}

pub record SetRound (P Q O : Type 0) : Type 0 where
  pub set : List ℕ
  pub inbox : List (ℕ × O)
  pub lane_inbox : List (ℕ × List P × Q)
  pub excluded : List ℕ
  pub conflicted : List ℕ
  pub repaired : List ℕ

-- The clients that some lane reported, in the order of their numbers.
unfoldable pub reported_clients : {P Q : Type 0} → SetServer P Q → List ℕ
reported_clients s = dedup (
    sort (
      concat (
        map (λ (e : ℕ × ReceiptBatch). map (λ (r : Receipt). r.client_id) e.1.receipts) s.batches)))

unfoldable pub reports : ℕ → List ℕ → ReceiptBatch → Bool
reports cid pk_c b = any_of (λ r. r.client_id == cid && r.pk_c == pk_c) b.receipts

unfoldable pub covered : {P Q : Type 0} → SetServer P Q → ℕ → List ℕ → List ℕ
covered s cid pk_c = sort (
    map (λ (e : ℕ × ReceiptBatch). e.1.server_id)
      (retain (λ (e : ℕ × ReceiptBatch). reports cid pk_c e.1) s.batches))

unfoldable pub missing_lanes : ℕ → List ℕ → List ℕ
missing_lanes n_lanes lanes = retain (λ l. not (contains lanes l)) (range_from 0 n_lanes)

unfoldable pub own_bundle : {P Q : Type 0} → SetServer P Q → ℕ → Option (Bundle P Q)
own_bundle s cid = do
  own ← get s.batches s.server_id
  let rows : List Receipt = retain (λ (r : Receipt). r.client_id == cid) own.receipts
  row ← elim (rows) as (λ _. Option Receipt) [ [] ↦ none | r ∷ more ↦ some r ]
  held ← get s.held cid
  get held row.bundle_hash

-- What the decision over the clients has gathered so far.
pub record Tally (P Q : Type 0) : Type 0 where
  pub abstaining : List ℕ
  pub rebuilt_for : List (ℕ × Bundle P Q)
  pub admitted : List ℕ
  pub excluded : List ℕ
  pub conflicted : List ℕ

abbrev pub find_lane : {P Q : Type 0} → ℕ → List (Bundle P Q) → Option (Bundle P Q)
find_lane me [] = none
find_lane me (b ∷ bs) = if b.lane == me then some b else find_lane me bs

-- `cost.extend(missing)`
abbrev pub extend : List ℕ → List ℕ → List ℕ
extend cost [] = cost
extend cost (l ∷ ls) = extend (insert cost l) ls

abbrev pub empty_tally : {P Q : Type 0} → Tally P Q
empty_tally = record {
  abstaining = [];
  rebuilt_for = [];
  admitted = [];
  excluded = [];
  conflicted = [];
}

abbrev pub empty_round : {P Q O : Type 0} → SetRound P Q O
empty_round = record {
  set = [];
  inbox = [];
  lane_inbox = [];
  excluded = [];
  conflicted = [];
  repaired = [];
}

module _ {P Q O : Type 0} (c : Crates P Q O) where
  -- The loop of `rebuild` over the missing lanes.
  unfoldable pub read_bundles :
      List ℕ
      → ShareCommitmentParams
      → List ℕ
      → ℕ
      → ℕ
      → List ℕ
      → List ℕ
      → ℕ
      → Option (List (Bundle P Q))
  read_bundles [] scp sid n_lanes cid pk_c blob at = some []
  read_bundles (lane ∷ lanes) scp sid n_lanes cid pk_c blob at = do
    tail ← get_range blob at (length blob)
    front ← unpack_bundle c scp cid tail
    let b = front.0
    require (b.lane == lane && b.pubkey == pk_c && verify_bundle c sid n_lanes b)
    rest ← read_bundles lanes scp sid n_lanes cid pk_c blob (at + front.1)
    some (b ∷ rest)

  unfoldable pub rebuild :
      SetServer P Q
      → ProtocolParams
      → List ℕ
      → ℕ
      → List ℕ
      → List ℕ
      → List ℕ
      → Option (List (Bundle P Q))
  rebuild s pp sid cid pk_c lanes missing = do
    require (leb (s.n_lanes - s.k) (length lanes))
    let k = pp.n - pp.k
    held ← get s.fragments cid
    require (leb k (length held))
    let samples = take k (map (λ (e : ℕ × Fragment P). (e.1.idx, e.1.data')) held)
    first ← elim (samples) as (λ _. Option (ℕ × List P)) [ [] ↦ none | x ∷ xs ↦ some x ]
    recovered ← c.reconstruct k pp.n (k * length first.1) samples
    let blob = polys_to_blob c recovered (length recovered * c.slots * bytes_per_coeff)
    scp ← pp.share_comm
    read_bundles missing scp sid s.n_lanes cid pk_c blob 0

  -- A client that the lanes reported under the one key it posted.
  unfoldable pub decide_known :
      SetServer P Q → ProtocolParams → List ℕ → ℕ → List ℕ → Tally P Q → Tally P Q
  decide_known s pp sid cid pk_c t =
      let lanes = covered s cid pk_c in
      let missing = missing_lanes s.n_lanes lanes in
      let cost = extend t.abstaining missing in
      if length missing == 0
      then record t { admitted = t.admitted ++ cid ∷ [] }
      else elim (rebuild s pp sid cid pk_c lanes missing) [
        | some bundles ↦ record t {
          rebuilt_for = elim (find_lane s.server_id bundles) [
            | none ↦ t.rebuilt_for
            | some mine ↦ put_at t.rebuilt_for cid mine
          ];
          admitted = t.admitted ++ cid ∷ [];
        }
        | none ↦
            if leb (length cost) (s.n_lanes - s.k)
            then record t { abstaining = cost; admitted = t.admitted ++ cid ∷ [] }
            else record t { excluded = t.excluded ++ cid ∷ [] }
      ]

  unfoldable pub decide : SetServer P Q → ProtocolParams → List ℕ → ℕ → Tally P Q → Tally P Q
  decide s pp sid cid t = elim (reported_key s cid) [
    | some pk_c ↦ decide_known s pp sid cid pk_c t
    | none ↦ record t {
      conflicted =
          if ltb 1 (length (unwrap_or [] (get s.bulletins cid)))
          then t.conflicted ++ cid ∷ []
          else t.conflicted;
      excluded = t.excluded ++ cid ∷ [];
    }
  ]

  unfoldable pub decide_all :
      List ℕ → SetServer P Q → ProtocolParams → List ℕ → Tally P Q → Tally P Q
  decide_all [] s pp sid t = t
  decide_all (cid ∷ cids) s pp sid t = decide_all cids s pp sid (decide s pp sid cid t)

  -- One admitted client: its place in the set, and what this lane holds of it.
  unfoldable pub serve :
      SetServer P Q → ℕ → List ℕ → List (ℕ × Bundle P Q) → ℕ → SetRound P Q O → SetRound P Q O
  serve s key sid rebuilt_for cid out =
      let rebuilt = get rebuilt_for cid in
      let bundle : Option (Bundle P Q) = elim (rebuilt) [
        | some b ↦ some b
        | none ↦ own_bundle s cid
      ] in
      let placed : SetRound P Q O = record out {
        set = out.set ++ cid ∷ [];
        repaired = elim (rebuilt) [ some b ↦ out.repaired ++ cid ∷ [] | none ↦ out.repaired ];
      } in
      elim (bundle) [
        | none ↦ placed
        | some b ↦ record placed {
          inbox = elim (c.unseal_opening key sid cid s.server_id b.envelope) [
            | none ↦ placed.inbox
            | some opening ↦ placed.inbox ++ (cid, opening) ∷ []
          ];
          lane_inbox = placed.lane_inbox ++ (cid, b.share, b.path) ∷ [];
        }
      ]

  -- The clients are distinct, so an entry that `remove` takes out is not looked up again.
  unfoldable pub serve_all :
      List ℕ → SetServer P Q → ℕ → List ℕ → List (ℕ × Bundle P Q) → SetRound P Q O → SetRound P Q O
  serve_all [] s key sid rebuilt_for out = out
  serve_all (cid ∷ cids) s key sid rebuilt_for out =
      serve_all cids s key sid rebuilt_for (serve s key sid rebuilt_for cid out)

  unfoldable pub finalize : SetServer P Q → ProtocolParams → ℕ → List ℕ → SetRound P Q O
  finalize s pp key sid =
      let t : Tally P Q = decide_all (reported_clients s) s pp sid empty_tally in
      let decided : SetRound P Q O = record empty_round {
        excluded = t.excluded;
        conflicted = t.conflicted;
      } in
      serve_all t.admitted s key sid t.rebuilt_for decided
