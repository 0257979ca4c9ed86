-- ===== src/ClientSet/Membership/Pool.antt =====
-- The set as a function of the agreed pool alone, and its refinement by `finalize`.
use mathlib.Core.List.{append-nil}
use anymone.Base.{
  ℕ, ◌-◌, ◌≡◌, refl, sym, ap, ◌∙◌, inl, inr, true, none, some, List, [], ◌∷◌, ◌++◌, map, length,
  leb, if◌then◌else◌, arith, Bool-cases, Option-cases,
}
use anymone.Base.Equality.{nat_eq, ◌==◌}
use anymone.ClientSet.{Crates, ProtocolParams, ReceiptBatch, Fragment, SetServer}
use anymone.ClientSet.Server.{reported_key}
use anymone.ClientSet.Finalize.{
  Tally, covered, rebuild, extend, decide, decide_known, decide_all, empty_tally, finalize,
  reported_clients,
}
use anymone.ClientSet.Membership.{append_assoc, missing_of, rebuilt_of, finalize-decided}

-- What the relay agrees on: everything but the server's own keys, bundles and bookkeeping.
pub record Pool (P : Type 0) : Type 0 where
  pub n_lanes : ℕ
  pub k : ℕ
  pub batches : List (ℕ × ReceiptBatch)
  pub fragments : List (ℕ × List (ℕ × Fragment P))
  pub bulletins : List (ℕ × List (List ℕ))

abbrev pub pool_of : {P Q : Type 0} → SetServer P Q → Pool P
pool_of s = record {
  n_lanes = s.n_lanes;
  k = s.k;
  batches = s.batches;
  fragments = s.fragments;
  bulletins = s.bulletins;
}

-- A server that has nothing but the pool.
abbrev pub bare : {P Q : Type 0} → Pool P → SetServer P Q
bare pool = record {
  server_id = 0;
  n_lanes = pool.n_lanes;
  k = pool.k;
  signer = 0;
  server_pks = [];
  relaying = true;
  accepted = [];
  held = [];
  batches = pool.batches;
  fragments = pool.fragments;
  bulletins = pool.bulletins;
}

-- Without one posted key a client is out; with one it is whole, or costs lanes.
pub data Standing : Type 0 where
  out whole : Standing
  costs : List ℕ → Standing

-- The set from the standings in the order of the clients: the lanes that clients cost are added up,
-- and a client that would pass the budget is passed over.
abbrev pub members : ℕ → List ℕ → List (ℕ × Standing) → List ℕ
members budget used [] = []
members budget used ((cid, out) ∷ rest) = members budget used rest
members budget used ((cid, whole) ∷ rest) = cid ∷ members budget used rest
members budget used ((cid, costs lanes) ∷ rest) =
    if leb (length (extend used lanes)) budget
    then cid ∷ members budget (extend used lanes) rest
    else members budget used rest

module _ {P Q O : Type 0} (c : Crates P Q O) where
  abbrev pub standing_of : SetServer P Q → ProtocolParams → List ℕ → ℕ → Standing
  standing_of s pp sid cid = elim (reported_key s cid) [
    | none ↦ out
    | some pk ↦
        if length (missing_of c s cid pk) == 0 then whole else elim (rebuilt_of c s pp sid cid pk) [
          | some bundles ↦ whole
          | none ↦ costs (missing_of c s cid pk)
        ]
  ]

  abbrev pub standings : SetServer P Q → ProtocolParams → List ℕ → List ℕ → List (ℕ × Standing)
  standings s pp sid cids = map (λ cid. (cid, standing_of s pp sid cid)) cids

  -- The set as a function of the pool.
  unfoldable pub set_of : Pool P → ProtocolParams → List ℕ → List ℕ
  set_of pool pp sid =
      let s : SetServer P Q = bare pool in
      members (pool.n_lanes - pool.k) [] (standings s pp sid (reported_clients s))

  decide_all-members :
      (cids : List ℕ) (s : SetServer P Q) (pp : ProtocolParams) (sid : List ℕ) (t : Tally P Q)
      → (decide_all c cids s pp sid t).admitted
        ≡ (t.admitted ++ members (s.n_lanes - s.k) t.abstaining (standings s pp sid cids))
  unfolding decide_all decide decide_known
  decide_all-members [] s pp sid t = sym (append-nil t.admitted)
  decide_all-members (cid ∷ cids) s pp sid t =
      let later = decide_all-members cids s pp sid (decide c s pp sid cid t) in
      let rest : List ℕ → List ℕ =
        λ used. members (s.n_lanes - s.k) used (standings s pp sid cids) in
      let same = append_assoc t.admitted cid (rest t.abstaining) in
      elim (Option-cases (reported_key s cid)) [
        | inl h ↦ ground (arith, later, h)
        | inr (pk, h) ↦
            let cost = extend t.abstaining (missing_of c s cid pk) in
            let more = append_assoc t.admitted cid (rest cost) in
            elim (Bool-cases (length (missing_of c s cid pk) == 0)) [
              | inl all ↦ ground (arith, later, h, all, same)
              | inr some_missing ↦ elim (Option-cases (rebuilt_of c s pp sid cid pk)) [
                | inr (bundles, k) ↦ ground (arith, later, h, some_missing, k, same)
                | inl k ↦ ground (arith, later, h, some_missing, k, more)
              ]
            ]
      ]

  rebuilt-bare :
      (s : SetServer P Q) (pp : ProtocolParams) (sid : List ℕ) (cid : ℕ) (pk lanes missing : List ℕ)
      → rebuild c s pp sid cid pk lanes missing
        ≡ rebuild c (bare (pool_of s)) pp sid cid pk lanes missing
  unfolding rebuild
  rebuilt-bare s pp sid cid pk lanes missing = refl

  -- The set that a server fixes is the set of the pool: it follows from the lanes' batches, the
  -- fragments and the posted keys alone, whatever server works it out, and with whatever bundles
  -- and keys of its own.
  pub finalize-set_of :
      (s : SetServer P Q) (pp : ProtocolParams) (key : ℕ) (sid : List ℕ)
      → (finalize c s pp key sid).set ≡ set_of (pool_of s) pp sid
  unfolding set_of reported_key covered reported_clients rebuild
  finalize-set_of s pp key sid =
      (finalize-decided c s pp key sid).0
      ∙ decide_all-members (reported_clients s) s pp sid empty_tally

  -- Two servers with the same pool fix the same set, each with its own keys and bundles.
  pub finalize_agree :
      (s s' : SetServer P Q) (pp : ProtocolParams) (key key' : ℕ) (sid : List ℕ)
      → pool_of s ≡ pool_of s'
      → (finalize c s pp key sid).set ≡ (finalize c s' pp key' sid).set
  finalize_agree s s' pp key key' sid same =
      finalize-set_of s pp key sid
      ∙ (ap (λ pool. set_of pool pp sid) same ∙ sym (finalize-set_of s' pp key' sid))
