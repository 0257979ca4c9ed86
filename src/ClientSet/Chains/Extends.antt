-- ===== src/ClientSet/Chains/Extends.antt =====
-- What `absorb` forwards carries one signature more than the round asks for.
use anymone.Base.{
  ℕ, ◌+◌, ◌≤◌, ◌≡◌, inl, inr, ◌⊎◌, true, false, not, some, List, [], ◌∷◌, retain, get_elem?, All,
  arith, option-All, append-All, retain-All,
}
use anymone.Base.Equality.{nat_eq, beq_refl}
use anymone.Base.Sets.{contains}
use anymone.ClientSet.{Crates, SetServer, Relay, item_hash, relay_signing_bytes}
use anymone.ClientSet.Relaying.{
  chain_signers, chain_len, extended, absorb_one, absorb_each, is_batch, absorb,
}
use anymone.ClientSet.Keeps.{
  Keeps, Keeps-refl, Keeps-trans, Forwards, absorb_one-Forwards, absorb_one-Keeps,
}
use anymone.ClientSet.Chains.{signed_longer}

module _ {P Q O : Type 0} (c : Crates P Q O) where
  -- The item was accepted before, or the chain has no valid signature of this server.
  abbrev pub IsForeign : SetServer P Q → List ℕ → Relay P → Type 0
  IsForeign s sid r =
      let hash = item_hash c sid r.item in
      (contains s.accepted hash ≡ true)
      ⊎ (contains (chain_signers c s.server_pks (relay_signing_bytes sid hash) r.chain [])
            s.server_id
          ≡ false)

  IsForeign-Keeps :
      (s t : SetServer P Q) (sid : List ℕ) (r : Relay P)
      → Keeps s t
      → IsForeign s sid r
      → IsForeign t sid r
  IsForeign-Keeps s t sid r (pks, id, key, mono, held, lanes, rows) f = elim (f) [
    | inl old ↦ inl (mono _ old)
    | inr absent ↦ inr (rw (pks, id) absent)
  ]

  abbrev IsExtended : SetServer P Q → List ℕ → ℕ → Relay P → Type 0
  IsExtended s sid round out = round + 1 ≤ chain_len c s sid (item_hash c sid out.item) out.chain

  forwarded-IsExtended :
      (s : SetServer P Q) (sid : List ℕ) (round : ℕ) (r out : Relay P) (pk : ℕ)
      → get_elem? s.server_pks s.server_id ≡ some pk
      → ((msg : List ℕ) → c.verify pk msg (c.sign s.signer msg) ≡ true)
      → IsForeign s sid r
      → Forwards c s sid round r out
      → IsExtended s sid round out
  unfolding extended chain_len
  forwarded-IsExtended s sid round r out pk at valid foreign (new, long, now, same, ks) =
      let hash = item_hash c sid r.item in
      let msg = relay_signing_bytes sid hash in
      let more =
        signed_longer c s.server_pks msg s.server_id (c.sign s.signer msg) r.chain
          (ground (arith, at, valid msg, beq_refl s.server_id))
          (elim (foreign) [ inl old ↦ cc | inr absent ↦ absent ]) in
      rw (same, ks.1, ks.2) (omega (arith, long, more))

  -- From a state `t` that the run started in.
  absorb_each-IsExtended :
      (rs : List (Relay P)) (t s : SetServer P Q) (sid : List ℕ) (round pk : ℕ)
      → Keeps t s
      → get_elem? t.server_pks t.server_id ≡ some pk
      → ((msg : List ℕ) → c.verify pk msg (c.sign t.signer msg) ≡ true)
      → All (IsForeign t sid) rs
      → All (IsExtended t sid round) (absorb_each c rs s sid round).1
  unfolding absorb_each chain_len
  absorb_each-IsExtended [] t s sid round pk ks at valid foreign = tt
  absorb_each-IsExtended (r ∷ rs) t s sid round pk ks at valid foreign =
      let later =
        absorb_each-IsExtended rs t (absorb_one c s sid round r).0 sid round pk
          (Keeps-trans t s (absorb_one c s sid round r).0 ks (absorb_one-Keeps c s sid round r)) at
          valid foreign.1 in
      option-All (IsExtended t sid round) (absorb_one c s sid round r).1 _
        (λ out h.
          let first : IsExtended s sid round out =
            forwarded-IsExtended s sid round r out pk (rw (ks.0, ks.1) at) (rw ks.2 valid)
              (IsForeign-Keeps t s sid r ks foreign.0)
              (absorb_one-Forwards c s sid round r out h) in
          rw (← ks.0) first)
        later

  -- If the server's own signatures verify under its listed key, then whatever `absorb` forwards
  -- in a round bears at least one more valid signature than the round asked for, so that it
  -- passes the next round's test; each relay that comes in is either of an item accepted
  -- before or without a valid signature of this server.
  pub absorb_extends :
      (s : SetServer P Q) (sid : List ℕ) (round : ℕ) (incoming : List (Relay P)) (pk : ℕ)
      → get_elem? s.server_pks s.server_id ≡ some pk
      → ((msg : List ℕ) → c.verify pk msg (c.sign s.signer msg) ≡ true)
      → All (IsForeign s sid) incoming
      → All
          (λ out. round + 1 ≤ chain_len c s sid (item_hash c sid out.item) out.chain)
          (absorb c s sid round incoming).1
  unfolding absorb
  absorb_extends s sid round incoming pk at valid foreign =
      absorb_each-IsExtended _ s s sid round pk (Keeps-refl s) at valid (
        append-All (IsForeign s sid) (retain is_batch incoming) _
          (retain-All (IsForeign s sid) is_batch incoming foreign)
          (retain-All (IsForeign s sid) (λ r. not (is_batch r)) incoming foreign))
