-- ===== src/ClientSet/Agreement/Opening.antt =====
-- crates/anymone-core/src/client_set.rs: what `originate` and `submit` accept and forward, before
-- the first round.
use anymone.Base.{
  ℕ, ◌≡◌, refl, ◌∙◌, true, false, List, [], ◌∷◌, map, retain, All, append-All, arith,
}
use anymone.Base.Equality.{nat_eq, ◌==◌, beq_refl}
use anymone.Base.Sets.{contains, contains-insert}
use anymone.ClientSet.{Crates, Fragment, fragment, SetServer, Relay, item_hash, fragment_item_hash}
use anymone.ClientSet.Server.{
  fragment_ok, store_fragment, store_fragments, accept_fragments, submit,
}
use anymone.ClientSet.Relaying.{own_signature, originate}
use anymone.ClientSet.Keeps.{store_fragments-Keeps}
use anymone.ClientSet.Once.{hashes_of, store_fragments-IsOnce}
use anymone.ClientSet.Agreement.{opened}
use anymone.ClientSet.Agreement.Vouching.{Vouched, own-Vouched}
use anymone.ClientSet.Agreement.Collecting.{hashes_left}
use anymone.ClientSet.Agreement.Originating.{
  SameKeys, SignsFor, Ready, own_counts, forward_all-Vouched, forward_all-new, originate-SameKeys,
  originate-Ready,
}

module _ {P Q O : Type 0} (c : Crates P Q O) (sid : List ℕ) where
  abbrev sent : SetServer P Q → Fragment P → Relay P
  sent s f = record {
    item = fragment f;
    chain = own_signature c s sid (fragment_item_hash c sid f) ∷ [];
  }

  sent-Ready :
      (pks : List ℕ) (s : SetServer P Q) (fs : List (Fragment P))
      → SignsFor c sid pks s
      → All (Ready c sid pks 1) (map (sent s) fs)
  unfolding item_hash
  sent-Ready pks s [] signs = tt
  sent-Ready pks s (f ∷ fs) signs =
      ((refl, own_counts c sid pks s (fragment_item_hash c sid f) signs), sent-Ready pks s fs signs)

  sent-Vouched :
      (pks : List ℕ) (B : ℕ → ℕ → Type 0) (s : SetServer P Q) (fs : List (Fragment P))
      → ((h : ℕ) → contains (map (fragment_item_hash c sid) fs) h ≡ true → B s.server_id h)
      → All (Vouched c pks sid B) (map (sent s) fs)
  unfolding item_hash
  sent-Vouched pks B s [] own = tt
  sent-Vouched pks B s (f ∷ fs) own = (
    own-Vouched c pks sid B s (fragment f)
        (own (fragment_item_hash c sid f) (ground (arith, beq_refl (fragment_item_hash c sid f)))),
    sent-Vouched pks B s fs (λ h k. own h (ground (arith, k))),
  )

  store_fragments-old :
      (fs : List (Fragment P)) (s : SetServer P Q) (h : ℕ)
      → ((f : Fragment P) → (fragment_item_hash c sid f == h) ≡ false)
      → contains (store_fragments c fs s sid).0.accepted h ≡ contains s.accepted h
  unfolding store_fragments store_fragment
  store_fragments-old [] s h whole = refl
  store_fragments-old (f ∷ fs) s h whole = ground (
    arith,
    store_fragments-old fs (store_fragment c s sid f) h whole,
    whole f,
    contains-insert s.accepted (fragment_item_hash c sid f) h,
  )

  pub opened-SameKeys :
      (s : SetServer P Q) (fs : List (Fragment P)) → SameKeys s (opened c sid s fs).0
  unfolding submit accept_fragments
  opened-SameKeys s fs =
      let begun = (originate c s sid).0 in
      let (keys, id, key, mono) = originate-SameKeys c sid s in
      let (keys', id', key', mono', held, lanes, rows) =
        store_fragments-Keeps c (retain (fragment_ok c begun sid) fs) begun sid in
      (keys' ∙ keys, id' ∙ id, key' ∙ key, λ h k. mono' h (mono h k))

  pub opened-Ready :
      (pks : List ℕ) (s : SetServer P Q) (fs : List (Fragment P))
      → SignsFor c sid pks s
      → All (Ready c sid pks 1) (opened c sid s fs).1
  unfolding submit
  opened-Ready pks s fs signs =
      let (keys, id, key, mono) = originate-SameKeys c sid s in
      append-All (Ready c sid pks 1) (originate c s sid).1 _ (originate-Ready c sid pks s signs)
        (sent-Ready pks (originate c s sid).0 _ (rw (id, key) signs))

  pub opened-Vouched :
      (pks : List ℕ) (B : ℕ → ℕ → Type 0) (s : SetServer P Q) (fs : List (Fragment P))
      → ((h : ℕ) → contains (opened c sid s fs).0.accepted h ≡ true → B s.server_id h)
      → All (Vouched c pks sid B) (opened c sid s fs).1
  unfolding submit accept_fragments originate
  opened-Vouched pks B s fs own =
      let begun = (originate c s sid).0 in
      let (keys, id, key, mono) = originate-SameKeys c sid s in
      let chosen = retain (fragment_ok c begun sid) fs in
      let (keys', id', key', mono', held, lanes, rows) = store_fragments-Keeps c chosen begun sid in
      append-All (Vouched c pks sid B) (originate c s sid).1 _
        (forward_all-Vouched c sid _ pks B _ (λ h k. own h (mono' h k)))
        (sent-Vouched pks B begun (store_fragments c chosen begun sid).1
          (λ h k. rw id (own h ((store_fragments-IsOnce c chosen begun sid).2 h k).1)))

  -- An item that is accepted now, was not before and is no fragment, is forwarded.
  pub opened-new :
      (s : SetServer P Q) (fs : List (Fragment P)) (h : ℕ)
      → ((f : Fragment P) → (fragment_item_hash c sid f == h) ≡ false)
      → contains (opened c sid s fs).0.accepted h ≡ true
      → contains s.accepted h ≡ false
      → contains (hashes_of c sid (opened c sid s fs).1) h ≡ true
  unfolding submit accept_fragments originate
  opened-new s fs h whole now old =
      let begun = (originate c s sid).0 in
      let chosen = retain (fragment_ok c begun sid) fs in
      let first : contains (hashes_of c sid (originate c s sid).1) h ≡ true =
        forward_all-new c sid _ _ h (ground (arith, now, store_fragments-old chosen begun h whole))
          old in
      hashes_left c sid (originate c s sid).1 _ h first
