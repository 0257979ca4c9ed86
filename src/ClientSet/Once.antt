-- ===== src/ClientSet/Once.antt =====
-- No item is forwarded twice over any run of a server.
use anymone.Base.{
  ℕ, ◌≡◌, refl, sym, ap, subst, inl, inr, Bool, true, false, not, Option, none, some, List, [], ◌∷◌,
  ◌++◌, map, retain, if◌then◌else◌, arith, Bool-cases,
}
use mathlib.Core.List.{map-map}
use anymone.Base.Equality.{nat_eq, beq_refl}
use anymone.Base.Sets.{contains, insert, Distinct, contains-append, append-Distinct_disjoint}
use anymone.Base.Maps.{contains_key}
use anymone.ClientSet.{
  Crates, Bundle, Fragment, fragment, SetServer, Relay, item_hash, fragment_item_hash,
}
use anymone.ClientSet.Server.{
  held_at, receive, note_bulletin, store_fragment, is_fresh, store_fragments, accept_fragments,
  submit, fragment_ok,
}
use anymone.ClientSet.Relaying.{absorb_one, absorb_each, absorb, extended, own_signature}
use anymone.ClientSet.Steps.{Input, on_bundle, on_bulletin, on_fragments, on_relays, step, run}
use anymone.ClientSet.Keeps.{absorb_one-Keeps, absorb_one-Forwards}

-- From the accepted items `a` to `b`: none is forgotten, and what is forwarded is distinct, was not
-- accepted before and is accepted now.
abbrev pub IsOnce : List ℕ → List ℕ → List ℕ → Type 0
IsOnce a b hashes =
    ((h : ℕ) → contains a h ≡ true → contains b h ≡ true)
    × Distinct hashes
    × ((h : ℕ) → contains hashes h ≡ true → (contains a h ≡ false) × (contains b h ≡ true))

IsOnce-refl : (a : List ℕ) → IsOnce a a []
IsOnce-refl a = (λ h k. k, tt, λ h k. cc)

IsOnce-append : (a b d xs ys : List ℕ) → IsOnce a b xs → IsOnce b d ys → IsOnce a d (xs ++ ys)
IsOnce-append a b d xs ys (mono, dx, fx) (mono', dy, fy) = (
  λ h k. mono' h (mono h k),
  append-Distinct_disjoint xs ys dx dy (λ h k. elim (Bool-cases (contains ys h)) [
    | inl in_both ↦ ground (arith, fx h k, fy h in_both)
    | inr apart ↦ apart
  ]),
  λ h k. elim (Bool-cases (contains xs h)) [
    | inl first ↦ ((fx h first).0, mono' h (fx h first).1)
    | inr other ↦
        let second = fy h (ground (arith, k, other, contains-append xs ys h)) in
        (
          elim (Bool-cases (contains a h)) [
            | inl old ↦ ground (arith, mono h old, second)
            | inr new ↦ new
          ],
          second.1,
        )
  ],
)

-- One item.
IsOnce-one :
    (a b : List ℕ) (hash : ℕ)
    → ((h : ℕ) → contains a h ≡ true → contains b h ≡ true)
    → contains a hash ≡ false
    → contains b hash ≡ true
    → IsOnce a b (hash ∷ [])
IsOnce-one a b hash mono new now = (
  mono,
  (refl, tt),
  λ h k. ground (arith, k, new, now, nat_eq.beq_iff hash h, ap (contains a), ap (contains b)),
)

IsOnce-insert :
    (a : List ℕ) (hash : ℕ)
    → IsOnce a (insert a hash) (if not (contains a hash) then hash ∷ [] else [])
IsOnce-insert a hash = elim (Bool-cases (contains a hash)) [
  | inl old ↦ rw old (IsOnce-refl a)
  | inr new ↦
      let more = contains-append a (hash ∷ []) in
      rw new (
        IsOnce-one a (a ++ hash ∷ []) hash (λ h k. ground (arith, k, more h)) new
          (ground (arith, more hash, beq_refl hash)))
]

module _ {P Q O : Type 0} (c : Crates P Q O) where
  abbrev pub hashes_of : List ℕ → List (Relay P) → List ℕ
  hashes_of sid relays = map (λ (r : Relay P). item_hash c sid r.item) relays

  prepend-IsOnce :
      (sid a b d : List ℕ) (o : Option (Relay P)) (outs : List (Relay P))
      → ((h : ℕ) → contains a h ≡ true → contains b h ≡ true)
      → ((out : Relay P)
          → o ≡ some out
          → (contains a (item_hash c sid out.item) ≡ false)
            × (contains b (item_hash c sid out.item) ≡ true))
      → IsOnce b d (hashes_of sid outs)
      → IsOnce a d (hashes_of sid (elim (o) [ none ↦ outs | some out ↦ out ∷ outs ]))
  prepend-IsOnce sid a b d none outs mono fresh v =
      IsOnce-append a b d [] (hashes_of sid outs) (mono, tt, λ h k. cc) v
  prepend-IsOnce sid a b d (some out) outs mono fresh v =
      let hash = item_hash c sid out.item in
      IsOnce-append a b d (hash ∷ []) (hashes_of sid outs)
        (IsOnce-one a b hash mono (fresh out refl).0 (fresh out refl).1) v

  absorb_each-IsOnce :
      (rs : List (Relay P)) (s : SetServer P Q) (sid : List ℕ) (round : ℕ)
      → let done = absorb_each c rs s sid round in
        IsOnce s.accepted done.0.accepted (hashes_of sid done.1)
  unfolding absorb_each extended
  absorb_each-IsOnce [] s sid round = IsOnce-refl s.accepted
  absorb_each-IsOnce (r ∷ rs) s sid round =
      let next = (absorb_one c s sid round r).0 in
      prepend-IsOnce sid s.accepted next.accepted _ (absorb_one c s sid round r).1 _
        (absorb_one-Keeps c s sid round r).3
        (λ out k.
          let (new, long, now, same, ks) = absorb_one-Forwards c s sid round r out k in
          rw same (new, now))
        (absorb_each-IsOnce rs next sid round)

  fresh_item : SetServer P Q → List ℕ → Fragment P → List ℕ
  fresh_item s sid f = if is_fresh c s sid f then fragment_item_hash c sid f ∷ [] else []

  store_fragment-IsOnce :
      (s : SetServer P Q) (sid : List ℕ) (f : Fragment P)
      → IsOnce s.accepted (store_fragment c s sid f).accepted (fresh_item s sid f)
  unfolding fresh_item store_fragment is_fresh
  store_fragment-IsOnce s sid f = elim (Bool-cases (contains_key (held_at s f.client_id) f.idx)) [
    | inl old ↦ rw old (IsOnce-refl s.accepted)
    | inr empty ↦ rw empty (IsOnce-insert s.accepted (fragment_item_hash c sid f))
  ]

  map-if :
      (sid : List ℕ) (b : Bool) (f : Fragment P) (fs : List (Fragment P))
      → (if b then fragment_item_hash c sid f ∷ [] else []) ++ map (fragment_item_hash c sid) fs
        ≡ map (fragment_item_hash c sid) (if b then f ∷ fs else fs)
  map-if sid true f fs = refl
  map-if sid false f fs = refl

  pub store_fragments-IsOnce :
      (fs : List (Fragment P)) (s : SetServer P Q) (sid : List ℕ)
      → let done = store_fragments c fs s sid in
        IsOnce s.accepted done.0.accepted (map (fragment_item_hash c sid) done.1)
  unfolding store_fragments fresh_item
  store_fragments-IsOnce [] s sid = IsOnce-refl s.accepted
  store_fragments-IsOnce (f ∷ fs) s sid =
      let next = store_fragment c s sid f in
      let done : SetServer P Q × List (Fragment P) = store_fragments c fs next sid in
      let both =
        IsOnce-append s.accepted next.accepted done.0.accepted (fresh_item s sid f)
          (map (fragment_item_hash c sid) done.1) (store_fragment-IsOnce s sid f)
          (store_fragments-IsOnce fs next sid) in
      subst (IsOnce s.accepted done.0.accepted) (map-if sid (is_fresh c s sid f) f done.1) both

  submit-IsOnce :
      (s : SetServer P Q) (sid : List ℕ) (fs : List (Fragment P))
      → let done = submit c s sid fs in IsOnce s.accepted done.0.accepted (hashes_of sid done.1)
  unfolding submit accept_fragments item_hash
  submit-IsOnce s sid fs =
      subst (IsOnce s.accepted (submit c s sid fs).0.accepted)
        (sym (
          map-map (λ (r : Relay P). item_hash c sid r.item)
            (λ (f : Fragment P). record {
              item = fragment f;
              chain = own_signature c s sid (fragment_item_hash c sid f) ∷ [];
            })
            (accept_fragments c s sid fs).1))
        (store_fragments-IsOnce (retain (fragment_ok c s sid) fs) s sid)

  receive-accepted :
      (s : SetServer P Q) (sid : List ℕ) (b : Bundle P Q)
      → (receive c s sid b).0.accepted ≡ s.accepted
  unfolding receive
  receive-accepted s sid b = ground arith

  step-IsOnce :
      (x : Input P Q) (s : SetServer P Q) (sid : List ℕ)
      → IsOnce s.accepted (step c s sid x).0.accepted (hashes_of sid (step c s sid x).1)
  unfolding note_bulletin absorb
  step-IsOnce (on_bundle b) s sid =
      subst (λ a. IsOnce s.accepted a []) (sym (receive-accepted s sid b)) (IsOnce-refl s.accepted)
  step-IsOnce (on_bulletin cid pk) s sid = IsOnce-refl s.accepted
  step-IsOnce (on_fragments fs) s sid = submit-IsOnce s sid fs
  step-IsOnce (on_relays round incoming) s sid = absorb_each-IsOnce _ s sid round

  hashes_of-append :
      (sid : List ℕ) (xs ys : List (Relay P))
      → hashes_of sid xs ++ hashes_of sid ys ≡ hashes_of sid (xs ++ ys)
  hashes_of-append sid [] ys = refl
  hashes_of-append sid (x ∷ xs) ys = ap (◌∷◌ (item_hash c sid x.item)) (hashes_of-append sid xs ys)

  run-IsOnce :
      (xs : List (Input P Q)) (s : SetServer P Q) (sid : List ℕ)
      → IsOnce s.accepted (run c xs s sid).0.accepted (hashes_of sid (run c xs s sid).1)
  run-IsOnce [] s sid = IsOnce-refl s.accepted
  run-IsOnce (x ∷ xs) s sid =
      let now = step c s sid x in
      let later : SetServer P Q × List (Relay P) = run c xs now.0 sid in
      subst (IsOnce s.accepted later.0.accepted) (hashes_of-append sid now.1 later.1) (
        IsOnce-append s.accepted now.0.accepted later.0.accepted _ _ (step-IsOnce x s sid)
          (run-IsOnce xs now.0 sid))

  -- Over any sequence of bundles, bulletins, fragments and relays, no two relays that a server
  -- sends are of items with one hash, none is of an item that it had accepted before the
  -- sequence, and all are of items that it has accepted at the end.
  pub run_forwards_once :
      (xs : List (Input P Q)) (s : SetServer P Q) (sid : List ℕ)
      → Distinct (hashes_of sid (run c xs s sid).1)
        × ((h : ℕ)
            → contains (hashes_of sid (run c xs s sid).1) h ≡ true
            → (contains s.accepted h ≡ false) × (contains (run c xs s sid).0.accepted h ≡ true))
  run_forwards_once xs s sid = let (mono, apart, fresh) = run-IsOnce xs s sid in (apart, fresh)
