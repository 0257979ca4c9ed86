-- ===== src/Base/Equality.antt =====
-- `PartialEq` as an instance argument, with the instances that the program's keys need.
use mathlib.Core.Path.{◌≡◌, refl, ap, ap₂}
use mathlib.Core.Logic.{◌↔◌}
use mathlib.Core.Bool.{Bool, true, false, ◌&&◌}
use mathlib.Core.List.{List, [], ◌∷◌}
use mathlib.Core.Option.{Option, none, some}
use Prim.Native.Nat.{ℕ}
use native.Mathlib.Omega.{arith}
use anymone.Base.Tests.{eqb, eqb_iff, and-true}

pub record Eq {ℓ} (A : Type ℓ) : Type ℓ where
  pub beq : A → A → Bool
  pub beq_iff : (x y : A) → (beq x y ≡ true) ↔ (x ≡ y)

abbrev pub bool_beq : Bool → Bool → Bool
bool_beq true b = b
bool_beq false true = false
bool_beq false false = true

pub bool_beq_iff : (a b : Bool) → (bool_beq a b ≡ true) ↔ (a ≡ b)
bool_beq_iff a b = ground arith

infix 50 ◌==◌
abbrev pub ◌==◌ {ℓ} : {A : Type ℓ} ⦃e : Eq A⦄ → A → A → Bool
◌==◌ ⦃e⦄ = e.beq

instance abbrev pub bool_eq : Eq Bool
bool_eq = record { beq = bool_beq; beq_iff = bool_beq_iff }

instance abbrev pub nat_eq : Eq ℕ
nat_eq = record { beq = eqb; beq_iff = eqb_iff }

module _ {ℓ κ} {A : Type ℓ} {B : Type κ} ⦃e : Eq A⦄ ⦃f : Eq B⦄ where
  abbrev pub pair_beq : A × B → A × B → Bool
  pair_beq (a, b) (c, d) = e.beq a c && f.beq b d

  pub pair_beq_iff : (p q : A × B) → (pair_beq p q ≡ true) ↔ (p ≡ q)
  pair_beq_iff (a, b) (c, d) = (
    λ h.
        let both = and-true (e.beq a c) (f.beq b d) h in
        let p = (e.beq_iff a c).0 both.0 in let q = (f.beq_iff b d).0 both.1 in λ i. (p i, q i),
    λ h.
        let p = (e.beq_iff a c).1 (ap (λ (t : A × B). t.0) h) in
        let q = (f.beq_iff b d).1 (ap (λ (t : A × B). t.1) h) in ground arith,
  )

  instance abbrev pub pair_eq : Eq (A × B)
  pair_eq = record { beq = pair_beq; beq_iff = pair_beq_iff }

module _ {ℓ} {A : Type ℓ} ⦃e : Eq A⦄ where
  abbrev pub list_beq : List A → List A → Bool
  list_beq [] [] = true
  list_beq [] (y ∷ ys) = false
  list_beq (x ∷ xs) [] = false
  list_beq (x ∷ xs) (y ∷ ys) = e.beq x y && list_beq xs ys

  pub list_beq→eq : (xs ys : List A) → list_beq xs ys ≡ true → xs ≡ ys
  list_beq→eq [] [] h = refl
  list_beq→eq [] (y ∷ ys) h = cc
  list_beq→eq (x ∷ xs) [] h = cc
  list_beq→eq (x ∷ xs) (y ∷ ys) h =
      let both = and-true (e.beq x y) (list_beq xs ys) h in
      ap₂ ◌∷◌ ((e.beq_iff x y).0 both.0) (list_beq→eq xs ys both.1)

  pub list_beq_refl : (xs : List A) → list_beq xs xs ≡ true
  list_beq_refl [] = refl
  list_beq_refl (x ∷ xs) = ground (arith, (e.beq_iff x x).1 refl, list_beq_refl xs)

  pub list_beq_iff : (xs ys : List A) → (list_beq xs ys ≡ true) ↔ (xs ≡ ys)
  list_beq_iff xs ys = (list_beq→eq xs ys, λ h. rw h (list_beq_refl ys))

  instance abbrev pub list_eq : Eq (List A)
  list_eq = record { beq = list_beq; beq_iff = list_beq_iff }

  abbrev pub option_beq : Option A → Option A → Bool
  option_beq none none = true
  option_beq none (some y) = false
  option_beq (some x) none = false
  option_beq (some x) (some y) = e.beq x y

  pub option_beq_iff : (x y : Option A) → (option_beq x y ≡ true) ↔ (x ≡ y)
  option_beq_iff none none = (λ _. refl, λ _. refl)
  option_beq_iff none (some y) = (λ h. cc, λ h. cc)
  option_beq_iff (some x) none = (λ h. cc, λ h. cc)
  option_beq_iff (some x) (some y) =
      (λ h. ap some ((e.beq_iff x y).0 h), λ h. (e.beq_iff x y).1 (cc))

  instance abbrev pub option_eq : Eq (Option A)
  option_eq = record { beq = option_beq; beq_iff = option_beq_iff }

module _ {ℓ} {A : Type ℓ} ⦃e : Eq A⦄ where
  pub beq_refl : (a : A) → e.beq a a ≡ true
  beq_refl a = (e.beq_iff a a).1 refl

-- Equality from a decision, for the records whose `PartialEq` is derived.
module _ {ℓ} {A : Type ℓ} (d : Discrete A) where
  abbrev pub decide_beq : A → A → Bool
  decide_beq a b = elim (d a b) [ yes _ ↦ true | no _ ↦ false ]

  pub decide_beq-eq : (a b : A) → decide_beq a b ≡ true → a ≡ b
  decide_beq-eq a b h =
      elim (d a b) as (λ r. elim r [ yes _ ↦ true | no _ ↦ false ] ≡ true → a ≡ b) [
        | yes p ↦ λ _. p
        | no n ↦ λ k. cc
      ]
        h

  pub eq-decide_beq : (a b : A) → a ≡ b → decide_beq a b ≡ true
  eq-decide_beq a b p = elim (d a b) as (λ r. elim r [ yes _ ↦ true | no _ ↦ false ] ≡ true) [
    | yes q ↦ refl
    | no n ↦ absurd (n p)
  ]

  abbrev pub of_discrete : Eq A
  of_discrete = record { beq = decide_beq; beq_iff = λ a b. (decide_beq-eq a b, eq-decide_beq a b) }
