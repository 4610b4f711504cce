-- ===== src/Common/Equality.antt =====
-- Go's `==` on the types that serve as map keys.
use Prim.Native.Nat.{ℕ}
use mathlib.Core.Path.{◌≡◌, refl, subst}
use mathlib.Core.Logic.{◌↔◌, ◌≢◌, inl, inr}
use mathlib.Core.Bool.{Bool, true, false, ◌&&◌}
use mathlib.Core.List.{List, [], ◌∷◌}
use native.Mathlib.Omega.{arith}
use serverpouch.Common.Tests.{◌==◌ as nat_beq, ==_iff, Bool-cases}

-- The types that Go compares with `==`.
pub record Comparable {ℓ} (K : Type ℓ) : Type ℓ where
  pub same : K → K → Bool
  pub same-refl : (k : K) → same k k ≡ true
  pub same-path : {j k : K} → same j k ≡ true → j ≡ k

module _ {ℓ} {K : Type ℓ} ⦃keys : Comparable K⦄ where
  infix 50 ◌==◌
  abbrev pub ◌==◌ : K → K → Bool
  j == k = keys.same j k

  pub same_iff : (j k : K) → ((j == k) ≡ true) ↔ (j ≡ k)
  same_iff j k = (keys.same-path, λ p. subst (λ i. (j == i) ≡ true) p (keys.same-refl j))

-- A Go `int`: `negsuc n` is -(n + 1).
pub data ℤ : Type 0 where
  pos : ℕ → ℤ
  negsuc : ℕ → ℤ

abbrev pub int_beq : ℤ → ℤ → Bool
int_beq (pos a) (pos b) = nat_beq a b
int_beq (negsuc a) (negsuc b) = nat_beq a b
int_beq _ _ = false

pub int_beq_iff : (a b : ℤ) → (int_beq a b ≡ true) ↔ (a ≡ b)
int_beq_iff (pos a) (pos b) = ground arith
int_beq_iff (negsuc a) (negsuc b) = ground arith
int_beq_iff (pos a) (negsuc b) = ground arith
int_beq_iff (negsuc a) (pos b) = ground arith

instance abbrev pub int_eq : Comparable ℤ
int_eq = record {
  same = int_beq;
  same-refl = λ n. (int_beq_iff n n).1 refl;
  same-path = λ {j} {k}. (int_beq_iff j k).0;
}

instance abbrev pub nat_eq : Comparable ℕ
nat_eq = record {
  same = nat_beq;
  same-refl = λ n. (==_iff n n).1 refl;
  same-path = λ {j} {k}. (==_iff j k).0;
}

abbrev pub list_beq : List ℕ → List ℕ → Bool
list_beq [] [] = true
list_beq (a ∷ s) (b ∷ t) = nat_beq a b && list_beq s t
list_beq _ _ = false

pub list_beq_iff : (a b : List ℕ) → (list_beq a b ≡ true) ↔ (a ≡ b)
list_beq_iff [] [] = ground arith
list_beq_iff [] (b ∷ bs) = ground arith
list_beq_iff (a ∷ s) [] = ground arith
list_beq_iff (a ∷ s) (b ∷ t) = ground (arith, list_beq_iff s t)

instance abbrev pub text_eq : Comparable (List ℕ)
text_eq = record {
  same = list_beq;
  same-refl = λ s. (list_beq_iff s s).1 refl;
  same-path = λ {j} {k}. (list_beq_iff j k).0;
}

module _ {ℓ} {A : Type ℓ} ⦃keys : Comparable A⦄ where
  pub eq_true : {a b : A} → a ≡ b → (a == b) ≡ true
  eq_true {a} {b} h = (same_iff a b).1 h

  pub eq_false : {a b : A} → a ≢ b → (a == b) ≡ false
  eq_false {a} {b} h = elim (Bool-cases (a == b)) [
    | inl met ↦ absurd (h (keys.same-path met))
    | inr other ↦ other
  ]
