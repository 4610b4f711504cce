-- ===== src/Common/Lists.antt =====
-- Lists measured by native numbers, predicates on every entry, and the prefix that a test accepts.
use Prim.Native.Nat.{ℕ, suc, ◌+◌}
use mathlib.Core.Path.{◌≡◌, refl}
use mathlib.Core.Bool.{Bool, true, false, ◌&&◌}
use mathlib.Core.List.{List, [], ◌∷◌, ◌++◌, map}
use mathlib.Core.Logic.{◌⊎◌}
use native.Mathlib.Omega.{arith}
use serverpouch.Common.Tests.{if◌then◌else◌}

module _ {ℓ} {A : Type ℓ} where
  abbrev pub length : List A → ℕ
  length [] = 0
  length (x ∷ xs) = suc (length xs)

  pub length-append : (xs ys : List A) → length (xs ++ ys) ≡ length xs + length ys
  length-append [] ys = omega arith
  length-append (x ∷ xs) ys = omega (arith, length-append xs ys)

  -- Whether the list has an entry.
  abbrev pub occupied : List A → Bool
  occupied [] = false
  occupied (x ∷ xs) = true

  -- Whether every entry passes the test.
  abbrev pub every : (A → Bool) → List A → Bool
  every p [] = true
  every p (x ∷ xs) = p x && every p xs

  -- The longest prefix whose entries pass the test.
  abbrev pub take_while : (A → Bool) → List A → List A
  take_while p [] = []
  take_while p (x ∷ xs) = if p x then x ∷ take_while p xs else []

  -- What is left behind that prefix.
  abbrev pub drop_while : (A → Bool) → List A → List A
  drop_while p [] = []
  drop_while p (x ∷ xs) = if p x then drop_while p xs else x ∷ xs

  pub take_while-append-drop_while :
      (p : A → Bool) (xs : List A) → take_while p xs ++ drop_while p xs ≡ xs
  take_while-append-drop_while p [] = refl
  take_while-append-drop_while p (x ∷ xs) = ground (arith, take_while-append-drop_while p xs)

  pub every-take_while : (p : A → Bool) (xs : List A) → every p (take_while p xs) ≡ true
  every-take_while p [] = refl
  every-take_while p (x ∷ xs) = ground (arith, every-take_while p xs)

  -- A prefix of accepted entries in front of a refused one is what `take_while` finds.
  pub take_while-append :
      (p : A → Bool) (xs : List A) (y : A) (ys : List A)
      → every p xs ≡ true
      → p y ≡ false
      → take_while p (xs ++ y ∷ ys) ≡ xs
  take_while-append p [] y ys h n = ground arith
  take_while-append p (x ∷ xs) y ys h n = ground (arith, take_while-append p xs y ys)

  pub drop_while-append :
      (p : A → Bool) (xs : List A) (y : A) (ys : List A)
      → every p xs ≡ true
      → p y ≡ false
      → drop_while p (xs ++ y ∷ ys) ≡ y ∷ ys
  drop_while-append p [] y ys h n = ground arith
  drop_while-append p (x ∷ xs) y ys h n = ground (arith, drop_while-append p xs y ys)

module _ {ℓ κ} {A : Type ℓ} (P : A → Type κ) where
  abbrev pub All : List A → Type κ
  All [] = Unit
  All (x ∷ xs) = P x × All xs

module _ {ℓ κ υ} {A : Type ℓ} where
  pub All-weaken :
      (P : A → Type κ) (Q : A → Type υ) (xs : List A) → ((x : A) → P x → Q x) → All P xs → All Q xs
  All-weaken P Q [] f h = tt
  All-weaken P Q (x ∷ xs) f h = (f x h.0, All-weaken P Q xs f h.1)

module _ {ℓ κ υ} {A : Type ℓ} {B : Type κ} where
  pub All-map :
      (P : B → Type υ) (f : A → B) (xs : List A) → All (λ x. P (f x)) xs → All P (map f xs)
  All-map P f [] h = tt
  All-map P f (x ∷ xs) h = (h.0, All-map P f xs h.1)

module _ {ℓ} {A : Type ℓ} (P : A → Type 0) where
  -- Some entry has the property.
  abbrev pub Any : List A → Type 0
  Any [] = ⊥
  Any (x ∷ xs) = P x ⊎ Any xs
