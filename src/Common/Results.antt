-- ===== src/Common/Results.antt =====
-- Go's `(T, error)` where one of the two is nil: a value, or an error with its text.
use mathlib.Core.Path.{◌≡◌, refl}
use Prim.Native.Nat.{ℕ}
use mathlib.Core.List.{List}
use mathlib.Core.Logic.{◌⊎◌, inl, inr}

pub data Result {ℓ} (Value : Type ℓ) : Type ℓ where
  err : (text : List ℕ) → Result Value
  ok : (value : Value) → Result Value

module _ {ℓ} {A : Type ℓ} where
  pub Result-cases : (r : Result A) → ((a : A) × (r ≡ ok a)) ⊎ ((e : List ℕ) × (r ≡ err e))
  Result-cases (err e) = inr (e, refl)
  Result-cases (ok a) = inl (a, refl)

  pub ok-injective : {a b : A} → ok a ≡ ok b → a ≡ b
  ok-injective h = cc

module _ {ℓ κ} {A : Type ℓ} {B : Type κ} where
  -- `if err != nil { return nil, err }`, and then the rest of the function.
  abbrev pub and_then : (A → Result B) → Result A → Result B
  and_then rest (err text) = err text
  and_then rest (ok value) = rest value

  infixl 5 ◌>>=◌
  abbrev pub ◌>>=◌ : Result A → (A → Result B) → Result B
  r >>= rest = and_then rest r

  -- A function that succeeds has had no error on its way.
  pub and_then-ok :
      (r : Result A) (rest : A → Result B) {b : B}
      → and_then rest r ≡ ok b
      → (a : A) × (r ≡ ok a) × (rest a ≡ ok b)
  and_then-ok (err text) rest h = absurd (cc)
  and_then-ok (ok value) rest h = (value, refl, h)
