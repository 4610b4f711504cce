-- ===== src/Common/Members.antt =====
-- Lists of numbers as sets: membership, removal of the first occurrence, and no duplicates.
use Prim.Native.Nat.{ℕ}
use mathlib.Core.Path.{◌≡◌, refl}
use mathlib.Core.Bool.{Bool, true, false, ◌||◌}
use mathlib.Core.List.{List, [], ◌∷◌, ◌++◌}
use native.Mathlib.Omega.{arith}
use serverpouch.Common.Tests.{◌==◌, if◌then◌else◌}

abbrev pub member : ℕ → List ℕ → Bool
member c [] = false
member c (x ∷ xs) = x == c || member c xs

abbrev pub remove : ℕ → List ℕ → List ℕ
remove c [] = []
remove c (x ∷ xs) = if x == c then xs else x ∷ remove c xs

-- Every number occurs at most once.
abbrev pub IsDistinct : List ℕ → Type 0
IsDistinct [] = Unit
IsDistinct (x ∷ xs) = (member x xs ≡ false) × IsDistinct xs

pub member-append : (c : ℕ) (xs ys : List ℕ) → member c (xs ++ ys) ≡ (member c xs || member c ys)
member-append c [] ys = refl
member-append c (x ∷ xs) ys = ground (arith, member-append c xs ys)

pub member-remove :
    (c d : ℕ) (xs : List ℕ)
    → IsDistinct xs
    → member d (remove c xs) ≡ (if c == d then false else member d xs)
member-remove c d [] h = ground arith
member-remove c d (x ∷ xs) h = ground (arith, member-remove c d xs h.1)

pub remove-IsDistinct : (c : ℕ) (xs : List ℕ) → IsDistinct xs → IsDistinct (remove c xs)
remove-IsDistinct c [] h = tt
remove-IsDistinct c (x ∷ xs) h =
    ground (arith, remove-IsDistinct c xs h.1, member-remove c x xs h.1)

pub append-IsDistinct :
    (c : ℕ) (xs : List ℕ) → IsDistinct xs → member c xs ≡ false → IsDistinct (xs ++ c ∷ [])
append-IsDistinct c [] h n = (refl, tt)
append-IsDistinct c (x ∷ xs) h n =
    ground (arith, append-IsDistinct c xs h.1, member-append x xs (c ∷ []))

pub member_of_remove : (c d : ℕ) (xs : List ℕ) → member d (remove c xs) ≡ true → member d xs ≡ true
member_of_remove c d [] h = h
member_of_remove c d (x ∷ xs) h = ground (arith, member_of_remove c d xs)
