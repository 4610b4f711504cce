-- ===== src/Common/Maps.antt =====
-- Go maps: an association list that is written and read by key. `range` visits the entries in an
-- order that the runtime chooses: a list of entries with distinct keys and the same lookups.
use mathlib.Core.Path.{◌≡◌, refl, sym, ◌∙◌, subst}
use mathlib.Core.Logic.{inl, inr}
use mathlib.Core.Bool.{false}
use mathlib.Core.Option.{Option, none, some}
use mathlib.Core.List.{List, [], ◌∷◌}
use native.Mathlib.Omega.{arith}
use serverpouch.Common.Tests.{if◌then◌else◌, Bool-cases}
use serverpouch.Common.Lists.{All}
use serverpouch.Common.Equality.{Comparable, same_iff, ◌==◌}

beq_symm {ℓ} : {K : Type ℓ} ⦃keys : Comparable K⦄ (a b : K) → (a == b) ≡ false → (b == a) ≡ false
beq_symm a b h = ground (arith, same_iff a b, same_iff b a)

module _ {ℓ κ} {K : Type ℓ} ⦃keys : Comparable K⦄ {V : Type κ} where
  -- `m[key] = value`.
  abbrev pub insert : K → V → List (K × V) → List (K × V)
  insert key value [] = (key, value) ∷ []
  insert key value ((old, kept) ∷ rest) =
      if old == key then (key, value) ∷ rest else (old, kept) ∷ insert key value rest

  -- `m[key]`, with the test of the two-value form.
  abbrev pub lookup : K → List (K × V) → Option V
  lookup key [] = none
  lookup key ((old, kept) ∷ rest) = if old == key then some kept else lookup key rest

  -- A binding that is written is the one that is read, and the others stay.
  pub lookup-insert :
      (key asked : K) (value : V) (m : List (K × V))
      → lookup asked (insert key value m) ≡ (if key == asked then some value else lookup asked m)
  lookup-insert key asked value [] = refl
  lookup-insert key asked value ((old, kept) ∷ rest) = ground (
    arith,
    lookup-insert key asked value rest,
    same_iff old key,
    same_iff old asked,
    same_iff key asked,
  )

  -- Writing an absent key leaves every binding.
  pub insert-keeps :
      (key asked : K) (value kept : V) (m : List (K × V))
      → lookup key m ≡ none
      → lookup asked m ≡ some kept
      → lookup asked (insert key value m) ≡ some kept
  insert-keeps key asked value kept m absent there =
      ground (arith, lookup-insert key asked value m, same_iff key asked)

  -- No two entries share a key.
  abbrev pub DistinctKeys : List (K × V) → Type κ
  DistinctKeys [] = Unit
  DistinctKeys ((k, v) ∷ m) = (lookup k m ≡ none) × DistinctKeys m

  lookup_absent-insert :
      (k j : K) (v : V) (m : List (K × V))
      → (k == j) ≡ false
      → lookup j m ≡ none
      → lookup j (insert k v m) ≡ none
  lookup_absent-insert k j v m h n = rw (lookup-insert k j v m, h) n

  -- Writing a key keeps the keys distinct.
  pub insert-DistinctKeys :
      (k : K) (v : V) (m : List (K × V)) → DistinctKeys m → DistinctKeys (insert k v m)
  insert-DistinctKeys k v [] d = (refl, d)
  insert-DistinctKeys k v ((j, w) ∷ m) d = elim (Bool-cases (j == k)) [
    | inl same ↦ rw (same) (rw ((same_iff j k).0 same) at d)
    | inr other ↦
        rw (other)
          (lookup_absent-insert k j v m (beq_symm j k other) d.0, insert-DistinctKeys k v m d.1)
  ]

  -- An order in which `range` may visit the entries of `m`.
  abbrev pub IsRange : List (K × V) → List (K × V) → Type (ℓ ⊔ κ)
  IsRange xs m = DistinctKeys xs × ((k : K) → lookup k xs ≡ lookup k m)

-- The first of two options that there is.
abbrev pub or_else {ℓ} : {V : Type ℓ} → Option V → Option V → Option V
or_else none o = o
or_else (some v) o = some v

pub or_else-none {ℓ} : {V : Type ℓ} (o : Option V) → or_else o none ≡ o
or_else-none none = refl
or_else-none (some v) = refl

module _ {ℓ κ} {K : Type ℓ} ⦃keys : Comparable K⦄ {V : Type κ} where
  -- What a loop `for k, v := range xs { m[k] = v }` leaves.
  abbrev pub insert_all : List (K × V) → List (K × V) → List (K × V)
  insert_all [] m = m
  insert_all ((k, v) ∷ xs) m = insert_all xs (insert k v m)

  lookup-insert_all :
      (xs m : List (K × V)) (j : K)
      → DistinctKeys xs
      → lookup j (insert_all xs m) ≡ or_else (lookup j xs) (lookup j m)
  lookup-insert_all [] m j d = refl
  lookup-insert_all ((k, v) ∷ xs) m j d =
      ground (arith, lookup-insert_all xs (insert k v m) j d.1, lookup-insert k j v m, same_iff k j)

  -- Copying a map by a loop gives the same lookups, whatever the order of the loop.
  pub lookup-insert_all_range :
      (xs m : List (K × V)) → IsRange xs m → (j : K) → lookup j (insert_all xs []) ≡ lookup j m
  lookup-insert_all_range xs m r j =
      lookup-insert_all xs [] j r.0 ∙ (or_else-none (lookup j xs) ∙ r.1 j)

  All-lookup {υ} :
      (P : K × V → Type υ) (xs : List (K × V))
      → DistinctKeys xs
      → ((k : K) (v : V) → lookup k xs ≡ some v → P (k, v))
      → All P xs
  All-lookup P [] d h = tt
  All-lookup P ((k, v) ∷ xs) d h = (
    h k v (ground (arith, same_iff k k)),
    All-lookup P xs d.1 λ j w found. h j w (ground (arith, same_iff k j)),
  )

  -- What holds of every binding of a map holds of all that a loop over it visits.
  pub All-range {υ} :
      (P : K × V → Type υ) (xs m : List (K × V))
      → IsRange xs m
      → ((k : K) (v : V) → lookup k m ≡ some v → P (k, v))
      → All P xs
  All-range P xs m r h = All-lookup P xs r.0 λ k v found. h k v (sym (r.1 k) ∙ found)

  -- What holds of every binding of a map.
  abbrev pub Always {υ} : (K × V → Type υ) → List (K × V) → Type (ℓ ⊔ κ ⊔ υ)
  Always P m = (k : K) (v : V) → lookup k m ≡ some v → P (k, v)

  pub Always-insert {υ} :
      (P : K × V → Type υ) (k : K) (v : V) (m : List (K × V))
      → P (k, v)
      → Always P m
      → Always P (insert k v m)
  Always-insert P k v m now before j w found = elim (Bool-cases (k == j)) [
    | inl same ↦
        let entry : ◌≡◌ {A = K × V} (k, v) (j, w) =
          ground (arith, same_iff k j, lookup-insert k j v m) in
        subst P entry now
    | inr other ↦ before j w (ground (arith, lookup-insert k j v m))
  ]

  -- What holds of every entry of a list holds of every binding.
  pub All-Always {υ} : (P : K × V → Type υ) (xs : List (K × V)) → All P xs → Always P xs
  All-Always P [] h k v found = absurd (cc)
  All-Always P ((j, w) ∷ xs) h k v found = elim (Bool-cases (j == k)) [
    | inl same ↦
        let entry : ◌≡◌ {A = K × V} (j, w) (k, v) = ground (arith, same_iff j k) in
        subst P entry h.0
    | inr other ↦ All-Always P xs h.1 k v (ground arith)
  ]
