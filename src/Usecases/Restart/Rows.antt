-- ===== src/Usecases/Restart/Rows.antt =====
-- internal/infrastructure/database/servers.go: the rows of a table and the configs that they are
-- converted to.
use serverpouch.Common.{
  ℕ, List, [], ◌∷◌, All, Option, none, some, ok, Errors, or_else, ok-injective, ◌≡◌, refl, sym, ap,
  ◌∙◌, if◌then◌else◌, ◌==◌, nat_eq, Bool-cases, inl, inr,
}
use serverpouch.Docker.Config.{Options, id}
use serverpouch.Database.{Row, OptionsJson, convert_to_server, convert_rows}
use serverpouch.Database
use serverpouch.Database.Stored.{converted_id}
use serverpouch.Schema.Serves.{last_row}

-- The last config with an identifier.
abbrev pub last_config : ℕ → List Options → Option Options
last_config k [] = none
last_config k (config ∷ configs) =
    or_else (last_config k configs) (if id config == k then some config else none)

module _ {Doc : Type 0} (x : Errors) (values : OptionsJson Doc) where
  -- A row and the config that it is converted to, or neither.
  abbrev pub Matches : Option (Row Doc) → Option Options → Type 0
  Matches none none = Unit
  Matches (some row) (some config) = convert_to_server x values row ≡ ok config
  Matches none (some config) = ⊥
  Matches (some row) none = ⊥

  Matches-or_else :
      (a c : Option (Row Doc)) (b d : Option Options)
      → Matches a b
      → Matches c d
      → Matches (or_else a c) (or_else b d)
  Matches-or_else none c none d h later = later
  Matches-or_else (some row) c (some config) d h later = h
  Matches-or_else none c (some config) d h later = absurd (h)
  Matches-or_else (some row) c none d h later = absurd (h)

  pub Matches-some :
      (row : Row Doc) (config : Option Options)
      → Matches (some row) config
      → (c : Options) × (convert_to_server x values row ≡ ok c)
  Matches-some row none h = absurd (h)
  Matches-some row (some c) h = (c, h)

  pub Matches-unique :
      (row : Option (Row Doc)) (a b : Option Options) → Matches row a → Matches row b → a ≡ b
  Matches-unique none none none h g = refl
  Matches-unique (some row) (some a) (some b) h g = ap some (ok-injective (sym h ∙ g))
  Matches-unique none (some a) b h g = absurd (h)
  Matches-unique none none (some b) h g = absurd (g)
  Matches-unique (some row) none b h g = absurd (h)
  Matches-unique (some row) (some a) none h g = absurd (g)

  Matches-entry :
      (row : Row Doc) (config : Options) (k : ℕ)
      → convert_to_server x values row ≡ ok config
      → Matches
          (if row.id == k then some row else none)
          (if id config == k then some config else none)
  Matches-entry row config k h = elim (Bool-cases (row.id == k)) [
    | inl same ↦ rw (converted_id x values row config h, same) h
    | inr other ↦ rw (converted_id x values row config h, other) tt
  ]

  pub Matches-added :
      (row : Row Doc) (config : Options) (k : ℕ) (old : Option (Row Doc)) (known : Option Options)
      → convert_to_server x values row ≡ ok config
      → Matches old known
      → Matches
          (if row.id == k then some row else old)
          (or_else (if id config == k then some config else none) known)
  Matches-added row config k old known h before = elim (Bool-cases (row.id == k)) [
    | inl same ↦ rw (converted_id x values row config h, same) h
    | inr other ↦ rw (converted_id x values row config h, other) before
  ]

  -- The loop over rows that can all be converted gives their configs.
  pub convert_rows-Matches :
      (rows : List (Row Doc))
      → All (λ (row : Row Doc). (c : Options) × (convert_to_server x values row ≡ ok c)) rows
      → (configs : List Options) × (convert_rows x values rows ≡ ok configs)
        × ((k : ℕ) → Matches (last_row k rows) (last_config k configs))
  unfolding convert_rows Database.wrap_error
  convert_rows-Matches [] h = ([], refl, λ k. tt)
  convert_rows-Matches (row ∷ rows) ((config, one), others) =
      let (configs, more, same) = convert_rows-Matches rows others in
      (
        config ∷ configs,
        rw (one, more) refl,
        λ k.
            Matches-or_else (last_row k rows) (if row.id == k then some row else none)
              (last_config k configs) (if id config == k then some config else none) (same k)
              (Matches-entry row config k one),
      )
