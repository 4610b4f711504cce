-- ===== src/Usecases/Restart/Backed.antt =====
-- internal/domain/usecases/servers.go, `CreateServer`, over the table of the servers: the rows of the
-- registered configs.
use serverpouch.Common.{
  ℕ, Option, none, some, Result, ok, err, Errors, Bool-cases, inl, inr, or_else, ◌≡◌, refl, sym, ap,
  ◌∙◌, subst, arith, if◌then◌else◌, ◌==◌, nat_eq, pair_path,
}
use serverpouch.Docker.Config.{Options, id}
use serverpouch.Database.{Row, OptionsJson, convert_to_server}
use serverpouch.Database
use serverpouch.Database.Stored.{converted_id}
use serverpouch.Schema.{Driver, queries}
use serverpouch.Schema.Created.{create_server-row, create_server-keeps}
use serverpouch.Schema.Serves.{Serves}
use serverpouch.Usecases.{Usecases, register, stored, create_server}
use serverpouch.Usecases.Interfaces.{ServerInstances}
use serverpouch.Usecases.Restart.{Mirrors}
use serverpouch.Usecases.Restart.Rows.{Matches}
use serverpouch.Usecases.Restart.Registered.{config_at, config_of-insert}

module _ {W I Doc : Type 0} (x : Errors) (values : OptionsJson Doc) (db : Driver W Doc)
    (v : Serves values db) (servers : ServerInstances W I)
    (keeps_rows : (config : Options) (w : W) (k : ℕ)
      → v.row_at (servers.new_instance config w).1 k ≡ v.row_at w k) where
  -- The table has the row of the config.
  abbrev pub IsStored : W → ℕ → Options → Type 0
  IsStored w k c =
      (row : Row Doc) × (v.row_at w k ≡ some row) × (convert_to_server x values row ≡ ok c)

  -- It has the row of every config that is registered. (Not the other way around: a `CreateServer`
  -- that fails after its query leaves a row behind.)
  abbrev pub Backed : Usecases W I → Type 0
  Backed u = (k : ℕ) (c : Options) → config_at servers k u ≡ some c → IsStored u.world k c

  Matches-row :
      (row : Option (Row Doc)) (c : Options)
      → Matches x values row (some c)
      → (r : Row Doc) × (row ≡ some r) × (convert_to_server x values r ≡ ok c)
  Matches-row none c h = absurd (h)
  Matches-row (some row) c h = (row, refl, h)

  pub Mirrors-Backed : (u : Usecases W I) → Mirrors x values db v servers keeps_rows u → Backed u
  Mirrors-Backed u mirrors k c there =
      Matches-row (v.row_at u.world k) c
        (subst (Matches x values (v.row_at u.world k)) there (mirrors k))

  register-Backed :
      (row : Row Doc) (config : Options) (w : W) (u : Usecases W I)
      → Backed u
      → convert_to_server x values row ≡ ok config
      → ((k : ℕ) (c : Options) → IsStored u.world k c → IsStored w k c)
      → v.row_at w (id config) ≡ some row
      → Backed (register servers config (record u { world = w })).1
  register-Backed row config w u backed read keep added k c h =
      let (i, world) = servers.new_instance config w in
      let bound : or_else (if id config == k then some config else none) (config_at servers k u)
          ≡ some c =
        sym (config_of-insert servers config i k u.instances (servers.config-new_instance config w))
        ∙ h in
      let (r, there, is_c) : IsStored w k c = elim (Bool-cases (id config == k)) [
        | inl same ↦
            let is_config : config ≡ c = cc (rw same at bound) in
            let is_k : id config ≡ k = ground arith in
            (row, ap (v.row_at w) (sym is_k) ∙ added, read ∙ ap ok is_config)
        | inr other ↦ keep k c (backed k c (rw other at bound))
      ] in
      (r, keeps_rows config w k ∙ there, is_c)

  stored-Backed :
      (answer : Result Options × W) (u : Usecases W I)
      → Backed u
      → ((k : ℕ) (c : Options) → IsStored u.world k c → IsStored answer.1 k c)
      → ((config : Options)
          → answer.0 ≡ ok config
          → (row : Row Doc) × (convert_to_server x values row ≡ ok config)
            × (v.row_at answer.1 (id config) ≡ some row))
      → Backed (stored x servers answer u).1
  unfolding stored
  stored-Backed (err e, w) u backed keep row = λ k c h. keep k c (backed k c h)
  stored-Backed (ok config, w) u backed keep row =
      let (added, read, there) = row config refl in
      register-Backed added config w u backed read keep there

  pub create_server-Backed :
      (config : Options) (u : Usecases W I)
      → Backed u
      → Backed (create_server x (Database.database x values (queries db)) servers config u).1
  unfolding create_server
  create_server-Backed config u backed =
      let answer = Database.create_server x values (queries db) config u.world in
      stored-Backed answer u backed
        (λ k c (row, there, read).
          (row, create_server-keeps x values db v config u.world k row there, read))
        (λ (stored_config : Options) e.
          let (row, read, fresh, kept) =
            create_server-row x values db v config stored_config u.world answer.1
              (pair_path e refl) in
          let named : id stored_config ≡ row.id = converted_id x values row stored_config read in
          (row, read, kept (id stored_config) ∙ ground (arith, named)))
