-- ===== src/Usecases/Restart.antt =====
-- internal/domain/usecases over internal/infrastructure/database: the registry and the table of the
-- servers, before and after a restart of the process.
pub mod Rows
pub mod Registered
pub mod Backed
pub mod Started
pub mod Samples
mod Tests
use serverpouch.Common.{
  ℕ, Bytes, List, [], ◌∷◌, map, All, All-weaken, Option, none, some, Result, ok, err, Errors,
  or_else, or_else-none, lookup, insert, lookup-insert, ok-injective, ◌≡◌, refl, sym, ap, ◌∙◌,
  subst, arith, if◌then◌else◌, ◌==◌, nat_eq, Bool-cases, Option-cases, inl, inr, pair_path,
}
use serverpouch.Docker.Config.{Options, id, type}
use serverpouch.Database.{Row, OptionsJson, convert_to_server, convert_rows}
use serverpouch.Database
use serverpouch.Database.Stored.{converted_id, store_ok}
use serverpouch.Schema
use serverpouch.Schema.{Driver, text_arg, bytes_arg, create_server_sql, queries}
use serverpouch.Schema.Created.{create_server-row}
use serverpouch.Schema.Serves as Table
use serverpouch.Schema.Serves.{Serves, last_row}
use serverpouch.Usecases.{
  Usecases, started, register, load, listed, init, new, get_server, stored, create_server,
}
use serverpouch.Usecases.Interfaces.{ServerInstances}
use serverpouch.Usecases.Restart.Rows.{
  last_config, Matches, Matches-some, Matches-unique, Matches-added, convert_rows-Matches,
}
use serverpouch.Usecases.Restart.Registered.{
  config_at, config_of-insert, config_at-load, answered, get_server-config_at,
}

module _ {W I Doc : Type 0} (x : Errors) (values : OptionsJson Doc) (db : Driver W Doc)
    (v : Serves values db) (servers : ServerInstances W I)
    (keeps_rows : (config : Options) (w : W) (k : ℕ)
      → v.row_at (servers.new_instance config w).1 k ≡ v.row_at w k) where
  -- The registry has a server for every row of the table, with the config of the row, and no other.
  abbrev pub Mirrors : Usecases W I → Type 0
  Mirrors u = (k : ℕ) → Matches x values (v.row_at u.world k) (config_at servers k u)

  row_at-load :
      (configs : List Options) (u : Usecases W I) (k : ℕ)
      → v.row_at (load servers configs u).world k ≡ v.row_at u.world k
  unfolding load
  row_at-load [] u k = refl
  row_at-load (config ∷ configs) u k =
      row_at-load configs (register servers config u).1 k ∙ keeps_rows config u.world k

  -- Every row of the table can be converted.
  abbrev pub IsReadable : W → Type 0
  IsReadable w =
      (k : ℕ) (row : Row Doc)
      → v.row_at w k ≡ some row
      → (config : Options) × (convert_to_server x values row ≡ ok config)

  list_servers-Matches :
      (w : W)
      → IsReadable w
      → (configs : List Options) × (after : W) × (Database.list_servers x values (queries db) w
          ≡ (ok configs, after))
        × ((k : ℕ) → v.row_at after k ≡ v.row_at w k)
        × ((k : ℕ) → Matches x values (v.row_at w k) (last_config k configs))
  unfolding Database.list_servers Database.wrap_error
  list_servers-Matches w readable =
      let (rows, answer, there, same, kept) = Table.get_servers-listed values db v w in
      let (configs, converted, alike) = convert_rows-Matches x values rows (
        All-weaken (λ (row : Row Doc). v.row_at w row.id ≡ some row)
          (λ (row : Row Doc). (c : Options) × (convert_to_server x values row ≡ ok c)) rows
          (λ row h. readable row.id row h) there) in
      (
        configs,
        ((queries db).get_servers w).1,
        rw (answer, converted) refl,
        kept,
        λ k. subst (λ r. Matches x values r (last_config k configs)) (same k) (alike k),
      )

  pub new-Mirrors :
      (w : W)
      → IsReadable w
      → (u : Usecases W I) × (new x (Database.database x values (queries db)) servers w ≡ ok u)
        × Mirrors u
        × ((k : ℕ) → v.row_at u.world k ≡ v.row_at w k)
  unfolding new init listed started
  new-Mirrors w readable =
      let (configs, after, answer, kept, alike) = list_servers-Matches w readable in
      let empty : Usecases W I = record { world = after; instances = [] } in
      let same : (k : ℕ) → v.row_at (load servers configs empty).world k ≡ v.row_at w k =
        λ k. row_at-load configs empty k ∙ kept k in
      (
        load servers configs empty,
        rw answer refl,
        λ k.
            subst (λ r. Matches x values r (config_at servers k (load servers configs empty)))
              (sym (same k))
              (subst (Matches x values (v.row_at w k))
                (sym
                  (config_at-load servers configs empty k ∙ or_else-none (last_config k configs)))
                (alike k)),
        same,
      )

  Mirrors-IsReadable : (u : Usecases W I) → Mirrors u → IsReadable u.world
  Mirrors-IsReadable u h k row there =
      Matches-some x values row (config_at servers k u)
        (subst (λ r. Matches x values r (config_at servers k u)) there (h k))

  register-Mirrors :
      (row : Row Doc) (config : Options) (w : W) (u : Usecases W I)
      → Mirrors u
      → convert_to_server x values row ≡ ok config
      → ((k : ℕ) → v.row_at w k ≡ (if row.id == k then some row else v.row_at u.world k))
      → Mirrors (register servers config (record u { world = w })).1
  register-Mirrors row config w u h read added k =
      let after : Usecases W I = (register servers config (record u { world = w })).1 in
      let (instance, world) = servers.new_instance config w in
      subst (λ r. Matches x values r (config_at servers k after))
        (sym (keeps_rows config w k ∙ added k))
        (subst (Matches x values (if row.id == k then some row else v.row_at u.world k))
          (sym (
            config_of-insert servers config instance k u.instances
              (servers.config-new_instance config w)))
          (Matches-added x values row config k (v.row_at u.world k) (config_at servers k u) read
            (h k)))

  stored-Mirrors :
      (answer : Result Options × W) (u after : Usecases W I) (instance : I)
      → Mirrors u
      → ((config : Options)
          → answer.0 ≡ ok config
          → (row : Row Doc) × (convert_to_server x values row ≡ ok config)
            × ((k : ℕ)
                → v.row_at answer.1 k ≡ (if row.id == k then some row else v.row_at u.world k)))
      → stored x servers answer u ≡ (ok instance, after)
      → Mirrors after
  unfolding stored
  stored-Mirrors (err e, w) u after instance h row e' = absurd (cc)
  stored-Mirrors (ok config, w) u after instance h row e =
      let (added, read, kept) = row config refl in
      subst Mirrors (ap (λ p. p.1) e) (register-Mirrors added config w u h read kept)

  -- The registry mirrors the table if it has a server for every row of the table, with the config
  -- that the row is converted to, and no other. If it does, then it does after a `CreateServer` that
  -- succeeds, where the database serves its statements and a new instance leaves the table alone.
  pub create_server-Mirrors :
      (config : Options) (u after : Usecases W I) (instance : I)
      → Mirrors u
      → create_server x (Database.database x values (queries db)) servers config u
        ≡ (ok instance, after)
      → Mirrors after
  unfolding create_server
  create_server-Mirrors config u after instance h =
      let answer = Database.create_server x values (queries db) config u.world in
      stored-Mirrors answer u after instance h (λ (answered : Options) e.
        let (row, read, fresh, kept) =
          create_server-row x values db v config answered u.world answer.1 (pair_path e refl) in
        (row, read, kept))

  -- If the registry mirrors the table, the database serves its statements and a new instance leaves
  -- the table alone, then `New` succeeds in every later world with the same rows, the new registry
  -- mirrors the table too, and `GetServer` answers for every identifier with an instance of the same
  -- config as before, or with the same error.
  pub restart :
      (uuid_text : ℕ → Bytes) (u : Usecases W I) (later : W)
      → Mirrors u
      → ((k : ℕ) → v.row_at later k ≡ v.row_at u.world k)
      → (again : Usecases W I) × (new x (Database.database x values (queries db)) servers later
          ≡ ok again)
        × Mirrors again
        × ((k : ℕ)
            → answered servers (get_server uuid_text k again)
              ≡ answered servers (get_server uuid_text k u))
  restart uuid_text u later h same =
      let (again, answer, mirrors, kept) =
        new-Mirrors later λ k row there. Mirrors-IsReadable u h k row (sym (same k) ∙ there) in
      (
        again,
        answer,
        mirrors,
        λ k. get_server-config_at servers uuid_text k u again (
            Matches-unique x values (v.row_at u.world k) (config_at servers k again)
              (config_at servers k u)
              (subst (λ r. Matches x values r (config_at servers k again)) (kept k ∙ same k)
                (mirrors k))
              (h k)),
      )
