-- ===== src/Schema/Created.antt =====
-- internal/infrastructure/database/servers.go, `CreateServer`, over the queries on the table.
use serverpouch.Common.{
  ℕ, Bytes, codes, [], ◌∷◌, none, some, Result, ok, err, Errors, ◌≡◌, subst, if◌then◌else◌, ◌==◌,
  nat_eq,
}
use serverpouch.Docker.Config.{Options, type}
use serverpouch.Database.{Row, OptionsJson, convert_to_server, convert_rows}
use serverpouch.Database
use serverpouch.Database.Stored.{store_ok}
use serverpouch.Schema
use serverpouch.Schema.{Driver, text_arg, bytes_arg, create_server_sql, queries}
use serverpouch.Schema.Serves as Table
use serverpouch.Schema.Serves.{Serves, last_row}

module _ {W Doc : Type 0} (x : Errors) (values : OptionsJson Doc) (db : Driver W Doc)
    (v : Serves values db) where
  -- A config that the database answers to `CreateServer` is that of a row that it has added.
  pub create_server-row :
      (config stored : Options) (w after : W)
      → Database.create_server x values (queries db) config w ≡ (ok stored, after)
      → (row : Row Doc) × (convert_to_server x values row ≡ ok stored)
        × (v.row_at w row.id ≡ none)
        × ((k : ℕ) → v.row_at after k ≡ (if row.id == k then some row else v.row_at w k))
  unfolding Database.create_server Schema.create_server Database.to_json
  create_server-row config stored w after h =
      let (d, row, written, answer, read) =
        store_ok x values (queries db) _ (Schema.create_server db (type config))
          (Database.to_json x values config) stored w after h in
      let (cs, answered, scanned_row) =
        Table.one_row_ok values db v create_server_sql (text_arg (type config) ∷ bytes_arg d ∷ []) w
          after row answer in
      let (added, created, updated, shape, typed, alike, fresh, kept) =
        v.inserts (type config) d w after cs answered in
      let same : added ≡ row =
        Table.scanned values db v row added created updated cs shape scanned_row in
      (
        row,
        read,
        subst (λ (r : Row Doc). v.row_at w r.id ≡ none) same fresh,
        subst
            (λ (r : Row Doc).
              (k : ℕ) → v.row_at after k ≡ (if r.id == k then some r else v.row_at w k))
            same kept,
      )

  one_row-keeps :
      (t : Bytes) (d : Doc) (w : W) (k : ℕ) (row : Row Doc)
      → v.row_at w k ≡ some row
      → v.row_at (Schema.create_server db t d w).1 k ≡ some row
  unfolding Schema.create_server Schema.one_row
  one_row-keeps t d w k row h = v.inserts_keep t d w k row h

  store-keeps :
      (t : Bytes) (doc : Result Doc) (w : W) (k : ℕ) (row : Row Doc)
      → v.row_at w k ≡ some row
      → v.row_at
          (Database.store x values
            (queries db)
            (codes "failed to create server config")
            (Schema.create_server db t)
            doc
            w).1
          k
        ≡ some row
  unfolding Database.store
  store-keeps t (err e) w k row h = h
  store-keeps t (ok d) w k row h = one_row-keeps t d w k row h

  -- Whether `CreateServer` fails or not, the rows stay.
  pub create_server-keeps :
      (config : Options) (w : W) (k : ℕ) (row : Row Doc)
      → v.row_at w k ≡ some row
      → v.row_at (Database.create_server x values (queries db) config w).1 k ≡ some row
  unfolding Database.create_server Database.to_json
  create_server-keeps config w k row h =
      store-keeps (type config) (Database.to_json x values config) w k row h
