-- ===== src/Schema/Updates.antt =====
-- internal/infrastructure/database/servers.go, `UpdateServer`, over the queries on the table.
use serverpouch.Common.{
  ℕ, [], ◌∷◌, some, ok, ok-injective, Errors, ◌≡◌, ◌≢◌, refl, sym, ap, ◌∙◌, subst, arith,
  if◌then◌else◌, ◌==◌, nat_eq,
}
use serverpouch.Docker.Config.{Options, id}
use serverpouch.Database.{Row, Queries, OptionsJson, wrap_error, convert_to_server, to_json}
use serverpouch.Database
use serverpouch.Database.Stored.{
  SameOptions, IsFaithful, store_ok, converted, converted_id, renamed, wrap_error-ok,
  get_server-found,
}
use serverpouch.Schema.{Driver, uuid_arg, bytes_arg, update_server_sql, update_server, queries}
use serverpouch.Schema.Serves as Table
use serverpouch.Schema.Serves.{Serves}

module _ {W Doc : Type 0} (x : Errors) (values : OptionsJson Doc) where
  -- What `GetServer` answers is a matter of the answer to its query.
  get_server-answer :
      (q : Queries W Doc) (k : ℕ) (w w' : W)
      → (q.get_server k w).0 ≡ (q.get_server k w').0
      → (Database.get_server x values q k w).0 ≡ (Database.get_server x values q k w').0
  unfolding Database.get_server
  get_server-answer q k w w' same = rw same refl

module _ {W Doc : Type 0} (x : Errors) (values : OptionsJson Doc) (db : Driver W Doc)
    (v : Serves values db) where
  -- If the decoder reads the written config back and the database serves the statements, then a
  -- config that `UpdateServer` answers has the given identifier, and the image, environment, ports
  -- and volumes of the one that was given; `GetServer` finds it under this identifier, and answers
  -- for every other identifier as before.
  pub update_server-get_server :
      (k : ℕ) (config stored : Options) (w after : W)
      → IsFaithful values config
      → Database.update_server x values (queries db) k config w ≡ (ok stored, after)
      → (id stored ≡ k)
        × SameOptions stored config
        × ((Database.get_server x values (queries db) k after).0 ≡ ok stored)
        × ((j : ℕ)
            → j ≢ k
            → (Database.get_server x values (queries db) j after).0
              ≡ (Database.get_server x values (queries db) j w).0)
  unfolding Database.update_server to_json IsFaithful update_server
  update_server-get_server k config stored w after faithful h =
      let (d, row, written, answer, read) =
        store_ok x values (queries db) _ (update_server db k) (to_json x values config) stored w
          after h in
      let (cs, answered, scanned_row) =
        Table.one_row_ok values db v update_server_sql (uuid_arg k ∷ bytes_arg d ∷ []) w after row
          answer in
      let (new, old, created, updated, shape, found, named, typed, alike, kept) =
        v.updates k d w after cs answered in
      let same : new ≡ row =
        Table.scanned values db v row new created updated cs shape scanned_row in
      let (o, decoded, is_stored) = converted x values row stored read in
      let (back, back_read, equal) =
        faithful d (wrap_error-ok x _ (values.marshal config) written) in
      let named_row : row.id ≡ k = subst (λ (r : Row Doc). r.id ≡ k) same named in
      let is_back : back ≡ o = ok-injective (
        sym back_read
        ∙ (sym (subst (λ (r : Row Doc). values.unmarshal r.config ≡ values.unmarshal d) same alike)
            ∙ decoded)) in
      let now : (if k == k then some new else v.row_at w k) ≡ some row =
        ground arith ∙ ap some same in
      let there : v.row_at after row.id ≡ some row =
        subst (λ n. v.row_at after n ≡ some row) (sym named_row) (kept k ∙ now) in
      (
        converted_id x values row stored read ∙ named_row,
        subst (λ c. SameOptions c config) is_stored
            (renamed o config row.id (subst (λ c. SameOptions c config) is_back equal)),
        subst (λ n. (Database.get_server x values (queries db) n after).0 ≡ ok stored) named_row
            (get_server-found x values (queries db) row stored after
              (Table.get_server-found values db v row.id after row there) read),
        λ j differs.
            get_server-answer x values (queries db) j after w
              (Table.get_server-at values db v j after w (kept j ∙ ground arith)),
      )
