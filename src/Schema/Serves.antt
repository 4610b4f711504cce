-- ===== src/Schema/Serves.antt =====
-- internal/infrastructure/database/schema/servers.sql.go over a database that serves its statements.
use serverpouch.Common.{
  or_else, All, All-map, map, ℕ, Bytes, List, [], ◌∷◌, Option, none, some, ok, err, Option-cases,
  inl, inr, ok-injective, and_then-ok, pair_path, ◌≡◌, refl, sym, ap, ◌∙◌, subst, arith,
  if◌then◌else◌, ◌==◌, nat_eq,
}
use serverpouch.Database.{Row, OptionsJson}
use serverpouch.Database.Stored.{Keeps}
use serverpouch.Schema.{
  Arg, uuid_arg, text_arg, bytes_arg, Column, uuid, text, json, timestamp, Driver, scan, one_row,
  create_server_sql, get_server_sql, get_servers_sql, update_server_sql, create_server, get_server,
  get_servers, scan_all, checked, queries,
}

abbrev pub columns : {Doc : Type 0} → Row Doc → (created updated : Bytes) → List (Column Doc)
columns row created updated =
    uuid row.id ∷ text row.type ∷ json row.config ∷ timestamp created ∷ timestamp updated ∷ []

-- The last row with a key.
abbrev pub last_row : {Doc : Type 0} → ℕ → List (Row Doc) → Option (Row Doc)
last_row k [] = none
last_row k (row ∷ rows) = or_else (last_row k rows) (if row.id == k then some row else none)

-- Rows with their times.
abbrev pub Timed : Type 0 → Type 0
Timed Doc = Row Doc × Bytes × Bytes

abbrev pub timed_columns : {Doc : Type 0} → Timed Doc → List (Column Doc)
timed_columns (row, created, updated) = columns row created updated

-- What PostgreSQL documents of the statements on the table, whose rows are read by their primary
-- key: an `INSERT` adds one row under a new key, a `SELECT` finds the row of the key, an `UPDATE`
-- changes the document of the one row, and the `SELECT` without a condition gives every row once
-- and changes none; a column of type JSONB may write the document in another way that the decoder
-- reads alike. The connection does not fail in a `SELECT`. An `INSERT` changes no
-- row that is there, whether it fails or not; where an update fails, nothing is said.
pub record Serves {W Doc : Type 0} (values : OptionsJson Doc) (db : Driver W Doc) : Type 0 where
  pub row_at : W → ℕ → Option (Row Doc)
  pub no_rows : Bytes
  pub selects :
      (k : ℕ) (w : W)
      → row_at w k ≡ none
      → (db.query_row get_server_sql (uuid_arg k ∷ []) w).0 ≡ err no_rows
  pub selects_row :
      (k : ℕ) (w : W) (row : Row Doc)
      → row_at w k ≡ some row
      → (created : Bytes) × (updated : Bytes) × ((db.query_row get_server_sql (uuid_arg k ∷ []) w).0
          ≡ ok (columns row created updated))
  pub lists :
      (w : W)
      → (listed : List (Timed Doc)) × ((db.query get_servers_sql [] w).0
          ≡ ok (record { read = map timed_columns listed; failed = none }))
        × All (λ (t : Timed Doc). row_at w t.0.id ≡ some t.0) listed
        × ((k : ℕ) → last_row k (map (λ (t : Timed Doc). t.0) listed) ≡ row_at w k)
        × ((k : ℕ) → row_at (db.query get_servers_sql [] w).1 k ≡ row_at w k)
  pub inserts :
      (t : Bytes) (d : Doc) (w after : W) (cs : List (Column Doc))
      → db.query_row create_server_sql (text_arg t ∷ bytes_arg d ∷ []) w ≡ (ok cs, after)
      → (row : Row Doc) × (created : Bytes) × (updated : Bytes) × (cs ≡ columns row created updated)
        × (row.type ≡ t)
        × (values.unmarshal row.config ≡ values.unmarshal d)
        × (row_at w row.id ≡ none)
        × ((j : ℕ) → row_at after j ≡ (if row.id == j then some row else row_at w j))
  pub inserts_keep :
      (t : Bytes) (d : Doc) (w : W) (k : ℕ) (row : Row Doc)
      → row_at w k ≡ some row
      → row_at (db.query_row create_server_sql (text_arg t ∷ bytes_arg d ∷ []) w).1 k ≡ some row
  pub updates :
      (k : ℕ) (d : Doc) (w after : W) (cs : List (Column Doc))
      → db.query_row update_server_sql (uuid_arg k ∷ bytes_arg d ∷ []) w ≡ (ok cs, after)
      → (row : Row Doc) × (old : Row Doc) × (created : Bytes) × (updated : Bytes) × (cs
          ≡ columns row created updated)
        × (row_at w k ≡ some old)
        × (row.id ≡ k)
        × (row.type ≡ old.type)
        × (values.unmarshal row.config ≡ values.unmarshal d)
        × ((j : ℕ) → row_at after j ≡ (if k == j then some row else row_at w j))

module _ {W Doc : Type 0} (values : OptionsJson Doc) (db : Driver W Doc)
    (v : Serves values db) where
  pub one_row_ok :
      (sql : Bytes) (args : List (Arg Doc)) (w after : W) (row : Row Doc)
      → one_row db sql args w ≡ (ok row, after)
      → (cs : List (Column Doc)) × (db.query_row sql args w ≡ (ok cs, after))
        × (scan db.mismatch cs ≡ ok row)
  unfolding one_row
  one_row_ok sql args w after row h =
      let (cs, answered, scanned) = and_then-ok _ _ (ap (λ p. p.0) h) in
      let left : (db.query_row sql args w).1 ≡ after = ap (λ p. p.1) h in
      (cs, pair_path answered left, scanned)

  pub scanned :
      (row found : Row Doc) (created updated : Bytes) (cs : List (Column Doc))
      → cs ≡ columns found created updated
      → scan db.mismatch cs ≡ ok row
      → found ≡ row
  unfolding scan
  scanned row found created updated cs e h =
      let read : scan db.mismatch (columns found created updated) ≡ ok row =
        subst (λ l. scan db.mismatch l ≡ ok row) e h in
      ok-injective read

  -- The query for a row finds what the table has under the key.
  pub get_server-found :
      (k : ℕ) (w : W) (row : Row Doc) → v.row_at w k ≡ some row → (get_server db k w).0 ≡ ok row
  unfolding get_server one_row scan
  get_server-found k w row h = let (created, updated, answer) = v.selects_row k w row h in rw answer

  pub get_server-missing :
      (k : ℕ) (w : W) → v.row_at w k ≡ none → (get_server db k w).0 ≡ err v.no_rows
  unfolding get_server one_row
  get_server-missing k w h = rw (v.selects k w h)

  -- What the query for a row answers is a matter of the table only.
  pub get_server-at :
      (k : ℕ) (w w' : W)
      → v.row_at w k ≡ v.row_at w' k
      → (get_server db k w).0 ≡ (get_server db k w').0
  get_server-at k w w' same = elim (Option-cases (v.row_at w' k)) [
    | inl none_there ↦
        get_server-missing k w (same ∙ none_there) ∙ sym (get_server-missing k w' none_there)
    | inr (row, there) ↦
        get_server-found k w row (same ∙ there) ∙ sym (get_server-found k w' row there)
  ]

  -- The queries over a database that serves its statements keep what `CreateServer` inserts.
  pub queries-Keeps : Keeps values (queries db)
  unfolding Keeps create_server
  queries-Keeps t d w after row h =
      let (cs, answer, read) =
        one_row_ok create_server_sql (text_arg t ∷ bytes_arg d ∷ []) w after row h in
      let (new, created, updated, shape, typed, alike, fresh, kept) =
        v.inserts t d w after cs answer in
      let same : new ≡ row = scanned row new created updated cs shape read in
      subst
        (λ r.
          (r.type ≡ t)
          × (values.unmarshal r.config ≡ values.unmarshal d)
          × ((get_server db r.id after).0 ≡ ok r))
        same (typed, alike, get_server-found new.id after new (kept new.id ∙ ground arith))

  scan_all-timed :
      (listed : List (Timed Doc))
      → scan_all db.mismatch (map timed_columns listed) ≡ ok (map (λ (t : Timed Doc). t.0) listed)
  unfolding scan_all scan
  scan_all-timed [] = refl
  scan_all-timed (t ∷ listed) = rw (scan_all-timed listed) refl

  -- The query for all rows answers what the table has, and leaves it alone.
  pub get_servers-listed :
      (w : W)
      → (rows : List (Row Doc)) × ((get_servers db w).0 ≡ ok rows)
        × All (λ (row : Row Doc). v.row_at w row.id ≡ some row) rows
        × ((k : ℕ) → last_row k rows ≡ v.row_at w k)
        × ((k : ℕ) → v.row_at (get_servers db w).1 k ≡ v.row_at w k)
  unfolding get_servers checked
  get_servers-listed w =
      let (listed, answer, there, same, kept) = v.lists w in
      (
        map (λ (t : Timed Doc). t.0) listed,
        rw (answer, scan_all-timed listed) refl,
        All-map (λ (row : Row Doc). v.row_at w row.id ≡ some row) (λ (t : Timed Doc). t.0) listed
            there,
        same,
        kept,
      )
