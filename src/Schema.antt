-- ===== src/Schema.antt =====
-- internal/infrastructure/database/schema/servers.sql.go: the queries on the table of the servers,
-- over the calls of the driver (`DBTX` of db.go).
pub mod Serves
pub mod Updates
pub mod Created
pub mod Migrate
pub mod Memory
mod Tests
use serverpouch.Common.{
  ℕ, Bytes, codes, List, [], ◌∷◌, ◌++◌, Option, none, some, Result, ok, err, ◌>>=◌,
}
use serverpouch.Database.{Row, Queries}

-- What the driver is given for `$1` and `$2`.
pub data Arg (Doc : Type 0) : Type 0 where
  uuid_arg : ℕ → Arg Doc
  text_arg : Bytes → Arg Doc
  bytes_arg : Doc → Arg Doc

-- A column of a row that the driver answers.
pub data Column (Doc : Type 0) : Type 0 where
  uuid : ℕ → Column Doc
  text : Bytes → Column Doc
  json : Doc → Column Doc
  timestamp : Bytes → Column Doc

-- What `Next` goes through, and what `Err` then gives.
pub record Rows (Doc : Type 0) : Type 0 where
  pub read : List (List (Column Doc))
  pub failed : Option Bytes

-- `QueryRow` with the errors of its `Scan`, and `Query`, on the state of the world; `mismatch` is
-- the error of a `Scan` into five variables of other types.
pub record Driver (W Doc : Type 0) : Type 0 where
  pub query_row : Bytes → List (Arg Doc) → W → Result (List (Column Doc)) × W
  pub query : Bytes → List (Arg Doc) → W → Result (Rows Doc) × W
  pub mismatch : Bytes

pub create_server_sql : Bytes
create_server_sql =
    codes
      "-- name: CreateServer :one\nINSERT INTO servers (type, config) \nVALUES ($1, $2)\nRETURNING id, type, config, created_at, updated_at\n"

pub get_server_sql : Bytes
get_server_sql =
    codes
      "-- name: GetServer :one\nSELECT id, type, config, created_at, updated_at FROM servers\nWHERE id = $1 LIMIT 1\n"

pub get_servers_sql : Bytes
get_servers_sql =
    codes
      "-- name: GetServers :many\nSELECT id, type, config, created_at, updated_at FROM servers\nORDER BY created_at DESC\n"

pub update_server_sql : Bytes
update_server_sql =
    codes
      "-- name: UpdateServer :one\nUPDATE servers SET \n  config = $2, \n  updated_at = CURRENT_TIMESTAMP\nWHERE id = $1 \nRETURNING id, type, config, created_at, updated_at\n"

module _ {Doc : Type 0} where
  -- `Scan(&i.ID, &i.Type, &i.Config, &i.CreatedAt, &i.UpdatedAt)`
  unfoldable pub scan : Bytes → List (Column Doc) → Result (Row Doc)
  scan mismatch (uuid k ∷ text t ∷ json d ∷ timestamp c ∷ timestamp u ∷ []) =
      ok (record { id = k; type = t; config = d })
  scan mismatch _ = err mismatch

  -- The loop of `GetServers`.
  unfoldable pub scan_all : Bytes → List (List (Column Doc)) → Result (List (Row Doc))
  unfolding scan
  scan_all mismatch [] = ok []
  scan_all mismatch (columns ∷ rest) = do
    row ← scan mismatch columns
    rows ← scan_all mismatch rest
    ok (row ∷ rows)

  -- `rows.Err()` after the loop.
  unfoldable pub checked : Option Bytes → List (Row Doc) → Result (List (Row Doc))
  checked none rows = ok rows
  checked (some e) rows = err e

module _ {W Doc : Type 0} (db : Driver W Doc) where
  -- The shape of the queries for one row.
  unfoldable pub one_row : Bytes → List (Arg Doc) → W → Result (Row Doc) × W
  unfolding scan
  one_row sql args w =
      let (answer, after) = db.query_row sql args w in
      (do columns ← answer; scan db.mismatch columns, after)

  -- `CreateServer`
  unfoldable pub create_server : Bytes → Doc → W → Result (Row Doc) × W
  unfolding one_row
  create_server type config = one_row create_server_sql (text_arg type ∷ bytes_arg config ∷ [])

  -- `GetServer`
  pub get_server : ℕ → W → Result (Row Doc) × W
  unfolding one_row
  get_server k = one_row get_server_sql (uuid_arg k ∷ [])

  -- `UpdateServer`
  unfoldable pub update_server : ℕ → Doc → W → Result (Row Doc) × W
  unfolding one_row
  update_server k config = one_row update_server_sql (uuid_arg k ∷ bytes_arg config ∷ [])

  -- `GetServers`
  unfoldable pub get_servers : W → Result (List (Row Doc)) × W
  unfolding scan_all checked
  get_servers w =
      let (answer, after) = db.query get_servers_sql [] w in
      (do rows ← answer; items ← scan_all db.mismatch rows.read; checked rows.failed items, after)

  -- `New`
  abbrev pub queries : Queries W Doc
  queries = record {
    get_server = get_server;
    get_servers = get_servers;
    update_server = update_server;
    create_server = create_server;
  }
