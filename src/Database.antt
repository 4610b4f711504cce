-- ===== src/Database.antt =====
-- internal/infrastructure/database/servers.go: the configs of the servers as rows of a table.
pub mod Stored
pub mod Connected
mod Tests
use serverpouch.Common.{
  ℕ, Bytes, codes, List, [], ◌∷◌, ◌++◌, Result, ok, err, ◌>>=◌, if◌then◌else◌, Errors, ◌==◌,
  text_eq, ◌≡◌,
}
use serverpouch.Server.{docker_type}
use serverpouch.Docker.Config.{Options, id, type}
use serverpouch.Usecases.Interfaces.{Database}

-- `schema.Server`, less the two times.
pub record Row (Doc : Type 0) : Type 0 where
  pub id : ℕ
  pub type : Bytes
  pub config : Doc

-- The calls of `schema.Queries`, on the state of the world.
pub record Queries (W Doc : Type 0) : Type 0 where
  pub get_server : ℕ → W → Result (Row Doc) × W
  pub get_servers : W → Result (List (Row Doc)) × W
  pub update_server : ℕ → Doc → W → Result (Row Doc) × W
  pub create_server : Bytes → Doc → W → Result (Row Doc) × W

-- encoding/json on `DockerServerInstanceOptions`.
pub record OptionsJson (Doc : Type 0) : Type 0 where
  pub marshal : Options → Result Doc
  pub unmarshal : Doc → Result Options

-- `errors.Wrap(err, message)` on the error of a result.
unfoldable pub wrap_error {ℓ} : {A : Type ℓ} → Errors → Bytes → Result A → Result A
wrap_error x message (ok a) = ok a
wrap_error x message (err e) = err (x.wrapped e message)

module _ {Doc : Type 0} (x : Errors) (json : OptionsJson Doc) where
  -- `ToJSON`
  unfoldable pub to_json : Options → Result Doc
  unfolding wrap_error
  to_json options =
      wrap_error x (codes "Error Encoding DockerServerInstanceOptions") (json.marshal options)

  -- The docker case of `convertToServer`.
  unfoldable pub docker_options : Row Doc → Result Options
  unfolding wrap_error
  docker_options row = do
    options ←
        wrap_error x (codes "failed to unmarshal docker server config") (json.unmarshal row.config)
    ok (record options { instance_id = row.id })

  -- `convertToServer`
  unfoldable pub convert_to_server : Row Doc → Result Options
  unfolding docker_options
  convert_to_server row =
      if row.type == docker_type
      then docker_options row
      else err (codes "unknown server instance type \"" ++ (row.type ++ codes "\""))

  -- The loop of `ListServers`.
  unfoldable pub convert_rows : List (Row Doc) → Result (List Options)
  unfolding convert_to_server
  convert_rows [] = ok []
  convert_rows (row ∷ rows) = do
    config ← wrap_error x (codes "failed to convert server config") (convert_to_server row)
    configs ← convert_rows rows
    ok (config ∷ configs)

module _ {W Doc : Type 0} (x : Errors) (json : OptionsJson Doc) (queries : Queries W Doc) where
  -- `GetServer`
  unfoldable pub get_server : ℕ → W → Result Options × W
  unfolding convert_to_server
  get_server k w =
      let (answer, after) = queries.get_server k w in
      (
        do
          row ← wrap_error x (codes "failed to retrieve server config") answer
          convert_to_server x json row,
        after,
      )

  -- `ListServers`
  unfoldable pub list_servers : W → Result (List Options) × W
  unfolding convert_rows
  list_servers w =
      let (answer, after) = queries.get_servers w in
      (
        do
          rows ← wrap_error x (codes "failed to retrieve server configs") answer
          convert_rows x json rows,
        after,
      )

  -- `UpdateServer` and `CreateServer` once the config is a document: `query` is the call of the
  -- queries with the document, and `message` is put around its error.
  unfoldable pub store :
      (message : Bytes) (query : Doc → W → Result (Row Doc) × W)
      → Result Doc
      → W
      → Result Options × W
  unfolding convert_to_server
  store message query (err e) w = (err (x.wrapped e (codes "failed to convert config to json")), w)
  store message query (ok config) w =
      let (answer, after) = query config w in
      (do row ← wrap_error x message answer; convert_to_server x json row, after)

  -- `UpdateServer`
  unfoldable pub update_server : ℕ → Options → W → Result Options × W
  unfolding store to_json
  update_server k config =
      store (codes "failed to update server config") (queries.update_server k)
        (to_json x json config)

  -- `CreateServer`
  unfoldable pub create_server : Options → W → Result Options × W
  unfolding store to_json
  create_server config =
      store (codes "failed to create server config") (queries.create_server (type config))
        (to_json x json config)

  -- The database that the use cases are given.
  abbrev pub database : Database W
  database = record { list_servers = list_servers; create_server = create_server }
