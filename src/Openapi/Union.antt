-- ===== src/Openapi/Union.antt =====
-- internal/delivery/http/openapi/server.go: servers and configurations to their API form and
-- back, with the union `ServerConfig` of openapi.gen.go, which holds a JSON document.
pub mod RoundTrip
use serverpouch.Common.{
  ℕ, ℤ, Bool, true, Bytes, codes, List, ◌++◌, Option, none, some, Result, ok, err, ◌>>=◌,
  if◌then◌else◌, Errors, ◌==◌, text_eq, ◌≡◌,
}
use serverpouch.Server.{Status, status_text, docker_type}
use serverpouch.Docker.Config.{Options, id, type}
use serverpouch.Openapi.Convert.{ServerConfigDocker, docker_config_to_oapi, docker_oapi_to_config}

-- encoding/json on `ServerConfigDocker`, with the type of the documents. The encoder has no error
-- for strings and slices of them; what it wrote is read back when all texts are UTF-8.
pub record Json (Doc : Type 0) : Type 0 where
  pub marshal : ServerConfigDocker → Result Doc
  pub unmarshal : Doc → Result ServerConfigDocker
  pub is_utf8 : ServerConfigDocker → Bool
  pub marshal_ok : (c : ServerConfigDocker) → (d : Doc) × (marshal c ≡ ok d)
  pub unmarshal-marshal :
      (c : ServerConfigDocker) (d : Doc) → is_utf8 c ≡ true → marshal c ≡ ok d → unmarshal d ≡ ok c

-- `Server`
pub record Server (Doc : Type 0) : Type 0 where
  pub config : Doc
  pub id : ℕ
  pub status : Bytes

-- The entries of the ports and of the volumes in the order in which a loop visits them.
pub record Visits : Type 0 where
  pub ports : Options → List (ℤ × Bytes)
  pub volumes : Options → List (Bytes × Bytes)

module _ {Doc : Type 0} (json : Json Doc) where
  -- `AsServerConfigDocker` and `FromServerConfigDocker` on the document that the union holds.
  abbrev pub as_server_config_docker : Doc → Result ServerConfigDocker
  as_server_config_docker union = json.unmarshal union

  abbrev pub from_server_config_docker : ServerConfigDocker → Result Doc
  from_server_config_docker v = json.marshal v

  -- `MarshalJSON` and `UnmarshalJSON` of the union, which are those of `json.RawMessage`: the
  -- document as it is.
  abbrev pub marshal_json : Doc → Result Doc
  marshal_json union = ok union

  abbrev pub unmarshal_json : Doc → Doc → Doc × Option Bytes
  unmarshal_json b union = (b, none)

  -- `MergeServerConfigDocker`: the document after it, and the error. `json_merge` is that of the
  -- runtime, which answers a document and an error.
  unfoldable pub merge_server_config_docker :
      (json_merge : Doc → Doc → Doc × Option Bytes) → ServerConfigDocker → Doc → Doc × Option Bytes
  merge_server_config_docker json_merge v union = elim (json.marshal v) [
    | err e ↦ (union, some e)
    | ok b ↦ json_merge union b
  ]

  -- `ConfigToOAPI`; the one implementation of the configs is that of docker.
  unfoldable pub config_to_oapi : Visits → Options → Result Doc
  config_to_oapi visits config =
      if type config == docker_type
      then from_server_config_docker
          (docker_config_to_oapi config (visits.ports config) (visits.volumes config))
      else err (codes "unknown config type " ++ type config)

module _ {Doc : Type 0} (x : Errors) (json : Json Doc) where
  -- `ServerToOAPI` of an instance with this config and status.
  unfoldable pub server_to_oapi : Visits → Options → Status → Result (Server Doc)
  unfolding config_to_oapi
  server_to_oapi visits config status = elim (config_to_oapi json visits config) [
    | err e ↦ err (x.wrapped e (codes "failed to convert config to OAPI"))
    | ok encoded ↦ ok (record { config = encoded; id = id config; status = status_text status })
  ]

  -- `OAPIToConfig`
  unfoldable pub oapi_to_config : Doc → Result Options
  oapi_to_config config = elim (as_server_config_docker json config) [
    | err e ↦ err (codes "unknown config")
    | ok docker ↦ docker_oapi_to_config x docker
  ]
