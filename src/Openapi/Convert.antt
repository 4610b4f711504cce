-- ===== src/Openapi/Convert.antt =====
-- internal/delivery/http/openapi/server.go: docker options to their API form and back.
-- The API form is `ServerConfigDocker` of openapi.gen.go. A `range` over a map visits the entries
-- in an order of the runtime's choice, so the lists that it visits are arguments.
pub mod RoundTrip
pub mod Texts
pub mod Accepts
pub mod Bounds
use serverpouch.Common.{
  ℕ, ℤ, Bytes, codes, Bool, true, false, List, [], ◌∷◌, ◌++◌, map, Option, none, some, Result, ok,
  err, ◌>>=◌, if◌then◌else◌, Errors, Comparable, same_iff, ◌==◌, text_eq, int_eq, insert,
  format_int, atoi, occupied,
}
use serverpouch.Server.{docker_type}
use serverpouch.Docker.Config.{Options, entries}
use serverpouch.Openapi.Patterns.{find_port, find_volume, find_env}

-- `ServerConfigDocker`
pub record ServerConfigDocker : Type 0 where
  pub environment : Option (List Bytes)
  pub image : Bytes
  pub ports : Option (List Bytes)
  pub type : Bytes
  pub volumes : Option (List Bytes)

-- `fmt.Sprintf("%d:%s", hostPort, containerPort)`
pub port_text : ℤ × Bytes → Bytes
port_text (host, container) = format_int host ++ b':' ∷ container

-- `fmt.Sprintf("%s:%s", hostVol, containerVol)`
pub volume_text : Bytes × Bytes → Bytes
volume_text (host, container) = host ++ b':' ∷ container

-- The docker case of `ConfigToOAPI`; the lists are the maps' entries as the two loops visit them.
unfoldable pub docker_config_to_oapi :
    Options → List (ℤ × Bytes) → List (Bytes × Bytes) → ServerConfigDocker
unfolding port_text volume_text
docker_config_to_oapi config ports volumes = record {
  environment = config.env;
  image = config.image;
  ports = some (map port_text ports);
  type = docker_type;
  volumes = some (map volume_text volumes);
}

-- One round of the loop over the ports: the host port and what it is bound to.
pub read_port : Errors → Bytes → Result (ℤ × Bytes)
read_port x port = elim (find_port port) [
  | none ↦ err (codes "invalid port config: " ++ port)
  | some (host, container) ↦ elim (atoi host) [
    | err e ↦ err (x.wrapped e (codes "failed to convert host port to int"))
    | ok host_port ↦ ok (host_port, container)
  ]
]

pub read_volume : Bytes → Result (Bytes × Bytes)
read_volume volume = elim (find_volume volume) [
  | none ↦ err (codes "invalid volume config: " ++ volume)
  | some entry ↦ ok entry
]

-- The shape of the loops over the ports and over the volumes: each text is read, and what it binds
-- is written to the map; the first text that cannot be read ends the function.
module _ {ℓ κ} {K : Type ℓ} ⦃keys : Comparable K⦄ {V : Type κ} (read : Bytes → Result (K × V)) where
  pub read_entries : List Bytes → List (K × V) → Result (List (K × V))
  read_entries [] bound = ok bound
  read_entries (text ∷ texts) bound = do
    entry ← read text
    read_entries texts (insert entry.0 entry.1 bound)

pub read_env : Bytes → Result Bytes
read_env env =
    if find_env env == []
    then err (codes "invalid environment config: " ++ env)
    else ok (find_env env)

pub read_envs : List Bytes → List Bytes → Result (List Bytes)
unfolding read_env
read_envs [] kept = ok kept
read_envs (env ∷ envs) kept = do m ← read_env env; read_envs envs (kept ++ m ∷ [])

-- `dockerOAPIToConfig`. The identifier is the zero UUID.
unfoldable pub docker_oapi_to_config : Errors → ServerConfigDocker → Result Options
unfolding read_entries read_port read_volume read_envs
docker_oapi_to_config x config = do
  ports ← read_entries (read_port x) (entries config.ports) []
  volumes ← read_entries read_volume (entries config.volumes) []
  env ← read_envs (entries config.environment) []
  ok (record {
    instance_id = 0;
    image = config.image;
    volumes = some volumes;
    ports = some ports;
    env = some env;
  })
