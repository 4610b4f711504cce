-- ===== src/Docker/Config.antt =====
-- internal/infrastructure/docker/config.go: the options of a docker server.
-- A slice or a map that may be nil is an `Option`; a UUID is the number that its bytes spell.
pub mod Published
use serverpouch.Server.{docker_type}
use serverpouch.Common.{
  ℕ, ℤ, Bytes, codes, List, [], ◌∷◌, ◌++◌, map, Option, none, some, format_int, insert, int_eq,
  text_eq,
}

-- What `range` and `len` see of a slice or a map that may be nil.
abbrev pub entries {ℓ} : {A : Type ℓ} → Option (List A) → List A
entries none = []
entries (some xs) = xs

-- `DockerServerInstanceOptions`; a host port is bound to a container port, a host volume to one.
pub record Options : Type 0 where
  pub instance_id : ℕ
  pub image : Bytes
  pub volumes : Option (List (Bytes × Bytes))
  pub ports : Option (List (ℤ × Bytes))
  pub env : Option (List Bytes)

-- The fields of docker's `container.Config` that the code sets; the map values carry no data.
pub record ContainerConfig : Type 0 where
  pub image : Bytes
  pub exposed_ports : List (Bytes × Unit {0})
  pub volumes : List (Bytes × Unit {0})
  pub env : Option (List Bytes)

-- `nat.PortBinding`.
pub record PortBinding : Type 0 where
  pub host_ip : Bytes
  pub host_port : Bytes

-- The fields of docker's `container.HostConfig` that the code sets.
pub record HostConfig : Type 0 where
  pub port_bindings : List (Bytes × List PortBinding)
  pub binds : List Bytes

abbrev pub no_config : Options → ContainerConfig
no_config options = record {
  image = options.image;
  exposed_ports = [];
  volumes = [];
  env = options.env;
}

abbrev pub no_host_config : HostConfig
no_host_config = record { port_bindings = []; binds = [] }

pub port_binding : ℤ → PortBinding
port_binding host_port = record { host_ip = []; host_port = format_int host_port }

-- The loop over the ports.
pub range_ports : List (ℤ × Bytes) → ContainerConfig × HostConfig → ContainerConfig × HostConfig
range_ports [] (config, host) = (config, host)
range_ports ((host_port, nat_port) ∷ ports) (config, host) = range_ports ports (
  record config { exposed_ports = insert nat_port tt config.exposed_ports },
  record host { port_bindings = insert nat_port (port_binding host_port ∷ []) host.port_bindings },
)

-- The loop over the volumes.
pub range_volumes :
    List (Bytes × Bytes) → ContainerConfig × HostConfig → ContainerConfig × HostConfig
range_volumes [] (config, host) = (config, host)
range_volumes ((host_volume, container_volume) ∷ volumes) (config, host) = range_volumes volumes (
  record config { volumes = insert container_volume tt config.volumes },
  record host { binds = host.binds ++ (host_volume ++ b':' ∷ container_volume) ∷ [] },
)

-- `toOptions`; the lists are the maps' entries as the two loops visit them.
unfoldable pub to_options :
    Options → List (ℤ × Bytes) → List (Bytes × Bytes) → ContainerConfig × HostConfig
unfolding range_ports range_volumes port_binding
to_options options ports volumes =
    range_volumes volumes (range_ports ports (no_config options, no_host_config))

-- `ID`, `Type` and `Ports`.
unfoldable pub id : Options → ℕ
id options = options.instance_id

unfoldable pub type : Options → Bytes
type options = docker_type

pub host_ports : List (ℤ × Bytes) → List ℤ
host_ports ports = map (λ p. p.0) ports
