-- ===== src/Openapi/Tests.antt =====
-- Runs of the conversions on the inputs of internal/delivery/http/openapi/server_test.go, and the
-- theorems about them at such inputs.
use serverpouch.Common.{
  ℤ, pos, Bytes, codes, true, List, [], ◌∷◌, ◌++◌, some, ok, err, ◌≡◌, ◌↔◌, refl, sym, is_digit,
  occupied, prefixing, format_int, atoi, arith, All-Always, IsRange, lookup, All, inl, inr, text_eq,
  int_eq,
}
use serverpouch.Docker.Config.{Options, entries, id, type}
use serverpouch.Openapi.Patterns.{find_port, find_volume, find_env}
use serverpouch.Openapi.Patterns.Language.{
  Matches, plus, container_port, env_entry, find_port_iff, find_env_iff,
}
use serverpouch.Openapi.Convert.{ServerConfigDocker, docker_config_to_oapi, docker_oapi_to_config}
use serverpouch.Openapi.Convert.RoundTrip.{
  IsPort, IsVolume, IsSpelled, docker_oapi_to_config-docker_config_to_oapi,
}
use serverpouch.Openapi.Convert.Texts.{IsPortText, IsVolumeText}
use serverpouch.Openapi.Convert.Accepts.{
  docker_oapi_to_config-accepts_iff, docker_oapi_to_config-stable,
}
use serverpouch.Common.{ℕ, ◌≤◌, max_int, Any}
use serverpouch.Docker.Config.{port_binding, to_options}
use serverpouch.Openapi.Convert.Bounds.{AsksFor, docker_oapi_to_config-publishes_bounded}
use serverpouch.Server.{running}
use serverpouch.Openapi.Union.{Json, Visits, server_to_oapi, oapi_to_config}
use serverpouch.Openapi.Union.RoundTrip.{oapi_to_config-server_to_oapi}

abbrev sample : Options
sample = record {
  instance_id = 7;
  image = codes "test";
  volumes = some ((codes "/host", codes "/container") ∷ []);
  ports = some ((pos 80, codes "8080/tcp") ∷ (pos 81, codes "8081/udp") ∷ []);
  env = some (codes "PORT=8080" ∷ []);
}

abbrev sample_ports : List (ℤ × Bytes)
sample_ports = (pos 81, codes "8081/udp") ∷ (pos 80, codes "8080/tcp") ∷ []

abbrev sample_volumes : List (Bytes × Bytes)
sample_volumes = (codes "/host", codes "/container") ∷ []

abbrev sample_api : ServerConfigDocker
sample_api = record {
  environment = some (codes "PORT=8080" ∷ []);
  image = codes "test";
  ports = some (codes "80:8080/tcp" ∷ codes "81:8081/udp" ∷ []);
  type = codes "docker";
  volumes = some (codes "/host:/container" ∷ []);
}

to_api : docker_config_to_oapi sample (entries sample.ports) sample_volumes ≡ sample_api
unfolding docker_config_to_oapi format_int
to_api = refl

from_api : docker_oapi_to_config prefixing sample_api ≡ ok (record sample { instance_id = 0 })
unfolding docker_oapi_to_config find_port atoi find_volume find_env
from_api = refl

invalid_env :
    docker_oapi_to_config prefixing
      (record sample_api { environment = some (codes "invalid" ∷ []) })
    ≡ err (codes "invalid environment config: invalid")
unfolding docker_oapi_to_config find_port atoi find_volume find_env
invalid_env = refl

port_8080 : Matches container_port (codes "8080/tcp")
port_8080 =
    (codes "8080", codes "/tcp", refl, (refl, refl), (codes "/", codes "tcp", refl, refl, inr refl))

port_8081 : Matches container_port (codes "8081/udp")
port_8081 =
    (codes "8081", codes "/udp", refl, (refl, refl), (codes "/", codes "udp", refl, refl, inl refl))

port_entry : Matches env_entry (codes "PORT=8080")
port_entry = (
  codes "PORT",
  codes "=8080",
  refl,
  (refl, refl),
  (codes "=", codes "8080", refl, refl, (refl, refl)),
)

sample-IsSpelled : IsSpelled sample
sample-IsSpelled = record {
  ports_ok =
      All-Always IsPort (entries sample.ports)
        ((80, refl, omega arith, port_8080), ((81, refl, omega arith, port_8081), tt));
  volumes_ok = All-Always IsVolume (entries sample.volumes) (((refl, refl), (refl, refl)), tt);
  env_ok = (port_entry, tt);
}

ports-IsRange : IsRange sample_ports (entries sample.ports)
ports-IsRange = ((refl, (refl, tt)), λ k. ground arith)

volumes-IsRange : IsRange sample_volumes (entries sample.volumes)
volumes-IsRange = ((refl, tt), λ k. refl)

docker_oapi_to_config-docker_config_to_oapi_example :
    (back : Options) × (docker_oapi_to_config prefixing
        (docker_config_to_oapi sample sample_ports sample_volumes)
      ≡ ok back)
    × (back.image ≡ codes "test")
    × (entries back.env ≡ codes "PORT=8080" ∷ [])
    × ((host : ℤ) → lookup host (entries back.ports) ≡ lookup host (entries sample.ports))
    × ((host : Bytes) → lookup host (entries back.volumes) ≡ lookup host (entries sample.volumes))
docker_oapi_to_config-docker_config_to_oapi_example =
    docker_oapi_to_config-docker_config_to_oapi prefixing sample sample_ports sample_volumes
      sample-IsSpelled ports-IsRange volumes-IsRange

docker_oapi_to_config-accepts_iff_example :
    ((o : Options) × (docker_oapi_to_config prefixing sample_api ≡ ok o)) ↔ (
      All IsPortText (codes "80:8080/tcp" ∷ codes "81:8081/udp" ∷ [])
      × All IsVolumeText (codes "/host:/container" ∷ [])
      × All (Matches env_entry) (codes "PORT=8080" ∷ []))
docker_oapi_to_config-accepts_iff_example = docker_oapi_to_config-accepts_iff prefixing sample_api

docker_oapi_to_config-stable_example :
    (sample.image ≡ codes "test")
    × (entries sample.env ≡ codes "PORT=8080" ∷ [])
    × ((back : Options) × (docker_oapi_to_config prefixing
            (docker_config_to_oapi (record sample { instance_id = 0 }) sample_ports sample_volumes)
          ≡ ok back)
        × (back.image ≡ sample.image)
        × (entries back.env ≡ entries sample.env)
        × ((host : ℤ) → lookup host (entries back.ports) ≡ lookup host (entries sample.ports))
        × ((host : Bytes)
            → lookup host (entries back.volumes) ≡ lookup host (entries sample.volumes)))
docker_oapi_to_config-stable_example =
    docker_oapi_to_config-stable prefixing sample_api (record sample { instance_id = 0 })
      sample_ports sample_volumes from_api ports-IsRange volumes-IsRange

find_port_iff_example : (find_port (codes "80:8080/tcp") ≡ some (codes "80", codes "8080/tcp")) ↔ (
    (codes "80:8080/tcp" ≡ codes "80" ++ b':' ∷ codes "8080/tcp")
    × Matches (plus is_digit) (codes "80")
    × Matches container_port (codes "8080/tcp"))
find_port_iff_example = find_port_iff (codes "80:8080/tcp") (codes "80") (codes "8080/tcp")

find_env_iff_example :
    ((find_env (codes "A=b") ≡ codes "A=b") × (occupied (codes "A=b") ≡ true))
    ↔ ((codes "A=b" ≡ codes "A=b") × Matches env_entry (codes "A=b"))
find_env_iff_example = find_env_iff (codes "A=b") (codes "A=b")

-- The documents are the API values.
abbrev values : Json ServerConfigDocker
values = record {
  marshal = λ c. ok c;
  unmarshal = λ c. ok c;
  is_utf8 = λ c. true;
  marshal_ok = λ c. (c, refl);
  unmarshal-marshal = λ c d valid h. sym h;
}

-- Loops that visit the entries of `sample` in the order of `sample_ports`, and others as they are.
abbrev sample_visits : Visits
sample_visits = record { ports = λ o. sample_ports; volumes = λ o. sample_volumes }

sample_told :
    server_to_oapi prefixing values sample_visits sample running
    ≡ ok (record {
      config = docker_config_to_oapi sample sample_ports sample_volumes;
      id = 7;
      status = codes "running";
    })
unfolding server_to_oapi type id
sample_told = refl

oapi_to_config-server_to_oapi_example :
    (back : Options) × (oapi_to_config prefixing values
        (docker_config_to_oapi sample sample_ports sample_volumes)
      ≡ ok back)
    × (back.image ≡ codes "test")
    × (entries back.env ≡ codes "PORT=8080" ∷ [])
    × ((host : ℤ) → lookup host (entries back.ports) ≡ lookup host (entries sample.ports))
    × ((host : Bytes) → lookup host (entries back.volumes) ≡ lookup host (entries sample.volumes))
oapi_to_config-server_to_oapi_example =
    oapi_to_config-server_to_oapi prefixing values sample_visits sample running
      (record {
        config = docker_config_to_oapi sample sample_ports sample_volumes;
        id = 7;
        status = codes "running";
      })
      sample-IsSpelled ports-IsRange volumes-IsRange refl sample_told

docker_oapi_to_config-publishes_bounded_example :
    (n : ℕ) × (port_binding (pos 80) ∷ [] ≡ port_binding (pos n) ∷ [])
    × (n ≤ max_int)
    × Matches container_port (codes "8080/tcp")
    × Any (AsksFor n (codes "8080/tcp")) (entries sample_api.ports)
unfolding to_options
docker_oapi_to_config-publishes_bounded_example =
    docker_oapi_to_config-publishes_bounded prefixing sample_api (record sample { instance_id = 0 })
      sample_ports sample_volumes (codes "8080/tcp") (port_binding (pos 80) ∷ []) from_api
      ports-IsRange refl
