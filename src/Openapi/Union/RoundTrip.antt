-- ===== src/Openapi/Union/RoundTrip.antt =====
-- internal/delivery/http/openapi/server.go: the config of a server that the API tells can be given
-- back to it.
use serverpouch.Common.{
  ℤ, Bytes, true, Result, ok, ok-injective, Errors, ◌≡◌, refl, ap, ◌∙◌, IsRange, lookup, text_eq,
  int_eq,
}
use serverpouch.Server.{Status}
use serverpouch.Docker.Config.{Options, entries, type}
use serverpouch.Openapi.Convert.{docker_config_to_oapi, docker_oapi_to_config}
use serverpouch.Openapi.Convert.RoundTrip.{IsSpelled, docker_oapi_to_config-docker_config_to_oapi}
use serverpouch.Openapi.Union.{Json, Server, Visits, config_to_oapi, server_to_oapi, oapi_to_config}

module _ {Doc : Type 0} (x : Errors) (json : Json Doc) where
  unmarshalled :
      (d : Doc) (config : Options) (visits : Visits)
      → json.unmarshal d
        ≡ ok (docker_config_to_oapi config (visits.ports config) (visits.volumes config))
      → oapi_to_config x json d
        ≡ docker_oapi_to_config x
            (docker_config_to_oapi config (visits.ports config) (visits.volumes config))
  unfolding oapi_to_config
  unmarshalled d config visits read = rw (oapi_to_config, read) refl

  server_to_oapi_config :
      (visits : Visits) (config : Options) (status : Status) (s : Server Doc)
      → server_to_oapi x json visits config status ≡ ok s
      → json.marshal (docker_config_to_oapi config (visits.ports config) (visits.volumes config))
        ≡ ok s.config
  unfolding server_to_oapi config_to_oapi type
  server_to_oapi_config visits config status s h =
      let (d, written) =
        json.marshal_ok
          (docker_config_to_oapi config (visits.ports config) (visits.volumes config)) in
      let told : ◌≡◌ {A = Result (Server Doc)} _ (ok s) =
        rw (server_to_oapi, config_to_oapi, written) at h in
      written ∙ ap ok (ap (λ r. r.config) (ok-injective told))

  -- The config of a server that the API tells is accepted again as the config of a new server, if
  -- the API can spell the options, its texts are UTF-8 and the loops visit the entries of the maps:
  -- image, environment and every lookup of a port and of a volume come back. (Not the identifier.)
  pub oapi_to_config-server_to_oapi :
      (visits : Visits) (config : Options) (status : Status) (s : Server Doc)
      → IsSpelled config
      → IsRange (visits.ports config) (entries config.ports)
      → IsRange (visits.volumes config) (entries config.volumes)
      → json.is_utf8 (docker_config_to_oapi config (visits.ports config) (visits.volumes config))
        ≡ true
      → server_to_oapi x json visits config status ≡ ok s
      → (back : Options) × (oapi_to_config x json s.config ≡ ok back)
        × (back.image ≡ config.image)
        × (entries back.env ≡ entries config.env)
        × ((host : ℤ) → lookup host (entries back.ports) ≡ lookup host (entries config.ports))
        × ((host : Bytes)
            → lookup host (entries back.volumes) ≡ lookup host (entries config.volumes))
  oapi_to_config-server_to_oapi visits config status s spelled ports volumes utf8 h =
      let (back, read, image, env, ports_kept, volumes_kept) =
        docker_oapi_to_config-docker_config_to_oapi x config (visits.ports config)
          (visits.volumes config) spelled ports volumes in
      let written = server_to_oapi_config visits config status s h in
      let decoded = json.unmarshal-marshal _ s.config utf8 written in
      (
        back,
        unmarshalled s.config config visits decoded ∙ read,
        image,
        env,
        ports_kept,
        volumes_kept,
      )
