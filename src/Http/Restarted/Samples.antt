-- ===== src/Http/Restarted/Samples.antt =====
-- The API over a table in memory, where the documents are the API's configs, and a `POST`.
use serverpouch.Common.{codes, none, some, true, [], ok, ◌≡◌, refl, sym, prefixing, format_int, pos}
use serverpouch.Docker.Config.{type, id, entries}
use serverpouch.Database
use serverpouch.Schema
use serverpouch.Schema.{queries}
use serverpouch.Schema.Memory.{memory, plain, served}
use serverpouch.Usecases.{stored, create_server}
use serverpouch.Usecases.Restart.Samples.{instances, given, empty, one}
use serverpouch.Openapi.Convert.{ServerConfigDocker, docker_config_to_oapi, docker_oapi_to_config}
use serverpouch.Openapi.Union.{Json, Server, Visits, config_to_oapi, server_to_oapi, oapi_to_config}
use serverpouch.Openapi.Strict.{create_server_201}
use serverpouch.Http.{encode_server, answer_created, handle_create_server}
use serverpouch.Http.Restarted.{over_queries}

abbrev pub json : Json ServerConfigDocker
json = record {
  marshal = λ c. ok c;
  unmarshal = λ c. ok c;
  is_utf8 = λ c. true;
  marshal_ok = λ c. (c, refl);
  unmarshal-marshal = λ c d valid h. sym h;
}

abbrev pub in_order : Visits
in_order = record { ports = λ o. entries o.ports; volumes = λ o. entries o.volumes }

abbrev pub api : ServerConfigDocker
api = record {
  environment = some [];
  image = given.image;
  ports = some [];
  type = codes "docker";
  volumes = some [];
}

abbrev pub answer : Server ServerConfigDocker
answer = record { config = api; id = 0; status = codes "initializing" }

pub posted :
    handle_create_server
      (over_queries prefixing plain memory served instances
        (λ c w k. refl)
        json
        (λ k. format_int (pos k))
        (λ b. none))
      in_order
      api
      empty
    ≡ (ok (create_server_201 answer), one)
unfolding handle_create_server answer_created oapi_to_config docker_oapi_to_config create_server
    stored Database.create_server Schema.create_server type id encode_server server_to_oapi
    config_to_oapi docker_config_to_oapi
posted = refl
