-- ===== src/Http/Tests.antt =====
-- The theorems about the use cases and the API at a database that numbers its rows by 7, with
-- documents that are the API values themselves, and with docker's instances.
use serverpouch.Common.{
  ℕ, pos, Bytes, codes, true, List, [], ◌∷◌, ◌++◌, none, some, ok, err, ◌≡◌, refl, sym, ◌∙◌,
  format_int, atoi, prefixing, nat_eq,
}
use serverpouch.Server.{initializing}
use serverpouch.Docker.Config.{Options, entries, id, type}
use serverpouch.Docker.Instance.{Instance}
use serverpouch.Docker.Servers.{docker_servers}
use serverpouch.Usecases.{Usecases, create_server}
use serverpouch.Usecases.Interfaces.{Database, ServerInstances}
use serverpouch.Usecases.Found.{IsKeyed}
use serverpouch.Openapi.Patterns.{find_port, find_volume, find_env}
use serverpouch.Openapi.Convert.{ServerConfigDocker, docker_config_to_oapi, docker_oapi_to_config}
use serverpouch.Openapi.Union.{Json, Server, Visits, config_to_oapi, server_to_oapi, oapi_to_config}
use serverpouch.Openapi.Strict.{http_error, write_header, create_server_201}
use serverpouch.Openapi.Strict.{json_calls, server_response, respond, visited, visit_create_server}
use serverpouch.Openapi.Routes.FirstFit.{first_fit}
use serverpouch.Http.Mux.{Site, serve_http}
use serverpouch.Http.Mux.Paths.{creating, asking, serve_http-creating, serve_http-kept}
use serverpouch.Http.{Env, encode_server, answer_created, handle_create_server, serve_create_server}
use serverpouch.Http.Answers.{serve_create_server-refused}

abbrev World : Type 0
World = List Options × List (Instance Bytes)

abbrev Handle : Type 0
Handle = ℕ × Options

abbrev rows : Database World
rows = record {
  list_servers = λ w. (ok w.0, w);
  create_server =
      λ c w. (ok (record c { instance_id = 7 }), (w.0 ++ record c { instance_id = 7 } ∷ [], w.1));
}

abbrev values : Json ServerConfigDocker
values = record {
  marshal = λ c. ok c;
  unmarshal = λ c. ok c;
  is_utf8 = λ c. true;
  marshal_ok = λ c. (c, refl);
  unmarshal-marshal = λ c d valid h. sym h;
}

-- The servers of docker over the rows.
abbrev servers : ServerInstances World Handle
servers = docker_servers (codes "daemon")

abbrev env : Env World Handle ServerConfigDocker
env = record {
  errors = prefixing;
  json = values;
  db = rows;
  servers = servers;
  uuid_text = λ n. codes "seven";
  encoded = λ body. none;
}

abbrev in_order : Visits
in_order = record { ports = λ o. entries o.ports; volumes = λ o. entries o.volumes }

abbrev api : ServerConfigDocker
api = record {
  environment = some (codes "PORT=8080" ∷ []);
  image = codes "test";
  ports = some (codes "81:8081/udp" ∷ []);
  type = codes "docker";
  volumes = some [];
}

abbrev options : Options
options = record {
  instance_id = 0;
  image = codes "test";
  volumes = some [];
  ports = some ((pos 81, codes "8081/udp") ∷ []);
  env = some (codes "PORT=8080" ∷ []);
}

abbrev row : Options
row = record options { instance_id = 7 }

abbrev fresh : Instance Bytes
fresh = record {
  daemon = codes "daemon";
  options = row;
  container_id = [];
  status = initializing;
  log = [];
}

abbrev empty : Usecases World Handle
empty = record { world = ([], []); instances = [] }

abbrev one : Usecases World Handle
one = record { world = (row ∷ [], fresh ∷ []); instances = (7, (0, row)) ∷ [] }

abbrev answer : Server ServerConfigDocker
answer = record { config = api; id = 7; status = codes "initializing" }

empty-IsKeyed : IsKeyed servers empty
empty-IsKeyed k v h = absurd (cc)

accepted : oapi_to_config prefixing values api ≡ ok options
unfolding oapi_to_config docker_oapi_to_config find_port find_volume find_env atoi
accepted = refl

created_answer : handle_create_server env in_order api empty ≡ (ok (create_server_201 answer), one)
unfolding handle_create_server answer_created oapi_to_config docker_oapi_to_config find_port
    find_volume find_env atoi create_server docker_servers id encode_server server_to_oapi
    config_to_oapi type docker_config_to_oapi format_int
created_answer = refl

refused_api :
    oapi_to_config prefixing values (record api { volumes = some (codes "none" ∷ []) })
    ≡ err (codes "invalid volume config: none")
unfolding oapi_to_config docker_oapi_to_config find_port find_volume find_env atoi
refused_api = refl

serve_create_server-refused_example :
    ((serve_create_server env in_order
        (ok (record api { volumes = some (codes "none" ∷ []) }))
        one).1
      ≡ one)
    × (message : Bytes) × ((serve_create_server env in_order
          (ok (record api { volumes = some (codes "none" ∷ []) }))
          one).0
        ≡ http_error message 500 ∷ [])
serve_create_server-refused_example =
    serve_create_server-refused env in_order
      (ok (record api { volumes = some (codes "none" ∷ []) })) one (rw refused_api refl)

-- The handlers behind a router, where every request is valid and every segment is read as 7.
abbrev site : Site ServerConfigDocker
site = record {
  router = first_fit;
  no_route = http_error (codes "404 page not found") 404 ∷ [];
  no_method = write_header 405 ∷ [];
  refused = λ r. none;
  bind = λ segment. ok 7;
}

served_one :
    serve_http env site in_order [] (creating (ok api)) empty
    ≡ (json_calls 201 (server_response answer), one)
unfolding serve_create_server respond visit_create_server visited
served_one =
    serve_http-creating env site in_order [] (ok api) empty refl
    ∙ rw (serve_create_server, created_answer) refl

serve_http-kept_example :
    (serve_http env site in_order [] (asking (codes "seven") (err [])) one).1 ≡ one
serve_http-kept_example =
    serve_http-kept env site in_order [] (asking (codes "seven") (err [])) one
      (λ post path. absurd (cc))
