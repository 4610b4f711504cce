-- ===== src/Http/Contract/Tests.antt =====
-- A `POST`, and then a `GET` of what it made, at a database that numbers its rows.
use serverpouch.Common.{
  ℕ, codes, List, [], ◌∷◌, none, some, true, ok, err, ◌≡◌, ◌∙◌, refl, sym, prefixing,
}
use serverpouch.Docker.Config.{Options, entries, type, id}
use serverpouch.Openapi.Convert.{ServerConfigDocker, docker_config_to_oapi, docker_oapi_to_config}
use serverpouch.Openapi.Union.{Server, Visits, config_to_oapi, server_to_oapi, oapi_to_config}
use serverpouch.Openapi.Routes.FirstFit.{first_fit}
use serverpouch.Openapi.Strict.{
  http_error, write_header, json_calls, server_response, create_server_201, get_server_200, respond,
  visited, visit_create_server, visit_get_server,
}
use serverpouch.Usecases.{Usecases, stored, create_server, get_server}
use serverpouch.Usecases.Concurrent.Samples.{rows, instances, Nothing, numbers, empty}
use serverpouch.Http.{
  Env, encode_server, answer_created, handle_create_server, handle_get_server, serve_create_server,
  serve_get_server,
}
use serverpouch.Http.Mux.{Site, serve_http}
use serverpouch.Http.Mux.Paths.{creating, asking, serve_http-creating, serve_http-asking}
use serverpouch.Http.Contract.{View, Tells, Exchange, Promised}
use serverpouch.Http.Contract.Each.{Views, Known}
use serverpouch.Http.Contract.Stays.{serve_http-stays}
use serverpouch.Http.Contract.Refines.{Run, before, next, serve_http-refines}

abbrev env : Env ℕ Options ServerConfigDocker
env = record {
  errors = prefixing;
  json = record {
    marshal = λ c. ok c;
    unmarshal = λ c. ok c;
    is_utf8 = λ c. true;
    marshal_ok = λ c. (c, refl);
    unmarshal-marshal = λ c d valid h. sym h;
  };
  db = rows;
  servers = instances;
  uuid_text = λ k. codes "0";
  encoded = λ body. none;
}

abbrev site : Site ServerConfigDocker
site = record {
  router = first_fit;
  no_route = http_error (codes "404 page not found") 404 ∷ [];
  no_method = write_header 405 ∷ [];
  refused = λ r. none;
  bind = λ segment. ok 0;
}

abbrev in_order : Visits
in_order = record { ports = λ o. entries o.ports; volumes = λ o. entries o.volumes }

abbrev api : ServerConfigDocker
api = record {
  environment = some [];
  image = codes "red";
  ports = some [];
  type = codes "docker";
  volumes = some [];
}

abbrev options : Options
options = record {
  instance_id = 0;
  image = codes "red";
  volumes = some [];
  ports = some [];
  env = some [];
}

abbrev one : Usecases ℕ Options
one = record { world = 1; instances = (0, options) ∷ [] }

abbrev answer : Server ServerConfigDocker
answer = record { config = api; id = 0; status = codes "initializing" }

posted : handle_create_server env in_order api empty ≡ (ok (create_server_201 answer), one)
unfolding handle_create_server answer_created oapi_to_config docker_oapi_to_config create_server
    stored type id encode_server server_to_oapi config_to_oapi docker_config_to_oapi
posted = refl

got : handle_get_server env in_order 0 one ≡ ok (get_server_200 answer)
unfolding handle_get_server get_server type id encode_server server_to_oapi config_to_oapi
    docker_config_to_oapi
got = refl

posting :
    serve_http env site in_order [] (creating (ok api)) empty
    ≡ (json_calls 201 (server_response answer), one)
unfolding serve_create_server respond visit_create_server visited
posting =
    serve_http-creating env site in_order [] (ok api) empty refl
    ∙ rw (serve_create_server, posted) refl

getting :
    serve_http env site in_order ((0, options) ∷ []) (asking (codes "0") (err [])) one
    ≡ (json_calls 200 (server_response answer), one)
unfolding serve_get_server respond visit_get_server visited
getting =
    serve_http-asking env site in_order ((0, options) ∷ []) 0 (err []) one refl refl refl refl
    ∙ rw (serve_get_server, got) refl

abbrev exchanges : List (Exchange ℕ ServerConfigDocker)
exchanges =
    (in_order, 1, asking (codes "0") (err []), json_calls 200 (server_response answer))
    ∷ (in_order, 0, creating (ok api), json_calls 201 (server_response answer))
    ∷ []

run : Run env site Nothing numbers empty exchanges one
run =
    next ((0, options) ∷ []) (next [] before (tt, λ k. refl) posting) ((refl, tt), λ k. refl)
      getting

serve_http-refines_example :
    (after : View) × Promised env site (λ k. none) exchanges after
    × Views env one after
    × Known env site Nothing numbers one
serve_http-refines_example =
    serve_http-refines env site Nothing numbers empty one (λ k. none) exchanges
      (λ k i h. absurd (cc)) (λ k. refl) run

serve_http-stays_example :
    (c : Options) × (t : Server ServerConfigDocker) × Tells env in_order c answer
    × Tells env in_order c t
    × (t.id ≡ 0)
    × (serve_http env site in_order ((0, options) ∷ []) (asking (codes "0") (err [])) one
        ≡ (respond (visit_get_server env.encoded) (ok (get_server_200 t)), one))
serve_http-stays_example =
    serve_http-stays env site Nothing numbers 0 empty one one (ok api) (err []) in_order in_order
      ((0, options) ∷ []) []
      ((in_order, 1, asking (codes "0") (err []), json_calls 200 (server_response answer)) ∷ [])
      answer (λ k i h. absurd (cc)) refl (next [] before (tt, λ k. refl) posting)
      (next ((0, options) ∷ []) before ((refl, tt), λ k. refl) getting) refl refl refl refl
