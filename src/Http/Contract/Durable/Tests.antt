-- ===== src/Http/Contract/Durable/Tests.antt =====
-- A request to a process that has started over an empty table in memory, and another start.
use serverpouch.Common.{
  ℕ, codes, List, [], ◌∷◌, none, ok, ◌≡◌, ◌∙◌, refl, prefixing, format_int, pos,
}
use serverpouch.Docker.Config.{Options, type, id}
use serverpouch.Schema.Memory.{Table, memory, plain, served}
use serverpouch.Usecases.Restart.Rows.{Matches}
use serverpouch.Usecases.Restart.Samples.{
  instances, empty, one, stored_table, started_empty, started_one,
}
use serverpouch.Openapi.Convert.{ServerConfigDocker, docker_config_to_oapi}
use serverpouch.Openapi.Routes.FirstFit.{first_fit}
use serverpouch.Openapi.Strict.{
  http_error, write_header, json_calls, server_response, respond, visit_create_server, visited,
  get_server_200,
}
use serverpouch.Usecases.{get_server}
use serverpouch.Openapi.Union.{Server, config_to_oapi, server_to_oapi}
use serverpouch.Http.{Env, encode_server, handle_get_server, serve_create_server}
use serverpouch.Http.Mux.{Site, serve_http}
use serverpouch.Http.Mux.Paths.{creating, serve_http-creating}
use serverpouch.Http.Restarted.{over_queries}
use serverpouch.Http.Restarted.Samples.{json, in_order, api, answer, posted}
use serverpouch.Http.Contract.{View, Tells, Exchange, Promised}
use serverpouch.Http.Contract.Each.{Views}
use serverpouch.Http.Contract.Refines.{Run, before, next}
use serverpouch.Http.Contract.Durable.{new-durable}
use serverpouch.Http.Contract.Started.{Alone, alone_keys, new-Promised}

abbrev site : Site ServerConfigDocker
site = record {
  router = first_fit;
  no_route = http_error (codes "404 page not found") 404 ∷ [];
  no_method = write_header 405 ∷ [];
  refused = λ r. none;
  bind = λ segment. ok 0;
}

abbrev api_env : Env Table Options ServerConfigDocker
api_env =
    over_queries prefixing plain memory served instances (λ c w k. refl) json
      (λ k. format_int (pos k)) (λ b. none)

posting :
    serve_http api_env site in_order [] (creating (ok api)) empty
    ≡ (json_calls 201 (server_response answer), one)
unfolding serve_create_server respond visit_create_server visited
posting =
    serve_http-creating api_env site in_order [] (ok api) empty refl
    ∙ rw (serve_create_server, posted) refl

abbrev exchanges : List (Exchange Table ServerConfigDocker)
exchanges = (in_order, empty.world, creating (ok api), json_calls 201 (server_response answer)) ∷ []

run :
    Run api_env site
      (Alone Table)
      (alone_keys prefixing plain memory served instances (λ c w k. refl))
      empty
      exchanges
      one
run = next [] before (tt, λ k. refl) posting

new-Promised_example :
    (m n : View) × ((k : ℕ) → Matches prefixing plain (served.row_at empty.world k) (m k))
    × Promised api_env site m exchanges n
    × Views api_env one n
new-Promised_example =
    new-Promised prefixing plain memory served instances (λ c w k. refl) json
      (λ k. format_int (pos k)) (λ b. none) site empty.world empty one exchanges started_empty run

got : handle_get_server api_env in_order 0 one ≡ ok (get_server_200 answer)
unfolding handle_get_server get_server type id encode_server server_to_oapi config_to_oapi
    docker_config_to_oapi
got = refl

new-durable_example :
    (c : Options) × (t : Server ServerConfigDocker) × Tells api_env in_order c answer
    × Tells api_env in_order c t
    × (handle_get_server api_env in_order 0 one ≡ ok (get_server_200 t))
new-durable_example =
    new-durable prefixing plain memory served instances (λ c w k. refl) json
      (λ k. format_int (pos k)) (λ b. none) site empty.world stored_table empty one one exchanges
      in_order in_order 0 answer started_empty run got (λ j. refl) started_one
