-- ===== src/Http.antt =====
-- internal/delivery/http/server.go: the handlers of the API on top of the use cases, and, with the
-- generated code of openapi.gen.go around them, what a request makes of the registry and of its
-- `http.ResponseWriter`.
pub mod Answers
pub mod Mux
pub mod Restarted
pub mod Contract
mod Tests
use serverpouch.Common.{
  ℕ, Bytes, codes, List, [], ◌∷◌, ◌++◌, map, Result, ok, err, ◌>>=◌, Errors, Option,
}
use serverpouch.Docker.Config.{Options}
use serverpouch.Usecases.{Usecases, list_servers, get_server, create_server}
use serverpouch.Usecases.Interfaces.{Database, ServerInstances}
use serverpouch.Openapi.Union.{Json, Server, Visits, server_to_oapi, oapi_to_config}
use serverpouch.Openapi.Strict.{
  Body, Call, ListServersResponse, list_servers_200, CreateServerResponse, create_server_201,
  GetServerResponse, get_server_200, get_server_404, visit_list_servers, visit_create_server,
  visit_get_server, http_error, invalid_param, request_error, respond,
}

-- What the handlers are given: the libraries and the database.
pub record Env (W I Doc : Type 0) : Type 0 where
  pub errors : Errors
  pub json : Json Doc
  pub db : Database W
  pub servers : ServerInstances W I
  pub uuid_text : ℕ → Bytes
  pub encoded : Body Doc → Option Bytes

module _ {W I Doc : Type 0} (env : Env W I Doc) where
  -- `openapi.ServerToOAPI(inst)`, with the text that the handlers put around its error.
  unfoldable pub encode_server : Visits → I → W → Result (Server Doc)
  unfolding server_to_oapi
  encode_server visits instance world =
      elim (server_to_oapi env.errors env.json visits (env.servers.config instance)
        (env.servers.status instance world)) [
          | err e ↦ err (env.errors.wrapped e (codes "failed to encode openapi server"))
          | ok server ↦ ok server
        ]

  -- `CreateServer` after the call of the use cases.
  unfoldable pub answer_created :
      Visits → Result I × Usecases W I → Result (CreateServerResponse Doc) × Usecases W I
  answer_created visits (err e, u) =
      (err (env.errors.wrapped e (codes "failed to create server")), u)
  answer_created visits (ok instance, u) =
      (do server ← encode_server visits instance u.world; ok (create_server_201 server), u)

  -- `CreateServer`
  unfoldable pub handle_create_server :
      Visits → Doc → Usecases W I → Result (CreateServerResponse Doc) × Usecases W I
  handle_create_server visits config u = elim (oapi_to_config env.errors env.json config) [
    | err e ↦ (err (env.errors.wrapped e (codes "failed to decode openapi server")), u)
    | ok options ↦ answer_created visits (create_server env.errors env.db env.servers options u)
  ]

  -- `GetServer`
  unfoldable pub handle_get_server : Visits → ℕ → Usecases W I → Result (GetServerResponse Doc)
  handle_get_server visits k u = elim (get_server env.uuid_text k u) [
    | err e ↦ ok get_server_404
    | ok instance ↦ do server ← encode_server visits instance u.world; ok (get_server_200 server)
  ]

  -- The loop of `ListServers`.
  unfoldable pub encode_servers : Visits → List I → W → Result (List (Server Doc))
  encode_servers visits [] world = ok []
  encode_servers visits (instance ∷ instances) world = do
    server ← encode_server visits instance world
    servers ← encode_servers visits instances world
    ok (server ∷ servers)

  -- `ListServers`; `visited` is the entries of the registry in the order of the use cases' loop.
  unfoldable pub handle_list_servers :
      Visits → List (ℕ × I) → Usecases W I → Result (ListServersResponse Doc)
  handle_list_servers visits visited u = do
    servers ← encode_servers visits (list_servers visited) u.world
    ok (list_servers_200 servers)

  -- `POST /api/servers`; `decoded` is what the JSON decoder makes of the request's body: the
  -- document of the field `config`.
  unfoldable pub serve_create_server :
      Visits → Result Doc → Usecases W I → List (Call Doc) × Usecases W I
  serve_create_server visits (err e) u = (request_error (codes "can't decode JSON body: " ++ e), u)
  serve_create_server visits (ok config) u =
      let (answer, after) = handle_create_server visits config u in
      (respond (visit_create_server env.encoded) answer, after)

  -- `GET /api/servers/{id}` with its identifier.
  unfoldable pub serve_get_server : Visits → ℕ → Usecases W I → List (Call Doc)
  serve_get_server visits k u =
      respond (visit_get_server env.encoded) (handle_get_server visits k u)

  -- The wrapper around it; `bound` is what the runtime makes of the path parameter.
  unfoldable pub wrapped_get_server : Visits → Result ℕ → Usecases W I → List (Call Doc)
  wrapped_get_server visits (err e) u = http_error (invalid_param (codes "id") e) 400 ∷ []
  wrapped_get_server visits (ok k) u = serve_get_server visits k u

  -- `GET /api/servers`
  unfoldable pub serve_list_servers : Visits → List (ℕ × I) → Usecases W I → List (Call Doc)
  serve_list_servers visits visited u =
      respond (visit_list_servers env.encoded) (handle_list_servers visits visited u)
