-- ===== src/Http/Mux.antt =====
-- internal/delivery/http/http.go and internal/delivery/http/openapi/openapi.go: the API as one
-- `http.Handler`, that is the middlewares, the routes of openapi.gen.go and the handlers.
pub mod Paths
pub mod New
use serverpouch.Common.{
  ℕ, Bytes, codes, List, [], ◌∷◌, ◌++◌, Option, none, some, Result, ok, err, Errors, ◌≡◌, refl, sym,
  ap, ◌∙◌, subst, arith, Any, inl, inr, every, occupied, true, false, if◌then◌else◌, ◌==◌, text_eq,
  same_iff, ◌⊎◌, ◌≢◌,
}
use serverpouch.Usecases.{Usecases}
use serverpouch.Usecases.Found.{IsKeyed}
use serverpouch.Openapi.Union.{Server, Visits}
use serverpouch.Openapi.Routes.{
  Operation, to_list_servers, to_create_server, to_get_server, Found, matched, not_found,
  not_allowed, Router, Route, handler_with_options, handler_from_mux, not_slash,
}
use serverpouch.Openapi.Strict.{Call, http_error, write_header, json_calls, server_response}
use serverpouch.Http.{Env, serve_create_server, serve_list_servers, wrapped_get_server}

-- A request: what the JSON decoder makes of its body is the document of the field `config`.
pub record Request (Doc : Type 0) : Type 0 where
  pub method : Bytes
  pub path : Bytes
  pub decoded : Result Doc

-- The libraries around the handlers: the router, with what it answers where it finds none; the
-- validator of the requests, with the text and the status of its error; and the reading of a UUID
-- from a parameter of the path.
pub record Site (Doc : Type 0) : Type 0 where
  pub router : Router
  pub no_route : List (Call Doc)
  pub no_method : List (Call Doc)
  pub refused : Request Doc → Option (Bytes × ℕ)
  pub bind : Bytes → Result ℕ

-- `openapi.New`: the swagger document is for the validator.
unfoldable pub new_mux {ℓ} :
    {Swagger Mux : Type ℓ} → Errors → (Swagger → Mux) → Result Swagger → Result Mux
new_mux x make (err e) = err (x.wrapped e (codes "Error getting swagger"))
new_mux x make (ok swagger) = ok (make swagger)

-- `New`
unfoldable pub new_handler {ℓ} : {Mux : Type ℓ} → Errors → Result Mux → Result Mux
new_handler x (err e) = err (x.wrapped e (codes "failed to instantiate openapi mux"))
new_handler x (ok handler) = ok handler

module _ {W I Doc : Type 0} (env : Env W I Doc) (site : Site Doc) (visits : Visits)
    (visited : List (ℕ × I)) where
  -- The route that is found, on the registry.
  unfoldable pub routed : Request Doc → Found → Usecases W I → List (Call Doc) × Usecases W I
  routed r not_found u = (site.no_route, u)
  routed r not_allowed u = (site.no_method, u)
  routed r (matched to_list_servers params) u = (serve_list_servers env visits visited u, u)
  routed r (matched to_create_server params) u = serve_create_server env visits r.decoded u
  routed r (matched to_get_server params) u =
      (wrapped_get_server env visits (site.bind (site.router.url_param (codes "id") params)) u, u)

  -- After the validator, which is the first that `router.Use` is given; the logger is the second and
  -- does not answer.
  unfoldable pub validated :
      Request Doc → Option (Bytes × ℕ) → Usecases W I → List (Call Doc) × Usecases W I
  unfolding routed handler_from_mux
  validated r (some (e, status)) u = (http_error e status ∷ [], u)
  validated r none u = routed r (site.router.find handler_from_mux r.method r.path) u

  -- `ServeHTTP` of the handler.
  unfoldable pub serve_http : Request Doc → Usecases W I → List (Call Doc) × Usecases W I
  unfolding validated
  serve_http r u = validated r (site.refused r) u
