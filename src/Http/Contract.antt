-- ===== src/Http/Contract.antt =====
-- internal/delivery/http: what the API promises, with the registry as a function from identifiers to
-- configs. A server's status is not part of it.
pub mod Each
pub mod Created
pub mod Listed
pub mod Refines
pub mod Stays
pub mod Started
pub mod Kept
pub mod Durable
mod Tests
use serverpouch.Common.{
  ℕ, Bytes, codes, List, [], ◌∷◌, Option, none, some, Result, ok, err, ◌≡◌, ◌⊎◌, put, All, Any,
  nat_eq, Steps,
}
use serverpouch.Docker.Config.{Options, id}
use serverpouch.Openapi.Union.{Server, Visits, oapi_to_config}
use serverpouch.Openapi.Convert.{docker_config_to_oapi}
use serverpouch.Openapi.Routes.{
  to_list_servers, to_get_server, matched, not_found, not_allowed, handler_from_mux,
}
use serverpouch.Openapi.Routes.Reached.{servers_path, server_pattern, Documented}
use serverpouch.Openapi.Strict.{
  Call, http_error, write_header, create_server_201, get_server_200, list_servers_200, respond,
  visit_create_server, visit_get_server, visit_list_servers, invalid_param,
}
use serverpouch.Http.{Env}
use serverpouch.Http.Mux.{Request, Site}

-- The config under each identifier.
abbrev pub View : Type 0
View = ℕ → Option Options

module _ {W I Doc : Type 0} (env : Env W I Doc) where
  -- The server tells the config, as the loops over its maps visit them.
  abbrev pub Tells : Visits → Options → Server Doc → Type 0
  Tells visits c s =
      (s.id ≡ id c)
      × (env.json.marshal (docker_config_to_oapi c (visits.ports c) (visits.volumes c))
          ≡ ok s.config)

-- What a request that the validator lets pass may be answered in a state `w` of the world, and the
-- view after it.
pub data Answer {W I Doc : Type 0} (env : Env W I Doc) (site : Site Doc) (visits : Visits) (w : W)
    (m : View) (r : Request Doc) (calls : List (Call Doc)) (after : View) : Type 0 where
  -- The request is none of the API's three.
  unrouted :
      (Documented site.router r.method r.path → ⊥)
      → (calls ≡ site.no_route) ⊎ (calls ≡ site.no_method)
      → after ≡ m
      → Answer env site visits w m r calls after
  -- A new server, with the config that the database has answered, whose identifier was free.
  created :
      (doc : Doc) (options c : Options) (s : Server Doc)
      → r.method ≡ codes "POST"
      → r.path ≡ servers_path
      → r.decoded ≡ ok doc
      → oapi_to_config env.errors env.json doc ≡ ok options
      → (env.db.create_server options w).0 ≡ ok c
      → m (id c) ≡ none
      → Tells env visits c s
      → calls ≡ respond (visit_create_server env.encoded) (ok (create_server_201 s))
      → after ≡ put m (id c) (some c)
      → Answer env site visits w m r calls after
  -- The body is no JSON.
  no_json :
      (e message : Bytes)
      → r.method ≡ codes "POST"
      → r.path ≡ servers_path
      → r.decoded ≡ err e
      → calls ≡ http_error message 400 ∷ []
      → after ≡ m
      → Answer env site visits w m r calls after
  -- The config is refused, or the database has answered with an error.
  not_created :
      (doc : Doc) (message : Bytes)
      → r.method ≡ codes "POST"
      → r.path ≡ servers_path
      → r.decoded ≡ ok doc
      → ((e : Bytes) × (oapi_to_config env.errors env.json doc ≡ err e))
        ⊎ ((options : Options) × (e : Bytes) × (oapi_to_config env.errors env.json doc ≡ ok options)
            × ((env.db.create_server options w).0 ≡ err e))
      → calls ≡ http_error message 500 ∷ []
      → after ≡ m
      → Answer env site visits w m r calls after
  found :
      (params : List (Bytes × Bytes)) (c : Options) (s : Server Doc)
      → r.method ≡ codes "GET"
      → site.router.fits server_pattern r.path ≡ some params
      → site.bind (site.router.url_param (codes "id") params) ≡ ok (id c)
      → m (id c) ≡ some c
      → Tells env visits c s
      → calls ≡ respond (visit_get_server env.encoded) (ok (get_server_200 s))
      → after ≡ m
      → Answer env site visits w m r calls after
  missing :
      (params : List (Bytes × Bytes)) (k : ℕ)
      → r.method ≡ codes "GET"
      → site.router.fits server_pattern r.path ≡ some params
      → site.bind (site.router.url_param (codes "id") params) ≡ ok k
      → m k ≡ none
      → calls ≡ write_header 404 ∷ []
      → after ≡ m
      → Answer env site visits w m r calls after
  -- The segment is no identifier.
  no_id :
      (params : List (Bytes × Bytes)) (e : Bytes)
      → r.method ≡ codes "GET"
      → site.router.fits server_pattern r.path ≡ some params
      → site.bind (site.router.url_param (codes "id") params) ≡ err e
      → calls ≡ http_error (invalid_param (codes "id") e) 400 ∷ []
      → after ≡ m
      → Answer env site visits w m r calls after
  -- Every server, and no other.
  listed :
      (servers : List (Server Doc))
      → r.method ≡ codes "GET"
      → r.path ≡ servers_path
      → All (λ (s : Server Doc). (c : Options) × (m s.id ≡ some c) × Tells env visits c s) servers
      → ((k : ℕ) (c : Options) → m k ≡ some c → Any (λ (s : Server Doc). s.id ≡ k) servers)
      → calls ≡ respond (visit_list_servers env.encoded) (ok (list_servers_200 servers))
      → after ≡ m
      → Answer env site visits w m r calls after

-- What a request may be answered.
pub data Contract {W I Doc : Type 0} (env : Env W I Doc) (site : Site Doc) (visits : Visits) (w : W)
    (m : View) (r : Request Doc) (calls : List (Call Doc)) (after : View) : Type 0 where
  invalid :
      (e : Bytes) (status : ℕ)
      → site.refused r ≡ some (e, status)
      → calls ≡ http_error e status ∷ []
      → after ≡ m
      → Contract env site visits w m r calls after
  valid :
      site.refused r ≡ none
      → Answer env site visits w m r calls after
      → Contract env site visits w m r calls after

-- A request with its answer, the state of the world before it, and the orders in which the loops over
-- the maps of the options went.
abbrev pub Exchange : Type 0 → Type 0 → Type 0
Exchange W Doc = Visits × W × Request Doc × List (Call Doc)

-- What may be answered to requests one after the other, the last first.
pub data Promised {W I Doc : Type 0} (env : Env W I Doc) (site : Site Doc) (m : View)
    : List (Exchange W Doc) → View → Type 0 where
  unserved : Promised env site m [] m
  served_next :
      {es : List (Exchange W Doc)} {middle after : View} {visits : Visits} {w : W} {r : Request Doc}
      {calls : List (Call Doc)}
      → Promised env site m es middle
      → Contract env site visits w middle r calls after
      → Promised env site m ((visits, w, r, calls) ∷ es) after
