-- ===== src/Http/Contract/Refines.antt =====
-- internal/delivery/http: any sequence of requests, against the contract of the API.
use serverpouch.Common.{
  ℕ, Bytes, codes, List, [], ◌∷◌, Option, none, some, inl, inr, ◌≡◌, ◌≢◌, sym, ◌∙◌, refl, subst,
  nat_eq, IsRange,
}
use serverpouch.Openapi.Union.{Visits}
use serverpouch.Openapi.Routes.{
  Operation, Found, matched, not_found, not_allowed, to_list_servers, to_create_server,
  to_get_server, handler_from_mux,
}
use serverpouch.Openapi.Routes.Reached.{
  find_create_server, find_list_servers, find_one_server, Documented, Documented-found,
}
use serverpouch.Openapi.Strict.{Call}
use serverpouch.Usecases.{Usecases}
use serverpouch.Usecases.Concurrent.{Keys}
use serverpouch.Http.{Env}
use serverpouch.Http.Mux.{Request, Site, routed, validated, serve_http}
use serverpouch.Http.Contract.{
  View, Exchange, Promised, unserved, served_next, Contract, invalid, valid, unrouted,
}
use serverpouch.Http.Contract.Each.{Views, Known, Keeps, wrapped_get_server-Keeps}
use serverpouch.Http.Contract.Created.{serve_create_server-Keeps}
use serverpouch.Http.Contract.Listed.{serve_list_servers-Keeps}

module _ {W I Doc : Type 0} (env : Env W I Doc) (site : Site Doc) (Others : W → W → Type 0)
    (keys : Keys env.db env.servers Others) where
  -- A request that has no route is none of the API's.
  no_route_left :
      (r : Request Doc) (route : Found)
      → ((op : Operation) (params : List (Bytes × Bytes)) → route ≢ matched op params)
      → site.router.find handler_from_mux r.method r.path ≡ route
      → Documented site.router r.method r.path
      → ⊥
  no_route_left r route none_matched e documented =
      let (op, params, found) = Documented-found site.router r.method r.path documented in
      none_matched op params (sym e ∙ found)

  routed-Keeps :
      (visits : Visits) (entries : List (ℕ × I)) (m : View) (r : Request Doc) (u : Usecases W I)
      (route : Found)
      → site.router.find handler_from_mux r.method r.path ≡ route
      → IsRange entries u.instances
      → Views env u m
      → Known env site Others keys u
      → Keeps env site Others keys visits u.world m r (routed env site visits entries r route u)
  unfolding routed
  routed-Keeps visits entries m r u not_found e range views known =
      (m, unrouted (no_route_left r not_found (λ op params. cc) e) (inl refl) refl, views, known)
  routed-Keeps visits entries m r u not_allowed e range views known =
      (m, unrouted (no_route_left r not_allowed (λ op params. cc) e) (inr refl) refl, views, known)
  routed-Keeps visits entries m r u (matched to_list_servers params) e range views known =
      let (get, path) = find_list_servers site.router r.method r.path params e in
      serve_list_servers-Keeps env site Others keys visits entries m r u get path range views known
  routed-Keeps visits entries m r u (matched to_create_server params) e range views known =
      let (post, path) = find_create_server site.router r.method r.path params e in
      serve_create_server-Keeps env site Others keys visits m r u r.decoded post path refl views
        known
  routed-Keeps visits entries m r u (matched to_get_server params) e range views known =
      let (get, fit) = find_one_server site.router r.method r.path params e in
      wrapped_get_server-Keeps env site Others keys visits m r u params
        (site.bind (site.router.url_param (codes "id") params)) get fit refl views known

  -- An answer that keeps the contract, with the view after it.
  abbrev Holds : Visits → W → View → Request Doc → List (Call Doc) × Usecases W I → Type 0
  Holds visits w m r (calls, u) =
      (after : View) × Contract env site visits w m r calls after
      × Views env u after
      × Known env site Others keys u

  validated-Holds :
      (visits : Visits) (entries : List (ℕ × I)) (m : View) (r : Request Doc) (u : Usecases W I)
      (refused : Option (Bytes × ℕ))
      → site.refused r ≡ refused
      → IsRange entries u.instances
      → Views env u m
      → Known env site Others keys u
      → Holds visits u.world m r (validated env site visits entries r refused u)
  unfolding validated
  validated-Holds visits entries m r u (some (e, status)) is_refused range views known =
      (m, invalid e status is_refused refl refl, views, known)
  validated-Holds visits entries m r u none is_refused range views known =
      let (after, answer, kept, still) =
        routed-Keeps visits entries m r u (site.router.find handler_from_mux r.method r.path) refl
          range views known in
      (after, valid is_refused answer, kept, still)

  serve_http-Holds :
      (visits : Visits) (entries : List (ℕ × I)) (m : View) (r : Request Doc) (u : Usecases W I)
      → IsRange entries u.instances
      → Views env u m
      → Known env site Others keys u
      → Holds visits u.world m r (serve_http env site visits entries r u)
  unfolding serve_http
  serve_http-Holds visits entries m r u range views known =
      validated-Holds visits entries m r u (site.refused r) refl range views known

  -- Requests that are served one after the other, the last first. Each `GET` of the list visits the
  -- registry in an order of the runtime's choice.
  pub data Run (u : Usecases W I) : List (Exchange W Doc) → Usecases W I → Type 0 where
    before : Run u [] u
    next :
        {es : List (Exchange W Doc)} {v w : Usecases W I} {r : Request Doc} {visits : Visits}
        {calls : List (Call Doc)} (entries : List (ℕ × I))
        → Run u es v
        → IsRange entries v.instances
        → serve_http env site visits entries r v ≡ (calls, w)
        → Run u ((visits, v.world, r, calls) ∷ es) w

  -- Whatever requests are served one after the other, their answers are those that the contract
  -- promises, from any registry whose instances are kept under the identifiers of their configs,
  -- where the database gives each identifier once; and the contract's view of the registry at the end is
  -- the one that it promises.
  pub serve_http-refines :
      (u v : Usecases W I) (m : View) (es : List (Exchange W Doc))
      → Known env site Others keys u
      → Views env u m
      → Run u es v
      → (after : View) × Promised env site m es after
        × Views env v after
        × Known env site Others keys v
  serve_http-refines u v m es known views before = (m, unserved, views, known)
  serve_http-refines u v m es known views
        (next {v = w} {r = r} {visits = visits} entries run range served) =
      let (middle, promised, views_w, known_w) = serve_http-refines u w m _ known views run in
      let (after, kept, views_v, known_v) =
        subst (Holds visits w.world middle r) served
          (serve_http-Holds visits entries middle r w range views_w known_w) in
      (after, served_next promised kept, views_v, known_v)
