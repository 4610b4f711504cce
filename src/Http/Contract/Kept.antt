-- ===== src/Http/Contract/Kept.antt =====
-- internal/delivery/http: what `CreateServer` of the use cases keeps, through any requests.
use serverpouch.Common.{
  ℕ, Bytes, List, Option, none, some, Result, ok, err, Result-cases, inl, inr, ◌≡◌, refl, sym, ap,
  subst,
}
use serverpouch.Docker.Config.{Options}
use serverpouch.Usecases.{Usecases, create_server}
use serverpouch.Usecases.Concurrent.{Keys}
use serverpouch.Openapi.Union.{Visits, oapi_to_config}
use serverpouch.Openapi.Routes.{
  Found, matched, not_found, not_allowed, to_list_servers, to_create_server, to_get_server,
  handler_from_mux,
}
use serverpouch.Http.{Env, answer_created, handle_create_server, serve_create_server}
use serverpouch.Http.Mux.{Request, Site, routed, validated, serve_http}
use serverpouch.Http.Contract.{Exchange}
use serverpouch.Http.Contract.Refines.{Run, before, next}

module _ {W I Doc : Type 0} (env : Env W I Doc) (site : Site Doc) (P : Usecases W I → Type 0)
    (created : (options : Options) (u : Usecases W I)
      → P u
      → P (create_server env.errors env.db env.servers options u).1) where
  answer_created-registry :
      (visits : Visits) (made : Result I × Usecases W I)
      → (answer_created env visits made).1 ≡ made.1
  unfolding answer_created
  answer_created-registry visits (err e, u) = refl
  answer_created-registry visits (ok i, u) = refl

  handle_create_server-keeps :
      (visits : Visits) (config : Doc) (u : Usecases W I)
      → P u
      → P (handle_create_server env visits config u).1
  unfolding handle_create_server
  handle_create_server-keeps visits config u h =
      elim (Result-cases (oapi_to_config env.errors env.json config)) [
        | inr (e, refused) ↦ rw (handle_create_server, refused) h
        | inl (options, accepted) ↦
            rw (handle_create_server, accepted)
              (subst P
                (sym (
                  answer_created-registry visits
                    (create_server env.errors env.db env.servers options u)))
                (created options u h))
      ]

  routed-keeps :
      (visits : Visits) (entries : List (ℕ × I)) (r : Request Doc) (found : Found)
      (body : Result Doc) (u : Usecases W I)
      → r.decoded ≡ body
      → P u
      → P (routed env site visits entries r found u).1
  unfolding routed serve_create_server
  routed-keeps visits entries r not_found body u e h = h
  routed-keeps visits entries r not_allowed body u e h = h
  routed-keeps visits entries r (matched to_list_servers params) body u e h = h
  routed-keeps visits entries r (matched to_get_server params) body u e h = h
  routed-keeps visits entries r (matched to_create_server params) (err text) u e h = rw e h
  routed-keeps visits entries r (matched to_create_server params) (ok config) u e h =
      rw e (handle_create_server-keeps visits config u h)

  validated-keeps :
      (visits : Visits) (entries : List (ℕ × I)) (r : Request Doc) (refused : Option (Bytes × ℕ))
      (u : Usecases W I)
      → P u
      → P (validated env site visits entries r refused u).1
  unfolding validated
  validated-keeps visits entries r (some (e, status)) u h = h
  validated-keeps visits entries r none u h =
      routed-keeps visits entries r (site.router.find handler_from_mux r.method r.path) r.decoded u
        refl h

  -- What `CreateServer` keeps, every sequence of requests keeps.
  pub Run-keeps :
      (Others : W → W → Type 0) (keys : Keys env.db env.servers Others) (u v : Usecases W I)
      (es : List (Exchange W Doc))
      → P u
      → Run env site Others keys u es v
      → P v
  unfolding serve_http
  Run-keeps Others keys u v es h before = h
  Run-keeps Others keys u v es h (next {v = w} {r = r} {visits = visits} entries run range served) =
      subst P (ap (λ p. p.1) served)
        (validated-keeps visits entries r (site.refused r) w (Run-keeps Others keys u w _ h run))
