-- ===== src/Http/Contract/Each.antt =====
-- internal/delivery/http/server.go: `GetServer` keeps the contract of the API.
use serverpouch.Common.{
  ℕ, Bytes, codes, List, none, some, Result, ok, err, Option-cases, inl, inr, ◌≡◌, refl, sym, ap,
  ◌∙◌, subst, put, lookup, nat_eq, ◌==◌, if◌then◌else◌, Bool-cases, or_else,
}
use serverpouch.Server.{status_text}
use serverpouch.Docker.Config.{Options, id, type}
use serverpouch.Openapi.Union.{Server, Visits, config_to_oapi, server_to_oapi}
use serverpouch.Openapi.Convert.{docker_config_to_oapi}
use serverpouch.Openapi.Routes.Reached.{server_pattern}
use serverpouch.Openapi.Strict.{
  Call, get_server_200, get_server_404, respond, visit_get_server, visited,
}
use serverpouch.Usecases.{Usecases, get_server}
use serverpouch.Usecases.Restart.Registered.{config_of, config_at}
use serverpouch.Usecases.Concurrent.{Keys}
use serverpouch.Usecases.Concurrent.Kept.{IsKnown}
use serverpouch.Http.{Env, encode_server, handle_get_server, serve_get_server, wrapped_get_server}
use serverpouch.Http.Mux.{Request, Site}
use serverpouch.Http.Contract.{View, Tells, Answer, found, missing, no_id}

pub or_else-put :
    (i : ℕ) (c : Options) (k : ℕ) (m : View)
    → or_else (if i == k then some c else none) (m k) ≡ put m i (some c) k
or_else-put i c k m = elim (Bool-cases (i == k)) [
  | inl same ↦ rw same refl
  | inr other ↦ rw other refl
]

module _ {W I Doc : Type 0} (env : Env W I Doc) where
  pub encode_server-Tells :
      (visits : Visits) (i : I) (w : W)
      → (s : Server Doc) × (encode_server env visits i w ≡ ok s)
        × Tells env visits (env.servers.config i) s
  unfolding encode_server server_to_oapi config_to_oapi type
  encode_server-Tells visits i w =
      let c = env.servers.config i in
      let (d, written) =
        env.json.marshal_ok (docker_config_to_oapi c (visits.ports c) (visits.volumes c)) in
      (
        record { config = d; id = id c; status = status_text (env.servers.status i w) },
        rw (encode_server, written) refl,
        (refl, written),
      )

  -- The registry and a view of it.
  abbrev pub Views : Usecases W I → View → Type 0
  Views u m = (k : ℕ) → config_at env.servers k u ≡ m k

  pub handle_get_server-at :
      (visits : Visits) (k : ℕ) (u : Usecases W I) (i : I)
      → lookup k u.instances ≡ some i
      → (s : Server Doc) × (handle_get_server env visits k u ≡ ok (get_server_200 s))
        × Tells env visits (env.servers.config i) s
  unfolding handle_get_server get_server
  handle_get_server-at visits k u i there =
      let (s, encoded, tells) = encode_server-Tells visits i u.world in
      (s, rw (handle_get_server, get_server, there, encoded) refl, tells)

  pub handle_get_server-none :
      (visits : Visits) (k : ℕ) (u : Usecases W I)
      → lookup k u.instances ≡ none
      → handle_get_server env visits k u ≡ ok get_server_404
  unfolding handle_get_server get_server
  handle_get_server-none visits k u absent = rw (handle_get_server, get_server, absent) refl

module _ {W I Doc : Type 0} (env : Env W I Doc) (site : Site Doc) (Others : W → W → Type 0)
    (keys : Keys env.db env.servers Others) where
  abbrev pub Known : Usecases W I → Type 0
  Known u = IsKnown env.errors env.db env.servers Others keys u

  -- An answer that the contract allows, with the view after it.
  abbrev pub Keeps : Visits → W → View → Request Doc → List (Call Doc) × Usecases W I → Type 0
  Keeps visits w m r (calls, u) =
      (after : View) × Answer env site visits w m r calls after × Views env u after × Known u

  pub wrapped_get_server-Keeps :
      (visits : Visits) (m : View) (r : Request Doc) (u : Usecases W I)
      (params : List (Bytes × Bytes)) (bound : Result ℕ)
      → r.method ≡ codes "GET"
      → site.router.fits server_pattern r.path ≡ some params
      → site.bind (site.router.url_param (codes "id") params) ≡ bound
      → Views env u m
      → Known u
      → Keeps visits u.world m r (wrapped_get_server env visits bound u, u)
  unfolding wrapped_get_server serve_get_server respond visit_get_server visited
  wrapped_get_server-Keeps visits m r u params (err e) get at_route is_bound views known =
      (m, no_id params e get at_route is_bound refl refl, views, known)
  wrapped_get_server-Keeps visits m r u params (ok k) get at_route is_bound views known =
      elim (Option-cases (lookup k u.instances)) [
        | inl absent ↦ (
          m,
          missing params k get at_route is_bound
              (sym (views k) ∙ ap (config_of env.servers.config) absent)
              (rw (serve_get_server, handle_get_server-none env visits k u absent) refl) refl,
          views,
          known,
        )
        | inr (i, there) ↦
            let (s, answer, tells) = handle_get_server-at env visits k u i there in
            let (named, given) = known k i there in
            let in_view : m k ≡ some (env.servers.config i) =
              sym (views k) ∙ ap (config_of env.servers.config) there in
            (
              m,
              found params (env.servers.config i) s get at_route (is_bound ∙ ap ok (sym named))
                  (subst (λ j. m j ≡ some (env.servers.config i)) (sym named) in_view) tells
                  (rw (serve_get_server, answer) refl) refl,
              views,
              known,
            )
      ]
