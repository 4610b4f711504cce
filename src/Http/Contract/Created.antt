-- ===== src/Http/Contract/Created.antt =====
-- internal/delivery/http/server.go: `CreateServer` keeps the contract of the API.
use serverpouch.Common.{
  codes, none, some, Result, ok, err, Result-cases, inl, inr, ok-injective, ◌≡◌, refl, sym, ap, ◌∙◌,
  subst, put, lookup, insert, nat_eq, ◌==◌, if◌then◌else◌, or_else,
}
use serverpouch.Docker.Config.{Options, id}
use serverpouch.Openapi.Union.{Visits, oapi_to_config}
use serverpouch.Openapi.Routes.Reached.{servers_path}
use serverpouch.Openapi.Strict.{
  respond, visit_create_server, request_error, response_error, visited,
}
use serverpouch.Usecases.{Usecases, create_server}
use serverpouch.Usecases.Restart.Registered.{config_of, config_of-insert}
use serverpouch.Usecases.Concurrent.{Keys}
use serverpouch.Usecases.Concurrent.Outcome.{Outcome, create_server-Outcome, create_server-IsKnown}
use serverpouch.Http.{Env, answer_created, handle_create_server, serve_create_server}
use serverpouch.Http.Mux.{Request, Site}
use serverpouch.Http.Contract.{View, created, no_json, not_created}
use serverpouch.Http.Contract.Each.{or_else-put, encode_server-Tells, Views, Known, Keeps}

module _ {W I Doc : Type 0} (env : Env W I Doc) (site : Site Doc) (Others : W → W → Type 0)
    (keys : Keys env.db env.servers Others) where
  answer_created-Keeps :
      (visits : Visits) (m : View) (r : Request Doc) (u : Usecases W I) (doc : Doc)
      (options : Options) (made : Result I × Usecases W I)
      → r.method ≡ codes "POST"
      → r.path ≡ servers_path
      → r.decoded ≡ ok doc
      → oapi_to_config env.errors env.json doc ≡ ok options
      → Outcome env.errors env.db env.servers Others keys
          (env.db.create_server options u.world).0
          u
          made
      → Views env u m
      → Known env site Others keys made.1
      → Keeps env site Others keys visits u.world m r (
        respond (visit_create_server env.encoded) (answer_created env visits made).0,
        (answer_created env visits made).1,
      )
  unfolding answer_created respond visit_create_server visited response_error
  answer_created-Keeps visits m r u doc options (err e, after) post path body accepted outcome views
        known =
      elim outcome [
        | inl (text, cause, is_err, from_db, same) ↦ (
          m,
          not_created doc _ post path body (inr (options, cause, accepted, from_db)) refl refl,
          λ k. ap (λ l. config_of env.servers.config (lookup k l)) same ∙ views k,
          known,
        )
        | inr (i, is_ok, from_db, absent, same) ↦ absurd (cc is_ok)
      ]
  answer_created-Keeps visits m r u doc options (ok i, after) post path body accepted outcome views
        known =
      let (s, encoded, tells) = encode_server-Tells env visits i after.world in
      let c = env.servers.config i in
      let now : (lookup (id c) u.instances ≡ none)
          × ((env.db.create_server options u.world).0 ≡ ok c)
          × (after.instances ≡ insert (id c) i u.instances) =
        elim outcome [
          | inl (text, cause, is_err, from_db, same) ↦ absurd (cc is_err)
          | inr (j, is_ok, from_db, absent, same) ↦
              let is_j : j ≡ i = ok-injective (sym is_ok) in
              subst
                (λ y.
                  (lookup (id (env.servers.config y)) u.instances ≡ none)
                  × ((env.db.create_server options u.world).0 ≡ ok (env.servers.config y))
                  × (after.instances ≡ insert (id (env.servers.config y)) y u.instances))
                is_j (absent, from_db, same)
        ] in
      (
        put m (id c) (some c),
        created doc options c s post path body accepted now.1
            (sym (views (id c)) ∙ ap (config_of env.servers.config) now.0) tells (rw encoded refl)
            refl,
        λ k.
            ap (λ l. config_of env.servers.config (lookup k l)) now.2
            ∙ (config_of-insert env.servers c i k u.instances refl
                ∙ (ap (or_else (if id c == k then some c else none)) (views k)
                    ∙ or_else-put (id c) c k m)),
        known,
      )

  pub serve_create_server-Keeps :
      (visits : Visits) (m : View) (r : Request Doc) (u : Usecases W I) (decoded : Result Doc)
      → r.method ≡ codes "POST"
      → r.path ≡ servers_path
      → r.decoded ≡ decoded
      → Views env u m
      → Known env site Others keys u
      → Keeps env site Others keys visits u.world m r (serve_create_server env visits decoded u)
  unfolding serve_create_server request_error handle_create_server respond response_error
  serve_create_server-Keeps visits m r u (err e) post path body views known =
      (m, no_json e _ post path body refl refl, views, known)
  serve_create_server-Keeps visits m r u (ok config) post path body views known =
      elim (Result-cases (oapi_to_config env.errors env.json config)) [
        | inr (e, refused) ↦
            rw (serve_create_server, handle_create_server, refused)
              (m, not_created config _ post path body (inl (e, refused)) refl refl, views, known)
        | inl (options, accepted) ↦
            rw (serve_create_server, handle_create_server, accepted)
              (answer_created-Keeps visits m r u config options
                (create_server env.errors env.db env.servers options u) post path body accepted
                (create_server-Outcome env.errors env.db env.servers Others keys options u known)
                views
                (create_server-IsKnown env.errors env.db env.servers Others keys options u known))
      ]
