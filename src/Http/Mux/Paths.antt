-- ===== src/Http/Mux/Paths.antt =====
-- internal/delivery/http: which request reaches which handler, and what a client that follows the
-- paths of the API sees.
use serverpouch.Common.{
  ℕ, Bytes, codes, List, ◌++◌, Option, none, some, Result, ok, err, ◌≡◌, refl, sym, ap, ◌∙◌, subst,
  every, occupied, true, text_eq, pair_path,
}
use serverpouch.Usecases.{Usecases}
use serverpouch.Usecases.Found.{IsKeyed}
use serverpouch.Openapi.Union.{Server, Visits}
use serverpouch.Openapi.Routes.{
  to_list_servers, to_create_server, to_get_server, Found, matched, not_found, not_allowed,
  handler_from_mux, not_slash,
}
use serverpouch.Openapi.Strict.{
  json_calls, server_response, CreateServerResponse, create_server_201, create_server_400,
  create_server_500, visit_create_server, respond, visited, request_error, response_error,
  visit_get_server,
}
use serverpouch.Http.{
  Env, serve_create_server, serve_get_server, wrapped_get_server, handle_create_server,
}
use serverpouch.Http.Mux.{Request, Site, routed, validated, serve_http}
use serverpouch.Http.Answers.{handle_create_server-handle_get_server}
use serverpouch.Openapi.Routes.Reached.{
  servers_path, find_create_server, find_get_server, find_post,
}

-- `POST /api/servers`
abbrev pub creating : {Doc : Type 0} → Result Doc → Request Doc
creating decoded = record { method = codes "POST"; path = servers_path; decoded = decoded }

-- `GET /api/servers/{id}`
abbrev pub asking : {Doc : Type 0} → Bytes → Result Doc → Request Doc
asking segment decoded = record {
  method = codes "GET";
  path = codes "/api/servers/" ++ segment;
  decoded = decoded;
}

module _ {W I Doc : Type 0} (env : Env W I Doc) (site : Site Doc) (visits : Visits)
    (entries : List (ℕ × I)) where
  routed-kept :
      (r : Request Doc) (u : Usecases W I) (found : Found)
      → site.router.find handler_from_mux r.method r.path ≡ found
      → (r.method ≡ codes "POST" → r.path ≡ servers_path → ⊥)
      → (routed env site visits entries r found u).1 ≡ u
  unfolding routed
  routed-kept r u not_found e other = refl
  routed-kept r u not_allowed e other = refl
  routed-kept r u (matched to_list_servers params) e other = refl
  routed-kept r u (matched to_get_server params) e other = refl
  routed-kept r u (matched to_create_server params) e other =
      let (post, path) = find_create_server site.router r.method r.path params e in
      absurd (other post path)

  validated-kept :
      (r : Request Doc) (u : Usecases W I) (refused : Option (Bytes × ℕ))
      → (r.method ≡ codes "POST" → r.path ≡ servers_path → ⊥)
      → (validated env site visits entries r refused u).1 ≡ u
  unfolding validated
  validated-kept r u (some (e, status)) other = refl
  validated-kept r u none other =
      routed-kept r u (site.router.find handler_from_mux r.method r.path) refl other

  visited-created :
      (s t : Server Doc) (failed : Option Bytes)
      → visited (json_calls 201 (server_response t), failed) ≡ json_calls 201 (server_response s)
      → (t ≡ s) × (failed ≡ none)
  unfolding visited response_error
  visited-created s t none h = (cc, refl)
  visited-created s t (some e) h = absurd (cc)

  created-answer :
      (answer : Result (CreateServerResponse Doc)) (s : Server Doc)
      → respond (visit_create_server env.encoded) answer ≡ json_calls 201 (server_response s)
      → (answer ≡ ok (create_server_201 s)) × (env.encoded (server_response s) ≡ none)
  unfolding respond visited visit_create_server response_error
  created-answer (err e) s h = absurd (cc)
  created-answer (ok create_server_400) s h = absurd (cc)
  created-answer (ok create_server_500) s h = absurd (cc)
  created-answer (ok (create_server_201 t)) s h =
      let (same, written) = visited-created s t (env.encoded (server_response t)) h in
      (
        ap (λ v. ok (create_server_201 v)) same,
        subst (λ v. env.encoded (server_response v) ≡ none) same written,
      )

  pub serve_create_server-created :
      (decoded : Result Doc) (u after : Usecases W I) (s : Server Doc)
      → serve_create_server env visits decoded u ≡ (json_calls 201 (server_response s), after)
      → (config : Doc) × (handle_create_server env visits config u
          ≡ (ok (create_server_201 s), after))
        × (env.encoded (server_response s) ≡ none)
  unfolding serve_create_server request_error
  serve_create_server-created (err e) u after s h = absurd (cc)
  serve_create_server-created (ok config) u after s h =
      let (answer, written) =
        created-answer (handle_create_server env visits config u).0 s (ap (λ p. p.0) h) in
      let left : (handle_create_server env visits config u).1 ≡ after = ap (λ p. p.1) h in
      (config, pair_path answer left, written)

  -- A request that is no `POST` of `/api/servers` leaves the registry and the state of the world as
  -- they are, whatever the validator and the decoders make of it.
  pub serve_http-kept :
      (r : Request Doc) (u : Usecases W I)
      → (r.method ≡ codes "POST" → r.path ≡ servers_path → ⊥)
      → (serve_http env site visits entries r u).1 ≡ u
  unfolding serve_http
  serve_http-kept r u other = validated-kept r u (site.refused r) other

  pub serve_http-creating :
      (decoded : Result Doc) (u : Usecases W I)
      → site.refused (creating decoded) ≡ none
      → serve_http env site visits entries (creating decoded) u
        ≡ serve_create_server env visits decoded u
  unfolding serve_http validated routed
  serve_http-creating decoded u passed =
      rw (serve_http, passed, validated, find_post site.router) refl

  pub serve_http-asking :
      (k : ℕ) (decoded : Result Doc) (u : Usecases W I)
      → site.refused (asking (env.uuid_text k) decoded) ≡ none
      → occupied (env.uuid_text k) ≡ true
      → every not_slash (env.uuid_text k) ≡ true
      → site.bind (env.uuid_text k) ≡ ok k
      → serve_http env site visits entries (asking (env.uuid_text k) decoded) u
        ≡ (serve_get_server env visits k u, u)
  unfolding serve_http validated routed wrapped_get_server
  serve_http-asking k decoded u passed filled whole bound =
      rw
        (
          serve_http,
          passed,
          validated,
          find_get_server site.router (env.uuid_text k) filled whole,
          site.router.url_param_named (codes "id") (env.uuid_text k),
          bound,
        )
        refl

  -- If every instance is kept under the identifier of its config, and the validator refuses
  -- neither request, then a server that `POST /api/servers` answers with 201 is what
  -- `GET /api/servers/` with the text of its identifier answers with 200, which leaves the registry
  -- as it is, if that text is a nonempty segment of a path and is read as the identifier again.
  pub serve_http-created_found :
      (decoded other : Result Doc) (u after : Usecases W I) (s : Server Doc)
      → IsKeyed env.servers u
      → site.refused (creating decoded) ≡ none
      → serve_http env site visits entries (creating decoded) u
        ≡ (json_calls 201 (server_response s), after)
      → site.refused (asking (env.uuid_text s.id) other) ≡ none
      → occupied (env.uuid_text s.id) ≡ true
      → every not_slash (env.uuid_text s.id) ≡ true
      → site.bind (env.uuid_text s.id) ≡ ok s.id
      → serve_http env site visits entries (asking (env.uuid_text s.id) other) after
        ≡ (json_calls 200 (server_response s), after)
  unfolding serve_get_server respond visit_get_server visited
  serve_http-created_found decoded other u after s keyed passed h passed_get filled whole bound =
      let (config, made, written) =
        serve_create_server-created decoded u after s
          (sym (serve_http-creating decoded u passed) ∙ h) in
      let answer =
        (handle_create_server-handle_get_server env visits config u after s keyed made).0 in
      serve_http-asking s.id other after passed_get filled whole bound
      ∙ ap (λ calls. (calls, after)) (rw (serve_get_server, answer, respond, written) refl)
