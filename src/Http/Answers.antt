-- ===== src/Http/Answers.antt =====
-- internal/delivery/http/server.go: what a client of the API sees of the registry.
pub mod Listed
use serverpouch.Common.{
  ℕ, Bytes, codes, true, false, Option, List, [], ◌∷◌, map, none, some, Result, ok, err,
  Result-cases, inl, inr, ok-injective, ◌≡◌, ◌↔◌, refl, sym, ap, ◌∙◌, subst, arith, All, lookup,
  IsRange, nat_eq, ◌>>=◌, All-range, if◌then◌else◌,
}
use serverpouch.Server.{status_text}
use serverpouch.Docker.Config.{id, type}
use serverpouch.Usecases.{Usecases, list_servers, get_server, create_server}
use serverpouch.Usecases.Found.{IsKeyed, is_ok, create_server-get_server}
use serverpouch.Openapi.Union.{Server, Visits, config_to_oapi, server_to_oapi, oapi_to_config}
use serverpouch.Openapi.Convert.{docker_config_to_oapi}
use serverpouch.Openapi.Strict.{
  http_error, CreateServerResponse, write_header, create_server_201, list_servers_200,
  get_server_200, get_server_404, server_response, json_calls, visit_get_server, respond, visited,
  request_error, response_error,
}
use serverpouch.Http.{
  Env, encode_server, encode_servers, answer_created, handle_create_server, handle_get_server,
  handle_list_servers, serve_create_server, serve_get_server, wrapped_get_server,
}

module _ {W I Doc : Type 0} (env : Env W I Doc) where
  -- The servers that the handlers encode: there is no error, and the form tells the identifier and
  -- the status.
  pub encode_server_ok :
      (visits : Visits) (instance : I) (world : W)
      → (s : Server Doc) × (encode_server env visits instance world ≡ ok s)
        × (s.id ≡ id (env.servers.config instance))
        × (s.status ≡ status_text (env.servers.status instance world))
  unfolding encode_server server_to_oapi config_to_oapi type
  encode_server_ok visits instance world =
      let config = env.servers.config instance in
      let (d, written) =
        env.json.marshal_ok
          (docker_config_to_oapi config (visits.ports config) (visits.volumes config)) in
      (
        record {
          config = d;
          id = id config;
          status = status_text (env.servers.status instance world);
        },
        rw (encode_server, written) refl,
        refl,
        refl,
      )

  pub get-found :
      (visits : Visits) (k : ℕ) (u : Usecases W I) (instance : I) (s : Server Doc)
      → get_server env.uuid_text k u ≡ ok instance
      → encode_server env visits instance u.world ≡ ok s
      → handle_get_server env visits k u ≡ ok (get_server_200 s)
  unfolding handle_get_server
  get-found visits k u instance s found encoded = rw (handle_get_server, found, encoded) refl

  -- What `GET` answers for a server that `POST` created.
  Answered : Visits → Server Doc → Usecases W I → Type 0
  Answered visits s after =
      (handle_get_server env visits s.id after ≡ ok (get_server_200 s))
      × ((again : Visits)
          → (t : Server Doc) × (handle_get_server env again s.id after ≡ ok (get_server_200 t))
            × (t.id ≡ s.id)
            × (t.status ≡ s.status))

  found-Answered :
      (visits : Visits) (after : Usecases W I) (instance : I) (s : Server Doc)
      → get_server env.uuid_text (id (env.servers.config instance)) after ≡ ok instance
      → encode_server env visits instance after.world ≡ ok s
      → Answered visits s after
  unfolding Answered
  found-Answered visits after instance s found encoded =
      let (t, same, named, told) = encode_server_ok visits instance after.world in
      let is_s : t ≡ s = ok-injective (sym same ∙ encoded) in
      let named_s : s.id ≡ id (env.servers.config instance) =
        subst (λ r. r.id ≡ id (env.servers.config instance)) is_s named in
      (
        get-found visits s.id after instance s (rw named_s found) encoded,
        λ again.
            let (r, encoded', named', told') = encode_server_ok again instance after.world in
            (
              r,
              get-found again s.id after instance r (rw named_s found) encoded',
              named' ∙ sym named_s,
              told'
                  ∙ sym (
                      subst (λ r. r.status ≡ status_text (env.servers.status instance after.world))
                        is_s told),
            ),
      )

  created-Answered :
      (visits : Visits) (made : Result I × Usecases W I) (after : Usecases W I) (s : Server Doc)
      → ((instance : I)
          → made.0 ≡ ok instance
          → get_server env.uuid_text (id (env.servers.config instance)) made.1 ≡ ok instance)
      → answer_created env visits made ≡ (ok (create_server_201 s), after)
      → Answered visits s after
  unfolding answer_created
  created-Answered visits (err e, u) after s finds h = absurd (cc)
  created-Answered visits (ok instance, u) after s finds h =
      let (t, encoded, named, told) = encode_server_ok visits instance u.world in
      let answer : ◌≡◌ {A = Result (CreateServerResponse Doc) × Usecases W I}
          (ok (create_server_201 t), u) (ok (create_server_201 s), after) =
        rw encoded at h in
      let is_s : t ≡ s = cc answer in
      let is_after : u ≡ after = ap (λ p. p.1) answer in
      subst (Answered visits s) is_after
        (found-Answered visits u instance s (finds instance refl) (encoded ∙ ap ok is_s))

  -- If every instance is kept under the identifier of its config, a server that `POST` answers with
  -- 201 is the one that `GET` then answers with 200 under its
  -- identifier: the very same answer if the maps of its options are visited in the same orders,
  -- and the same identifier and status in any case.
  pub handle_create_server-handle_get_server :
      (visits : Visits) (config : Doc) (u after : Usecases W I) (s : Server Doc)
      → IsKeyed env.servers u
      → handle_create_server env visits config u ≡ (ok (create_server_201 s), after)
      → (handle_get_server env visits s.id after ≡ ok (get_server_200 s))
        × ((again : Visits)
            → (t : Server Doc) × (handle_get_server env again s.id after ≡ ok (get_server_200 t))
              × (t.id ≡ s.id)
              × (t.status ≡ s.status))
  unfolding handle_create_server Answered
  handle_create_server-handle_get_server visits config u after s keyed h =
      elim (Result-cases (oapi_to_config env.errors env.json config)) [
        | inr (e, refused) ↦ absurd (
            let bad : ◌≡◌ {A = Result (CreateServerResponse Doc) × Usecases W I}
                (err (env.errors.wrapped e (codes "failed to decode openapi server")), u)
                (ok (create_server_201 s), after) =
              rw (handle_create_server, refused) at h in
            cc bad)
        | inl (options, accepted) ↦
            created-Answered visits (create_server env.errors env.db env.servers options u) after s
              (λ instance made.
                (create_server-get_server env.errors env.db env.servers env.uuid_text options u
                  (create_server env.errors env.db env.servers options u).1 instance keyed
                  (ap (λ r. (r, (create_server env.errors env.db env.servers options u).1))
                    made)).1)
              (rw (handle_create_server, accepted) at h)
      ]

  answered_found :
      (s : Server Doc) (failed : Option Bytes)
      → (visited (json_calls 200 (server_response s), failed) ≡ write_header 404 ∷ [])
        ↔ (true ≡ false)
  unfolding visited
  answered_found s none = ground arith
  answered_found s (some e) = ground arith

  get-missing :
      (visits : Visits) (k : ℕ) (u : Usecases W I) (e : Bytes)
      → get_server env.uuid_text k u ≡ err e
      → handle_get_server env visits k u ≡ ok get_server_404
  unfolding handle_get_server
  get-missing visits k u e missing = rw (handle_get_server, missing) refl

  create-refused :
      (visits : Visits) (config : Doc) (u : Usecases W I) (e : Bytes)
      → oapi_to_config env.errors env.json config ≡ err e
      → handle_create_server env visits config u
        ≡ (err (env.errors.wrapped e (codes "failed to decode openapi server")), u)
  unfolding handle_create_server
  create-refused visits config u e refused = rw (handle_create_server, refused) refl

  -- `GET` answers 404, with no body, exactly when the registry has no instance of the identifier.
  pub wrapped_get_server-missing_iff :
      (visits : Visits) (k : ℕ) (u : Usecases W I)
      → (wrapped_get_server env visits (ok k) u ≡ write_header 404 ∷ [])
        ↔ (is_ok (get_server env.uuid_text k u) ≡ false)
  unfolding respond visit_get_server visited serve_get_server wrapped_get_server
  wrapped_get_server-missing_iff visits k u = elim (Result-cases (get_server env.uuid_text k u)) [
    | inr (e, missing) ↦ rw (get-missing visits k u e missing, missing) (ground arith)
    | inl (instance, found) ↦
        let (s, encoded, named, told) = encode_server_ok visits instance u.world in
        rw (get-found visits k u instance s found encoded, found)
          (answered_found s (env.encoded (server_response s)))
  ]

  -- A `POST` whose body does not decode, or whose config is refused, leaves the registry and the
  -- database as they are, and its answer is one error: 400 for the body, and 500 for the config.
  pub serve_create_server-refused :
      (visits : Visits) (body : Result Doc) (u : Usecases W I)
      → is_ok (body >>= oapi_to_config env.errors env.json) ≡ false
      → ((serve_create_server env visits body u).1 ≡ u)
        × (message : Bytes) × ((serve_create_server env visits body u).0
            ≡ http_error message (if is_ok body then 500 else 400) ∷ [])
  unfolding serve_create_server respond visited request_error response_error
  serve_create_server-refused visits (err e) u h = (refl, _, refl)
  serve_create_server-refused visits (ok config) u h =
      elim (Result-cases (oapi_to_config env.errors env.json config)) [
        | inr (e, refused) ↦ rw (create-refused visits config u e refused) (refl, _, refl)
        | inl (options, accepted) ↦ absurd (cc (h, accepted))
      ]
