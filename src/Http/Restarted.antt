-- ===== src/Http/Restarted.antt =====
-- internal/delivery/http/server.go over the use cases and the database: what a client of the API
-- sees of a server after a restart of the process.
pub mod Samples
use serverpouch.Common.{
  ℕ, Bytes, codes, Option, List, [], ◌∷◌, Result, ok, err, Errors, Result-cases, inl, inr,
  ok-injective, ◌≡◌, refl, sym, ap, ◌∙◌, subst,
}
use serverpouch.Server.{status_text}
use serverpouch.Docker.Config.{Options, id, type}
use serverpouch.Database.{OptionsJson}
use serverpouch.Database
use serverpouch.Schema.{Driver, queries}
use serverpouch.Schema.Serves.{Serves}
use serverpouch.Usecases.{Usecases, new, get_server, create_server}
use serverpouch.Usecases.Interfaces.{ServerInstances}
use serverpouch.Usecases.Found.{IsKeyed, create_server-get_server}
use serverpouch.Usecases.Restart.{Mirrors, create_server-Mirrors, restart}
use serverpouch.Usecases.Restart.Started.{Mirrors-IsKeyed}
use serverpouch.Usecases.Restart.Registered.{answered}
use serverpouch.Openapi.Union.{Json, Server, Visits, config_to_oapi, server_to_oapi, oapi_to_config}
use serverpouch.Openapi.Convert.{docker_config_to_oapi}
use serverpouch.Openapi.Strict.{Body, CreateServerResponse, create_server_201, get_server_200}
use serverpouch.Http.{Env, encode_server, answer_created, handle_create_server, handle_get_server}
use serverpouch.Http.Answers.{encode_server_ok, get-found}

module _ {W I Doc : Type 0} (env : Env W I Doc) where
  answer_created-created :
      (visits : Visits) (made : Result I × Usecases W I) (after : Usecases W I) (s : Server Doc)
      → answer_created env visits made ≡ (ok (create_server_201 s), after)
      → (instance : I) × (made ≡ (ok instance, after))
        × (encode_server env visits instance after.world ≡ ok s)
  unfolding answer_created
  answer_created-created visits (err e, u) after s h = absurd (cc)
  answer_created-created visits (ok instance, u) after s h =
      let (t, encoded, named, told) = encode_server_ok env visits instance u.world in
      let answer : ◌≡◌ {A = Result (CreateServerResponse Doc) × Usecases W I}
          (ok (create_server_201 t), u) (ok (create_server_201 s), after) =
        rw encoded at h in
      let is_s : t ≡ s = cc answer in
      let is_after : u ≡ after = ap (λ p. p.1) answer in
      (
        instance,
        ap (λ v. (ok instance, v)) is_after,
        subst (λ (v : Usecases W I). encode_server env visits instance v.world ≡ ok s) is_after
            (encoded ∙ ap ok is_s),
      )

  -- A server is answered with 201 if it was created and can be encoded.
  handle_create_server-created :
      (visits : Visits) (config : Doc) (u after : Usecases W I) (s : Server Doc)
      → handle_create_server env visits config u ≡ (ok (create_server_201 s), after)
      → (options : Options) × (instance : I) × (create_server env.errors env.db env.servers options
            u
          ≡ (ok instance, after))
        × (encode_server env visits instance after.world ≡ ok s)
  unfolding handle_create_server
  handle_create_server-created visits config u after s h =
      elim (Result-cases (oapi_to_config env.errors env.json config)) [
        | inr (e, refused) ↦ absurd (
            let bad : ◌≡◌ {A = Result (CreateServerResponse Doc) × Usecases W I}
                (err (env.errors.wrapped e (codes "failed to decode openapi server")), u)
                (ok (create_server_201 s), after) =
              rw (handle_create_server, refused) at h in
            cc bad)
        | inl (options, accepted) ↦
            let (instance, made, encoded) =
              answer_created-created visits (create_server env.errors env.db env.servers options u)
                after s (rw (handle_create_server, accepted) at h) in
            (options, instance, made, encoded)
      ]

  written : Visits → Options → Doc
  written visits config =
      (env.json.marshal_ok
        (docker_config_to_oapi config (visits.ports config) (visits.volumes config))).0

  encode_server-written :
      (visits : Visits) (instance : I) (w : W)
      → encode_server env visits instance w
        ≡ ok (record {
          config = written visits (env.servers.config instance);
          id = id (env.servers.config instance);
          status = status_text (env.servers.status instance w);
        })
  unfolding encode_server server_to_oapi config_to_oapi type written
  encode_server-written visits instance w =
      let config = env.servers.config instance in
      rw
        (
          encode_server,
          (env.json.marshal_ok
              (docker_config_to_oapi config (visits.ports config) (visits.volumes config))).1,
        )
        refl

  -- The config and the identifier that are encoded are a matter of the config.
  encode_server-config :
      (visits : Visits) (one other : I) (w w' : W) (s : Server Doc)
      → env.servers.config other ≡ env.servers.config one
      → encode_server env visits one w ≡ ok s
      → (t : Server Doc) × (encode_server env visits other w' ≡ ok t)
        × (t.id ≡ s.id)
        × (t.config ≡ s.config)
  encode_server-config visits one other w w' s same h =
      let is_s = ok-injective (sym h ∙ encode_server-written visits one w) in
      (
        record {
          config = written visits (env.servers.config other);
          id = id (env.servers.config other);
          status = status_text (env.servers.status other w');
        },
        encode_server-written visits other w',
        ap id same ∙ sym (ap (λ (v : Server Doc). v.id) is_s),
        ap (written visits) same ∙ sym (ap (λ (v : Server Doc). v.config) is_s),
      )

  encode_server_id :
      (visits : Visits) (instance : I) (w : W) (s : Server Doc)
      → encode_server env visits instance w ≡ ok s
      → s.id ≡ id (env.servers.config instance)
  encode_server_id visits instance w s h =
      ap (λ (v : Server Doc). v.id) (ok-injective (sym h ∙ encode_server-written visits instance w))

module _ {W I : Type 0} (servers : ServerInstances W I) where
  answered_ok :
      (r : Result I) (o : Options)
      → answered servers r ≡ ok o
      → (i : I) × (r ≡ ok i) × (servers.config i ≡ o)
  answered_ok (err e) o h = absurd (cc)
  answered_ok (ok i) o h = (i, refl, ok-injective h)

module _ {W I Doc Api : Type 0} (x : Errors) (values : OptionsJson Doc) (db : Driver W Doc)
    (v : Serves values db) (servers : ServerInstances W I)
    (keeps_rows : (config : Options) (w : W) (k : ℕ)
      → v.row_at (servers.new_instance config w).1 k ≡ v.row_at w k)
    (json : Json Api) (uuid_text : ℕ → Bytes) (encoded : Body Api → Option Bytes) where
  -- The handlers over the database and its queries.
  abbrev pub over_queries : Env W I Api
  over_queries = record {
    errors = x;
    json = json;
    db = Database.database x values (queries db);
    servers = servers;
    uuid_text = uuid_text;
    encoded = encoded;
  }

  -- If the registry mirrors the table, the database serves its statements and a new instance leaves
  -- the table alone, then a server that `POST` has answered with 201 is there after a restart: `New`
  -- succeeds in every later world with the same rows, and `GET` then answers 200 with the same
  -- identifier and config.
  pub handle_create_server-restarted :
      (visits : Visits) (config : Api) (u after : Usecases W I) (s : Server Api) (later : W)
      → Mirrors x values db v servers keeps_rows u
      → handle_create_server over_queries visits config u ≡ (ok (create_server_201 s), after)
      → ((k : ℕ) → v.row_at later k ≡ v.row_at after.world k)
      → (again : Usecases W I) × (new x (Database.database x values (queries db)) servers later
          ≡ ok again)
        × (t : Server Api) × (handle_get_server over_queries visits s.id again
            ≡ ok (get_server_200 t))
        × (t.id ≡ s.id)
        × (t.config ≡ s.config)
  handle_create_server-restarted visits config u after s later mirrors h same =
      let keyed : IsKeyed servers u = Mirrors-IsKeyed x values db v servers keeps_rows u mirrors in
      let (options, instance, made, shown) =
        handle_create_server-created over_queries visits config u after s h in
      let (again, started, mirrored, alike) =
        restart x values db v servers keeps_rows uuid_text after later
          (create_server-Mirrors x values db v servers keeps_rows options u after instance mirrors
            made)
          same in
      let named = encode_server_id over_queries visits instance after.world s shown in
      let found =
        (create_server-get_server x (Database.database x values (queries db)) servers uuid_text
          options u after instance keyed made).1 in
      let (other, there, config_same) =
        answered_ok servers (get_server uuid_text s.id again) (servers.config instance) (
          alike s.id
          ∙ ap (answered servers) (ap (λ k. get_server uuid_text k after) named ∙ found)) in
      let (t, encoded_again, id_same, doc_same) =
        encode_server-config over_queries visits instance other after.world again.world s
          config_same shown in
      (
        again,
        started,
        t,
        get-found over_queries visits s.id again other t there encoded_again,
        id_same,
        doc_same,
      )
