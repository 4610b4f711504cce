-- ===== src/Http/Contract/Stays.antt =====
-- internal/delivery/http: a server that the API has created, in every later answer.
use serverpouch.Common.{
  ℕ, List, ◌∷◌, none, some, Result, ok, Option-cases, inl, inr, ◌≡◌, refl, sym, ap, ◌∙◌, subst, put,
  put_cases, nat_eq, lookup, every, occupied, true,
}
use serverpouch.Docker.Config.{Options, id}
use serverpouch.Openapi.Union.{Server, Visits}
use serverpouch.Openapi.Routes.{not_slash}
use serverpouch.Openapi.Strict.{
  Call, json_calls, server_response, get_server_200, respond, visit_get_server,
}
use serverpouch.Usecases.{Usecases}
use serverpouch.Usecases.Found.{IsKeyed}
use serverpouch.Usecases.Restart.Registered.{config_of, config_at}
use serverpouch.Usecases.Concurrent.{Keys}
use serverpouch.Http.{Env, handle_get_server, serve_get_server}
use serverpouch.Http.Answers.{handle_create_server-handle_get_server}
use serverpouch.Http.Mux.{Request, Site, serve_http}
use serverpouch.Http.Mux.Paths.{
  creating, asking, serve_http-creating, serve_http-asking, serve_create_server-created,
}
use serverpouch.Http.Contract.{
  View, Tells, Answer, unrouted, created, no_json, not_created, found, missing, no_id, listed,
  invalid, valid, Exchange, Promised, unserved, served_next,
}
use serverpouch.Http.Contract.Each.{Known, handle_get_server-at, handle_get_server-none}
use serverpouch.Http.Contract.Refines.{Run, before, next, serve_http-refines}

-- What the one view has under an identifier, the other has too.
abbrev Extends : View → View → Type 0
Extends m after = (k : ℕ) (c : Options) → m k ≡ some c → after k ≡ some c

put-Extends : (m : View) (i : ℕ) (c : Options) → m i ≡ none → Extends m (put m i (some c))
put-Extends m i c free k d there = elim (put_cases m i (some c) k) [
  | inl (same, new) ↦ absurd (cc (free, there, same))
  | inr (other, kept) ↦ kept ∙ there
]

same-Extends : {m after : View} → after ≡ m → Extends m after
same-Extends {m} same k c there = ap (λ (v : View). v k) same ∙ there

module _ {W I Doc : Type 0} (env : Env W I Doc) where
  -- What `GET` answers tells the registered config.
  pub got_at :
      (visits : Visits) (k : ℕ) (u : Usecases W I) (s : Server Doc)
      → handle_get_server env visits k u ≡ ok (get_server_200 s)
      → (c : Options) × (config_at env.servers k u ≡ some c) × Tells env visits c s
  got_at visits k u s answer = elim (Option-cases (lookup k u.instances)) [
    | inl absent ↦ absurd (cc (answer, handle_get_server-none env visits k u absent))
    | inr (i, there) ↦
        let (t, told, tells) = handle_get_server-at env visits k u i there in
        let is_s : t ≡ s = cc (told, answer) in
        (
          env.servers.config i,
          ap (config_of env.servers.config) there,
          subst (Tells env visits (env.servers.config i)) is_s tells,
        )
  ]

  pub found_at :
      (visits : Visits) (k : ℕ) (c : Options) (u : Usecases W I)
      → config_at env.servers k u ≡ some c
      → (t : Server Doc) × (handle_get_server env visits k u ≡ ok (get_server_200 t))
        × Tells env visits c t
  found_at visits k c u there = elim (Option-cases (lookup k u.instances)) [
    | inl absent ↦ absurd (cc (there, ap (config_of env.servers.config) absent))
    | inr (i, kept) ↦
        let (t, answer, tells) = handle_get_server-at env visits k u i kept in
        (
          t,
          answer,
          subst (λ d. Tells env visits d t) (cc (there, ap (config_of env.servers.config) kept))
              tells,
        )
  ]

module _ {W I Doc : Type 0} (env : Env W I Doc) (site : Site Doc) where
  Answer-Extends :
      {visits : Visits} {w : W} {m after : View} {r : Request Doc} {calls : List (Call Doc)}
      → Answer env site visits w m r calls after
      → Extends m after
  Answer-Extends (unrouted h g same) = same-Extends same
  Answer-Extends {m = m}
        (created doc options c s post path body accepted answered free tells h same) =
      subst (Extends m) (sym same) (put-Extends m (id c) c free)
  Answer-Extends (no_json e message post path body h same) = same-Extends same
  Answer-Extends (not_created doc message post path body why h same) = same-Extends same
  Answer-Extends (found params c s get route bound there tells h same) = same-Extends same
  Answer-Extends (missing params k get route bound absent h same) = same-Extends same
  Answer-Extends (no_id params e get route bound h same) = same-Extends same
  Answer-Extends (listed servers get path each all h same) = same-Extends same

  Promised-Extends :
      {m after : View} {es : List (Exchange W Doc)} → Promised env site m es after → Extends m after
  Promised-Extends unserved k c there = there
  Promised-Extends (served_next earlier (invalid e status refused h same)) k c there =
      same-Extends same k c (Promised-Extends earlier k c there)
  Promised-Extends (served_next earlier (valid passed answer)) k c there =
      Answer-Extends answer k c (Promised-Extends earlier k c there)

  -- The answer to a `POST` tells what `GET` then finds.
  created_at :
      (visits : Visits) (entries : List (ℕ × I)) (decoded : Result Doc) (u after : Usecases W I)
      (s : Server Doc)
      → IsKeyed env.servers u
      → site.refused (creating decoded) ≡ none
      → serve_http env site visits entries (creating decoded) u
        ≡ (json_calls 201 (server_response s), after)
      → (c : Options) × (config_at env.servers s.id after ≡ some c) × Tells env visits c s
  created_at visits entries decoded u after s keyed passed h =
      let (config, made, written) =
        serve_create_server-created env site visits entries decoded u after s
          (sym (serve_http-creating env site visits entries decoded u passed) ∙ h) in
      let answer : handle_get_server env visits s.id after ≡ ok (get_server_200 s) =
        (handle_create_server-handle_get_server env visits config u after s keyed made).0 in
      got_at env visits s.id after s answer

  module _ (Others : W → W → Type 0) (keys : Keys env.db env.servers Others) where
    -- Whatever requests are served before and after, one after the other, from a registry whose
    -- instances are kept under the identifiers of their configs, where the database gives each
    -- identifier once: if `POST` has answered 201 with a server, then a later `GET` with the text of
    -- its identifier answers 200 with a server of the same config under the same identifier, and
    -- changes nothing, if the validator lets both requests pass and that text is a nonempty segment
    -- of a path and is read as the identifier again.
    pub serve_http-stays :
        (w : W) (u after v : Usecases W I) (decoded other : Result Doc) (visits again : Visits)
        (entries : List (ℕ × I)) (earlier later : List (Exchange W Doc)) (s : Server Doc)
        → Known env site Others keys u
        → site.refused (creating decoded) ≡ none
        → Run env site Others keys u
            ((visits, w, creating decoded, json_calls 201 (server_response s)) ∷ earlier)
            after
        → Run env site Others keys after later v
        → site.refused (asking (env.uuid_text s.id) other) ≡ none
        → occupied (env.uuid_text s.id) ≡ true
        → every not_slash (env.uuid_text s.id) ≡ true
        → site.bind (env.uuid_text s.id) ≡ ok s.id
        → (c : Options) × (t : Server Doc) × Tells env visits c s
          × Tells env again c t
          × (t.id ≡ s.id)
          × (serve_http env site again entries (asking (env.uuid_text s.id) other) v
              ≡ (respond (visit_get_server env.encoded) (ok (get_server_200 t)), v))
    unfolding serve_get_server
    serve_http-stays before_post u after v decoded other visits again entries earlier later s known
          passed (next {v = w} visited run range served) rest passed_get filled whole bound =
        let (m, kept, views, known_w) =
          serve_http-refines env site Others keys u w (λ k. config_at env.servers k u) earlier known
            (λ k. refl) run in
        let (n, one, views_after, known_after) =
          serve_http-refines env site Others keys w after (λ k. config_at env.servers k w) _ known_w
            (λ k. refl) (next visited before range served) in
        let (c, there, tells) =
          created_at visits visited decoded w after s (λ k i at. sym (known_w k i at).0) passed
            served in
        let (p, promised, views_v, known_v) =
          serve_http-refines env site Others keys after v (λ k. config_at env.servers k after) later
            known_after (λ k. refl) rest in
        let (t, answer, told) =
          found_at env again s.id c v (views_v s.id ∙ Promised-Extends promised s.id c there) in
        (
          c,
          t,
          tells,
          told,
          told.0 ∙ sym tells.0,
          serve_http-asking env site again entries s.id other v passed_get filled whole bound
              ∙ ap (λ calls. (calls, v)) (rw (serve_get_server, answer) refl),
        )
