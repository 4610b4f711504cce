-- ===== src/Http/Contract/Listed.antt =====
-- internal/delivery/http/server.go: `ListServers` keeps the contract of the API.
use serverpouch.Common.{
  ℕ, codes, List, [], ◌∷◌, none, some, ok, Option-cases, inl, inr, ◌≡◌, refl, sym, ap, ◌∙◌, arith,
  All, Any, lookup, nat_eq, ◌==◌, IsRange, All-range, Bool-cases, same_iff,
}
use serverpouch.Docker.Config.{Options, id}
use serverpouch.Openapi.Union.{Server, Visits}
use serverpouch.Openapi.Routes.Reached.{servers_path}
use serverpouch.Usecases.{Usecases, list_servers}
use serverpouch.Usecases.Restart.Registered.{config_of}
use serverpouch.Usecases.Concurrent.{Keys}
use serverpouch.Http.{Env, encode_servers, handle_list_servers, serve_list_servers}
use serverpouch.Http.Mux.{Request, Site}
use serverpouch.Http.Contract.{View, Tells, listed}
use serverpouch.Http.Contract.Each.{encode_server-Tells, Views, Known, Keeps}

module _ {W I Doc : Type 0} (env : Env W I Doc) (site : Site Doc) (Others : W → W → Type 0)
    (keys : Keys env.db env.servers Others) where
  -- What the loop of `ListServers` makes of entries of the registry.
  encode_servers-Tells :
      (visits : Visits) (m : View) (w : W) (entries : List (ℕ × I))
      → All
          (λ (entry : ℕ × I).
            (m entry.0 ≡ some (env.servers.config entry.1))
            × (id (env.servers.config entry.1) ≡ entry.0))
          entries
      → (servers : List (Server Doc)) × (encode_servers env visits (list_servers entries) w
          ≡ ok servers)
        × All (λ (s : Server Doc). (c : Options) × (m s.id ≡ some c) × Tells env visits c s) servers
        × ((k : ℕ) (i : I) → lookup k entries ≡ some i → Any (λ (s : Server Doc). s.id ≡ k) servers)
  unfolding encode_servers
  encode_servers-Tells visits m w [] h = ([], refl, tt, λ k i there. absurd (cc))
  encode_servers-Tells visits m w ((k, i) ∷ entries) ((in_view, named), h) =
      let (s, encoded, (is_id, tells)) = encode_server-Tells env visits i w in
      let (servers, rest, all, each) = encode_servers-Tells visits m w entries h in
      let at_k : s.id ≡ k = is_id ∙ named in
      (
        s ∷ servers,
        rw (encoded, rest) refl,
        ((env.servers.config i, ap m at_k ∙ in_view, (is_id, tells)), all),
        λ j other there. elim (Bool-cases (k == j)) [
          | inl same ↦ inl (at_k ∙ (same_iff k j).0 same)
          | inr apart ↦ inr (each j other (ground arith))
        ],
      )

  pub serve_list_servers-Keeps :
      (visits : Visits) (entries : List (ℕ × I)) (m : View) (r : Request Doc) (u : Usecases W I)
      → r.method ≡ codes "GET"
      → r.path ≡ servers_path
      → IsRange entries u.instances
      → Views env u m
      → Known env site Others keys u
      → Keeps env site Others keys visits u.world m r (serve_list_servers env visits entries u, u)
  unfolding serve_list_servers handle_list_servers
  serve_list_servers-Keeps visits entries m r u get path range views known =
      let registered =
        All-range
          (λ (entry : ℕ × I).
            (m entry.0 ≡ some (env.servers.config entry.1))
            × (id (env.servers.config entry.1) ≡ entry.0))
          entries u.instances range
          λ k i there.
            (sym (views k) ∙ ap (config_of env.servers.config) there, (known k i there).0) in
      let (servers, encoded, all, each) =
        encode_servers-Tells visits m u.world entries registered in
      let every_one : (k : ℕ) (c : Options)
          → m k ≡ some c
          → Any (λ (s : Server Doc). s.id ≡ k) servers =
        λ k c h. elim (Option-cases (lookup k u.instances)) [
          | inl absent ↦ absurd (
              let bad : none ≡ some c =
                sym (ap (config_of env.servers.config) absent) ∙ (views k ∙ h) in
              cc bad)
          | inr (i, there) ↦ each k i (range.1 k ∙ there)
        ] in
      (
        m,
        listed servers get path all every_one
            (rw (serve_list_servers, handle_list_servers, encoded) refl) refl,
        views,
        known,
      )
