-- ===== src/Http/Answers/Listed.antt =====
-- internal/delivery/http/server.go: what `ListServers` answers, against `GetServer`.
use serverpouch.Common.{
  ℕ, List, [], ◌∷◌, map, some, ok, ◌≡◌, refl, sym, ◌∙◌, All, lookup, IsRange, nat_eq, All-range,
}
use serverpouch.Docker.Config.{id}
use serverpouch.Usecases.{Usecases, list_servers, get_server}
use serverpouch.Usecases.Found.{IsKeyed}
use serverpouch.Openapi.Union.{Server, Visits}
use serverpouch.Openapi.Strict.{list_servers_200, get_server_200, visited}
use serverpouch.Http.{Env, encode_servers, handle_get_server, handle_list_servers}
use serverpouch.Http.Answers.{encode_server_ok, get-found}

module _ {W I Doc : Type 0} (env : Env W I Doc) where
  -- The keys of entries, and the identifiers of servers.
  abbrev pub keys : List (ℕ × I) → List ℕ
  keys entries = map (λ entry. entry.0) entries

  lookup_get :
      (k : ℕ) (u : Usecases W I) (instance : I)
      → lookup k u.instances ≡ some instance
      → get_server env.uuid_text k u ≡ ok instance
  unfolding get_server
  lookup_get k u instance bound = rw (get_server, bound) refl

  encode_servers_ok :
      (visits : Visits) (u : Usecases W I) (entries : List (ℕ × I))
      → All
          (λ (entry : ℕ × I).
            (get_server env.uuid_text entry.0 u ≡ ok entry.1)
            × (entry.0 ≡ id (env.servers.config entry.1)))
          entries
      → (servers : List (Server Doc)) × (encode_servers env visits (list_servers entries) u.world
          ≡ ok servers)
        × (map (λ s. s.id) servers ≡ keys entries)
        × All (λ s. handle_get_server env visits s.id u ≡ ok (get_server_200 s)) servers
  unfolding encode_servers
  encode_servers_ok visits u [] h = ([], refl, refl, tt)
  encode_servers_ok visits u ((k, instance) ∷ entries) ((found, keyed), h) =
      let (s, encoded, named, told) = encode_server_ok env visits instance u.world in
      let (servers, all_encoded, all_named, all_got) = encode_servers_ok visits u entries h in
      (
        s ∷ servers,
        rw (encoded, all_encoded) refl,
        cc,
        (rw (named ∙ sym keyed) (get-found env visits k u instance s found encoded), all_got),
      )

  -- If every instance is kept under the identifier of its config, `GET /api/servers` lists each
  -- instance of the registry once, in whatever order the registry is
  -- visited, and tells of each what `GET /api/servers/{id}` tells.
  pub handle_list_servers-handle_get_server :
      (visits : Visits) (visited : List (ℕ × I)) (u : Usecases W I)
      → IsKeyed env.servers u
      → IsRange visited u.instances
      → (servers : List (Server Doc)) × (handle_list_servers env visits visited u
          ≡ ok (list_servers_200 servers))
        × (map (λ s. s.id) servers ≡ keys visited)
        × All (λ s. handle_get_server env visits s.id u ≡ ok (get_server_200 s)) servers
  unfolding handle_list_servers
  handle_list_servers-handle_get_server visits visited u keyed range =
      let (servers, encoded, named, got) = encode_servers_ok visits u visited (
        All-range
          (λ (entry : ℕ × I).
            (get_server env.uuid_text entry.0 u ≡ ok entry.1)
            × (entry.0 ≡ id (env.servers.config entry.1)))
          visited u.instances range
          λ k instance bound. (lookup_get k u instance bound, keyed k instance bound)) in
      (servers, rw encoded refl, named, got)
