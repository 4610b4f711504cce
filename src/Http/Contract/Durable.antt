-- ===== src/Http/Contract/Durable.antt =====
-- internal/delivery/http over the use cases and the database, through any requests and a restart of the
-- process.
mod Tests
use serverpouch.Common.{
  ℕ, Bytes, codes, List, [], ◌∷◌, Option, none, some, Result, ok, err, Errors, Result-cases,
  Option-cases, inl, inr, ok-injective, ◌≡◌, refl, sym, ap, ◌∙◌, subst,
}
use serverpouch.Docker.Config.{Options}
use serverpouch.Database.{Row, OptionsJson, convert_to_server}
use serverpouch.Database
use serverpouch.Schema.{Driver, queries}
use serverpouch.Schema.Serves.{Serves}
use serverpouch.Usecases.{Usecases, new, create_server}
use serverpouch.Usecases.Interfaces.{ServerInstances}
use serverpouch.Usecases.Restart.{Mirrors, IsReadable, new-Mirrors}
use serverpouch.Usecases.Restart.Rows.{Matches, Matches-unique}
use serverpouch.Usecases.Restart.Registered.{config_at}
use serverpouch.Usecases.Restart.Backed.{IsStored, Backed, Mirrors-Backed, create_server-Backed}
use serverpouch.Usecases.Concurrent.{Keys}
use serverpouch.Usecases.Restart.Started.{new-started}
use serverpouch.Openapi.Union.{Json, Server, Visits}
use serverpouch.Openapi.Routes.{
  Found, matched, not_found, not_allowed, to_list_servers, to_create_server, to_get_server,
  handler_from_mux,
}
use serverpouch.Openapi.Strict.{Body, get_server_200}
use serverpouch.Http.{Env, handle_get_server}
use serverpouch.Http.Mux.{Request, Site, routed, validated, serve_http}
use serverpouch.Http.Restarted.{over_queries}
use serverpouch.Http.Contract.{Tells, Exchange}
use serverpouch.Http.Contract.Stays.{got_at, found_at}
use serverpouch.Http.Contract.Kept.{Run-keeps}
use serverpouch.Http.Contract.Refines.{Run, before, next}
use serverpouch.Http.Contract.Started.{Alone, alone_keys}

module _ {W I Doc Api : Type 0} (x : Errors) (values : OptionsJson Doc) (db : Driver W Doc)
    (v : Serves values db) (servers : ServerInstances W I)
    (keeps_rows : (config : Options) (w : W) (k : ℕ)
      → v.row_at (servers.new_instance config w).1 k ≡ v.row_at w k)
    (json : Json Api) (uuid_text : ℕ → Bytes) (encoded : Body Api → Option Bytes)
    (site : Site Api) where
  -- `New` over a table with the row of a config registers the config.
  new-registers :
      (w : W) (u : Usecases W I) (k : ℕ) (c : Options)
      → new x (Database.database x values (queries db)) servers w ≡ ok u
      → IsStored x values db v servers keeps_rows w k c
      → config_at servers k u ≡ some c
  new-registers w u k c started (row, there, read) =
      let (mirrors, rows) = new-started x values db v servers keeps_rows w u started in
      Matches-unique x values (some row) (config_at servers k u) (some c)
        (subst (λ r. Matches x values r (config_at servers k u)) (rows k ∙ there) (mirrors k)) read

  -- Whatever requests have been served since the process has started: if the process is started again
  -- in a world with the same rows, and `New` succeeds again, a server that `GET` has answered with 200
  -- is answered with 200 under the same identifier, with the same config, if the database serves its
  -- statements, a new instance leaves the table alone and nothing else writes to it.
  pub new-durable :
      (w later : W) (u after again : Usecases W I) (es : List (Exchange W Api))
      (visits others : Visits) (k : ℕ) (s : Server Api)
      → new x (Database.database x values (queries db)) servers w ≡ ok u
      → Run
          (over_queries x values db v servers keeps_rows json uuid_text encoded)
          site
          (Alone W)
          (alone_keys x values db v servers keeps_rows)
          u
          es
          after
      → handle_get_server
          (over_queries x values db v servers keeps_rows json uuid_text encoded)
          visits
          k
          after
        ≡ ok (get_server_200 s)
      → ((j : ℕ) → v.row_at later j ≡ v.row_at after.world j)
      → new x (Database.database x values (queries db)) servers later ≡ ok again
      → (c : Options) × (t : Server Api) × Tells
          (over_queries x values db v servers keeps_rows json uuid_text encoded)
          visits
          c
          s
        × Tells (over_queries x values db v servers keeps_rows json uuid_text encoded) others c t
        × (handle_get_server
              (over_queries x values db v servers keeps_rows json uuid_text encoded)
              others
              k
              again
            ≡ ok (get_server_200 t))
  new-durable w later u after again es visits others k s started run got same restarted =
      let env = over_queries x values db v servers keeps_rows json uuid_text encoded in
      let (mirrors, rows) = new-started x values db v servers keeps_rows w u started in
      let backed =
        Run-keeps env site (Backed x values db v servers keeps_rows)
          (create_server-Backed x values db v servers keeps_rows) (Alone W)
          (alone_keys x values db v servers keeps_rows) u after es
          (Mirrors-Backed x values db v servers keeps_rows u mirrors) run in
      let (c, there, told) = got_at env visits k after s got in
      let (row, stored, read) = backed k c there in
      let (t, answer, tells) =
        found_at env others k c again
          (new-registers later again k c restarted (row, same k ∙ stored, read)) in
      (c, t, told, tells, answer)
