-- ===== src/Http/Contract/Started.antt =====
-- internal/delivery/http over the use cases, the database and its queries, from the start of the
-- process.
use serverpouch.Common.{ℕ, Bytes, List, Option, ok, Errors, ◌≡◌, refl, subst}
use serverpouch.Docker.Config.{Options}
use serverpouch.Database.{Row, OptionsJson}
use serverpouch.Database
use serverpouch.Schema.{Driver, queries}
use serverpouch.Schema.Serves.{Serves}
use serverpouch.Usecases.{Usecases, new}
use serverpouch.Usecases.Interfaces.{ServerInstances}
use serverpouch.Usecases.Restart.Rows.{Matches}
use serverpouch.Usecases.Restart.Registered.{config_at}
use serverpouch.Usecases.Restart.Started.{new-started, Mirrors-IsKnown}
use serverpouch.Usecases.Concurrent.{Keys}
use serverpouch.Usecases.Concurrent.Taken.{queries-Keys}
use serverpouch.Openapi.Union.{Json}
use serverpouch.Openapi.Strict.{Body}
use serverpouch.Http.{Env}
use serverpouch.Http.Mux.{Site}
use serverpouch.Http.Restarted.{over_queries}
use serverpouch.Http.Contract.{View, Exchange, Promised}
use serverpouch.Http.Contract.Each.{Views}
use serverpouch.Http.Contract.Refines.{Run, serve_http-refines}

-- Nothing else writes to the database.
abbrev pub Alone : (W : Type 0) → W → W → Type 0
Alone W w w' = ⊥

module _ {W I Doc : Type 0} (x : Errors) (values : OptionsJson Doc) (db : Driver W Doc)
    (v : Serves values db) (servers : ServerInstances W I)
    (keeps_rows : (config : Options) (w : W) (k : ℕ)
      → v.row_at (servers.new_instance config w).1 k ≡ v.row_at w k) where
  abbrev pub alone_keys : Keys (Database.database x values (queries db)) servers (Alone W)
  alone_keys =
      queries-Keys x values db v servers (Alone W) keeps_rows (λ w w' k row o h. absurd (o))

  module _ {Api : Type 0} (json : Json Api) (uuid_text : ℕ → Bytes)
      (encoded : Body Api → Option Bytes) (site : Site Api) where
    abbrev pub env : Env W I Api
    env = over_queries x values db v servers keeps_rows json uuid_text encoded

    -- Once `New` has succeeded, the answers to whatever requests are served one after the other are
    -- those that the contract promises, from the view that has the configs of the rows of the table
    -- and no other, if the database serves its statements, a new instance leaves the table alone and
    -- nothing else writes to it.
    pub new-Promised :
        (w : W) (u after : Usecases W I) (es : List (Exchange W Api))
        → new x (Database.database x values (queries db)) servers w ≡ ok u
        → Run env site (Alone W) alone_keys u es after
        → (m n : View) × ((k : ℕ) → Matches x values (v.row_at w k) (m k))
          × Promised env site m es n
          × Views env after n
    new-Promised w u after es started run =
        let (mirrors_u, rows_u) = new-started x values db v servers keeps_rows w u started in
        let (n, promised, views, known) =
          serve_http-refines env site (Alone W) alone_keys u after (λ k. config_at servers k u) es
            (Mirrors-IsKnown x values db v servers keeps_rows (Alone W)
              (λ w w' k row o h. absurd (o)) u mirrors_u)
            (λ k. refl) run in
        (
          λ k. config_at servers k u,
          n,
          λ k. subst (λ r. Matches x values r (config_at servers k u)) (rows_u k) (mirrors_u k),
          promised,
          views,
        )
