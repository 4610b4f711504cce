-- ===== src/Schema/Migrate.antt =====
-- internal/infrastructure/database/schema/schema.go, `Migrate`, over database/sql and the library of
-- the migrations.
use serverpouch.Common.{ℕ, Bytes, List, [], ◌∷◌, Option, some, Result, ok, err}

-- The calls: `sql.Open`, `migrate.Exec` and the deferred `Close`.
pub data SqlCall : Type 0 where
  open_sql exec_migrations close_sql : SqlCall

-- `Migrate`: its calls, the number of migrations and the error; `exec` is what the library answers on
-- the connection.
unfoldable pub migrate :
    {Conn : Type 0} → Result Conn → (Conn → ℕ × Option Bytes) → List SqlCall × ℕ × Option Bytes
migrate (err e) exec = (open_sql ∷ [], 0, some e)
migrate (ok conn) exec =
    let (applied, error) = exec conn in
    (open_sql ∷ exec_migrations ∷ close_sql ∷ [], applied, error)
