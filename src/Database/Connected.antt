-- ===== src/Database/Connected.antt =====
-- internal/infrastructure/database/database.go, `New`.
use serverpouch.Common.{codes, Result, ok, err, Errors}
use serverpouch.Usecases.Interfaces.{Database}
use serverpouch.Database.{OptionsJson, database}
use serverpouch.Schema.{Driver, queries}

-- `New` after `pgx.Connect`, whose connection is the driver of the queries.
unfoldable pub new :
    {W Doc : Type 0} → Errors → OptionsJson Doc → Result (Driver W Doc) → Result (Database W)
new x values (err e) = err (x.wrapped e (codes "failed to connect to database"))
new x values (ok conn) = ok (database x values (queries conn))
