-- ===== src/Usecases/Restart/Tests.antt =====
-- The restart of the registry over a table in memory.
use serverpouch.Common.{ℕ, pos, ok, ◌≡◌, ◌↔◌, refl, prefixing, format_int}
use serverpouch.Docker.Config.{Options}
use serverpouch.Database
use serverpouch.Schema.{queries}
use serverpouch.Schema.Memory.{Table, memory, plain, served}
use serverpouch.Usecases.{Usecases, new, get_server}
use serverpouch.Usecases.Restart.Rows.{Matches}
use serverpouch.Usecases.Restart.Registered.{answered, config_at}
use serverpouch.Usecases.Restart.{Mirrors, IsReadable, create_server-Mirrors, restart}
use serverpouch.Usecases.Restart.Started.{new-ok_iff}
use serverpouch.Usecases.Restart.Samples.{
  instances, given, empty, stored_table, one, created, empty-Mirrors, one-Mirrors,
}

create_server-Mirrors_example :
    Matches prefixing plain (served.row_at one.world 0) (config_at instances 0 one)
create_server-Mirrors_example =
    create_server-Mirrors prefixing plain memory served instances (λ c w k. refl) given empty one
      given empty-Mirrors created 0

restart_example :
    (again : Usecases Table Options) × (new prefixing
        (Database.database prefixing plain (queries memory))
        instances
        stored_table
      ≡ ok again)
    × Mirrors prefixing plain memory served instances (λ c w k. refl) again
    × ((k : ℕ)
        → answered instances (get_server (λ j. format_int (pos j)) k again)
          ≡ answered instances (get_server (λ j. format_int (pos j)) k one))
restart_example =
    restart prefixing plain memory served instances (λ c w k. refl) (λ k. format_int (pos k)) one
      stored_table one-Mirrors (λ k. refl)

new-ok_iff_example :
    ((u : Usecases Table Options) × (new prefixing
          (Database.database prefixing plain (queries memory))
          instances
          stored_table
        ≡ ok u))
    ↔ IsReadable prefixing plain memory served instances (λ c w k. refl) stored_table
new-ok_iff_example = new-ok_iff prefixing plain memory served instances (λ c w k. refl) stored_table
