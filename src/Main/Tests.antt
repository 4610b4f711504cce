-- ===== src/Main/Tests.antt =====
-- A process whose docker client fails, and one where nothing fails.
use serverpouch.Common.{codes, false, [], ◌∷◌, none, some, ◌≡◌, refl, text_eq, ◌==◌}
use serverpouch.Main.{
  Outside, new_context, cancel_context, load, migrate, connect, new_client, new_usecases,
  close_usecases, new_router, serve, shutdown, wait_signal, main, app_context,
}
use serverpouch.Contexts.{with_database, with_client, with_usecases}
use serverpouch.Main.Order.{Running, nothing, run, main_order}

abbrev healthy : Outside
healthy = record {
  loads = λ file. file == codes ".env";
  database_url = some (codes "postgres://db");
  http_url = some (codes ":8080");
  migrate_error = none;
  connect_error = none;
  client_error = none;
  usecases_error = none;
  router_error = none;
}

healthy_run :
    main healthy
    ≡ new_context
      ∷ load (codes ".env")
      ∷ migrate (codes "postgres://db")
      ∷ connect (codes "postgres://db")
      ∷ new_client
      ∷ new_usecases (with_client (with_database app_context))
      ∷ new_router (with_usecases (with_client (with_database app_context)))
      ∷ serve (codes ":8080")
      ∷ wait_signal
      ∷ shutdown (with_usecases (with_client (with_database app_context)))
      ∷ close_usecases
      ∷ cancel_context
      ∷ []
unfolding main
healthy_run = refl

main_order_example :
    (r : Running) × (run
        (record healthy { client_error = some (codes "no docker") })
        (main (record healthy { client_error = some (codes "no docker") }))
        nothing
      ≡ some r)
    × (r.context ≡ false)
    × (r.instances ≡ false)
    × (r.server ≡ false)
main_order_example = main_order (record healthy { client_error = some (codes "no docker") })
