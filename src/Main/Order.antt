-- ===== src/Main/Order.antt =====
-- cmd/serverpouch/main.go: the order of start and end.
use serverpouch.Common.{
  Bytes, Bool, true, false, ◌&&◌, not, List, [], ◌∷◌, Option, none, some, Result, ok, err, ◌≡◌,
  refl, arith, if◌then◌else◌,
}
use serverpouch.Contexts.{
  Value, is_done, database_from_context, client_from_context, usecases_from_context,
  instance_context, with_database, with_client, with_usecases,
}
use serverpouch.Main.{
  Outside, Action, new_context, cancel_context, load, migrate, connect, new_client, new_usecases,
  close_usecases, new_router, serve, shutdown, wait_signal, main,
}

-- What has been set up and not been given up.
pub record Running : Type 0 where
  pub context : Bool
  pub migrated_schema : Bool
  pub connection : Bool
  pub client : Bool
  pub instances : Bool
  pub router : Bool
  pub server : Bool

abbrev pub nothing : Running
nothing = record {
  context = false;
  migrated_schema = false;
  connection = false;
  client = false;
  instances = false;
  router = false;
  server = false;
}

-- Whether a lookup in a context does not panic.
abbrev pub finds : Result Value → Bool
finds (ok v) = true
finds (err e) = false

-- What an action needs: the use cases need the connection and the client, the server needs the
-- router, which needs the use cases; they are given up in the other order, each once. The use cases
-- look the database up in their context, the router looks the use cases up in its own, and either
-- makes instances, whose context has the docker client. `Shutdown` waits for the requests that run
-- if its context is not cancelled.
abbrev pub needs : Action → Running → Bool
needs new_context r = not r.context
needs (load file) r = r.context
needs (migrate url) r = r.context
needs (connect url) r = r.migrated_schema
needs new_client r = r.connection
needs (new_usecases ctx) r =
    r.connection
    && (r.client
        && (not r.instances
            && (finds (database_from_context ctx)
                && finds (client_from_context (instance_context 1 ctx)))))
needs (new_router ctx) r =
    r.instances
    && (finds (usecases_from_context ctx) && finds (client_from_context (instance_context 1 ctx)))
needs (serve address) r = r.router && not r.server
needs wait_signal r = r.server
needs (shutdown ctx) r = r.server && not (is_done (λ n. not r.context) ctx)
needs close_usecases r = r.instances && not r.server
needs cancel_context r = r.context && not r.instances

abbrev pub is_none {ℓ} : {A : Type ℓ} → Option A → Bool
is_none none = true
is_none (some a) = false

-- What it changes, by its outcome.
abbrev pub after : Outside → Action → Running → Running
after o new_context r = record r { context = true }
after o (load file) r = r
after o (migrate url) r = record r { migrated_schema = is_none o.migrate_error }
after o (connect url) r = record r { connection = is_none o.connect_error }
after o new_client r = record r { client = is_none o.client_error }
after o (new_usecases ctx) r = record r { instances = is_none o.usecases_error }
after o (new_router ctx) r = record r { router = is_none o.router_error }
after o (serve address) r = record r { server = true }
after o wait_signal r = r
after o (shutdown ctx) r = record r { server = false }
after o close_usecases r = record r { instances = false }
after o cancel_context r = record r { context = false }

-- The actions in their order: `none` if one comes where what it needs is not there.
abbrev pub run : Outside → List Action → Running → Option Running
run o [] r = some r
run o (a ∷ rest) r = let next = run o rest (after o a r) in if needs a r then next else none

module _ (f : Bytes → Bool) where
  abbrev outside : (d h m c k u r : Option Bytes) → Outside
  outside d h m c k u r = record {
    loads = f;
    database_url = d;
    http_url = h;
    migrate_error = m;
    connect_error = c;
    client_error = k;
    usecases_error = u;
    router_error = r;
  }

  abbrev Ends : Outside → Type 0
  Ends o =
      (r : Running) × (run o (main o) nothing ≡ some r)
      × (r.context ≡ false)
      × (r.instances ≡ false)
      × (r.server ≡ false)

  ends : (d h m c k u r : Option Bytes) → Ends (outside d h m c k u r)
  unfolding main database_from_context client_from_context usecases_from_context instance_context
      with_database with_client with_usecases
  ends none h m c k u r = (nothing, ground arith, refl, refl, refl)
  ends (some d) none m c k u r = (nothing, ground arith, refl, refl, refl)
  ends (some d) (some h) (some m) c k u r = (nothing, ground arith, refl, refl, refl)
  ends (some d) (some h) none (some c) k u r =
      (record nothing { migrated_schema = true }, ground arith, refl, refl, refl)
  ends (some d) (some h) none none (some k) u r =
      (record nothing { migrated_schema = true; connection = true }, ground arith, refl, refl, refl)
  ends (some d) (some h) none none none (some u) r = (
    record nothing { migrated_schema = true; connection = true; client = true },
    ground arith,
    refl,
    refl,
    refl,
  )
  ends (some d) (some h) none none none none (some r) = (
    record nothing { migrated_schema = true; connection = true; client = true },
    ground arith,
    refl,
    refl,
    refl,
  )
  ends (some d) (some h) none none none none none = (
    record nothing { migrated_schema = true; connection = true; client = true; router = true },
    ground arith,
    refl,
    refl,
    refl,
  )

-- Whatever fails, each action of the process finds what it needs: the database is connected to
-- after the migration, the instances are loaded after the database and the docker client, requests
-- are served only when the instances are loaded, and no lookup in a context panics, neither of the
-- database nor of the use cases, nor of the docker client in the context of an instance; and when
-- the process ends, the server is shut down with a context that is not cancelled, then the instances
-- are closed, then the context is cancelled, each if it was set up.
pub main_order :
    (o : Outside)
    → (r : Running) × (run o (main o) nothing ≡ some r)
      × (r.context ≡ false)
      × (r.instances ≡ false)
      × (r.server ≡ false)
main_order o =
    ends o.loads o.database_url o.http_url o.migrate_error o.connect_error o.client_error
      o.usecases_error o.router_error
