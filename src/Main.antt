-- ===== src/Main.antt =====
-- cmd/serverpouch/main.go: what the process starts and gives up, in its order. The calls are
-- actions, and their outcomes are an argument.
pub mod Order
mod Tests
use serverpouch.Common.{
  Bytes, codes, Bool, true, false, List, [], ◌∷◌, ◌++◌, Option, none, some, if◌then◌else◌,
}
use serverpouch.Contexts.{
  Context, background, with_cancel, with_value, logger_key, a_logger, with_database, with_client,
  with_usecases,
}

-- How the calls of the process come out: whether a file of settings was loaded, the variables, and
-- the errors.
pub record Outside : Type 0 where
  pub loads : Bytes → Bool
  pub database_url : Option Bytes
  pub http_url : Option Bytes
  pub migrate_error : Option Bytes
  pub connect_error : Option Bytes
  pub client_error : Option Bytes
  pub usecases_error : Option Bytes
  pub router_error : Option Bytes

pub data Action : Type 0 where
  new_context cancel_context : Action  -- `context.WithCancel`, and the deferred `appCtxClose()`
  load : Bytes → Action  -- `godotenv.Load`
  migrate : Bytes → Action
  connect : Bytes → Action  -- `database.New`
  new_client : Action
  new_usecases : Context → Action  -- `usecases.New`
  close_usecases : Action  -- the deferred `usc.Close()`
  new_router : Context → Action  -- `httpRepo.New`
  serve : Bytes → Action  -- `ListenAndServe`, whose error is not read
  shutdown : Context → Action  -- the deferred `httpServer.Shutdown`
  wait_signal : Action

-- `loadEnv`
pub load_env : Outside → List Action
load_env o =
    if o.loads (codes ".env")
    then load (codes ".env") ∷ []
    else load (codes ".env") ∷ load (codes ".env.example") ∷ []

-- From the router on; a deferred call stands behind what runs before it.
pub from_router : Outside → (address : Bytes) → Context → List Action
from_router o address ctx = elim o.router_error [
  | some e ↦ new_router ctx ∷ []
  | none ↦ new_router ctx ∷ serve address ∷ wait_signal ∷ shutdown ctx ∷ []
]

-- From the use cases on.
pub from_usecases : Outside → (address : Bytes) → Context → List Action
unfolding from_router
from_usecases o address ctx = elim o.usecases_error [
  | some e ↦ new_usecases ctx ∷ []
  | none ↦ new_usecases ctx ∷ (from_router o address (with_usecases ctx) ++ close_usecases ∷ [])
]

-- From the docker client on.
pub from_client : Outside → (address : Bytes) → Context → List Action
unfolding from_usecases
from_client o address ctx = elim o.client_error [
  | some e ↦ new_client ∷ []
  | none ↦ new_client ∷ from_usecases o address (with_client ctx)
]

-- From the database on.
pub from_database : Outside → (url address : Bytes) → Context → List Action
unfolding from_client
from_database o url address ctx = elim o.connect_error [
  | some e ↦ connect url ∷ []
  | none ↦ connect url ∷ from_client o address (with_database ctx)
]

-- From the migration on.
pub from_migration : Outside → (url address : Bytes) → Context → List Action
unfolding from_database
from_migration o url address ctx = elim o.migrate_error [
  | some e ↦ migrate url ∷ []
  | none ↦ migrate url ∷ from_database o url address ctx
]

-- From the variables on.
pub looked_up : Outside → Option Bytes → Option Bytes → Context → List Action
unfolding from_migration
looked_up o none _ ctx = []
looked_up o (some url) none ctx = []
looked_up o (some url) (some address) ctx = from_migration o url address ctx

-- The context of `main` with the logger; its cancel function is number 0.
abbrev pub app_context : Context
app_context = with_value logger_key a_logger (with_cancel 0 background)

-- `main`
unfoldable pub main : Outside → List Action
unfolding load_env looked_up
main o =
    new_context
    ∷ (load_env o ++ (looked_up o o.database_url o.http_url app_context ++ cancel_context ∷ []))
