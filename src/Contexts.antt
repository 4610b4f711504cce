-- ===== src/Contexts.antt =====
-- internal/infrastructure/database/context.go, internal/infrastructure/docker/context.go and
-- internal/domain/usecases/context.go: what is handed on in a `context.Context`. The keys are
-- addresses of distinct variables, and the logger's is its library's.
use serverpouch.Common.{
  ℕ, codes, Bool, true, false, ◌||◌, Option, none, some, Result, ok, err, if◌then◌else◌,
}

pub data Key : Type 0 where
  database_key client_key usecases_key logger_key : Key

-- The values that the process makes, one of each interface.
pub data Value : Type 0 where
  a_database a_client a_usecases a_logger : Value

-- A context is the parents that it was made from; a cancel function has a number.
pub data Context : Type 0 where
  background : Context
  with_cancel : ℕ → Context → Context
  with_value : Key → Value → Context → Context

abbrev pub same_key : Key → Key → Bool
same_key database_key database_key = true
same_key client_key client_key = true
same_key usecases_key usecases_key = true
same_key logger_key logger_key = true
same_key _ _ = false

-- `ctx.Value(key)`
abbrev pub value : Context → Key → Option Value
value background key = none
value (with_cancel n parent) key = value parent key
value (with_value held v parent) key = if same_key held key then some v else value parent key

-- Whether `ctx.Done()` is closed, by the cancel functions that were called.
abbrev pub is_done : (ℕ → Bool) → Context → Bool
is_done called background = false
is_done called (with_cancel n parent) = called n || is_done called parent
is_done called (with_value key v parent) = is_done called parent

-- `WithDatabase` and `DatabaseFromContext`; the error is the panic.
unfoldable pub with_database : Context → Context
with_database ctx = with_value database_key a_database ctx

unfoldable pub database_from_context : Context → Result Value
database_from_context ctx = elim (value ctx database_key) [
  | some a_database ↦ ok a_database
  | _ ↦ err (codes "Client not found in context!")
]

-- `WithClient` and `ClientFromContext`
unfoldable pub with_client : Context → Context
with_client ctx = with_value client_key a_client ctx

unfoldable pub client_from_context : Context → Result Value
client_from_context ctx = elim (value ctx client_key) [
  | some a_client ↦ ok a_client
  | _ ↦ err (codes "Client not found in context!")
]

-- `WithUsecases` and `UsecasesFromContext`
unfoldable pub with_usecases : Context → Context
with_usecases ctx = with_value usecases_key a_usecases ctx

unfoldable pub usecases_from_context : Context → Result Value
usecases_from_context ctx = elim (value ctx usecases_key) [
  | some a_usecases ↦ ok a_usecases
  | _ ↦ err (codes "Usecases not found in context!")
]

-- The context of an instance, which `NewInstance` makes of the one that it is given; `n` is the
-- number of its cancel function.
unfoldable pub instance_context : ℕ → Context → Context
instance_context n ctx = with_value logger_key a_logger (with_cancel n ctx)
