-- ===== src/Usecases/Restart/Samples.antt =====
-- A registry over a table in memory, before and after a `CreateServer` of internal/domain/usecases;
-- an instance is its options.
use serverpouch.Common.{
  codes, [], none, some, ◌∷◌, put, arith, subst, sym, ◌∙◌, ok, ◌≡◌, refl, prefixing,
}
use serverpouch.Docker.Config.{Options, type, id}
use serverpouch.Database
use serverpouch.Schema
use serverpouch.Schema.{queries}
use serverpouch.Schema.Memory.{Table, memory, plain, served, row_at-served}
use serverpouch.Server.{initializing, docker_type}
use serverpouch.Usecases.{Usecases, stored, create_server, new, init, listed, started, load}
use serverpouch.Usecases.Interfaces.{ServerInstances}
use serverpouch.Usecases.Restart.Rows.{Matches}
use serverpouch.Usecases.Restart.{Mirrors, create_server-Mirrors}

abbrev pub instances : ServerInstances Table Options
instances = record {
  new_instance = λ c w. (c, w);
  config = λ i. i;
  status = λ i w. initializing;
  config-new_instance = λ c w. refl;
}

abbrev pub given : Options
given = record {
  instance_id = 0;
  image = codes "itzg/minecraft";
  volumes = some [];
  ports = some [];
  env = some [];
}

abbrev pub empty : Usecases Table Options
empty = record { world = record { rows = λ k. none; next = 0 }; instances = [] }

abbrev pub stored_table : Table
stored_table = record {
  rows = put empty.world.rows 0 (some (record { id = 0; type = docker_type; config = given }));
  next = 1;
}

abbrev pub one : Usecases Table Options
one = record { world = stored_table; instances = (0, given) ∷ [] }

pub created :
    create_server prefixing
      (Database.database prefixing plain (queries memory))
      instances
      given
      empty
    ≡ (ok given, one)
unfolding create_server stored Database.create_server Schema.create_server type id
created = refl

pub empty-Mirrors : Mirrors prefixing plain memory served instances (λ c w k. refl) empty
empty-Mirrors k =
    let nothing : served.row_at empty.world k ≡ none = row_at-served empty.world k ∙ ground arith in
    subst (λ r. Matches prefixing plain r none) (sym nothing) tt

pub one-Mirrors : Mirrors prefixing plain memory served instances (λ c w k. refl) one
one-Mirrors =
    create_server-Mirrors prefixing plain memory served instances (λ c w k. refl) given empty one
      given empty-Mirrors created

pub started_empty :
    new prefixing (Database.database prefixing plain (queries memory)) instances empty.world
    ≡ ok empty
unfolding new init listed started load Database.list_servers Database.convert_rows
    Schema.get_servers Schema.checked Schema.scan_all
started_empty = refl

pub started_one :
    new prefixing (Database.database prefixing plain (queries memory)) instances stored_table
    ≡ ok one
unfolding new init listed started load Database.list_servers Database.convert_rows
    Database.convert_to_server Database.docker_options Schema.get_servers Schema.checked
    Schema.scan_all Schema.scan id
started_one = refl
