-- ===== src/Usecases.antt =====
-- internal/domain/usecases: the registry of the server instances and its operations.
-- An instance is a handle: what it does by itself is part of the state of the world, which holds
-- the database's state too. An operation runs from its call to its return with no other between.
pub mod Interfaces
pub mod Found
pub mod Closing
pub mod Concurrent
pub mod Restart
use serverpouch.Common.{
  ℕ, Bytes, codes, List, [], ◌∷◌, ◌++◌, map, Option, none, some, Result, ok, err, Errors, lookup,
  insert, nat_eq,
}
use serverpouch.Docker.Config.{Options, id}
use serverpouch.Usecases.Interfaces.{Database, ServerInstances}

-- `usecasesImpl`, less the lock, with the state of the world.
pub record Usecases (W I : Type 0) : Type 0 where
  pub world : W
  pub instances : List (ℕ × I)

module _ {W I : Type 0} (servers : ServerInstances W I) where
  -- `usc.srvInstances[config.ID()] = config.NewInstance(ctx)`, with the new instance.
  abbrev pub register : Options → Usecases W I → I × Usecases W I
  register config u =
      let (instance, world) = servers.new_instance config u.world in
      (instance, record { world = world; instances = insert (id config) instance u.instances })

  -- The loop of `init`.
  pub load : List Options → Usecases W I → Usecases W I
  load [] u = u
  load (config ∷ configs) u = load configs (register config u).1

module _ {W I : Type 0} (x : Errors) (servers : ServerInstances W I) where
  -- `init` after the call of the database.
  pub listed : Result (List Options) × W → Usecases W I → Option Bytes × Usecases W I
  unfolding load
  listed (err e, world) u =
      (some (x.wrapped e (codes "Failed to retrieve configs")), record u { world = world })
  listed (ok configs, world) u = (none, load servers configs (record u { world = world }))

module _ {W I : Type 0} (x : Errors) where
  -- `New` after the call of `init`.
  pub started : Option Bytes × Usecases W I → Result (Usecases W I)
  started (none, u) = ok u
  started (some e, u) = err (x.wrapped e (codes "failed to initialize usecases"))

module _ {W I : Type 0} (x : Errors) (db : Database W) (servers : ServerInstances W I) where
  pub init : Usecases W I → Option Bytes × Usecases W I
  unfolding listed
  init u = listed x servers (db.list_servers u.world) u

  -- `New`
  unfoldable pub new : W → Result (Usecases W I)
  unfolding init started
  new world = started x (init (record { world = world; instances = [] }))

module _ {I : Type 0} where
  -- `ListServers`; the argument is the entries of the map in the order of the loop.
  abbrev pub list_servers : List (ℕ × I) → List I
  list_servers [] = []
  list_servers ((k, instance) ∷ visited) = instance ∷ list_servers visited

module _ {W I : Type 0} where
  -- `GetServer`; `uuid_text` is the `String` of a UUID.
  unfoldable pub get_server : (uuid_text : ℕ → Bytes) → ℕ → Usecases W I → Result I
  get_server uuid_text k u = elim (lookup k u.instances) [
    | none ↦ err (codes "instance of ID \"" ++ (uuid_text k ++ codes "\" not found"))
    | some instance ↦ ok instance
  ]

module _ {W I : Type 0} (x : Errors) (servers : ServerInstances W I) where
  -- `CreateServer` after the call of the database.
  unfoldable pub stored : Result Options × W → Usecases W I → Result I × Usecases W I
  stored (err e, world) u =
      (err (x.wrapped e (codes "failed to write config to db")), record u { world = world })
  stored (ok config, world) u =
      let (instance, after) = register servers config (record u { world = world }) in
      (ok instance, after)

module _ {W I : Type 0} (x : Errors) (db : Database W) (servers : ServerInstances W I) where
  -- `CreateServer`
  unfoldable pub create_server : Options → Usecases W I → Result I × Usecases W I
  unfolding stored
  create_server config u = stored x servers (db.create_server config u.world) u
