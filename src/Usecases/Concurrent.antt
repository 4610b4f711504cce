-- ===== src/Usecases/Concurrent.antt =====
-- internal/domain/usecases/servers.go: calls of `CreateServer` side by side. A call is cut at the call
-- of the database, at `NewInstance`, at `srvMu.Lock`, at the write to the registry and at the deferred
-- `srvMu.Unlock`. Between any two of these the other calls, the readers of the registry, the instances
-- and other programs at the database may run.
pub mod Invariant
pub mod Preserved
pub mod Kept
pub mod Owned
pub mod Ends
pub mod Taken
pub mod Outcome
pub mod Samples
mod Tests
use serverpouch.Common.{
  ℕ, suc, Bytes, codes, Bool, true, false, List, Result, ok, err, Errors, ◌≡◌, insert, put, nat_eq,
  Steps,
}
use serverpouch.Docker.Config.{Options, id}
use serverpouch.Usecases.{Usecases}
use serverpouch.Usecases.Interfaces.{Database, ServerInstances}

-- Where a call stands: before it; at the call of the database; with the config that the database
-- answered; with the new instance of this config, at `srvMu.Lock`; with the lock; at the deferred
-- `srvMu.Unlock`; at its end.
pub data Call (I : Type 0) : Type 0 where
  idle : Call I
  asking : Options → Call I
  written : Options → Call I
  built : Options → I → Call I
  holding : Options → I → Call I
  leaving : I → Call I
  done : Result I → Call I

-- `srvMu`, a `sync.RWMutex`: the number of its readers, or the call that has it for itself.
pub data Lock : Type 0 where
  readers : ℕ → Lock
  writer : ℕ → Lock

-- The state of the world, the registry with its lock, and the calls by number.
pub record System (W I : Type 0) : Type 0 where
  pub world : W
  pub instances : List (ℕ × I)
  pub lock : Lock
  pub call : ℕ → Call I

module _ {W I : Type 0} where
  -- No call has begun; and the registry as an operation alone sees it.
  abbrev pub from : Usecases W I → System W I
  from u = record { world = u.world; instances = u.instances; lock = readers 0; call = λ _. idle }

  abbrev pub registry : System W I → Usecases W I
  registry s = record { world = s.world; instances = s.instances }

  abbrev pub at : ℕ → Call I → System W I → System W I
  at c p s = record s { call = put s.call c p }

module _ {W I : Type 0} (x : Errors) where
  -- `dbCfg, err := usc.db.CreateServer(ctx, cfg)` with the return on an error.
  unfoldable pub answered : ℕ → Result Options × W → System W I → System W I
  answered c (err e, world) s =
      at c (done (err (x.wrapped e (codes "failed to write config to db"))))
        (record s { world = world })
  answered c (ok config, world) s = at c (written config) (record s { world = world })

module _ {W I : Type 0} (servers : ServerInstances W I) where
  -- `inst := dbCfg.NewInstance(ctx)`
  unfoldable pub instantiated : ℕ → Options → System W I → System W I
  instantiated c config s =
      let (instance, world) = servers.new_instance config s.world in
      at c (built config instance) (record s { world = world })

-- `usc.srvInstances[dbCfg.ID()] = inst`
unfoldable pub registered : {W I : Type 0} → ℕ → Options → I → System W I → System W I
registered c config instance s =
    at c (leaving instance) (record s { instances = insert (id config) instance s.instances })

-- `Others` is what the rest of the world may do. `GetServer` and `ListServers` take the lock as
-- readers, and give it back by themselves.
pub data Step {W I : Type 0} (x : Errors) (db : Database W) (servers : ServerInstances W I)
    (Others : W → W → Type 0) (s : System W I) (t : System W I) : Type 0 where
  begin :
      (c : ℕ) (config : Options)
      → s.call c ≡ idle
      → t ≡ at c (asking config) s
      → Step x db servers Others s t
  query :
      (c : ℕ) (config : Options)
      → s.call c ≡ asking config
      → t ≡ answered x c (db.create_server config s.world) s
      → Step x db servers Others s t
  make :
      (c : ℕ) (config : Options)
      → s.call c ≡ written config
      → t ≡ instantiated servers c config s
      → Step x db servers Others s t
  lock_registry :
      (c : ℕ) (config : Options) (instance : I)
      → s.call c ≡ built config instance
      → s.lock ≡ readers 0
      → t ≡ record (at c (holding config instance) s) { lock = writer c }
      → Step x db servers Others s t
  write :
      (c : ℕ) (config : Options) (instance : I)
      → s.call c ≡ holding config instance
      → t ≡ registered c config instance s
      → Step x db servers Others s t
  unlock_registry :
      (c : ℕ) (instance : I)
      → s.call c ≡ leaving instance
      → t ≡ record (at c (done (ok instance)) s) { lock = readers 0 }
      → Step x db servers Others s t
  read_lock :
      (n : ℕ)
      → s.lock ≡ readers n
      → t ≡ record s { lock = readers (suc n) }
      → Step x db servers Others s t
  read_unlock :
      (n : ℕ)
      → s.lock ≡ readers (suc n)
      → t ≡ record s { lock = readers n }
      → Step x db servers Others s t
  other : (w : W) → Others s.world w → t ≡ record s { world = w } → Step x db servers Others s t

-- The identifiers that a database has given away. Each is given once, and stays taken, whatever
-- else happens and whether a call succeeds or not.
pub record Keys {W I : Type 0} (db : Database W) (servers : ServerInstances W I)
    (Others : W → W → Type 0) : Type 0 where
  pub taken : W → ℕ → Bool
  pub create_new :
      (config stored : Options) (w after : W)
      → db.create_server config w ≡ (ok stored, after)
      → (taken w (id stored) ≡ false) × (taken after (id stored) ≡ true)
  pub create_keeps :
      (config : Options) (w : W) (k : ℕ)
      → taken w k ≡ true
      → taken (db.create_server config w).1 k ≡ true
  pub instance_keeps :
      (config : Options) (w : W) (k : ℕ)
      → taken w k ≡ true
      → taken (servers.new_instance config w).1 k ≡ true
  pub others_keep : (w w' : W) (k : ℕ) → Others w w' → taken w k ≡ true → taken w' k ≡ true
