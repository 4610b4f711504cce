-- ===== src/Usecases/Interfaces.antt =====
-- What the use cases call: `Database` of internal/infrastructure/database/database.go and
-- `ServerInstance` and `ServerInstanceConfig` of internal/domain/server/instance.go.
use serverpouch.Common.{List, Result, ◌≡◌}
use serverpouch.Server.{Status}
use serverpouch.Docker.Config.{Options}

-- The calls of `database.Database` on the state of the world.
pub record Database (W : Type 0) : Type 0 where
  pub list_servers : W → Result (List Options) × W
  pub create_server : Options → W → Result Options × W

-- The instances: `NewInstance`, `Config` and `Status`. The config of an instance is never written
-- again.
pub record ServerInstances (W I : Type 0) : Type 0 where
  pub new_instance : Options → W → I × W
  pub config : I → Options
  pub status : I → W → Status
  pub config-new_instance : (c : Options) (w : W) → config (new_instance c w).0 ≡ c
