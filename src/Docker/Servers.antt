-- ===== src/Docker/Servers.antt =====
-- internal/infrastructure/docker: docker's instances as the server instances of the use cases. A
-- handle is a position in the list of all instances, with the options, which stay as they are.
use serverpouch.Common.{ℕ, zero, suc, List, [], ◌∷◌, ◌++◌, refl}
use serverpouch.Server.{Status, initializing}
use serverpouch.Docker.Config.{Options}
use serverpouch.Docker.Instance.{Instance, new_instance}
use serverpouch.Usecases.Interfaces.{ServerInstances}

module _ {D : Type 0} where
  abbrev count : List (Instance D) → ℕ
  count [] = 0
  count (s ∷ all) = suc (count all)

  -- `Status` of the instance at a position.
  abbrev status_at : ℕ → List (Instance D) → Status
  status_at n [] = initializing
  status_at zero (s ∷ all) = s.status
  status_at (suc n) (s ∷ all) = status_at n all

module _ {S D : Type 0} (daemon : D) where
  -- `NewInstance`, `Config` and `Status`; the world is the database's state and the instances.
  unfoldable pub docker_servers : ServerInstances (S × List (Instance D)) (ℕ × Options)
  unfolding new_instance
  docker_servers = record {
    new_instance = λ options world.
        ((count world.1, options), (world.0, world.1 ++ new_instance daemon options ∷ []));
    config = λ handle. handle.1;
    status = λ handle world. status_at handle.0 world.1;
    config-new_instance = λ options world. refl;
  }
