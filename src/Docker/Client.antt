-- ===== src/Docker/Client.antt =====
-- The docker client (client.APIClient of github.com/docker/docker), as far as the code calls it.
-- Each call takes the state of the daemon and gives its answer with the state after it.
use serverpouch.Common.{Bytes, List, Option, Result, text_eq}
use serverpouch.Docker.Config.{ContainerConfig, HostConfig}

-- The fields of `types.Container` that the code reads.
pub record Container : Type 0 where
  pub id : Bytes
  pub names : List Bytes
  pub image : Bytes

-- The field of `image.Summary` that the code reads.
pub record ImageSummary : Type 0 where
  pub labels : List (Bytes × Bytes)

-- `dockerEvent` of internal/infrastructure/docker/lifecycle.go, less the progress, which is not
-- read.
pub record DockerEvent : Type 0 where
  pub status : Bytes
  pub error : Bytes

-- `image_pull` answers with what the decoder reads from the body up to its end: events, or the
-- errors of values that are no event.
pub record Client (D : Type 0) : Type 0 where
  pub container_list : D → Result (List Container) × D
  pub image_list : D → Result (List ImageSummary) × D
  pub image_pull : Bytes → D → Result (List (Result DockerEvent)) × D
  pub container_create : ContainerConfig → HostConfig → Bytes → D → Result Bytes × D
  pub container_inspect : Bytes → D → Result Bytes × D
  pub container_start : Bytes → D → Option Bytes × D
  pub container_stop : Bytes → D → Option Bytes × D
  pub container_kill : Bytes → D → Option Bytes × D
