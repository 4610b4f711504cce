-- ===== src/Server.antt =====
-- internal/domain/server/instance.go: the status of a server instance and the type of its config.
use serverpouch.Common.{Bytes, codes, Bool, true, false, Comparable, refl, ◌≡◌, ◌↔◌, arith}

-- `ServerInstanceStatus`.
pub data Status : Type 0 where
  initializing idle starting running stopping errored : Status

-- The text of a status, as the constants give it.
abbrev pub status_text : Status → Bytes
status_text initializing = codes "initializing"
status_text idle = codes "idle"
status_text starting = codes "starting"
status_text running = codes "running"
status_text stopping = codes "stopping"
status_text errored = codes "errored"

abbrev pub status_beq : Status → Status → Bool
status_beq initializing initializing = true
status_beq idle idle = true
status_beq starting starting = true
status_beq running running = true
status_beq stopping stopping = true
status_beq errored errored = true
status_beq _ _ = false

pub status_beq_iff : (a b : Status) → (status_beq a b ≡ true) ↔ (a ≡ b)
status_beq_iff a b = ground arith

-- `==` on statuses.
instance abbrev pub status_eq : Comparable Status
status_eq = record {
  same = status_beq;
  same-refl = λ s. (status_beq_iff s s).1 refl;
  same-path = λ {j} {k}. (status_beq_iff j k).0;
}

-- `ServerInstanceTypeDocker`.
abbrev pub docker_type : Bytes
docker_type = codes "docker"
