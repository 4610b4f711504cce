-- ===== src/Docker/Samples.antt =====
-- A docker instance, and a daemon that runs one container: its state is the status that an inspection
-- reports.
use serverpouch.Common.{
  ℕ, ℤ, pos, Bytes, codes, List, [], ◌∷◌, none, some, ok, err, refl, arith, IsRange, text_eq,
  int_eq,
}
use serverpouch.Server.{idle}
use serverpouch.Docker.Config.{Options, entries}
use serverpouch.Docker.Client.{Client, Container}
use serverpouch.Docker.Instance.{Instance, status_event}

abbrev pub sample : Options
sample = record {
  instance_id = 7;
  image = codes "test";
  volumes = some ((codes "/host", codes "/container") ∷ []);
  ports = some ((pos 80, codes "8080/tcp") ∷ (pos 81, codes "8081/udp") ∷ []);
  env = none;
}

abbrev pub ports : List (ℤ × Bytes)
ports = (pos 81, codes "8081/udp") ∷ (pos 80, codes "8080/tcp") ∷ []

abbrev pub volumes : List (Bytes × Bytes)
volumes = (codes "/host", codes "/container") ∷ []

pub ports-IsRange : IsRange ports (entries sample.ports)
ports-IsRange = ((refl, (refl, tt)), λ k. ground arith)

-- The text of an identifier, for runs.
abbrev pub name_of : ℕ → Bytes
name_of n = codes "seven"

-- The daemon with the containers that it lists; a stop fails once the state is "stuck".
abbrev pub daemon_with : List Container → Client Bytes
daemon_with containers = record {
  container_list = λ d. (ok containers, d);
  image_list = λ d. (ok [], d);
  image_pull = λ image d. (err (codes "no network"), d);
  container_create = λ config host name d. (ok (codes "c1"), codes "created");
  container_inspect = λ id d. (ok d, d);
  container_start = λ id d. (none, codes "running");
  container_stop = λ id d. (none, codes "exited");
  container_kill = λ id d. (some (codes "no such process"), d);
}

abbrev pub idle_one : Instance Bytes
idle_one = record {
  daemon = codes "created";
  options = sample;
  container_id = codes "c1";
  status = idle;
  log = status_event idle ∷ [];
}
