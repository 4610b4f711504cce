-- ===== src/Docker/Init.antt =====
-- internal/infrastructure/docker/lifecycle.go, `lifecycleInit`, and the goroutine of `NewInstance`
-- that calls it. A result `(string, error)` is a pair, so that it may be an empty ID with no error.
-- The body of a pull is read to its end: a finite list of what the decoder gives.
pub mod Keeps
pub mod Later
pub mod Outcome
mod Tests
use serverpouch.Common.{
  ℕ, ℤ, Bytes, codes, Bool, true, false, ◌&&◌, List, [], ◌∷◌, ◌++◌, Option, none, some, Result, ok,
  err, if◌then◌else◌, Errors, ◌==◌, text_eq, lookup,
}
use serverpouch.Server.{Status, errored}
use serverpouch.Docker.Config.{Options, ContainerConfig, HostConfig, to_options}
use serverpouch.Docker.Client.{Client, Container, ImageSummary, DockerEvent}
use serverpouch.Docker.Instance.{Instance, print, set_status, update_status}

-- `slices.Contains`
abbrev pub contains : List Bytes → Bytes → Bool
contains [] t = false
contains (s ∷ ss) t = if s == t then true else contains ss t

-- The first container that is named after the instance.
abbrev pub find_container : Bytes → List Container → Option Container
find_container name [] = none
find_container name (c ∷ cs) = if contains c.names name then some c else find_container name cs

-- Whether an image of the list has the reference name.
abbrev pub has_image : Bytes → List ImageSummary → Bool
has_image image [] = false
has_image image (i ∷ is) = elim (lookup (codes "org.opencontainers.image.ref.name") i.labels) [
  | none ↦ has_image image is
  | some name ↦ if name == image then true else has_image image is
]

module _ {D : Type 0} (x : Errors) where
  -- The loop over the events of a pull: the error that ends it, or none at the end of the body.
  pub read_pull : List (Result DockerEvent) → Instance D → Option Bytes × Instance D
  read_pull [] s = (none, s)
  read_pull (err e ∷ rest) s = (x.wrap (some e) (codes "Failed to decode pull progress"), s)
  read_pull (ok event ∷ rest) s =
      let shown = if event.status == [] then s else print (codes "[Docker] " ++ event.status) s in
      let more = read_pull rest shown in
      if event.error == [] then more else (some (codes "Pull errored: " ++ event.error), s)

pub quoted : Bytes → Bytes → Bytes
quoted words image = words ++ (codes " \"" ++ (image ++ codes "\""))

module _ {D : Type 0} where
  -- What the goroutine does with the result, up to the call of `lifecycleInitAttach`.
  pub initialized : (Bytes × Option Bytes) × Instance D → Instance D
  initialized ((id, some e), s) = set_status errored s
  initialized ((id, none), s) = record s { container_id = id }

-- `fmt` and the UUID library give the text of an identifier. The lists are the entries of the
-- options' maps of ports and volumes, as the loops of `toOptions` visit them.
module _ {D : Type 0} (x : Errors) (client : Client D) (uuid_string : ℕ → Bytes)
    (ports : List (ℤ × Bytes)) (volumes : List (Bytes × Bytes)) where
  pulled : Result (List (Result DockerEvent)) × D → Instance D → Option Bytes × Instance D
  unfolding read_pull quoted
  pulled (err e, daemon) s = (
    x.wrap (some e) (quoted (codes "Failed to pull image") s.options.image),
    record s { daemon = daemon },
  )
  pulled (ok events, daemon) s = read_pull x events (record s { daemon = daemon })

  -- "Since we couldn't find the image, we'll pull it."
  pub pull_image : Instance D → Option Bytes × Instance D
  unfolding pulled quoted
  pull_image s =
      pulled (client.image_pull s.options.image s.daemon)
        (print (quoted (codes "Pulling image") s.options.image) s)

  created : Result Bytes × D → Instance D → (Bytes × Option Bytes) × Instance D
  created (err e, daemon) s =
      (([], x.wrap (some e) (codes "Unable to create container")), record s { daemon = daemon })
  created (ok id, daemon) s = ((id, none), record s { daemon = daemon })

  -- "Create the container."
  pub create_container : Instance D → (Bytes × Option Bytes) × Instance D
  unfolding created
  create_container s =
      let (config, host) = to_options s.options ports volumes in
      created (client.container_create config host (uuid_string s.options.instance_id) s.daemon) s

  after_pull : Option Bytes × Instance D → (Bytes × Option Bytes) × Instance D
  unfolding create_container
  after_pull (some e, s) = (([], some e), s)
  after_pull (none, s) = create_container s

  images_listed : Result (List ImageSummary) × D → Instance D → (Bytes × Option Bytes) × Instance D
  unfolding create_container pull_image after_pull
  images_listed (err e, daemon) s =
      (([], x.wrap (some e) (codes "Unable to list images")), record s { daemon = daemon })
  images_listed (ok images, daemon) s =
      if has_image s.options.image images
      then create_container (record s { daemon = daemon })
      else after_pull (pull_image (record s { daemon = daemon }))

  -- What follows where no container is named after the instance.
  pub without_container : Instance D → (Bytes × Option Bytes) × Instance D
  unfolding images_listed
  without_container s = images_listed (client.image_list s.daemon) s

  -- `err` is nil where the image does not match, since the containers could be listed.
  found : Option Container → Instance D → (Bytes × Option Bytes) × Instance D
  unfolding without_container
  found none s = without_container s
  found (some c) s =
      if c.image == s.options.image
      then ((c.id, none), s)
      else (([], x.wrap none (codes "Found non-matching container image: " ++ c.image)), s)

  containers_listed : Result (List Container) × D → Instance D → (Bytes × Option Bytes) × Instance D
  unfolding found
  containers_listed (err e, daemon) s =
      (([], x.wrap (some e) (codes "Unable to list containers")), record s { daemon = daemon })
  containers_listed (ok containers, daemon) s =
      found (find_container (b'/' ∷ uuid_string s.options.instance_id) containers)
        (record s { daemon = daemon })

  -- `lifecycleInit` between the acquisition and the release of its action.
  unfoldable pub init_body : Instance D → (Bytes × Option Bytes) × Instance D
  unfolding containers_listed
  init_body s = containers_listed (client.container_list s.daemon) s

  -- `lifecycleInit`; the deferred `actionDone` updates the status.
  unfoldable pub lifecycle_init : Bool → Instance D → (Bytes × Option Bytes) × Instance D
  unfolding init_body update_status
  lifecycle_init granted s =
      if granted
      then (let (r, s') = init_body s in (r, update_status client s'))
      else (([], x.wrap (some (codes "context closed")) (codes "failed to acquire init action")), s)

  -- The goroutine of `NewInstance`, up to its call of `lifecycleInitAttach`. `others` is what the
  -- actions and the timer do between the release of the action, or its refusal, and the assignment of
  -- the ID or the status `errored`.
  unfoldable pub run_init : (others : Instance D → Instance D) → Bool → Instance D → Instance D
  unfolding initialized lifecycle_init
  run_init others granted s =
      let (r, after) = lifecycle_init granted s in initialized (r, others after)
