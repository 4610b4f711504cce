-- ===== src/Docker/Init/Keeps.antt =====
-- What the initialization of an instance keeps, whatever docker answers.
use serverpouch.Common.{
  ℕ, ℤ, Bytes, codes, List, [], ◌∷◌, Option, none, some, Result, ok, err, Errors, ◌==◌, text_eq,
  if_both,
}
use serverpouch.Docker.Config.{ContainerConfig, HostConfig, to_options}
use serverpouch.Docker.Client.{Client, Container, ImageSummary, DockerEvent}
use serverpouch.Docker.Instance.{Instance, print}
use serverpouch.Docker.Init.{
  has_image, quoted, read_pull, pull_image, pulled, created, create_container, after_pull,
  images_listed, without_container, found, containers_listed, init_body,
}

module _ {D : Type 0} (x : Errors) (client : Client D) (uuid_string : ℕ → Bytes)
    (ports : List (ℤ × Bytes)) (volumes : List (Bytes × Bytes)) where
  -- What the initialization keeps: whatever neither an answer of docker nor a print changes.
  module _ {ℓ} (P : Instance D → Type ℓ)
      (daemon : (s : Instance D) (d : D) → P s → P (record s { daemon = d }))
      (prints : (s : Instance D) (text : Bytes) → P s → P (print text s)) where
    read_pull_keeps :
        (events : List (Result DockerEvent)) (s : Instance D) → P s → P (read_pull x events s).1
    unfolding read_pull
    read_pull_keeps [] s h = h
    read_pull_keeps (err e ∷ rest) s h = h
    read_pull_keeps (ok event ∷ rest) s h =
        if_both (λ (r : Option Bytes × Instance D). P r.1) (event.error == [])
          (read_pull_keeps rest _ (if_both P (event.status == []) h (prints s _ h))) h

    create_container_keeps :
        (s : Instance D) → P s → P (create_container x client uuid_string ports volumes s).1
    unfolding create_container
    create_container_keeps s h =
        go (client.container_create config.0 config.1 (uuid_string s.options.instance_id) s.daemon)
      where
        config : ContainerConfig × HostConfig
        config = to_options s.options ports volumes

        go : (r : Result Bytes × D) → P (created x client uuid_string ports volumes r s).1
        go (err e, d) = daemon s d h
        go (ok id, d) = daemon s d h

    pulled_keeps :
        (r : Result (List (Result DockerEvent)) × D) (s : Instance D)
        → P s
        → P (pulled x client uuid_string ports volumes r s).1
    unfolding pulled
    pulled_keeps (err e, d) s h = daemon s d h
    pulled_keeps (ok events, d) s h =
        read_pull_keeps events (record s { daemon = d }) (daemon s d h)

    after_pull_keeps :
        (r : Option Bytes × Instance D)
        → P r.1
        → P (after_pull x client uuid_string ports volumes r).1
    unfolding after_pull
    after_pull_keeps (some e, s) h = h
    after_pull_keeps (none, s) h = create_container_keeps s h

    pull_image_keeps :
        (s : Instance D) → P s → P (pull_image x client uuid_string ports volumes s).1
    unfolding pull_image
    pull_image_keeps s h =
        pulled_keeps (client.image_pull s.options.image s.daemon)
          (print (quoted (codes "Pulling image") s.options.image) s) (prints s _ h)

    images_listed_keeps :
        (r : Result (List ImageSummary) × D) (s : Instance D)
        → P s
        → P (images_listed x client uuid_string ports volumes r s).1
    unfolding images_listed
    images_listed_keeps (err e, d) s h = daemon s d h
    images_listed_keeps (ok images, d) s h =
        if_both (λ (r : (Bytes × Option Bytes) × Instance D). P r.1)
          (has_image s.options.image images)
          (create_container_keeps (record s { daemon = d }) (daemon s d h))
          (after_pull_keeps
            (pull_image x client uuid_string ports volumes (record s { daemon = d }))
            (pull_image_keeps (record s { daemon = d }) (daemon s d h)))

    found_keeps :
        (c : Option Container) (s : Instance D)
        → P s
        → P (found x client uuid_string ports volumes c s).1
    unfolding found without_container
    found_keeps none s h = images_listed_keeps (client.image_list s.daemon) s h
    found_keeps (some c) s h =
        if_both (λ (r : (Bytes × Option Bytes) × Instance D). P r.1) (c.image == s.options.image) h
          h

    containers_listed_keeps :
        (r : Result (List Container) × D) (s : Instance D)
        → P s
        → P (containers_listed x client uuid_string ports volumes r s).1
    unfolding containers_listed
    containers_listed_keeps (err e, d) s h = daemon s d h
    containers_listed_keeps (ok containers, d) s h =
        found_keeps _ (record s { daemon = d }) (daemon s d h)

    pub init_body_keeps :
        (s : Instance D) → P s → P (init_body x client uuid_string ports volumes s).1
    unfolding init_body
    init_body_keeps s h = containers_listed_keeps (client.container_list s.daemon) s h
