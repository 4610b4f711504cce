-- ===== src/Docker/Config/Published.antt =====
-- What `toOptions` asks docker to expose, publish and mount.
use serverpouch.Common.{
  same_iff, ℤ, Bytes, List, [], ◌∷◌, ◌++◌, map, some, ◌≡◌, ◌↔◌, refl, sym, ◌∙◌, ap, arith,
  Bool-cases, inl, inr, ◌==◌, int_eq, text_eq, insert, lookup, lookup-insert, Always, Always-insert,
  IsRange, All, All-range, append_assoc, append-nil,
}
use serverpouch.Docker.Config.{
  Options, entries, ContainerConfig, HostConfig, PortBinding, port_binding, no_config,
  no_host_config, range_ports, range_volumes, to_options,
}

-- The container port is bound to by the host port of the options' map.
abbrev pub Binds : List (ℤ × Bytes) → ℤ × Bytes → Type 0
Binds ports (host, container) = lookup host ports ≡ some container

module _ (all : List (ℤ × Bytes)) where
  abbrev Exposed : Bytes × Unit {0} → Type 0
  Exposed (c, _) = (host : ℤ) × Binds all (host, c)

  abbrev Bound : Bytes × List PortBinding → Type 0
  Bound (c, bs) = (host : ℤ) × Binds all (host, c) × (bs ≡ port_binding host ∷ [])

  -- The loop writes only what the map of ports says.
  range_ports_sound :
      (ports : List (ℤ × Bytes)) (config : ContainerConfig) (host : HostConfig)
      → All (Binds all) ports
      → Always Exposed config.exposed_ports
      → Always Bound host.port_bindings
      → Always Exposed (range_ports ports (config, host)).0.exposed_ports
        × Always Bound (range_ports ports (config, host)).1.port_bindings
  unfolding range_ports
  range_ports_sound [] config host h exposed bound = (exposed, bound)
  range_ports_sound ((p, c) ∷ ports) config host h exposed bound =
      range_ports_sound ports _ _ h.1
        (Always-insert Exposed c tt config.exposed_ports (p, h.0) exposed)
        (Always-insert Bound c (port_binding p ∷ []) host.port_bindings (p, h.0, refl) bound)

-- Once exposed, a port stays exposed.
range_ports_keeps_exposed :
    (c : Bytes) (ports : List (ℤ × Bytes)) (config : ContainerConfig) (host : HostConfig)
    → lookup c config.exposed_ports ≡ some tt
    → lookup c (range_ports ports (config, host)).0.exposed_ports ≡ some tt
unfolding range_ports
range_ports_keeps_exposed c [] config host h = h
range_ports_keeps_exposed c ((p, d) ∷ ports) config host h =
    range_ports_keeps_exposed c ports _ _
      (ground (arith, lookup-insert d c tt config.exposed_ports))

range_ports_exposes :
    (p : ℤ) (c : Bytes) (ports : List (ℤ × Bytes)) (config : ContainerConfig) (host : HostConfig)
    → lookup p ports ≡ some c
    → lookup c (range_ports ports (config, host)).0.exposed_ports ≡ some tt
unfolding range_ports
range_ports_exposes p c [] config host h = cc
range_ports_exposes p c ((q, d) ∷ ports) config host h = elim (Bool-cases (q == p)) [
  | inl same ↦
      range_ports_keeps_exposed c ports _ _
        (ground (arith, lookup-insert d c tt config.exposed_ports, same_iff d c))
  | inr other ↦ range_ports_exposes p c ports _ _ (ground arith)
]

-- Whether a visited entry that names the container port `c` names the host port `p`.
abbrev Only : ℤ → Bytes → ℤ × Bytes → Type 0
Only p c (q, d) = d ≡ c → q ≡ p

module _ (p : ℤ) (c : Bytes) where
  range_ports_keeps_bound :
      (ports : List (ℤ × Bytes)) (config : ContainerConfig) (host : HostConfig)
      → All (Only p c) ports
      → lookup c host.port_bindings ≡ some (port_binding p ∷ [])
      → lookup c (range_ports ports (config, host)).1.port_bindings ≡ some (port_binding p ∷ [])
  unfolding range_ports
  range_ports_keeps_bound [] config host h kept = kept
  range_ports_keeps_bound ((q, d) ∷ ports) config host h kept =
      range_ports_keeps_bound ports _ _ h.1 (
        ground
          (arith, lookup-insert d c (port_binding q ∷ []) host.port_bindings, same_iff d c, h.0))

  range_ports_binds :
      (ports : List (ℤ × Bytes)) (config : ContainerConfig) (host : HostConfig)
      → All (Only p c) ports
      → lookup p ports ≡ some c
      → lookup c (range_ports ports (config, host)).1.port_bindings ≡ some (port_binding p ∷ [])
  unfolding range_ports
  range_ports_binds [] config host h found = cc
  range_ports_binds ((q, d) ∷ ports) config host h found = elim (Bool-cases (q == p)) [
    | inl same ↦ range_ports_keeps_bound ports _ _ h.1 (
        ground (
          arith,
          lookup-insert d c (port_binding q ∷ []) host.port_bindings,
          same_iff d c,
          same_iff q p,
        ))
    | inr other ↦ range_ports_binds ports _ _ h.1 (ground arith)
  ]

-- The loop over the volumes leaves what the ports gave, and adds one bind for each entry.
range_volumes_lem :
    (volumes : List (Bytes × Bytes)) (config : ContainerConfig) (host : HostConfig)
    → let (config', host') = range_volumes volumes (config, host) in
      (config'.exposed_ports ≡ config.exposed_ports)
      × (host'.port_bindings ≡ host.port_bindings)
      × (config'.image ≡ config.image)
      × (config'.env ≡ config.env)
      × (host'.binds ≡ host.binds ++ map (λ v. v.0 ++ b':' ∷ v.1) volumes)
unfolding range_volumes
range_volumes_lem [] config host = (refl, refl, refl, refl, sym (append-nil host.binds))
range_volumes_lem ((h, c) ∷ volumes) config host =
    let (e, b, i, v, w) =
      range_volumes_lem volumes (record config { volumes = insert c tt config.volumes })
        (record host { binds = host.binds ++ (h ++ b':' ∷ c) ∷ [] }) in
    (e, b, i, v, w ∙ append_assoc host.binds _ _)

range_ports_lem :
    (ports : List (ℤ × Bytes)) (config : ContainerConfig) (host : HostConfig)
    → let (config', host') = range_ports ports (config, host) in
      (config'.image ≡ config.image) × (config'.env ≡ config.env) × (host'.binds ≡ host.binds)
unfolding range_ports
range_ports_lem [] config host = (refl, refl, refl)
range_ports_lem ((p, c) ∷ ports) config host = range_ports_lem ports _ _

module _ (options : Options) (ports : List (ℤ × Bytes)) (volumes : List (Bytes × Bytes))
    (range : IsRange ports (entries options.ports)) where
  after_ports : ContainerConfig × HostConfig
  after_ports = range_ports ports (no_config options, no_host_config)

  entries-Binds : All (Binds (entries options.ports)) ports
  entries-Binds =
      All-range (Binds (entries options.ports)) ports (entries options.ports) range λ k v h. h

  -- The container's image and environment are those of the options, and there is one bind mount
  -- for each entry of the map of volumes, in the order of the loop.
  pub to_options_contents :
      let (config, host) = to_options options ports volumes in
      (config.image ≡ options.image)
      × (config.env ≡ options.env)
      × (host.binds ≡ map (λ v. v.0 ++ b':' ∷ v.1) volumes)
  unfolding to_options
  to_options_contents =
      let (i, e, b) = range_ports_lem ports (no_config options) no_host_config in
      let (_, _, i', e', b') =
        range_volumes_lem volumes (range_ports ports (no_config options, no_host_config)).0
          (range_ports ports (no_config options, no_host_config)).1 in
      (i' ∙ i, e' ∙ e, b' ∙ ap (λ x. x ++ map (λ v. v.0 ++ b':' ∷ v.1) volumes) b)

  -- A container port is exposed exactly when some host port of the options is bound to it.
  pub to_options-exposes_iff :
      (c : Bytes)
      → (lookup c (to_options options ports volumes).0.exposed_ports ≡ some tt)
        ↔ ((host : ℤ) × (lookup host (entries options.ports) ≡ some c))
  unfolding to_options
  to_options-exposes_iff c =
      let start = range_ports ports (no_config options, no_host_config) in
      let same = (range_volumes_lem volumes start.0 start.1).0 in
      let (exposed, _) =
        range_ports_sound (entries options.ports) ports (no_config options) no_host_config
          entries-Binds (λ k v h. cc) (λ k v h. cc) in
      (
        λ found. exposed c tt (ap (lookup c) (sym same) ∙ found),
        λ (host, bound).
            ap (lookup c) same
            ∙ range_ports_exposes host c ports (no_config options) no_host_config
                (range.1 host ∙ bound),
      )

  -- What is published for a container port is one host port that the options bind to it.
  pub to_options-publishes_one :
      (c : Bytes) (bindings : List PortBinding)
      → lookup c (to_options options ports volumes).1.port_bindings ≡ some bindings
      → (host : ℤ) × (lookup host (entries options.ports) ≡ some c)
        × (bindings ≡ port_binding host ∷ [])
  unfolding to_options
  to_options-publishes_one c bindings found =
      let start = range_ports ports (no_config options, no_host_config) in
      let same = (range_volumes_lem volumes start.0 start.1).1 in
      let (_, bound) =
        range_ports_sound (entries options.ports) ports (no_config options) no_host_config
          entries-Binds (λ k v h. cc) (λ k v h. cc) in
      bound c bindings (ap (lookup c) (sym same) ∙ found)

  -- A host port is published if no other host port is bound to the same container port.
  pub to_options-publishes :
      (host : ℤ) (c : Bytes)
      → lookup host (entries options.ports) ≡ some c
      → ((other : ℤ) → lookup other (entries options.ports) ≡ some c → other ≡ host)
      → lookup c (to_options options ports volumes).1.port_bindings ≡ some (port_binding host ∷ [])
  unfolding to_options
  to_options-publishes host c bound alone =
      let start = range_ports ports (no_config options, no_host_config) in
      let same = (range_volumes_lem volumes start.0 start.1).1 in
      let only =
        All-range (Only host c) ports (entries options.ports) range
          (λ q d found e. alone q (found ∙ ap some e)) in
      ap (lookup c) same
      ∙ range_ports_binds host c ports (no_config options) no_host_config only
          (range.1 host ∙ bound)
