-- ===== src/Openapi/Convert/Accepts.antt =====
-- What `dockerOAPIToConfig` accepts, and what its results are like.
use serverpouch.Common.{
  ℤ, Bytes, List, [], ◌∷◌, ◌++◌, some, Result, ok, Result-cases, and_then-ok, ok-injective, ◌≡◌,
  ◌↔◌, inl, inr, refl, sym, ap, ◌∙◌, subst, arith, Comparable, text_eq, int_eq, insert, lookup,
  Always, Always-insert, IsRange, Errors, All, append_assoc, append-nil,
}
use serverpouch.Docker.Config.{Options, entries}
use serverpouch.Openapi.Patterns.Language.{Matches, env_entry}
use serverpouch.Openapi.Convert.{
  ServerConfigDocker, docker_config_to_oapi, read_port, read_entries, read_volume, read_env,
  read_envs, docker_oapi_to_config,
}
use serverpouch.Openapi.Convert.RoundTrip.{
  IsPort, IsVolume, IsSpelled, read_envs_entries, docker_oapi_to_config-docker_config_to_oapi,
}
use serverpouch.Openapi.Convert.Texts.{
  IsPortText, IsVolumeText, read_port_ok, read_port_text_ok, read_volume_ok, read_volume_text_ok,
  read_env_ok,
}

-- What the loop over the entries of a map keeps true.
module _ {ℓ κ υ} {K : Type ℓ} ⦃keys : Comparable K⦄ {V : Type κ} (read : Bytes → Result (K × V))
    (Text : Bytes → Type 0) (P : K × V → Type υ)
    (sound : (s : Bytes) (x : K × V) → read s ≡ ok x → Text s × P x)
    (complete : (s : Bytes) → Text s → (x : K × V) × (read s ≡ ok x)) where
  read_entries_ok :
      (texts : List Bytes) (bound result : List (K × V))
      → Always P bound
      → read_entries read texts bound ≡ ok result
      → All Text texts × Always P result
  unfolding read_entries
  read_entries_ok [] bound result before h = (tt, subst (Always P) (ground arith) before)
  read_entries_ok (s ∷ texts) bound result before h = elim (Result-cases (read s)) [
    | inl (x, read_s) ↦
        let (text, now) = sound s x read_s in
        let (texts_ok, after) =
          read_entries_ok texts (insert x.0 x.1 bound) result
            (Always-insert P x.0 x.1 bound now before) (ground arith) in
        ((text, texts_ok), after)
    | inr (message, failed) ↦ absurd (ground arith)
  ]

  read_entries_total :
      (texts : List Bytes) (bound : List (K × V))
      → All Text texts
      → (result : List (K × V)) × (read_entries read texts bound ≡ ok result)
  unfolding read_entries
  read_entries_total [] bound h = (bound, refl)
  read_entries_total (s ∷ texts) bound h =
      let (x, read_s) = complete s h.0 in
      let (result, rest) = read_entries_total texts (insert x.0 x.1 bound) h.1 in
      (result, rw read_s rest)

read_envs_ok :
    (envs kept result : List Bytes)
    → read_envs envs kept ≡ ok result
    → All (Matches env_entry) envs × (result ≡ kept ++ envs)
unfolding read_envs
read_envs_ok [] kept result h = (tt, ground (arith, append-nil kept))
read_envs_ok (s ∷ envs) kept result h = elim (Result-cases (read_env s)) [
  | inl (m, read_s) ↦
      let (fits, same) = read_env_ok s m read_s in
      let (fit, whole) = read_envs_ok envs (kept ++ m ∷ []) result (ground arith) in
      ((fits, fit), whole ∙ (append_assoc kept (m ∷ []) envs ∙ ap (λ x. kept ++ x ∷ envs) same))
  | inr (message, failed) ↦ absurd (ground arith)
]

read_envs_total :
    (envs kept : List Bytes)
    → All (Matches env_entry) envs
    → (result : List Bytes) × (read_envs envs kept ≡ ok result)
read_envs_total envs kept h = (kept ++ envs, read_envs_entries envs kept h)

-- The parts of a result that was returned without an error.
abbrev Returned : ServerConfigDocker → Options → Type 0
Returned config o =
    All IsPortText (entries config.ports)
    × All IsVolumeText (entries config.volumes)
    × All (Matches env_entry) (entries config.environment)
    × IsSpelled o
    × (o.image ≡ config.image)
    × (entries o.env ≡ entries config.environment)

docker_oapi_to_config_ok :
    (x : Errors) (config : ServerConfigDocker) (o : Options)
    → docker_oapi_to_config x config ≡ ok o
    → Returned config o
unfolding docker_oapi_to_config
docker_oapi_to_config_ok x config o h =
    let (ports, p, h') = and_then-ok (read_entries (read_port x) (entries config.ports) []) _ h in
    let (volumes, v, h'') =
      and_then-ok (read_entries read_volume (entries config.volumes) []) _ h' in
    let (env, e, last) = and_then-ok (read_envs (entries config.environment) []) _ h'' in
    let (port_texts, ports_ok) =
      read_entries_ok (read_port x) IsPortText IsPort (read_port_ok x) (read_port_text_ok x)
        (entries config.ports) [] ports (λ k w found. cc) p in
    let (volume_texts, volumes_ok) =
      read_entries_ok read_volume IsVolumeText IsVolume read_volume_ok read_volume_text_ok
        (entries config.volumes) [] volumes (λ k w found. cc) v in
    let (env_texts, same_env) = read_envs_ok (entries config.environment) [] env e in
    subst (Returned config) (ok-injective last) (
      port_texts,
      volume_texts,
      env_texts,
      record {
        ports_ok = ports_ok;
        volumes_ok = volumes_ok;
        env_ok = subst (All (Matches env_entry)) (sym same_env) env_texts;
      },
      refl,
      same_env,
    )

pub docker_oapi_to_config-IsSpelled :
    (x : Errors) (config : ServerConfigDocker) (o : Options)
    → docker_oapi_to_config x config ≡ ok o
    → IsSpelled o
docker_oapi_to_config-IsSpelled x config o h = (docker_oapi_to_config_ok x config o h).3

-- The API form is accepted exactly when every port, volume and variable fits its pattern and every
-- host port is at most the largest `int`.
pub docker_oapi_to_config-accepts_iff :
    (x : Errors) (config : ServerConfigDocker)
    → ((o : Options) × (docker_oapi_to_config x config ≡ ok o)) ↔ (
        All IsPortText (entries config.ports)
        × All IsVolumeText (entries config.volumes)
        × All (Matches env_entry) (entries config.environment))
unfolding docker_oapi_to_config
docker_oapi_to_config-accepts_iff x config = (sound, complete)
  where
    sound :
        (o : Options) × (docker_oapi_to_config x config ≡ ok o)
        → All IsPortText (entries config.ports)
          × All IsVolumeText (entries config.volumes)
          × All (Matches env_entry) (entries config.environment)
    sound (o, h) = let r = docker_oapi_to_config_ok x config o h in (r.0, r.1, r.2)

    complete :
        All IsPortText (entries config.ports)
          × All IsVolumeText (entries config.volumes)
          × All (Matches env_entry) (entries config.environment)
        → (o : Options) × (docker_oapi_to_config x config ≡ ok o)
    complete (p, v, e) =
        let (ports, read_ports) =
          read_entries_total (read_port x) IsPortText IsPort (read_port_ok x) (read_port_text_ok x)
            (entries config.ports) [] p in
        let (volumes, read_volumes) =
          read_entries_total read_volume IsVolumeText IsVolume read_volume_ok read_volume_text_ok
            (entries config.volumes) [] v in
        let (env, read_env) = read_envs_total (entries config.environment) [] e in
        (
          record {
            instance_id = 0;
            image = config.image;
            volumes = some volumes;
            ports = some ports;
            env = some env;
          },
          rw read_ports (rw read_volumes (rw read_env)),
        )

-- What the API accepts it can show and take back: the options that it accepted keep the image and
-- the environment of the request, and from their API form, in whatever order the loops visit the
-- two maps, options with the same image, environment, ports and volumes are read.
pub docker_oapi_to_config-stable :
    (x : Errors) (config : ServerConfigDocker) (o : Options) (ports : List (ℤ × Bytes))
    (volumes : List (Bytes × Bytes))
    → docker_oapi_to_config x config ≡ ok o
    → IsRange ports (entries o.ports)
    → IsRange volumes (entries o.volumes)
    → (o.image ≡ config.image)
      × (entries o.env ≡ entries config.environment)
      × ((back : Options) × (docker_oapi_to_config x (docker_config_to_oapi o ports volumes)
            ≡ ok back)
          × (back.image ≡ o.image)
          × (entries back.env ≡ entries o.env)
          × ((host : ℤ) → lookup host (entries back.ports) ≡ lookup host (entries o.ports))
          × ((host : Bytes) → lookup host (entries back.volumes) ≡ lookup host (entries o.volumes)))
docker_oapi_to_config-stable x config o ports volumes h ports_range volumes_range =
    let (_, _, _, spelled, image, env) = docker_oapi_to_config_ok x config o h in
    (
      image,
      env,
      docker_oapi_to_config-docker_config_to_oapi x o ports volumes spelled ports_range
          volumes_range,
    )
