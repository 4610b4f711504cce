-- ===== src/Openapi/Convert/RoundTrip.antt =====
-- Options whose entries fit the patterns survive the way to the API form and back.
use serverpouch.Common.{
  ℕ, ℤ, pos, Bytes, List, [], ◌∷◌, ◌++◌, map, some, Result, ok, ◌≡◌, refl, arith, ◌≤◌, Comparable,
  text_eq, int_eq, insert, lookup, IsRange, Errors, All, All-range, insert_all,
  lookup-insert_all_range, max_int, format_int, format_int-every, format_int-occupied,
  atoi-format_int, append_assoc, append-nil, list_beq_iff,
}
use serverpouch.Docker.Config.{Options, entries}
use serverpouch.Openapi.Patterns.{not_colon}
use serverpouch.Openapi.Patterns.Language.{
  Matches, plus, container_port, env_entry, find_port_iff, find_volume_iff, find_env_iff,
}
use serverpouch.Openapi.Convert.{
  port_text, volume_text, docker_config_to_oapi, read_port, read_entries, read_volume, read_env,
  read_envs, docker_oapi_to_config,
}

-- A binding that the API can spell: a host port that is no negative `int`, and a container port.
abbrev pub IsPort : ℤ × Bytes → Type 0
IsPort (host, container) =
    (n : ℕ) × (host ≡ pos n) × (n ≤ max_int) × Matches container_port container

abbrev pub IsVolume : Bytes × Bytes → Type 0
IsVolume (host, container) = Matches (plus not_colon) host × Matches (plus not_colon) container

-- Options that the API can spell: each binding, volume and variable fits its pattern.
pub record IsSpelled (config : Options) : Type 0 where
  pub ports_ok :
      (host : ℤ) (container : Bytes)
      → lookup host (entries config.ports) ≡ some container
      → IsPort (host, container)
  pub volumes_ok :
      (host container : Bytes)
      → lookup host (entries config.volumes) ≡ some container
      → IsVolume (host, container)
  pub env_ok : All (Matches env_entry) (entries config.env)

read_port_text : (x : Errors) (p : ℤ × Bytes) → IsPort p → read_port x (port_text p) ≡ ok p
unfolding read_port port_text
read_port_text x (host, container) (n, is_pos, small, port) = ground (
  arith,
  (find_port_iff (format_int (pos n) ++ b':' ∷ container) (format_int (pos n)) container).1
      (refl, (format_int-occupied n, format_int-every n), port),
  atoi-format_int n small,
)

read_volume_text : (v : Bytes × Bytes) → IsVolume v → read_volume (volume_text v) ≡ ok v
unfolding read_volume volume_text
read_volume_text (host, container) (h, c) =
    ground (arith, (find_volume_iff (host ++ b':' ∷ container) host container).1 (refl, h, c))

pub read_env_entry : (s : Bytes) → Matches env_entry s → read_env s ≡ ok s
unfolding read_env
read_env_entry s m =
    let (found, some_byte) = (find_env_iff s s).1 (refl, m) in ground (arith, list_beq_iff s [])

-- A loop over the texts of entries that are each read back copies the entries.
module _ {ℓ κ υ} {K : Type ℓ} ⦃keys : Comparable K⦄ {V : Type κ} (read : Bytes → Result (K × V))
    (print : K × V → Bytes) (P : K × V → Type υ)
    (back : (x : K × V) → P x → read (print x) ≡ ok x) where
  read_entries-map :
      (xs bound : List (K × V))
      → All P xs
      → read_entries read (map print xs) bound ≡ ok (insert_all xs bound)
  unfolding read_entries
  read_entries-map [] bound h = refl
  read_entries-map ((k, v) ∷ xs) bound h =
      rw (back (k, v) h.0) (read_entries-map xs (insert k v bound) h.1)

pub read_envs_entries :
    (es kept : List Bytes) → All (Matches env_entry) es → read_envs es kept ≡ ok (kept ++ es)
unfolding read_envs
read_envs_entries [] kept h = rw append-nil
read_envs_entries (s ∷ es) kept h =
    rw (read_env_entry s h.0) (rw (read_envs_entries es (kept ++ s ∷ []) h.1) (rw append_assoc))

-- Options that the API can spell are read back from their API form, whatever the orders in which
-- the loops visit the two maps: the image, the environment, and every lookup of a port and of a
-- volume are as before. (The identifier is not part of the API form.)
pub docker_oapi_to_config-docker_config_to_oapi :
    (x : Errors) (config : Options) (ports : List (ℤ × Bytes)) (volumes : List (Bytes × Bytes))
    → IsSpelled config
    → IsRange ports (entries config.ports)
    → IsRange volumes (entries config.volumes)
    → (back : Options) × (docker_oapi_to_config x (docker_config_to_oapi config ports volumes)
        ≡ ok back)
      × (back.image ≡ config.image)
      × (entries back.env ≡ entries config.env)
      × ((host : ℤ) → lookup host (entries back.ports) ≡ lookup host (entries config.ports))
      × ((host : Bytes) → lookup host (entries back.volumes) ≡ lookup host (entries config.volumes))
unfolding docker_oapi_to_config docker_config_to_oapi
docker_oapi_to_config-docker_config_to_oapi x config ports volumes spelled ports_range
      volumes_range =
    (
      record {
        instance_id = 0;
        image = config.image;
        volumes = some (insert_all volumes []);
        ports = some (insert_all ports []);
        env = some (entries config.env);
      },
      rw
          (read_entries-map (read_port x) port_text IsPort (read_port_text x) ports []
            (All-range IsPort ports _ ports_range spelled.ports_ok))
          (rw
            (read_entries-map read_volume volume_text IsVolume read_volume_text volumes []
              (All-range IsVolume volumes _ volumes_range spelled.volumes_ok))
            (rw (read_envs_entries (entries config.env) [] spelled.env_ok))),
      refl,
      refl,
      lookup-insert_all_range ports (entries config.ports) ports_range,
      lookup-insert_all_range volumes (entries config.volumes) volumes_range,
    )
