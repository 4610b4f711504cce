-- ===== src/Openapi/Convert/Bounds.antt =====
-- internal/delivery/http/openapi/server.go and internal/infrastructure/docker/config.go: what docker
-- is asked to publish for a config of the API.
use serverpouch.Common.{
  Result, Comparable, Any, ◌⊎◌, inl, inr, sym, ok-injective, and_then-ok, insert, lookup-insert,
  same_iff, Bool-cases, if◌then◌else◌, ◌==◌, pair_path, ◌++◌, is_digit, value_from, ℕ, ℤ, pos,
  Bytes, List, [], ◌∷◌, some, ok, ◌≡◌, ap, ◌∙◌, ◌≤◌, max_int, Errors, IsRange, lookup, text_eq,
  int_eq,
}
use serverpouch.Docker.Config.{Options, PortBinding, entries, port_binding, to_options}
use serverpouch.Docker.Config.Published.{to_options-publishes_one}
use serverpouch.Openapi.Patterns.Language.{Matches, plus, container_port}
use serverpouch.Openapi.Convert.{
  ServerConfigDocker, docker_oapi_to_config, read_entries, read_port, read_volume, read_envs,
}
use serverpouch.Openapi.Convert.Texts.{read_port_digits}

-- What the loop over the entries of a map binds was bound before, or is what one of the texts is read
-- as.
module _ {K : Type 0} ⦃keys : Comparable K⦄ {V : Type 0} (read : Bytes → Result (K × V)) where
  read_entries-Any :
      (texts : List Bytes) (bound result : List (K × V)) (k : K) (v : V)
      → read_entries read texts bound ≡ ok result
      → lookup k result ≡ some v
      → (lookup k bound ≡ some v) ⊎ Any (λ (s : Bytes). read s ≡ ok (k, v)) texts
  unfolding read_entries
  read_entries-Any [] bound result k v h there = inl (ap (lookup k) (ok-injective h) ∙ there)
  read_entries-Any (s ∷ texts) bound result k v h there =
      let ((j, w), read_s, rest) = and_then-ok (read s) _ h in
      elim (read_entries-Any texts (insert j w bound) result k v rest there) [
        | inr later ↦ inr (inr later)
        | inl now ↦ elim (Bool-cases (j == k)) [
          | inl same ↦
              let is_k : j ≡ k = (same_iff j k).0 same in
              let is_some_v : (if j == k then some w else lookup k bound) ≡ some v =
                sym (lookup-insert j k w bound) ∙ now in
              let is_v : w ≡ v = cc (rw same at is_some_v) in
              inr (inl (read_s ∙ ap ok (pair_path is_k is_v)))
          | inr other ↦
              let before : (if j == k then some w else lookup k bound) ≡ some v =
                sym (lookup-insert j k w bound) ∙ now in
              inl (rw other at before)
        ]
      ]

-- The text that asks for the port: the digits of the number and the container port.
abbrev pub AsksFor : ℕ → Bytes → Bytes → Type 0
AsksFor n c text =
    (digits : Bytes) × (text ≡ digits ++ b':' ∷ c)
    × Matches (plus is_digit) digits
    × (value_from 0 digits ≡ n)

read_port-AsksFor :
    (x : Errors) (host : ℤ) (c s : Bytes)
    → read_port x s ≡ ok (host, c)
    → (n : ℕ) × (host ≡ pos n) × (n ≤ max_int) × Matches container_port c × AsksFor n c s
read_port-AsksFor x host c s h =
    let ((n, is_n, small, form), digits, whole, fits, same) = read_port_digits x s host c h in
    (n, is_n, small, form, (digits, whole, fits, same n is_n))

Any-AsksFor :
    (x : Errors) (host : ℤ) (c : Bytes) (texts : List Bytes)
    → Any (λ (s : Bytes). read_port x s ≡ ok (host, c)) texts
    → (n : ℕ) × (host ≡ pos n) × (n ≤ max_int) × Matches container_port c × Any (AsksFor n c) texts
Any-AsksFor x host c [] h = absurd (h)
Any-AsksFor x host c (s ∷ texts) (inl h) =
    let (n, is_n, small, form, asks) = read_port-AsksFor x host c s h in
    (n, is_n, small, form, inl asks)
Any-AsksFor x host c (s ∷ texts) (inr h) =
    let (n, is_n, small, form, asks) = Any-AsksFor x host c texts h in
    (n, is_n, small, form, inr asks)

bound_port :
    (x : Errors) (config : ServerConfigDocker) (o : Options) (host : ℤ) (c : Bytes)
    → docker_oapi_to_config x config ≡ ok o
    → lookup host (entries o.ports) ≡ some c
    → Any (λ (s : Bytes). read_port x s ≡ ok (host, c)) (entries config.ports)
unfolding docker_oapi_to_config
bound_port x config o host c h there =
    let (ports, p, h') = and_then-ok (read_entries (read_port x) (entries config.ports) []) _ h in
    let (volumes, v, h'') =
      and_then-ok (read_entries read_volume (entries config.volumes) []) _ h' in
    let (env, e, last) = and_then-ok (read_envs (entries config.environment) []) _ h'' in
    let same : some ports ≡ o.ports = ap (λ (t : Options). t.ports) (ok-injective last) in
    let bound : lookup host ports ≡ some c = ap (λ q. lookup host (entries q)) same ∙ there in
    elim (read_entries-Any (read_port x) (entries config.ports) [] ports host c p bound) [
      | inl before ↦ absurd (cc)
      | inr asked ↦ asked
    ]

-- Of a config that the API accepts, docker is asked to publish each port on one host port, which is
-- not negative and at most the largest `int`, and the container port is of the form that docker
-- reads: one of the texts of the request is the decimal digits of the host port, a colon and the
-- container port.
pub docker_oapi_to_config-publishes_bounded :
    (x : Errors) (config : ServerConfigDocker) (o : Options) (ports : List (ℤ × Bytes))
    (volumes : List (Bytes × Bytes)) (c : Bytes) (bindings : List PortBinding)
    → docker_oapi_to_config x config ≡ ok o
    → IsRange ports (entries o.ports)
    → lookup c (to_options o ports volumes).1.port_bindings ≡ some bindings
    → (n : ℕ) × (bindings ≡ port_binding (pos n) ∷ [])
      × (n ≤ max_int)
      × Matches container_port c
      × Any (AsksFor n c) (entries config.ports)
docker_oapi_to_config-publishes_bounded x config o ports volumes c bindings accepted range found =
    let (host, bound, one) = to_options-publishes_one o ports volumes range c bindings found in
    let (n, is_pos, small, form, asked) =
      Any-AsksFor x host c (entries config.ports) (bound_port x config o host c accepted bound) in
    (n, one ∙ ap (λ h. port_binding h ∷ []) is_pos, small, form, asked)
