-- ===== src/Usecases/Restart/Registered.antt =====
-- internal/domain/usecases: the configs of the registered instances.
use serverpouch.Common.{
  ℕ, Bytes, List, [], ◌∷◌, Option, none, some, Result, ok, err, or_else, lookup, insert,
  lookup-insert, ◌≡◌, refl, sym, ap, ◌∙◌, arith, if◌then◌else◌, ◌==◌, nat_eq, Option-cases, codes,
  ◌++◌, inl, inr,
}
use serverpouch.Docker.Config.{Options, id}
use serverpouch.Usecases.{Usecases, register, load, get_server}
use serverpouch.Usecases.Interfaces.{ServerInstances}
use serverpouch.Usecases.Restart.Rows.{last_config}

abbrev pub config_of {ℓ} : {I : Type ℓ} → (I → Options) → Option I → Option Options
config_of config none = none
config_of config (some instance) = some (config instance)

or_else_assoc {ℓ} :
    {A : Type ℓ} (a b c : Option A) → or_else (or_else a b) c ≡ or_else a (or_else b c)
or_else_assoc none b c = refl
or_else_assoc (some a) b c = refl

module _ {W I : Type 0} (servers : ServerInstances W I) where
  -- The config that is registered under an identifier.
  abbrev pub config_at : ℕ → Usecases W I → Option Options
  config_at k u = config_of servers.config (lookup k u.instances)

  pub config_of-insert :
      (config : Options) (instance : I) (k : ℕ) (m : List (ℕ × I))
      → servers.config instance ≡ config
      → config_of servers.config (lookup k (insert (id config) instance m))
        ≡ or_else
            (if id config == k then some config else none)
            (config_of servers.config (lookup k m))
  config_of-insert config instance k m h =
      rw (lookup-insert (id config) k instance m) (ground (arith, h))

  -- What the loop of `init` registers under an identifier is the last config that has it.
  pub config_at-load :
      (configs : List Options) (u : Usecases W I) (k : ℕ)
      → config_at k (load servers configs u) ≡ or_else (last_config k configs) (config_at k u)
  unfolding load
  config_at-load [] u k = refl
  config_at-load (config ∷ configs) u k =
      config_at-load configs (register servers config u).1 k
      ∙ (ap (or_else (last_config k configs)) (
            config_of-insert config (servers.new_instance config u.world).0 k u.instances
              (servers.config-new_instance config u.world))
          ∙ sym (or_else_assoc (last_config k configs) _ (config_at k u)))

  -- What `GetServer` answers, as the config of the instance.
  abbrev pub answered : Result I → Result Options
  answered (err e) = err e
  answered (ok instance) = ok (servers.config instance)

  answer : Bytes → Option Options → Result Options
  answer missing none = err missing
  answer missing (some config) = ok config

  answered-get_server :
      (uuid_text : ℕ → Bytes) (k : ℕ) (u : Usecases W I)
      → answered (get_server uuid_text k u)
        ≡ answer
            (codes "instance of ID \"" ++ (uuid_text k ++ codes "\" not found"))
            (config_at k u)
  unfolding get_server answer
  answered-get_server uuid_text k u = elim (Option-cases (lookup k u.instances)) [
    | inl missing ↦ rw (get_server, missing) refl
    | inr (instance, there) ↦ rw (get_server, there) refl
  ]

  -- `GetServer` answers instances of the same config where the same config is registered.
  pub get_server-config_at :
      (uuid_text : ℕ → Bytes) (k : ℕ) (u again : Usecases W I)
      → config_at k again ≡ config_at k u
      → answered (get_server uuid_text k again) ≡ answered (get_server uuid_text k u)
  get_server-config_at uuid_text k u again same =
      answered-get_server uuid_text k again
      ∙ (ap (answer _) same ∙ sym (answered-get_server uuid_text k u))
