-- ===== src/Usecases/Found.antt =====
-- internal/domain/usecases: which instances the registry finds.
use serverpouch.Common.{
  ℕ, Bytes, Bool, true, false, ◌||◌, List, [], ◌∷◌, Result, ok, err, Errors, ◌≡◌, ◌≢◌, refl, sym,
  ap, subst, ok-injective, ◌∙◌, arith, lookup-insert, Always, Always-insert, nat_eq, same_iff, ◌==◌,
}
use serverpouch.Docker.Config.{Options, id}
use serverpouch.Usecases.{
  Usecases, started, register, load, listed, init, new, get_server, stored, create_server,
}
use serverpouch.Usecases.Interfaces.{Database, ServerInstances}

module _ {W I : Type 0} (servers : ServerInstances W I) where
  -- Every instance is kept under the identifier of its config.
  abbrev pub IsKeyed : Usecases W I → Type 0
  IsKeyed u = Always (λ (entry : ℕ × I). entry.0 ≡ id (servers.config entry.1)) u.instances

  register-IsKeyed :
      (config : Options) (u : Usecases W I) → IsKeyed u → IsKeyed (register servers config u).1
  register-IsKeyed config u h =
      Always-insert (λ (entry : ℕ × I). entry.0 ≡ id (servers.config entry.1)) (id config)
        (servers.new_instance config u.world).0 u.instances
        (ap id (sym (servers.config-new_instance config u.world))) h

  load-IsKeyed :
      (configs : List Options) (u : Usecases W I) → IsKeyed u → IsKeyed (load servers configs u)
  unfolding load
  load-IsKeyed [] u h = h
  load-IsKeyed (config ∷ configs) u h =
      load-IsKeyed configs (register servers config u).1 (register-IsKeyed config u h)

-- Whether one of the configs has the identifier.
abbrev pub any_id : ℕ → List Options → Bool
any_id k [] = false
any_id k (config ∷ configs) = any_id k configs || id config == k

abbrev pub is_ok {ℓ} : {A : Type ℓ} → Result A → Bool
is_ok (ok a) = true
is_ok (err e) = false

module _ {W I : Type 0} (servers : ServerInstances W I) (uuid_text : ℕ → Bytes) where
  load_finds :
      (configs : List Options) (u : Usecases W I) (k : ℕ)
      → is_ok (get_server uuid_text k (load servers configs u))
        ≡ any_id k configs || is_ok (get_server uuid_text k u)
  unfolding load get_server
  load_finds [] u k = refl
  load_finds (config ∷ configs) u k = ground (
    arith,
    load_finds configs (register servers config u).1 k,
    lookup-insert (id config) k (servers.new_instance config u.world).0 u.instances,
  )

module _ {W : Type 0} (I : Type 0) (uuid_text : ℕ → Bytes) where
  none-found :
      (w : W) (k : ℕ)
      → is_ok (get_server {I = I} uuid_text k (record { world = w; instances = [] })) ≡ false
  unfolding get_server
  none-found w k = refl

module _ {W I : Type 0} (x : Errors) (db : Database W) (servers : ServerInstances W I)
    (uuid_text : ℕ → Bytes) where
  -- Once `New` has succeeded on configs of the database, `GetServer` finds an instance for exactly
  -- the identifiers of these configs, and each instance is kept under the identifier of its config.
  pub new-finds :
      (before after : W) (configs : List Options) (u : Usecases W I)
      → db.list_servers before ≡ (ok configs, after)
      → new x db servers before ≡ ok u
      → ((k : ℕ) → is_ok (get_server uuid_text k u) ≡ any_id k configs) × IsKeyed servers u
  unfolding new init listed started
  new-finds before after configs u answer h =
      let empty : Usecases W I = record { world = after; instances = [] } in
      let loaded : load servers configs empty ≡ u = ok-injective (rw answer at h) in
      subst
        (λ v. ((k : ℕ) → is_ok (get_server uuid_text k v) ≡ any_id k configs) × IsKeyed servers v)
        loaded
        (
          λ k.
              load_finds servers uuid_text configs empty k
              ∙ ground (arith, none-found I uuid_text after k),
          load-IsKeyed servers configs empty (λ k v e. absurd (cc)),
        )

  -- What `CreateServer` promises of the instance that it returns.
  Created : Result Options → Usecases W I → I × Usecases W I → Type 0
  Created answer u (instance, after) =
      (answer ≡ ok (servers.config instance))
      × (get_server uuid_text (id (servers.config instance)) after ≡ ok instance)
      × ((k : ℕ)
          → k ≢ id (servers.config instance)
          → get_server uuid_text k after ≡ get_server uuid_text k u)
      × IsKeyed servers after

  register-Created :
      (config : Options) (w : W) (u : Usecases W I)
      → IsKeyed servers u
      → Created (ok config) u (register servers config (record u { world = w }))
  unfolding Created get_server
  register-Created config w u keyed =
      let known : servers.config (servers.new_instance config w).0 ≡ config =
        servers.config-new_instance config w in
      (
        ap ok (sym known),
        rw known (
            ground (
              arith,
              lookup-insert (id config) (id config) (servers.new_instance config w).0 u.instances,
              same_iff (id config) (id config),
            )),
        rw known λ k other. ground (
          arith,
          lookup-insert (id config) k (servers.new_instance config w).0 u.instances,
          same_iff (id config) k,
        ),
        register-IsKeyed servers config (record u { world = w }) keyed,
      )

  stored-Created :
      (answer : Result Options × W) (u after : Usecases W I) (instance : I)
      → IsKeyed servers u
      → stored x servers answer u ≡ (ok instance, after)
      → Created answer.0 u (instance, after)
  unfolding stored
  stored-Created (err e, w) u after instance keyed h = absurd (cc)
  stored-Created (ok config, w) u after instance keyed h =
      let made : register servers config (record u { world = w }) ≡ (instance, after) = cc in
      subst (Created (ok config) u) made (register-Created config w u keyed)

  -- If every instance is kept under the identifier of its config, a server that `CreateServer`
  -- returns is the one that `GetServer` then finds under the
  -- identifier of its config, which is the config that the database answered; under every other
  -- identifier `GetServer` answers as before, and every instance is still kept under the
  -- identifier of its config.
  pub create_server-get_server :
      (config : Options) (u after : Usecases W I) (instance : I)
      → IsKeyed servers u
      → create_server x db servers config u ≡ (ok instance, after)
      → ((db.create_server config u.world).0 ≡ ok (servers.config instance))
        × (get_server uuid_text (id (servers.config instance)) after ≡ ok instance)
        × ((k : ℕ)
            → k ≢ id (servers.config instance)
            → get_server uuid_text k after ≡ get_server uuid_text k u)
        × IsKeyed servers after
  unfolding create_server Created
  create_server-get_server config u after instance keyed h =
      stored-Created (db.create_server config u.world) u after instance keyed h
