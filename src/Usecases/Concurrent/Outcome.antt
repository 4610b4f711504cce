-- ===== src/Usecases/Concurrent/Outcome.antt =====
-- internal/domain/usecases/servers.go: what one call of `CreateServer` makes of the registry, by its
-- outcome.
use serverpouch.Common.{
  ℕ, true, ◌∙◌, arith, subst, ◌==◌, same_iff, Bool-cases, lookup-insert, Bytes, ap, sym, none,
  Result, ok, err, Errors, ◌≡◌, ◌⊎◌, inl, inr, refl, false, Option-cases, insert, lookup, nat_eq,
  pair_path,
}
use serverpouch.Docker.Config.{Options, id}
use serverpouch.Usecases.{Usecases, stored, create_server}
use serverpouch.Usecases.Interfaces.{Database, ServerInstances}
use serverpouch.Usecases.Concurrent.{Keys}
use serverpouch.Usecases.Concurrent.Kept.{IsKnown}

module _ {W I : Type 0} (x : Errors) (db : Database W) (servers : ServerInstances W I)
    (Others : W → W → Type 0) (keys : Keys db servers Others) where
  -- Either an error, and the registry is as before; or an instance, which is new under the identifier
  -- of its config.
  abbrev pub Outcome : Result Options → Usecases W I → Result I × Usecases W I → Type 0
  Outcome answer u (r, after) =
      ((e : Bytes) × (cause : Bytes) × (r ≡ err e)
        × (answer ≡ err cause)
        × (after.instances ≡ u.instances))
      ⊎ ((i : I) × (r ≡ ok i)
          × (answer ≡ ok (servers.config i))
          × (lookup (id (servers.config i)) u.instances ≡ none)
          × (after.instances ≡ insert (id (servers.config i)) i u.instances))

  stored-Outcome :
      (answer : Result Options × W) (u : Usecases W I)
      → ((config : Options) → answer.0 ≡ ok config → lookup (id config) u.instances ≡ none)
      → Outcome answer.0 u (stored x servers answer u)
  unfolding stored
  stored-Outcome (err e, w) u new = inl (_, e, refl, refl, refl)
  stored-Outcome (ok config, w) u new =
      let (i, after) = servers.new_instance config w in
      let named : servers.config i ≡ config = servers.config-new_instance config w in
      inr (i, refl, ap ok (sym named), rw named (new config refl), rw named refl)

  free-absent :
      (u : Usecases W I) (k : ℕ)
      → IsKnown x db servers Others keys u
      → keys.taken u.world k ≡ false
      → lookup k u.instances ≡ none
  free-absent u k known free = elim (Option-cases (lookup k u.instances)) [
    | inl absent ↦ absent
    | inr (i, there) ↦ absurd (let (named, given) = known k i there in cc)
  ]

  pub create_server-Outcome :
      (config : Options) (u : Usecases W I)
      → IsKnown x db servers Others keys u
      → Outcome (db.create_server config u.world).0 u (create_server x db servers config u)
  unfolding create_server
  create_server-Outcome config u known =
      stored-Outcome (db.create_server config u.world) u (λ given e.
        free-absent u (id given) known
          (keys.create_new config given u.world (db.create_server config u.world).1
            (pair_path e refl)).0)

  -- The instances that are known stay known, and so is a new one under its identifier.
  stored-IsKnown :
      (answer : Result Options × W) (u : Usecases W I)
      → IsKnown x db servers Others keys u
      → ((k : ℕ) → keys.taken u.world k ≡ true → keys.taken answer.1 k ≡ true)
      → ((config : Options) → answer.0 ≡ ok config → keys.taken answer.1 (id config) ≡ true)
      → IsKnown x db servers Others keys (stored x servers answer u).1
  unfolding stored
  stored-IsKnown (err e, w) u known keep new =
      λ k i there. let (named, given) = known k i there in (named, keep k given)
  stored-IsKnown (ok config, w) u known keep new = λ k j there.
      let (i, after) = servers.new_instance config w in
      let named : servers.config i ≡ config = servers.config-new_instance config w in
      elim (Bool-cases (id config == k)) [
        | inl same ↦
            let is_k : id config ≡ k = (same_iff (id config) k).0 same in
            let is_i : i ≡ j = ground (arith, lookup-insert (id config) k i u.instances) in
            (
              ap (λ y. id (servers.config y)) (sym is_i) ∙ (ap id named ∙ is_k),
              keys.instance_keeps config w k
                  (subst (λ y. keys.taken w y ≡ true) is_k (new config refl)),
            )
        | inr apart ↦
            let (is_named, given) =
              known k j (ground (arith, lookup-insert (id config) k i u.instances)) in
            (is_named, keys.instance_keeps config w k (keep k given))
      ]

  -- After a call, whatever its outcome, the registry is of known instances.
  pub create_server-IsKnown :
      (config : Options) (u : Usecases W I)
      → IsKnown x db servers Others keys u
      → IsKnown x db servers Others keys (create_server x db servers config u).1
  unfolding create_server
  create_server-IsKnown config u known =
      stored-IsKnown (db.create_server config u.world) u known (keys.create_keeps config u.world)
        (λ given e.
          (keys.create_new config given u.world (db.create_server config u.world).1
            (pair_path e refl)).1)
