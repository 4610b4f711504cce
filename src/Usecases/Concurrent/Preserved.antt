-- ===== src/Usecases/Concurrent/Preserved.antt =====
-- internal/domain/usecases/servers.go: each step of concurrent calls of `CreateServer` keeps the
-- invariant.
use serverpouch.Common.{
  ℕ, suc, true, false, none, some, Result, ok, err, Errors, ◌≡◌, ◌≢◌, refl, sym, ap, ◌∙◌, subst,
  arith, insert, lookup, lookup-insert, put, nat_eq, same_iff, Option-cases, inl, inr, put-put,
  put_cases, pair_path,
}
use serverpouch.Docker.Config.{Options, id}
use serverpouch.Usecases.Interfaces.{Database, ServerInstances}
use serverpouch.Usecases.Concurrent.{
  idle, asking, written, built, done, System, at, answered, instantiated, registered, Step, begin,
  query, make, lock_registry, write, unlock_registry, read_lock, read_unlock, other, holding,
  leaving, readers, writer, Keys,
}
use serverpouch.Usecases.Concurrent.Invariant.{
  holds, builds, wrote, Inv, lock-Inv, at-Inv, world-Inv, insert-Inv,
}

module _ {W I : Type 0} (x : Errors) (db : Database W) (servers : ServerInstances W I)
    (Others : W → W → Type 0) (keys : Keys db servers Others) where
  free-absent :
      (s : System W I) (k : ℕ)
      → Inv x db servers Others keys s
      → keys.taken s.world k ≡ false
      → lookup k s.instances ≡ none
  free-absent s k v free = elim (Option-cases (lookup k s.instances)) [
    | inl absent ↦ absent
    | inr (i, there) ↦ absurd (let (named, given) = v.known k i there in cc)
  ]

  answered-Inv :
      (s : System W I) (c : ℕ) (r : Result Options × W)
      → Inv x db servers Others keys s
      → ((k : ℕ) → keys.taken s.world k ≡ true → keys.taken r.1 k ≡ true)
      → ((config : Options)
          → r.0 ≡ ok config
          → (keys.taken s.world (id config) ≡ false) × (keys.taken r.1 (id config) ≡ true))
      → Inv x db servers Others keys (answered x c r s)
  unfolding answered
  answered-Inv s c (err e, w) v keep new =
      at-Inv x db servers Others keys (record s { world = w }) c _
        (world-Inv x db servers Others keys s w v keep) (λ k h. absurd (cc))
        (λ config i h. absurd (cc)) (λ i h. absurd (cc))
  answered-Inv s c (ok config, w) v keep new =
      let (free, given) = new config refl in
      let world = world-Inv x db servers Others keys s w v keep in
      at-Inv x db servers Others keys (record s { world = w }) c (written config) world
        (λ k h.
          let is_k : id config ≡ k = cc h in
          subst
            (λ y.
              (keys.taken w y ≡ true)
              × (lookup y s.instances ≡ none)
              × ((d : ℕ) → holds (s.call d) ≡ some y → c ≡ d))
            is_k
            (
              given,
              free-absent s (id config) v free,
              λ d g. absurd (let (t, l) = v.held d (id config) g in cc),
            ))
        (λ config i h. absurd (cc)) (λ i h. absurd (cc))

  instantiated-Inv :
      (s : System W I) (c : ℕ) (config : Options)
      → Inv x db servers Others keys s
      → s.call c ≡ written config
      → Inv x db servers Others keys (instantiated servers c config s)
  unfolding instantiated
  instantiated-Inv s c config v h =
      let (i, w) = servers.new_instance config s.world in
      let world = world-Inv x db servers Others keys s w v (keys.instance_keeps config s.world) in
      at-Inv x db servers Others keys (record s { world = w }) c (built config i) world
        (λ k e.
          let before : holds (s.call c) ≡ some k = ap holds h ∙ e in
          let (t, l) = world.held c k before in (t, l, λ d g. v.once c d k before g))
        (λ other_config j e.
          let is_i : i ≡ j = cc in
          let is_config : config ≡ other_config = cc in
          ap servers.config (sym is_i) ∙ (servers.config-new_instance config s.world ∙ is_config))
        (λ j e. absurd (cc))

  -- A call that has registered its instance holds no identifier any more, and no other call holds that
  -- one.
  free_when_idle :
      (s : System W I) (c k : ℕ)
      → Inv x db servers Others keys s
      → holds (s.call c) ≡ some k
      → (d : ℕ) → holds (put s.call c idle d) ≢ some k
  free_when_idle s c k v mine d e = elim (put_cases s.call c idle d) [
    | inl (same, is) ↦ absurd (let bad : none ≡ some k = sym (ap holds is) ∙ e in cc)
    | inr (apart, is) ↦ apart (v.once c d k mine (sym (ap holds is) ∙ e))
  ]

  -- The identifiers of the instance and of the config, which are the same.
  registered_named :
      (s : System W I) (c : ℕ) (config : Options) (i : I)
      → servers.config i ≡ config
      → at c
          (leaving i)
          (record (at c idle s) { instances = insert (id (servers.config i)) i s.instances })
        ≡ registered c config i s
  unfolding registered
  registered_named s c config i named =
      ap
        (λ f. record {
          world = s.world;
          lock = s.lock;
          instances = insert (id (servers.config i)) i s.instances;
          call = f;
        })
        (put-put s.call c idle (leaving i))
      ∙ ap (λ o. at c (leaving i) (record s { instances = insert (id o) i s.instances })) named

  registered-Inv :
      (s : System W I) (c : ℕ) (config : Options) (i : I)
      → Inv x db servers Others keys s
      → s.call c ≡ holding config i
      → Inv x db servers Others keys (registered c config i s)
  registered-Inv s c config i v h =
      let named : servers.config i ≡ config = v.made c config i (ap builds h) in
      let k : ℕ = id (servers.config i) in
      let mine : holds (s.call c) ≡ some k = ap holds h ∙ ap (λ o. some (id o)) (sym named) in
      let (given, absent) = v.held c k mine in
      let resting =
        at-Inv x db servers Others keys s c idle v (λ k e. absurd (cc)) (λ o j e. absurd (cc))
          (λ j e. absurd (cc)) in
      let inserted =
        insert-Inv x db servers Others keys (at c idle s) i resting given absent
          (free_when_idle s c k v mine) in
      let ended =
        at-Inv x db servers Others keys _ c (leaving i) inserted (λ k e. absurd (cc))
          (λ o j e. absurd (cc))
          (λ j e.
            let is_j : i ≡ j = cc in
            subst (λ y. lookup (id (servers.config y)) (insert k i s.instances) ≡ some y) is_j
              (ground (arith, lookup-insert k k i s.instances, same_iff k k))) in
      subst (Inv x db servers Others keys) (registered_named s c config i named) ended

  pub Step-Inv :
      (s t : System W I)
      → Inv x db servers Others keys s
      → Step x db servers Others s t
      → Inv x db servers Others keys t
  Step-Inv s t v (begin c config h e) = subst (Inv x db servers Others keys) (sym e) (
      at-Inv x db servers Others keys s c (asking config) v (λ k g. absurd (cc))
        (λ o i g. absurd (cc)) (λ i g. absurd (cc)))
  Step-Inv s t v (query c config h e) = subst (Inv x db servers Others keys) (sym e) (
      answered-Inv s c (db.create_server config s.world) v (keys.create_keeps config s.world)
        (λ stored g.
          keys.create_new config stored s.world (db.create_server config s.world).1
            (pair_path g refl)))
  Step-Inv s t v (make c config h e) =
      subst (Inv x db servers Others keys) (sym e) (instantiated-Inv s c config v h)
  Step-Inv s t v (lock_registry c config i h free e) =
      subst (Inv x db servers Others keys) (sym e) (
        lock-Inv x db servers Others keys _ (writer c) (
          at-Inv x db servers Others keys s c (holding config i) v
            (λ k g.
              let before : holds (s.call c) ≡ some k = ap holds h ∙ g in
              let (given, absent) = v.held c k before in
              (given, absent, λ d other. v.once c d k before other))
            (λ o j g. v.made c o j (ap builds h ∙ g)) (λ j g. absurd (cc))))
  Step-Inv s t v (write c config i h e) =
      subst (Inv x db servers Others keys) (sym e) (registered-Inv s c config i v h)
  Step-Inv s t v (unlock_registry c i h e) = subst (Inv x db servers Others keys) (sym e) (
      lock-Inv x db servers Others keys _ (readers 0) (
        at-Inv x db servers Others keys s c (done (ok i)) v (λ k g. absurd (cc))
          (λ o j g. absurd (cc)) (λ j g. v.found c j (ap wrote h ∙ g))))
  Step-Inv s t v (read_lock n h e) =
      subst (Inv x db servers Others keys) (sym e)
        (lock-Inv x db servers Others keys s (readers (suc n)) v)
  Step-Inv s t v (read_unlock n h e) =
      subst (Inv x db servers Others keys) (sym e)
        (lock-Inv x db servers Others keys s (readers n) v)
  Step-Inv s t v (other w o e) =
      subst (Inv x db servers Others keys) (sym e)
        (world-Inv x db servers Others keys s w v (λ k g. keys.others_keep s.world w k o g))
