-- ===== src/Usecases/Concurrent/Invariant.antt =====
-- internal/domain/usecases/servers.go: the invariant of concurrent calls of `CreateServer`.
use serverpouch.Common.{
  ℕ, true, Option, none, some, ok, Errors, ◌≡◌, ◌≢◌, sym, ap, ◌∙◌, subst, arith, insert,
  insert-keeps, lookup, lookup-insert, nat_eq, ◌==◌, Bool-cases, inl, inr, put_cases,
}
use serverpouch.Docker.Config.{Options, id}
use serverpouch.Usecases.Interfaces.{Database, ServerInstances}
use serverpouch.Usecases.Concurrent.{
  Call, idle, asking, written, built, holding, leaving, done, Lock, System, at, Keys,
}

-- The identifier that the database has given to a call which is not yet in the registry.
abbrev pub holds : {I : Type 0} → Call I → Option ℕ
holds idle = none
holds (asking config) = none
holds (written config) = some (id config)
holds (built config instance) = some (id config)
holds (holding config instance) = some (id config)
holds (leaving instance) = none
holds (done r) = none

-- The instance that a call has built and not yet written, with its config.
abbrev pub builds : {I : Type 0} → Call I → Option (Options × I)
builds (built config instance) = some (config, instance)
builds (holding config instance) = some (config, instance)
builds _ = none

-- The instance that a call has written to the registry.
abbrev pub wrote : {I : Type 0} → Call I → Option I
wrote (leaving instance) = some instance
wrote (done (ok instance)) = some instance
wrote _ = none

module _ {W I : Type 0} (x : Errors) (db : Database W) (servers : ServerInstances W I)
    (Others : W → W → Type 0) (keys : Keys db servers Others) where
  pub record Inv (s : System W I) : Type 0 where
    pub known :
        (k : ℕ) (i : I)
        → lookup k s.instances ≡ some i
        → (id (servers.config i) ≡ k) × (keys.taken s.world k ≡ true)
    pub held :
        (c k : ℕ)
        → holds (s.call c) ≡ some k
        → (keys.taken s.world k ≡ true) × (lookup k s.instances ≡ none)
    pub once : (c d k : ℕ) → holds (s.call c) ≡ some k → holds (s.call d) ≡ some k → c ≡ d
    pub made :
        (c : ℕ) (config : Options) (i : I)
        → builds (s.call c) ≡ some (config, i)
        → servers.config i ≡ config
    pub found :
        (c : ℕ) (i : I)
        → wrote (s.call c) ≡ some i
        → lookup (id (servers.config i)) s.instances ≡ some i

  -- A call that goes to another place.
  pub at-Inv :
      (s : System W I) (c : ℕ) (p : Call I)
      → Inv s
      → ((k : ℕ)
          → holds p ≡ some k
          → (keys.taken s.world k ≡ true)
            × (lookup k s.instances ≡ none)
            × ((d : ℕ) → holds (s.call d) ≡ some k → c ≡ d))
      → ((config : Options) (i : I) → builds p ≡ some (config, i) → servers.config i ≡ config)
      → ((i : I) → wrote p ≡ some i → lookup (id (servers.config i)) s.instances ≡ some i)
      → Inv (at c p s)
  at-Inv s c p v new_held new_made new_found = record {
    known = v.known;
    held = λ d k h. elim (put_cases s.call c p d) [
      | inl (e, is) ↦ let (t, l, o) = new_held k (ap holds (sym is) ∙ h) in (t, l)
      | inr (ne, is) ↦ v.held d k (ap holds (sym is) ∙ h)
    ];
    once = λ d e k h g. elim (put_cases s.call c p d) [
      | inl (cd, is) ↦ elim (put_cases s.call c p e) [
        | inl (ce, is') ↦ sym cd ∙ ce
        | inr (ne, is') ↦
            let (t, l, o) = new_held k (ap holds (sym is) ∙ h) in
            sym cd ∙ o e (ap holds (sym is') ∙ g)
      ]
      | inr (nd, is) ↦ elim (put_cases s.call c p e) [
        | inl (ce, is') ↦
            let (t, l, o) = new_held k (ap holds (sym is') ∙ g) in
            sym (o d (ap holds (sym is) ∙ h)) ∙ ce
        | inr (ne, is') ↦ v.once d e k (ap holds (sym is) ∙ h) (ap holds (sym is') ∙ g)
      ]
    ];
    made = λ d config i h. elim (put_cases s.call c p d) [
      | inl (e, is) ↦ new_made config i (ap builds (sym is) ∙ h)
      | inr (ne, is) ↦ v.made d config i (ap builds (sym is) ∙ h)
    ];
    found = λ d i h. elim (put_cases s.call c p d) [
      | inl (e, is) ↦ new_found i (ap wrote (sym is) ∙ h)
      | inr (ne, is) ↦ v.found d i (ap wrote (sym is) ∙ h)
    ];
  }

  pub world-Inv :
      (s : System W I) (w : W)
      → Inv s
      → ((k : ℕ) → keys.taken s.world k ≡ true → keys.taken w k ≡ true)
      → Inv (record s { world = w })
  world-Inv s w v keep = record {
    known = λ k i h. let (e, t) = v.known k i h in (e, keep k t);
    held = λ c k h. let (t, l) = v.held c k h in (keep k t, l);
    once = v.once;
    made = v.made;
    found = v.found;
  }

  pub insert-Inv :
      (s : System W I) (i : I)
      → Inv s
      → keys.taken s.world (id (servers.config i)) ≡ true
      → lookup (id (servers.config i)) s.instances ≡ none
      → ((c : ℕ) → holds (s.call c) ≢ some (id (servers.config i)))
      → Inv (record s { instances = insert (id (servers.config i)) i s.instances })
  insert-Inv s i v given absent free = record {
    known = λ k j h. elim (Bool-cases (id (servers.config i) == k)) [
      | inl same ↦
          let is_k : id (servers.config i) ≡ k = ground arith in
          let is_i : i ≡ j =
            ground (arith, lookup-insert (id (servers.config i)) k i s.instances) in
          (
            subst (λ y. id (servers.config y) ≡ k) is_i is_k,
            subst (λ y. keys.taken s.world y ≡ true) is_k given,
          )
      | inr apart ↦
          v.known k j (ground (arith, lookup-insert (id (servers.config i)) k i s.instances))
    ];
    held = λ c k h.
        let (t, l) = v.held c k h in
        let differs : id (servers.config i) ≢ k = λ e. free c (h ∙ ap some (sym e)) in
        (t, ground (arith, lookup-insert (id (servers.config i)) k i s.instances));
    once = v.once;
    made = v.made;
    found = λ c j h.
        insert-keeps (id (servers.config i)) (id (servers.config j)) i j s.instances absent
          (v.found c j h);
  }

  pub lock-Inv : (s : System W I) (l : Lock) → Inv s → Inv (record s { lock = l })
  lock-Inv s l v = record {
    known = v.known;
    held = v.held;
    once = v.once;
    made = v.made;
    found = v.found;
  }
