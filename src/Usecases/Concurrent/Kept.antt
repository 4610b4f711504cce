-- ===== src/Usecases/Concurrent/Kept.antt =====
-- internal/domain/usecases/servers.go: what concurrent calls of `CreateServer` leave in the registry.
use serverpouch.Common.{
  ℕ, Bytes, true, some, Result, ok, err, Errors, ◌≡◌, ◌↔◌, refl, ap, ◌∙◌, insert-keeps, lookup,
  nat_eq, Steps, Steps-keep, Option-cases, inl, inr,
}
use serverpouch.Docker.Config.{Options, id}
use serverpouch.Usecases.{Usecases, get_server}
use serverpouch.Usecases.Interfaces.{Database, ServerInstances}
use serverpouch.Usecases.Concurrent.{
  done, System, answered, instantiated, registered, Step, from, registry, begin, query, make,
  lock_registry, holding, write, unlock_registry, read_lock, read_unlock, other, Keys,
}
use serverpouch.Usecases.Concurrent.Invariant.{holds, wrote, Inv}
use serverpouch.Usecases.Concurrent.Preserved.{Step-Inv}

module _ {W I : Type 0} (x : Errors) (db : Database W) (servers : ServerInstances W I)
    (Others : W → W → Type 0) (keys : Keys db servers Others) where
  answered-instances :
      (s : System W I) (c : ℕ) (r : Result Options × W) → (answered x c r s).instances ≡ s.instances
  unfolding answered
  answered-instances s c (err e, w) = refl
  answered-instances s c (ok config, w) = refl

  instantiated-instances :
      (s : System W I) (c : ℕ) (config : Options)
      → (instantiated servers c config s).instances ≡ s.instances
  unfolding instantiated
  instantiated-instances s c config = refl

  registered-keeps :
      (s : System W I) (c : ℕ) (config : Options) (i : I) (k : ℕ) (j : I)
      → Inv x db servers Others keys s
      → s.call c ≡ holding config i
      → lookup k s.instances ≡ some j
      → lookup k (registered c config i s).instances ≡ some j
  unfolding registered
  registered-keeps s c config i k j v h there =
      let (given, absent) = v.held c (id config) (ap holds h) in
      insert-keeps (id config) k i j s.instances absent there

  Step-keeps :
      (s t : System W I) (k : ℕ) (j : I)
      → Inv x db servers Others keys s
      → Step x db servers Others s t
      → lookup k s.instances ≡ some j
      → lookup k t.instances ≡ some j
  Step-keeps s t k j v (begin c config h e) there = ap (λ y. lookup k y.instances) e ∙ there
  Step-keeps s t k j v (query c config h e) there =
      ap (λ y. lookup k y.instances) e
      ∙ (ap (lookup k) (answered-instances s c (db.create_server config s.world)) ∙ there)
  Step-keeps s t k j v (make c config h e) there =
      ap (λ y. lookup k y.instances) e ∙ (ap (lookup k) (instantiated-instances s c config) ∙ there)
  Step-keeps s t k j v (write c config i h e) there =
      ap (λ y. lookup k y.instances) e ∙ registered-keeps s c config i k j v h there
  Step-keeps s t k j v (lock_registry c config i h free e) there =
      ap (λ y. lookup k y.instances) e ∙ there
  Step-keeps s t k j v (unlock_registry c i h e) there = ap (λ y. lookup k y.instances) e ∙ there
  Step-keeps s t k j v (read_lock n h e) there = ap (λ y. lookup k y.instances) e ∙ there
  Step-keeps s t k j v (read_unlock n h e) there = ap (λ y. lookup k y.instances) e ∙ there
  Step-keeps s t k j v (other w o e) there = ap (λ y. lookup k y.instances) e ∙ there

  -- The registry before the calls: every instance is kept under the identifier of its config, which
  -- the database has given away.
  abbrev pub IsKnown : Usecases W I → Type 0
  IsKnown u =
      (k : ℕ) (i : I)
      → lookup k u.instances ≡ some i
      → (id (servers.config i) ≡ k) × (keys.taken u.world k ≡ true)

  pub from-Inv : (u : Usecases W I) → IsKnown u → Inv x db servers Others keys (from u)
  from-Inv u known = record {
    known = known;
    held = λ c k h. absurd (cc);
    once = λ c d k h g. absurd (cc);
    made = λ c config i h. absurd (cc);
    found = λ c i h. absurd (cc);
  }

  get_server-lookup :
      (uuid_text : ℕ → Bytes) (k : ℕ) (i : I) (u : Usecases W I)
      → (get_server uuid_text k u ≡ ok i) ↔ (lookup k u.instances ≡ some i)
  unfolding get_server
  get_server-lookup uuid_text k i u = elim (Option-cases (lookup k u.instances)) [
    | inl absent ↦ rw (get_server, absent) ((λ e. absurd (cc)), (λ e. absurd (cc)))
    | inr (j, there) ↦ rw (get_server, there) ((λ e. cc), (λ e. cc))
  ]

  -- Whatever calls of `CreateServer` run side by side, in whatever order they take their turns and
  -- whichever of them fail: if the database gives each identifier away once, then a server that is in the registry
  -- stays there for good under its identifier, and so does the one that a call has returned.
  pub never_lost :
      (uuid_text : ℕ → Bytes) (u : Usecases W I) (s t : System W I)
      → IsKnown u
      → Steps (Step x db servers Others) (from u) s
      → Steps (Step x db servers Others) s t
      → ((c : ℕ) (i : I)
          → s.call c ≡ done (ok i)
          → get_server uuid_text (id (servers.config i)) (registry t) ≡ ok i)
        × ((k : ℕ) (i : I)
            → get_server uuid_text k (registry s) ≡ ok i
            → get_server uuid_text k (registry t) ≡ ok i)
  never_lost uuid_text u s t known before later =
      let v =
        Steps-keep (Inv x db servers Others keys) (Step-Inv x db servers Others keys)
          (from-Inv u known) before in
      let keep : (k : ℕ) (i : I) → lookup k s.instances ≡ some i → lookup k t.instances ≡ some i =
        λ k i there.
          (Steps-keep (λ y. Inv x db servers Others keys y × (lookup k y.instances ≡ some i))
            (λ y z h st.
              (Step-Inv x db servers Others keys y z h.0 st, Step-keeps y z k i h.0 st h.1))
            (v, there) later).1 in
      (
        λ c i h.
            (get_server-lookup uuid_text (id (servers.config i)) i (registry t)).1
              (keep (id (servers.config i)) i (v.found c i (ap wrote h))),
        λ k i h.
            (get_server-lookup uuid_text k i (registry t)).1
              (keep k i ((get_server-lookup uuid_text k i (registry s)).0 h)),
      )
