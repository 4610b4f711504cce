-- ===== src/Usecases/Concurrent/Ends.antt =====
-- internal/domain/usecases/servers.go: that calls of `CreateServer` end, and `srvMu` is given back.
use serverpouch.Common.{
  ℕ, zero, suc, codes, true, false, Result, ok, err, Errors, ◌≡◌, ◌≢◌, refl, sym, ap, ◌∙◌, nat_eq,
  Steps, here, step, Steps-keep, Steps-trans,
}
use serverpouch.Docker.Config.{Options}
use serverpouch.Usecases.{Usecases}
use serverpouch.Usecases.Interfaces.{Database, ServerInstances}
use serverpouch.Usecases.Concurrent.{
  Call, idle, asking, written, built, holding, leaving, done, Lock, readers, writer, System, from,
  at, answered, instantiated, registered, Step, query, make, lock_registry, write, unlock_registry,
  read_unlock,
}
use serverpouch.Usecases.Concurrent.Owned.{
  critical, Owned, put_self, put_other, at-Owned, Step-Owned,
}

module _ {W I : Type 0} (x : Errors) (db : Database W) (servers : ServerInstances W I)
    (Others : W → W → Type 0) where
  -- That a call can come to its end.
  Ends : System W I → ℕ → Type 0
  Ends s c =
      (t : System W I) × (r : Result I) × Steps (Step x db servers Others) s t × (t.call c ≡ done r)

  Ends-after :
      (s t : System W I) (c : ℕ) → Steps (Step x db servers Others) s t → Ends t c → Ends s c
  unfolding Ends
  Ends-after s t c q (u, r, rest, ended) = (u, r, Steps-trans q rest, ended)

  Ends-leaving : (s : System W I) (c : ℕ) (i : I) → s.call c ≡ leaving i → Ends s c
  unfolding Ends
  Ends-leaving s c i h = (
    record (at c (done (ok i)) s) { lock = readers 0 },
    ok i,
    step here (unlock_registry c i h refl),
    put_self s.call c (done (ok i)),
  )

  Ends-holding :
      (s : System W I) (c : ℕ) (config : Options) (i : I) → s.call c ≡ holding config i → Ends s c
  unfolding registered
  Ends-holding s c config i h =
      Ends-after s (registered c config i s) c (step here (write c config i h refl))
        (Ends-leaving (registered c config i s) c i (put_self s.call c (leaving i)))

  -- The lock is free, and a call stands where it stood.
  Freed : System W I → ℕ → Type 0
  Freed s c =
      (t : System W I) × Steps (Step x db servers Others) s t
      × (t.lock ≡ readers 0)
      × (t.call c ≡ s.call c)

  Freed-readers : (n : ℕ) (s : System W I) (c : ℕ) → s.lock ≡ readers n → Freed s c
  unfolding Freed
  Freed-readers zero s c h = (s, here, h, refl)
  Freed-readers (suc n) s c h =
      let (t, q, free, same) = Freed-readers n (record s { lock = readers n }) c refl in
      (t, Steps-trans (step here (read_unlock n h refl)) q, free, same)

  Freed-leaving : (s : System W I) (c d : ℕ) (i : I) → c ≢ d → s.call d ≡ leaving i → Freed s c
  unfolding Freed
  Freed-leaving s c d i apart h = (
    record (at d (done (ok i)) s) { lock = readers 0 },
    step here (unlock_registry d i h refl),
    refl,
    put_other s.call d (done (ok i)) c apart,
  )

  Freed-owner :
      (s : System W I) (c d : ℕ) (p : Call I) → s.call d ≡ p → critical p ≡ true → c ≢ d → Freed s c
  unfolding Freed registered
  Freed-owner s c d (leaving i) h k apart = Freed-leaving s c d i apart h
  Freed-owner s c d (holding config i) h k apart =
      let (t, q, free, same) =
        Freed-leaving (registered d config i s) c d i apart (put_self s.call d (leaving i)) in
      (
        t,
        Steps-trans (step here (write d config i h refl)) q,
        free,
        same ∙ put_other s.call d (leaving i) c apart,
      )
  Freed-owner s c d idle h k apart = absurd (cc)
  Freed-owner s c d (asking config) h k apart = absurd (cc)
  Freed-owner s c d (written config) h k apart = absurd (cc)
  Freed-owner s c d (built config i) h k apart = absurd (cc)
  Freed-owner s c d (done r) h k apart = absurd (cc)

  Freed-lock :
      (s : System W I) (c : ℕ) (l : Lock)
      → s.lock ≡ l
      → Owned s
      → critical (s.call c) ≡ false
      → Freed s c
  Freed-lock s c (readers n) h owned out = Freed-readers n s c h
  Freed-lock s c (writer d) h owned out = Freed-owner s c d (s.call d) refl (owned d h) (λ same.
      let is_in : critical (s.call c) ≡ true = ap (λ e. critical (s.call e)) same ∙ owned d h in cc)

  Ends-built :
      (s : System W I) (c : ℕ) (config : Options) (i : I)
      → Owned s
      → s.call c ≡ built config i
      → Ends s c
  unfolding Freed
  Ends-built s c config i owned h =
      let (t, q, free, same) = Freed-lock s c s.lock refl owned (ap critical h) in
      let locked : System W I = record (at c (holding config i) t) { lock = writer c } in
      Ends-after s locked c (step q (lock_registry c config i (same ∙ h) free refl))
        (Ends-holding locked c config i (put_self t.call c (holding config i)))

  Ends-written :
      (s : System W I) (c : ℕ) (config : Options) → Owned s → s.call c ≡ written config → Ends s c
  unfolding instantiated
  Ends-written s c config owned h =
      let (i, w) = servers.new_instance config s.world in
      Ends-after s (instantiated servers c config s) c (step here (make c config h refl)) (
        Ends-built (instantiated servers c config s) c config i
          (at-Owned (record s { world = w }) c (built config i) (ap critical h) owned)
          (put_self s.call c (built config i)))

  Ends-asked :
      (s : System W I) (c : ℕ) (config : Options) (r : Result Options × W)
      → db.create_server config s.world ≡ r
      → Owned s
      → s.call c ≡ asking config
      → Ends s c
  unfolding Ends answered
  Ends-asked s c config (err e, w) called owned h =
      let r : Result I = err (x.wrapped e (codes "failed to write config to db")) in
      (
        at c (done r) (record s { world = w }),
        r,
        step here (query c config h (ap (λ a. answered x c a s) (sym called))),
        put_self s.call c (done r),
      )
  Ends-asked s c config (ok given, w) called owned h =
      let t : System W I = at c (written given) (record s { world = w }) in
      Ends-after s t c (step here (query c config h (ap (λ a. answered x c a s) (sym called)))) (
        Ends-written t c given
          (at-Owned (record s { world = w }) c (written given) (ap critical h) owned)
          (put_self s.call c (written given)))

  Ends-call : (s : System W I) (c : ℕ) (p : Call I) → Owned s → s.call c ≡ p → p ≢ idle → Ends s c
  unfolding Ends
  Ends-call s c idle owned h begun = absurd (begun refl)
  Ends-call s c (asking config) owned h begun =
      Ends-asked s c config (db.create_server config s.world) refl owned h
  Ends-call s c (written config) owned h begun = Ends-written s c config owned h
  Ends-call s c (built config i) owned h begun = Ends-built s c config i owned h
  Ends-call s c (holding config i) owned h begun = Ends-holding s c config i h
  Ends-call s c (leaving i) owned h begun = Ends-leaving s c i h
  Ends-call s c (done r) owned h begun = (s, r, here, h)

  -- A call of `CreateServer` that has begun can come to its end, in every reachable state of any
  -- number of calls: whoever has `srvMu`, a call that writes or any number of readers, can give it
  -- back.
  pub create_server-can_end :
      (u : Usecases W I) (s : System W I) (c : ℕ)
      → Steps (Step x db servers Others) (from u) s
      → s.call c ≢ idle
      → (t : System W I) × (r : Result I) × Steps (Step x db servers Others) s t
        × (t.call c ≡ done r)
  unfolding Ends
  create_server-can_end u s c reached begun =
      Ends-call s c (s.call c)
        (Steps-keep Owned (Step-Owned x db servers Others) (λ d had. absurd (cc)) reached) refl
        begun
