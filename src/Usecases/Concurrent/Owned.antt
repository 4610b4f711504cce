-- ===== src/Usecases/Concurrent/Owned.antt =====
-- internal/domain/usecases/servers.go: who has `srvMu`.
use serverpouch.Common.{
  ℕ, Bool, true, false, Result, ok, err, Errors, ◌≡◌, ◌≢◌, sym, ap, ◌∙◌, subst, put, put_cases,
  nat_eq, arith, same_iff, inl, inr,
}
use serverpouch.Docker.Config.{Options}
use serverpouch.Usecases.Interfaces.{Database, ServerInstances}
use serverpouch.Usecases.Concurrent.{
  Call, asking, written, built, holding, leaving, writer, System, at, answered, instantiated,
  registered, Step, begin, query, make, lock_registry, write, unlock_registry, read_lock,
  read_unlock, other,
}

-- Between `srvMu.Lock` and `srvMu.Unlock`.
abbrev pub critical : {I : Type 0} → Call I → Bool
critical (holding config i) = true
critical (leaving i) = true
critical _ = false

-- The lock is had by a call that is going to give it back.
abbrev pub Owned : {W I : Type 0} → System W I → Type 0
Owned s = (d : ℕ) → s.lock ≡ writer d → critical (s.call d) ≡ true

pub put_self {ℓ} : {A : Type ℓ} (f : ℕ → A) (c : ℕ) (a : A) → put f c a c ≡ a
put_self f c a = ground (arith, same_iff c c)

pub put_other {ℓ} : {A : Type ℓ} (f : ℕ → A) (c : ℕ) (a : A) (d : ℕ) → d ≢ c → put f c a d ≡ f d
put_other f c a d apart = ground arith

-- A call outside of the lock moves.
pub at-Owned :
    {W I : Type 0} (s : System W I) (c : ℕ) (p : Call I)
    → critical (s.call c) ≡ false
    → Owned s
    → Owned (at c p s)
at-Owned s c p out owned d had = elim (put_cases s.call c p d) [
  | inl (same, is) ↦
      let is_in : critical (s.call c) ≡ true = ap (λ e. critical (s.call e)) same ∙ owned d had in
      absurd (cc)
  | inr (apart, is) ↦ ap critical is ∙ owned d had
]

module _ {W I : Type 0} (x : Errors) (db : Database W) (servers : ServerInstances W I)
    (Others : W → W → Type 0) where
  answered-Owned :
      (s : System W I) (c : ℕ) (r : Result Options × W)
      → critical (s.call c) ≡ false
      → Owned s
      → Owned (answered x c r s)
  unfolding answered
  answered-Owned s c (err e, w) out owned = at-Owned (record s { world = w }) c _ out owned
  answered-Owned s c (ok config, w) out owned =
      at-Owned (record s { world = w }) c (written config) out owned

  pub Step-Owned : (s t : System W I) → Owned s → Step x db servers Others s t → Owned t
  unfolding instantiated registered
  Step-Owned s t v (begin c config h e) =
      subst Owned (sym e) (at-Owned s c (asking config) (ap critical h) v)
  Step-Owned s t v (query c config h e) =
      subst Owned (sym e) (answered-Owned s c (db.create_server config s.world) (ap critical h) v)
  Step-Owned s t v (make c config h e) =
      let (i, w) = servers.new_instance config s.world in
      subst Owned (sym e) (at-Owned (record s { world = w }) c (built config i) (ap critical h) v)
  Step-Owned s t v (lock_registry c config i h free e) = subst Owned (sym e) (λ d had.
      let is_c : c ≡ d = cc had in
      subst (λ k. critical (put s.call c (holding config i) k) ≡ true) is_c
        (ap critical (put_self s.call c (holding config i))))
  Step-Owned s t v (write c config i h e) = subst Owned (sym e) (λ d had.
      elim (put_cases s.call c (leaving i) d) [
        | inl (same, is) ↦ ap critical is
        | inr (apart, is) ↦ ap critical is ∙ v d had
      ])
  Step-Owned s t v (unlock_registry c i h e) = subst Owned (sym e) (λ d had. absurd (cc))
  Step-Owned s t v (read_lock n h e) = subst Owned (sym e) (λ d had. absurd (cc))
  Step-Owned s t v (read_unlock n h e) = subst Owned (sym e) (λ d had. absurd (cc))
  Step-Owned s t v (other w o e) = subst Owned (sym e) v
