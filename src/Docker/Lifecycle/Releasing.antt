-- ===== src/Docker/Lifecycle/Releasing.antt =====
-- How a call that acts comes to its release.
use serverpouch.Common.{put, ℕ, true, ◌≡◌, ◌≢◌, refl, ◌∙◌, arith, nat_eq}
use serverpouch.Docker.Lifecycle.{
  Worker, away, asking, acting, updating, releasing, returned, refused, System, Step, finish,
  update, Steps, here, step,
}
use serverpouch.Docker.Lifecycle.Exclusion.{busy}

pub Steps-trans : {s t u : System} → Steps s t → Steps t u → Steps s u
Steps-trans r here = r
Steps-trans r (step q st) = step (Steps-trans r q) st

pub first : {s t u : System} → Step s t → Steps t u → Steps s u
first st r = Steps-trans (step here st) r

-- The busy call reaches its release without anybody's help.
pub to_releasing :
    (s : System) (i : ℕ)
    → busy (s.worker i) ≡ true
    → (t : System) × Steps s t
      × (t.worker i ≡ releasing)
      × (t.loop ≡ s.loop)
      × (t.closer ≡ s.closer)
      × (t.cancelled ≡ s.cancelled)
      × ((k : ℕ) → k ≢ i → t.worker k ≡ s.worker k)
to_releasing s i b = go (s.worker i) refl b
  where
    from_updating :
        (u : System)
        → u.worker i ≡ updating
        → (t : System) × Steps u t
          × (t.worker i ≡ releasing)
          × (t.loop ≡ u.loop)
          × (t.closer ≡ u.closer)
          × (t.cancelled ≡ u.cancelled)
          × ((k : ℕ) → k ≢ i → t.worker k ≡ u.worker k)
    from_updating u e = (
      record u { worker = put u.worker i releasing },
      step here (update i e),
      ground arith,
      refl,
      refl,
      refl,
      λ k differs. ground arith,
    )

    go :
        (w : Worker)
        → s.worker i ≡ w
        → busy w ≡ true
        → (t : System) × Steps s t
          × (t.worker i ≡ releasing)
          × (t.loop ≡ s.loop)
          × (t.closer ≡ s.closer)
          × (t.cancelled ≡ s.cancelled)
          × ((k : ℕ) → k ≢ i → t.worker k ≡ s.worker k)
    go acting e h =
        let (t, r, a, l, c, d, others) =
          from_updating (record s { worker = put s.worker i updating }) (ground arith) in
        (t, first (finish i e) r, a, l, c, d, λ k differs. others k differs ∙ ground arith)
    go updating e h = from_updating s e
    go releasing e h = (s, here, e, refl, refl, refl, λ k differs. refl)
    go away e h = absurd (cc)
    go asking e h = absurd (cc)
    go returned e h = absurd (cc)
    go refused e h = absurd (cc)
