-- ===== src/Usecases/Closing/Returns.antt =====
-- internal/domain/usecases/usecases.go: that `Close` returns.
use serverpouch.Common.{
  ℕ, true, List, [], ◌∷◌, ◌≡◌, ◌≢◌, refl, sym, ◌∙◌, subst, arith, put, ◌==◌, nat_eq, member, Steps,
  here, step, Steps-trans, Steps-keep, Bool-cases, inl, inr,
}
use serverpouch.Docker.Lifecycle as Instance
use serverpouch.Docker.Lifecycle.Monotone.{Step-open_before, finished_closed}
use serverpouch.Docker.Lifecycle.Releasing.{first}
use serverpouch.Docker.Lifecycle.Closing.{close-Returns}
use serverpouch.Usecases.Closing.{Registry, Step, run, wait, Reach}
use serverpouch.Usecases.Closing.Quiet.{Inv, at_each, Step-Inv, Reach-Inv}

-- What a history of one instance changes of the registry.
abbrev Runs : ℕ → Instance.System → Registry → Type 0
Runs k x s =
    (t : Registry) × Steps Step s t
    × (t.system k ≡ x)
    × ((j : ℕ) → j ≢ k → t.system j ≡ s.system j)
    × (t.ids ≡ s.ids)
    × (t.caller ≡ s.caller)

-- While `Close` waits, a history of an instance in which nobody else closes it can happen.
runs :
    (s : Registry) (k : ℕ) {x : Instance.System}
    → s.caller ≡ Instance.closing
    → Instance.Steps (s.system k) x
    → ((j : ℕ) → j ≢ 0 → x.closer j ≡ Instance.open_yet)
    → Runs k x s
runs s k waits Instance.here others = (s, here, refl, λ j h. refl, refl, refl)
runs s k {x} waits (Instance.step {t = y} r st) others =
    let (t, r', now, same, ids, caller) =
      runs s k waits r (λ j h. Step-open_before j st (others j h)) in
    let u : Registry = record t { system = put t.system k x } in
    let at_k : u.system k ≡ x = ground arith in
    let moved : Instance.Step (t.system k) (u.system k) =
      subst (λ z. Instance.Step z (u.system k)) (sym now)
        (subst (λ z. Instance.Step y z) (sym at_k) st) in
    (
      u,
      step r' (
          run k moved (λ j h. subst (λ z. z.closer j ≡ Instance.open_yet) (sym at_k) (others j h))
            (λ e. absurd (cc)) (λ j h. ground arith) refl refl),
      at_k,
      λ j h. ground (arith, same j h),
      ids,
      caller,
    )

-- `Close` waits, and the instances of these identifiers have been closed.
abbrev Waits : List ℕ → Registry → Registry → Type 0
Waits ks s t =
    (t.caller ≡ Instance.closing)
    × (t.ids ≡ s.ids)
    × ((k : ℕ) → member k ks ≡ true → (t.system k).closer 0 ≡ Instance.closed)

close_one :
    (s : Registry) (k : ℕ)
    → Inv s
    → s.caller ≡ Instance.closing
    → (x : Instance.System) × Instance.Steps (s.system k) x
      × (x.closer 0 ≡ Instance.closed)
      × ((j : ℕ) → j ≢ 0 → x.closer j ≡ Instance.open_yet)
close_one s k v waits = go ((s.system k).closer 0) refl
  where
    not_finished :
        (y : Instance.System)
        → Instance.Reach y
        → ((j : ℕ) → j ≢ 0 → y.closer j ≡ Instance.open_yet)
        → y.closer 0 ≡ Instance.closing
        → y.loop ≢ Instance.finished
    not_finished y r others e f =
        let (j, h) = finished_closed r f in
        elim (Bool-cases (j == 0)) [
          | inl zeroth ↦ ground (arith, h, e)
          | inr other ↦ ground (arith, h, others j (λ q. ground arith))
        ]

    from_closing :
        (y : Instance.System)
        → Instance.Reach y
        → ((j : ℕ) → j ≢ 0 → y.closer j ≡ Instance.open_yet)
        → y.closer 0 ≡ Instance.closing
        → (x : Instance.System) × Instance.Steps y x
          × (x.closer 0 ≡ Instance.closed)
          × ((j : ℕ) → j ≢ 0 → x.closer j ≡ Instance.open_yet)
    from_closing y r others e =
        let (x, r', h, same) = close-Returns 0 r e (not_finished y r others e) in
        (x, r', h, λ j d. same j d ∙ others j d)

    go :
        (c : Instance.Closer)
        → (s.system k).closer 0 ≡ c
        → (x : Instance.System) × Instance.Steps (s.system k) x
          × (x.closer 0 ≡ Instance.closed)
          × ((j : ℕ) → j ≢ 0 → x.closer j ≡ Instance.open_yet)
    go Instance.closed e = (s.system k, Instance.here, e, v.others_open k)
    go Instance.closing e = from_closing (s.system k) (v.reached k) (v.others_open k) e
    go Instance.open_yet e =
        let y : Instance.System = record (s.system k) {
          closer = put (s.system k).closer 0 Instance.closing;
          cancelled = true;
        } in
        let st : Instance.Step (s.system k) y = Instance.close 0 e in
        let (x, r, h, others) =
          from_closing y (Instance.step (v.reached k) st)
            (λ j d. ground (arith, v.others_open k j d)) refl in
        (x, first st r, h, others)

close_each :
    (ks : List ℕ) (s : Registry)
    → Inv s
    → s.caller ≡ Instance.closing
    → (t : Registry) × Steps Step s t × Inv t × Waits ks s t
close_each [] s v waits = (s, here, v, (waits, refl, λ k m. absurd (cc)))
close_each (k ∷ ks) s v waits =
    let (t, r, v', (waits', ids, done)) = close_each ks s v waits in
    let (x, r', h, others) = close_one t k v' waits' in
    let (u, r'', now, same, ids', caller) = runs t k waits' r' others in
    (
      u,
      Steps-trans r r'',
      Steps-keep Inv Step-Inv v' r'',
      (
        caller ∙ waits',
        ids' ∙ ids,
        λ j m.
            at_each (λ z. z.closer 0 ≡ Instance.closed) t u k same j
              (λ e. subst (λ z. z.closer 0 ≡ Instance.closed) (sym now) h)
              (λ d. done j (ground arith)),
      ),
    )

-- `Close` can return, in every reachable state in which it waits, whatever the instances are doing:
-- each of them is closed, and the call that acts on it, if there is one, comes to its end by itself.
pub close_all_can_return :
    {ids : List ℕ} {s : Registry}
    → Reach ids s
    → s.caller ≡ Instance.closing
    → (t : Registry) × Steps Step s t × (t.caller ≡ Instance.closed)
close_all_can_return {s = s} r waits =
    let (t, r', v, (waits', ids, done)) = close_each s.ids s (Reach-Inv r) waits in
    (
      record t { caller = Instance.closed },
      step r' (wait waits' (λ k m. done k (subst (λ l. member k l ≡ true) ids m)) refl),
      refl,
    )
