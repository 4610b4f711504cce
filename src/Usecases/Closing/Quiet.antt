-- ===== src/Usecases/Closing/Quiet.antt =====
-- internal/domain/usecases/usecases.go: what has come to its end when `Close` has returned.
use serverpouch.Common.{
  ℕ, true, false, List, ◌≡◌, ◌≢◌, refl, sym, ◌∙◌, subst, arith, ◌==◌, nat_eq, member, Steps-keep,
  Bool-cases, inl, inr,
}
use serverpouch.Docker.Lifecycle as Instance
use serverpouch.Docker.Lifecycle.Exclusion.{busy, Writer, by_call, by_timer, by_starter, Writes}
use serverpouch.Docker.Lifecycle.Monotone.{Step-stays_closed}
use serverpouch.Docker.Lifecycle.Closing.{closed_for_good}
use serverpouch.Usecases.Closing.{Registry, registry, Step, run, start, wait, Reach}

pub record Inv (s : Registry) : Type 0 where
  pub reached : (k : ℕ) → Instance.Reach (s.system k)
  pub others_open : (k j : ℕ) → j ≢ 0 → (s.system k).closer j ≡ Instance.open_yet
  pub all_closed :
      (k : ℕ)
      → s.caller ≡ Instance.closed
      → member k s.ids ≡ true
      → (s.system k).closer 0 ≡ Instance.closed

registry-Inv : (ids : List ℕ) → Inv (registry ids)
registry-Inv ids = record {
  reached = λ k. Instance.here;
  others_open = λ k j h. refl;
  all_closed = λ k h m. absurd (cc h);
}

-- What a step of the instance keeps holds of every instance.
pub at_each :
    (P : Instance.System → Type 0) (s t : Registry) (k : ℕ)
    → ((j : ℕ) → j ≢ k → t.system j ≡ s.system j)
    → (j : ℕ) → (j ≡ k → P (t.system k))
    → (j ≢ k → P (s.system j))
    → P (t.system j)
at_each P s t k same j now before = elim (Bool-cases (j == k)) [
  | inl met ↦ let e : j ≡ k = ground arith in subst (λ i. P (t.system i)) (sym e) (now e)
  | inr other ↦
      let differs : j ≢ k = λ e. ground arith in subst P (sym (same j differs)) (before differs)
]

pub Step-Inv : (s t : Registry) → Inv s → Step s t → Inv t
Step-Inv s t v (run k st others mine same ids caller) = record {
  reached = λ j.
      at_each Instance.Reach s t k same j (λ e. Instance.step (v.reached k) st) (λ _. v.reached j);
  others_open = λ i j h.
      at_each (λ x. x.closer j ≡ Instance.open_yet) s t k same i (λ e. others j h)
        (λ _. v.others_open i j h);
  all_closed = λ j over m.
      let before : (i : ℕ) → member i s.ids ≡ true → (s.system i).closer 0 ≡ Instance.closed =
        λ i n. v.all_closed i (sym caller ∙ over) n in
      let now : member j s.ids ≡ true = subst (λ l. member j l ≡ true) ids m in
      at_each (λ x. x.closer 0 ≡ Instance.closed) s t k same j
        (λ e. Step-stays_closed 0 st (before k (subst (λ i. member i s.ids ≡ true) e now)))
        (λ _. before j now);
}
Step-Inv s t v (start e same) = subst Inv (sym same) (record {
  reached = v.reached;
  others_open = v.others_open;
  all_closed = λ k h m. absurd (cc h);
})
Step-Inv s t v (wait e all same) =
    subst Inv (sym same)
      (record { reached = v.reached; others_open = v.others_open; all_closed = λ k h m. all k m })

pub Reach-Inv : {ids : List ℕ} {s : Registry} → Reach ids s → Inv s
Reach-Inv {ids} r = Steps-keep Inv Step-Inv (registry-Inv ids) r

-- Where no call acts and the goroutine has ended, only the goroutine of `NewInstance` is left.
only_starter :
    (x : Instance.System)
    → ((i : ℕ) → busy (x.worker i) ≡ false)
    → x.loop ≡ Instance.finished
    → (w : Writer) → Writes x w
    → w ≡ by_starter
only_starter x quiet ended (by_call i) h = absurd (let idle = quiet i in cc)
only_starter x quiet ended by_timer h = absurd (cc)
only_starter x quiet ended by_starter h = refl

-- In every reachable state in which `Close` has returned, nothing changes the status of any of the
-- instances, neither an action nor an initialization nor the timer, except for the goroutine of
-- `NewInstance` where it sets `errored`; the goroutine `lifecycle` of each has ended, and its context
-- is done.
pub all_quiet :
    {ids : List ℕ} {s : Registry} (k : ℕ)
    → Reach ids s
    → s.caller ≡ Instance.closed
    → member k s.ids ≡ true
    → ((w : Writer) → Writes (s.system k) w → w ≡ by_starter)
      × ((s.system k).loop ≡ Instance.finished)
      × ((s.system k).cancelled ≡ true)
all_quiet {s = s} k r over m =
    let v = Reach-Inv r in
    let (quiet, ended, cancelled, _) =
      closed_for_good 0 (v.reached k) (v.all_closed k over m) Instance.here in
    (only_starter (s.system k) quiet ended, ended, cancelled)
