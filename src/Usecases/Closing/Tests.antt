-- ===== src/Usecases/Closing/Tests.antt =====
-- `Close` over two instances, one of which acts.
use serverpouch.Common.{ℕ, true, [], ◌∷◌, ◌≡◌, ◌≢◌, refl, put, arith, Steps, here, step, nat_eq}
use serverpouch.Docker.Lifecycle as Instance
use serverpouch.Docker.Lifecycle.Exclusion.{Writer, by_starter, Writes}
use serverpouch.Usecases.Closing.{Registry, registry, Step, run, start, wait, Reach}
use serverpouch.Usecases.Closing.Quiet.{all_quiet}
use serverpouch.Usecases.Closing.Returns.{close_all_can_return}

-- `Close` has been called while both instances are idle.
abbrev waiting : Registry
waiting = record (registry (3 ∷ 4 ∷ [])) { caller = Instance.closing }

waiting_reached : Reach (3 ∷ 4 ∷ []) waiting
waiting_reached = step here (start refl refl)

close_all_can_return_example : (t : Registry) × Steps Step waiting t × (t.caller ≡ Instance.closed)
close_all_can_return_example = close_all_can_return {s = waiting} waiting_reached refl

-- The one instance 3 after its context is done, its loop is left, and its `Close` has returned.
abbrev asked : Instance.System
asked = record Instance.init {
  closer = put (λ _. Instance.open_yet) 0 Instance.closing;
  cancelled = true;
}

abbrev left : Instance.System
left = record asked { loop = Instance.signalling }

abbrev ended : Instance.System
ended = record left { loop = Instance.finished; closer = put left.closer 0 Instance.closed }

abbrev with : Instance.System → Registry
with x = record { ids = 3 ∷ []; system = put (λ _. Instance.init) 3 x; caller = Instance.closing }

with_step :
    (x y : Instance.System)
    → Instance.Step x y
    → ((j : ℕ) → j ≢ 0 → y.closer j ≡ Instance.open_yet)
    → Step (with x) (with y)
with_step x y st others = run 3 st others (λ e. absurd (cc)) (λ j d. ground arith) refl refl

one_started : Reach (3 ∷ []) (record (registry (3 ∷ [])) { caller = Instance.closing })
one_started = step here (start refl refl)

one_over : Reach (3 ∷ []) (record (with ended) { caller = Instance.closed })
one_over =
    step
      (step
        (step
          (step one_started (
            run 3 (Instance.close 0 refl) (λ j d. ground arith) (λ e. absurd (cc))
              (λ j d. ground arith) refl refl))
          (with_step asked left (Instance.leave refl refl) (λ j d. ground arith)))
        (with_step left ended (Instance.signal 0 refl refl) (λ j d. ground arith)))
      (wait refl (λ k m. ground arith) refl)

all_quiet_example :
    ((w : Writer) → Writes ended w → w ≡ by_starter)
    × (ended.loop ≡ Instance.finished)
    × (ended.cancelled ≡ true)
all_quiet_example =
    all_quiet {s = record (with ended) { caller = Instance.closed }} 3 one_over refl refl
