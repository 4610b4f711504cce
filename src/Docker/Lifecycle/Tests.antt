-- ===== src/Docker/Lifecycle/Tests.antt =====
-- A history with two calls and a `Close`, and the theorems about the goroutine at its states.
use serverpouch.Common.{ℕ, put, true, false, some, ◌≡◌, ◌≢◌, ◌⊎◌, refl}
use serverpouch.Docker.Lifecycle.{
  asking, acting, updating, releasing, returned, refused, selecting, finished, closing, closed,
  System, init, call, acquire, finish, update, drain, cancel, refuse, starts, initializing, failing,
  init_refused, leave_busy, close, signal, Steps, here, step, Reach,
}
use serverpouch.Docker.Lifecycle.Exclusion.{
  busy, Writer, by_call, by_starter, Writes, mutual_exclusion,
}
use serverpouch.Docker.Lifecycle.Closing.{closed_for_good, asking_can_be_answered}

-- Call 0 acts, call 1 asks, and call 0 of `Close` waits.
abbrev contended : System
contended = record {
  loop = selecting (some 0);
  worker = put (put (put init.worker 0 asking) 1 asking) 0 acting;
  closer = put init.closer 0 closing;
  starter = initializing;
  cancelled = true;
}

contended_reached : Reach contended
contended_reached =
    step (step (step (step here (call 0 refl)) (call 1 refl)) (acquire 0 refl refl)) (close 0 refl)

-- The same after call 0 has ended and `Close` has returned.
abbrev ended : System
ended = record {
  loop = finished;
  worker = put (put (put contended.worker 0 updating) 0 releasing) 0 returned;
  closer = put contended.closer 0 closed;
  starter = initializing;
  cancelled = true;
}

ended_reached : Reach ended
ended_reached =
    step
      (step
        (step (step (step contended_reached (leave_busy 0 refl refl)) (finish 0 refl))
          (update 0 refl))
        (drain 0 refl refl))
      (signal 0 refl refl)

-- The initialization has been refused, and its goroutine sets `errored`, while call 1, which came
-- before the context was done, still acts.
abbrev overlapping : System
overlapping = record {
  loop = selecting (some 1);
  worker = put (put (put (put init.worker 0 asking) 1 asking) 1 acting) 0 refused;
  closer = init.closer;
  starter = failing;
  cancelled = true;
}

overlapping_reached : Reach overlapping
overlapping_reached =
    step
      (step
        (step (step (step (step here (call 0 refl)) (call 1 refl)) (acquire 1 refl refl)) cancel)
        (refuse 0 refl refl))
      (starts failing (init_refused refl refl))

both_write : Writes overlapping (by_call 1) × Writes overlapping by_starter
both_write = (refl, refl)

mutual_exclusion_example :
    ◌≡◌ {A = Writer} (by_call 0) (by_call 0) ⊎ ((by_call 0 ≡ by_starter) ⊎ (by_call 0 ≡ by_starter))
mutual_exclusion_example =
    mutual_exclusion {s = contended} (by_call 0) (by_call 0) contended_reached refl refl

closed_for_good_example :
    ((i : ℕ) → busy (ended.worker i) ≡ false)
    × (ended.loop ≡ finished)
    × (ended.cancelled ≡ true)
    × ((k : ℕ) → k ≢ 0 → ended.closer k ≢ closed)
closed_for_good_example = closed_for_good {s = ended} {t = ended} 0 ended_reached refl here

-- Call 0 acts, call 1 asks, and nobody closes.
abbrev crowded : System
crowded = record contended { closer = init.closer; cancelled = false }

crowded_reached : Reach crowded
crowded_reached = step (step (step here (call 0 refl)) (call 1 refl)) (acquire 0 refl refl)

asking_can_be_answered_example :
    (t : System) × Steps crowded t
    × (t.cancelled ≡ false)
    × (((false ≡ false) × (t.worker 1 ≡ acting)) ⊎ ((false ≡ true) × (t.worker 1 ≡ refused)))
asking_can_be_answered_example = asking_can_be_answered {s = crowded} 1 crowded_reached refl
