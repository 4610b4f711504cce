-- ===== src/Docker/Lifecycle.antt =====
-- internal/infrastructure/docker/lifecycle.go, `lifecycle` and `lifecycleAction`, and `Close` of
-- instance.go: the goroutine that hands out the right to act, the calls that ask for it, and the
-- calls that wait for its end. A step is one rendezvous on a channel or one stretch of code between
-- two; a `select` takes any of its cases that is ready. Call 0 is `lifecycleInit`, and what the
-- goroutine of `NewInstance` does after it is the `Starter`.
pub mod Exclusion
pub mod Monotone
pub mod Releasing
pub mod Closing
mod Tests
use serverpouch.Common.{ℕ, Bool, true, false, Option, none, some, ◌≡◌, put}

-- Where a call of `Start`, `Stop`, `Kill` or `lifecycleInit` stands.
pub data Worker : Type 0 where
  away : Worker  -- not called yet
  asking : Worker  -- at the `select` of `lifecycleAction`
  acting : Worker  -- between the acquisition of the action and its deferred end
  updating : Worker  -- in the `lifecycleActionUpdateStatus` of the deferred function
  releasing : Worker  -- at `doneChan <- struct{}{}`
  returned : Worker
  refused : Worker  -- `lifecycleAction` returned "context closed"

-- Where the goroutine `lifecycle` stands, with the call whose channel is `actionDone`.
pub data Loop : Type 0 where
  selecting : Option ℕ → Loop  -- at its `select`; `actionChan` is nil if there is a call
  refreshing : Loop  -- in the update of the timer's case
  draining : ℕ → Loop  -- at the deferred `<-actionDone`
  signalling : Loop  -- at the deferred `ctxCancelDone <- struct{}{}`
  finished : Loop

-- Where a call of `Close` stands.
pub data Closer : Type 0 where
  open_yet closing closed : Closer

-- Where the goroutine of `NewInstance` that calls `lifecycleInit` stands.
pub data Starter : Type 0 where
  initializing : Starter  -- in its call of `lifecycleInit`, which is call 0
  failing : Starter  -- in `setStatus(ServerInstanceStatusErrored)`
  recording : Starter  -- at the assignment of the container's ID
  attaching : Starter  -- in `lifecycleInitAttach`, which changes no status
  gone : Starter

pub record System : Type 0 where
  pub loop : Loop
  pub worker : ℕ → Worker
  pub closer : ℕ → Closer
  pub starter : Starter
  pub cancelled : Bool  -- whether `ctx` is done

abbrev pub init : System
init = record {
  loop = selecting none;
  worker = λ _. away;
  closer = λ _. open_yet;
  starter = initializing;
  cancelled = false;
}

-- The goroutine of `NewInstance` after its call: it is over in whatever state the others are. An
-- initialization that was refused has an error; one that was not may have one.
pub data Starts (s : System) : Starter → Type 0 where
  init_refused : s.starter ≡ initializing → s.worker 0 ≡ refused → Starts s failing
  init_failed : s.starter ≡ initializing → s.worker 0 ≡ returned → Starts s failing
  init_done : s.starter ≡ initializing → s.worker 0 ≡ returned → Starts s recording
  errored_set : s.starter ≡ failing → Starts s gone
  id_set : s.starter ≡ recording → Starts s attaching
  -- The context is done, docker has failed, or a write has; then the deferred `Off` has returned.
  attach_over : s.starter ≡ attaching → Starts s gone

pub data Step (s : System) : System → Type 0 where
  call : (i : ℕ) → s.worker i ≡ away → Step s (record s { worker = put s.worker i asking })
  acquire :
      (i : ℕ)
      → s.worker i ≡ asking
      → s.loop ≡ selecting none
      → Step s (record s { loop = selecting (some i); worker = put s.worker i acting })
  refuse :
      (i : ℕ)
      → s.worker i ≡ asking
      → s.cancelled ≡ true
      → Step s (record s { worker = put s.worker i refused })
  finish : (i : ℕ) → s.worker i ≡ acting → Step s (record s { worker = put s.worker i updating })
  update : (i : ℕ) → s.worker i ≡ updating → Step s (record s { worker = put s.worker i releasing })
  release :
      (i : ℕ)
      → s.worker i ≡ releasing
      → s.loop ≡ selecting (some i)
      → Step s (record s { loop = selecting none; worker = put s.worker i returned })
  drain :
      (i : ℕ)
      → s.worker i ≡ releasing
      → s.loop ≡ draining i
      → Step s (record s { loop = signalling; worker = put s.worker i returned })
  tick : s.loop ≡ selecting none → Step s (record s { loop = refreshing })
  tick_busy : (i : ℕ) → s.loop ≡ selecting (some i) → Step s s
  refresh : s.loop ≡ refreshing → Step s (record s { loop = selecting none })
  cancel : Step s (record s { cancelled = true })
  leave : s.loop ≡ selecting none → s.cancelled ≡ true → Step s (record s { loop = signalling })
  leave_busy :
      (i : ℕ)
      → s.loop ≡ selecting (some i)
      → s.cancelled ≡ true
      → Step s (record s { loop = draining i })
  close :
      (j : ℕ)
      → s.closer j ≡ open_yet
      → Step s (record s { closer = put s.closer j closing; cancelled = true })
  signal :
      (j : ℕ)
      → s.closer j ≡ closing
      → s.loop ≡ signalling
      → Step s (record s { loop = finished; closer = put s.closer j closed })
  starts : (p : Starter) → Starts s p → Step s (record s { starter = p })

pub data Steps (s : System) : System → Type 0 where
  here : Steps s s
  step : {t u : System} → Steps s t → Step t u → Steps s u

abbrev pub Reach : System → Type 0
Reach = Steps init
