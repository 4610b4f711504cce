-- ===== src/Docker/Lifecycle/Exclusion.antt =====
-- Who may act: at most one call, and not while the timer's update runs.
use serverpouch.Common.{
  ℕ, Bool, true, false, Option, none, some, ◌≡◌, ◌≢◌, ◌⊎◌, inl, inr, refl, sym, ◌∙◌, arith, nat_eq,
}
use serverpouch.Docker.Lifecycle.{
  Worker, acting, updating, releasing, Loop, selecting, refreshing, draining, finished, open_yet,
  closed, System, init, Step, call, acquire, refuse, finish, update, release, drain, tick,
  tick_busy, refresh, cancel, leave, leave_busy, close, signal, starts, failing, Steps, here, step,
  Reach,
}

-- From the acquisition of the action to its release.
abbrev pub busy : Worker → Bool
busy acting = true
busy updating = true
busy releasing = true
busy _ = false

-- The call whose release the goroutine waits for.
abbrev pub holder : Loop → Option ℕ
holder (selecting o) = o
holder (draining i) = some i
holder _ = none

-- The goroutine has left its loop.
abbrev pub left : Loop → Bool
left (selecting o) = false
left refreshing = false
left _ = true

pub record Inv (s : System) : Type 0 where
  pub held : (i : ℕ) → busy (s.worker i) ≡ true → holder s.loop ≡ some i
  pub holds : (i : ℕ) → holder s.loop ≡ some i → busy (s.worker i) ≡ true
  pub left_cancelled : left s.loop ≡ true → s.cancelled ≡ true
  pub closing_cancelled : (j : ℕ) → s.closer j ≢ open_yet → s.cancelled ≡ true
  pub closed_finished : (j : ℕ) → s.closer j ≡ closed → s.loop ≡ finished
  pub one_closed : (i j : ℕ) → s.closer i ≡ closed → s.closer j ≡ closed → i ≡ j

init-Inv : Inv init
init-Inv = record {
  held = λ i h. cc;
  holds = λ i h. cc;
  left_cancelled = λ h. cc;
  closing_cancelled = λ j h. absurd (h refl);
  closed_finished = λ j h. cc;
  one_closed = λ i j h k. cc;
}

module _ {s : System} (v : Inv s) where
  Step-held : {t : System} → Step s t → (i : ℕ) → busy (t.worker i) ≡ true → holder t.loop ≡ some i
  Step-held (call j e) i h = ground (arith, v.held i)
  Step-held (acquire j e l) i h = ground (arith, v.held i)
  Step-held (refuse j e c) i h = ground (arith, v.held i)
  Step-held (finish j e) i h = ground (arith, v.held i, v.held j)
  Step-held (update j e) i h = ground (arith, v.held i, v.held j)
  Step-held (release j e l) i h = ground (arith, v.held i)
  Step-held (drain j e l) i h = ground (arith, v.held i)
  Step-held (tick l) i h = ground (arith, v.held i)
  Step-held (tick_busy j l) i h = v.held i h
  Step-held (refresh l) i h = ground (arith, v.held i)
  Step-held cancel i h = v.held i h
  Step-held (leave l c) i h = ground (arith, v.held i)
  Step-held (leave_busy j l c) i h = ground (arith, v.held i)
  Step-held (close j e) i h = v.held i h
  Step-held (signal j e l) i h = ground (arith, v.held i)
  Step-held (starts p st) i h = v.held i h

  Step-holds : {t : System} → Step s t → (i : ℕ) → holder t.loop ≡ some i → busy (t.worker i) ≡ true
  Step-holds (call j e) i h = ground (arith, v.holds i)
  Step-holds (acquire j e l) i h = ground (arith, v.holds i)
  Step-holds (refuse j e c) i h = ground (arith, v.holds i)
  Step-holds (finish j e) i h = ground (arith, v.holds i)
  Step-holds (update j e) i h = ground (arith, v.holds i)
  Step-holds (release j e l) i h = cc
  Step-holds (drain j e l) i h = cc
  Step-holds (tick l) i h = cc
  Step-holds (tick_busy j l) i h = v.holds i h
  Step-holds (refresh l) i h = cc
  Step-holds cancel i h = v.holds i h
  Step-holds (leave l c) i h = cc
  Step-holds (leave_busy j l c) i h = ground (arith, v.holds i)
  Step-holds (close j e) i h = v.holds i h
  Step-holds (signal j e l) i h = cc
  Step-holds (starts p st) i h = v.holds i h

  Step-left : {t : System} → Step s t → left t.loop ≡ true → t.cancelled ≡ true
  Step-left (call j e) h = v.left_cancelled h
  Step-left (acquire j e l) h = cc
  Step-left (refuse j e c) h = c
  Step-left (finish j e) h = v.left_cancelled h
  Step-left (update j e) h = v.left_cancelled h
  Step-left (release j e l) h = cc
  Step-left (drain j e l) h = ground (arith, v.left_cancelled)
  Step-left (tick l) h = cc
  Step-left (tick_busy j l) h = v.left_cancelled h
  Step-left (refresh l) h = cc
  Step-left cancel h = refl
  Step-left (leave l c) h = c
  Step-left (leave_busy j l c) h = c
  Step-left (close j e) h = refl
  Step-left (signal j e l) h = ground (arith, v.left_cancelled)
  Step-left (starts p st) h = v.left_cancelled h

  Step-closing : {t : System} → Step s t → (j : ℕ) → t.closer j ≢ open_yet → t.cancelled ≡ true
  Step-closing (call i e) j h = v.closing_cancelled j h
  Step-closing (acquire i e l) j h = v.closing_cancelled j h
  Step-closing (refuse i e c) j h = c
  Step-closing (finish i e) j h = v.closing_cancelled j h
  Step-closing (update i e) j h = v.closing_cancelled j h
  Step-closing (release i e l) j h = v.closing_cancelled j h
  Step-closing (drain i e l) j h = v.closing_cancelled j h
  Step-closing (tick l) j h = v.closing_cancelled j h
  Step-closing (tick_busy i l) j h = v.closing_cancelled j h
  Step-closing (refresh l) j h = v.closing_cancelled j h
  Step-closing cancel j h = refl
  Step-closing (leave l c) j h = c
  Step-closing (leave_busy i l c) j h = c
  Step-closing (close i e) j h = refl
  Step-closing (signal i e l) j h = ground (arith, v.left_cancelled)
  Step-closing (starts p st) j h = v.closing_cancelled j h

  -- Only the end of the loop closes, and nothing leaves the end.
  Step-closed : {t : System} → Step s t → (j : ℕ) → t.closer j ≡ closed → t.loop ≡ finished
  Step-closed (call i e) j h = v.closed_finished j h
  Step-closed (acquire i e l) j h = cc (v.closed_finished j h)
  Step-closed (refuse i e c) j h = v.closed_finished j h
  Step-closed (finish i e) j h = v.closed_finished j h
  Step-closed (update i e) j h = v.closed_finished j h
  Step-closed (release i e l) j h = cc (v.closed_finished j h)
  Step-closed (drain i e l) j h = cc (v.closed_finished j h)
  Step-closed (tick l) j h = cc (v.closed_finished j h)
  Step-closed (tick_busy i l) j h = v.closed_finished j h
  Step-closed (refresh l) j h = cc (v.closed_finished j h)
  Step-closed cancel j h = v.closed_finished j h
  Step-closed (leave l c) j h = cc (v.closed_finished j h)
  Step-closed (leave_busy i l c) j h = cc (v.closed_finished j h)
  Step-closed (close i e) j h = ground (arith, v.closed_finished j)
  Step-closed (signal i e l) j h = refl
  Step-closed (starts p st) j h = v.closed_finished j h

  Step-one : {t : System} → Step s t → (i j : ℕ) → t.closer i ≡ closed → t.closer j ≡ closed → i ≡ j
  Step-one (close k e) i j h h' = ground (arith, v.one_closed i j)
  Step-one (signal k e l) i j h h' = ground (arith, v.closed_finished i, v.closed_finished j)
  Step-one (call k e) i j h h' = v.one_closed i j h h'
  Step-one (acquire k e l) i j h h' = v.one_closed i j h h'
  Step-one (refuse k e c) i j h h' = v.one_closed i j h h'
  Step-one (finish k e) i j h h' = v.one_closed i j h h'
  Step-one (update k e) i j h h' = v.one_closed i j h h'
  Step-one (release k e l) i j h h' = v.one_closed i j h h'
  Step-one (drain k e l) i j h h' = v.one_closed i j h h'
  Step-one (tick l) i j h h' = v.one_closed i j h h'
  Step-one (tick_busy k l) i j h h' = v.one_closed i j h h'
  Step-one (refresh l) i j h h' = v.one_closed i j h h'
  Step-one cancel i j h h' = v.one_closed i j h h'
  Step-one (leave l c) i j h h' = v.one_closed i j h h'
  Step-one (leave_busy k l c) i j h h' = v.one_closed i j h h'
  Step-one (starts p st) i j h h' = v.one_closed i j h h'

pub Step-Inv : {s t : System} → Inv s → Step s t → Inv t
Step-Inv v st = record {
  held = Step-held v st;
  holds = Step-holds v st;
  left_cancelled = Step-left v st;
  closing_cancelled = Step-closing v st;
  closed_finished = Step-closed v st;
  one_closed = Step-one v st;
}

pub Steps-Inv : {s t : System} → Inv s → Steps s t → Inv t
Steps-Inv v here = v
Steps-Inv v (step r st) = Step-Inv (Steps-Inv v r) st

pub Reach-Inv : {s : System} → Reach s → Inv s
Reach-Inv r = Steps-Inv init-Inv r

-- Who changes the status: an action, the initialization or its update; the timer's update; and the
-- goroutine of `NewInstance`, which sets `errored` when the initialization has failed.
pub data Writer : Type 0 where
  by_call : ℕ → Writer
  by_timer by_starter : Writer

abbrev pub Writes : System → Writer → Type 0
Writes s (by_call i) = busy (s.worker i) ≡ true
Writes s by_timer = s.loop ≡ refreshing
Writes s by_starter = s.starter ≡ failing

-- In every reachable state, of the calls and the timer's update at most one changes the status: a
-- call that acts excludes every other, and the timer. Only the goroutine of `NewInstance` may change
-- it at the same time, when it sets `errored`.
pub mutual_exclusion :
    {s : System} (a b : Writer)
    → Reach s
    → Writes s a
    → Writes s b
    → (a ≡ b) ⊎ ((a ≡ by_starter) ⊎ (b ≡ by_starter))
mutual_exclusion by_timer by_timer r h k = inl refl
mutual_exclusion by_timer (by_call j) r h k = let v = Reach-Inv r in absurd (cc (v.held j k))
mutual_exclusion (by_call i) by_timer r h k = let v = Reach-Inv r in absurd (cc (v.held i h))
mutual_exclusion (by_call i) (by_call j) r h k =
    let v = Reach-Inv r in
    let same : some i ≡ some j = sym (v.held i h) ∙ v.held j k in inl (cc same)
mutual_exclusion by_starter b r h k = inr (inl refl)
mutual_exclusion by_timer by_starter r h k = inr (inr refl)
mutual_exclusion (by_call i) by_starter r h k = inr (inr refl)
