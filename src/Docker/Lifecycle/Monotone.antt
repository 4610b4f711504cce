-- ===== src/Docker/Lifecycle/Monotone.antt =====
-- Which calls of `Close` have begun and returned, along a history.
use serverpouch.Common.{ℕ, ◌≡◌, ◌⊎◌, inl, inr, arith, nat_eq}
use serverpouch.Docker.Lifecycle.{
  finished, open_yet, closed, System, Step, call, acquire, refuse, finish, update, release, drain,
  tick, tick_busy, refresh, cancel, leave, leave_busy, close, signal, starts, Steps, here, step,
  Reach,
}

pub Step-stays_closed :
    {s t : System} (j : ℕ) → Step s t → s.closer j ≡ closed → t.closer j ≡ closed
Step-stays_closed j (close i e) h = ground arith
Step-stays_closed j (signal i e l) h = ground arith
Step-stays_closed j (call i e) h = h
Step-stays_closed j (acquire i e l) h = h
Step-stays_closed j (refuse i e c) h = h
Step-stays_closed j (finish i e) h = h
Step-stays_closed j (update i e) h = h
Step-stays_closed j (release i e l) h = h
Step-stays_closed j (drain i e l) h = h
Step-stays_closed j (tick l) h = h
Step-stays_closed j (tick_busy i l) h = h
Step-stays_closed j (refresh l) h = h
Step-stays_closed j cancel h = h
Step-stays_closed j (leave l c) h = h
Step-stays_closed j (leave_busy i l c) h = h
Step-stays_closed j (starts p st) h = h

pub Steps-stay_closed :
    {s t : System} (j : ℕ) → Steps s t → s.closer j ≡ closed → t.closer j ≡ closed
Steps-stay_closed j here h = h
Steps-stay_closed j (step r st) h = Step-stays_closed j st (Steps-stay_closed j r h)

-- A call of `Close` that has not begun had not begun before.
pub Step-open_before :
    {s t : System} (j : ℕ) → Step s t → t.closer j ≡ open_yet → s.closer j ≡ open_yet
Step-open_before j (close i e) h = ground arith
Step-open_before j (signal i e l) h = ground arith
Step-open_before j (call i e) h = h
Step-open_before j (acquire i e l) h = h
Step-open_before j (refuse i e c) h = h
Step-open_before j (finish i e) h = h
Step-open_before j (update i e) h = h
Step-open_before j (release i e l) h = h
Step-open_before j (drain i e l) h = h
Step-open_before j (tick l) h = h
Step-open_before j (tick_busy i l) h = h
Step-open_before j (refresh l) h = h
Step-open_before j cancel h = h
Step-open_before j (leave l c) h = h
Step-open_before j (leave_busy i l c) h = h
Step-open_before j (starts p st) h = h

-- The goroutine ends with the call of `Close` that it lets return.
Step-finished :
    {s t : System}
    → Step s t
    → t.loop ≡ finished
    → (s.loop ≡ finished) ⊎ ((j : ℕ) × (t.closer j ≡ closed))
Step-finished (close i e) h = inl h
Step-finished (signal i e l) h = inr (i, ground arith)
Step-finished (call i e) h = inl h
Step-finished (acquire i e l) h = absurd (cc h)
Step-finished (refuse i e c) h = inl h
Step-finished (finish i e) h = inl h
Step-finished (update i e) h = inl h
Step-finished (release i e l) h = absurd (cc h)
Step-finished (drain i e l) h = absurd (cc h)
Step-finished (tick l) h = absurd (cc h)
Step-finished (tick_busy i l) h = inl h
Step-finished (refresh l) h = absurd (cc h)
Step-finished cancel h = inl h
Step-finished (leave l c) h = absurd (cc h)
Step-finished (leave_busy i l c) h = absurd (cc h)
Step-finished (starts p st) h = inl h

pub finished_closed : {s : System} → Reach s → s.loop ≡ finished → (j : ℕ) × (s.closer j ≡ closed)
finished_closed here h = absurd (cc)
finished_closed (step r st) h = elim (Step-finished st h) [
  | inl before ↦ let (j, e) = finished_closed r before in (j, Step-stays_closed j st e)
  | inr now ↦ now
]
