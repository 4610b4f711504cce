-- ===== src/Events/Tests.antt =====
-- A history of the emitter: one listener, a `Dispatch` to it, and its receiver that calls `Off`.
use serverpouch.Common.{
  ℕ, true, false, List, [], ◌∷◌, none, ◌≡◌, refl, put, member, here, step, Steps, arith,
}
use serverpouch.Events.{
  on, off, dispatch, absent, waiting, working, sending, got, dispatched, Emitter, is_sending, Step,
  begin, lock, rlock, end_on, deliver, end_dispatch, Reach,
}
use serverpouch.Events.Invariant.{never_panics}
use serverpouch.Events.Delivery.{from_call, dispatch_delivers, dispatch_can_return}
use serverpouch.Events.Stuck.{off_deadlocks}

-- Call 0 of `On` has returned channel 0, and call 1 of `Dispatch` sends 5 to it.
abbrev busy : Emitter ℕ
busy = record {
  listeners = 0 ∷ [];
  next = 1;
  is_closed = λ _. false;
  listening = put (λ _. false) 0 true;
  inbox = λ _. [];
  writer = none;
  call =
      put
        (put (put (put (put (λ _. absent) 0 (waiting on)) 0 (working on)) 0 (got 0)) 1
          (waiting (dispatch 5)))
        1 (sending 5 (0 ∷ []) (0 ∷ []));
  panicked = false;
}

busy_reached : Reach busy
busy_reached =
    step
      (step
        (step (step (step here (begin 0 on refl)) (lock 0 on refl refl (refl, λ k. ground arith)))
          (end_on 0 refl))
        (begin 1 (dispatch 5) refl))
      (rlock 1 5 refl refl)

-- The receiver of channel 0 calls `Off`.
abbrev leaving : Emitter ℕ
leaving = record busy {
  listening = put busy.listening 0 false;
  call = put busy.call 2 (waiting (off 0));
}

leaving_reached : Reach leaving
leaving_reached = step busy_reached (begin 2 (off 0) refl)

-- The value is delivered, and `Dispatch` returns.
abbrev served : Emitter ℕ
served = record busy {
  inbox = put busy.inbox 0 ((1, 5) ∷ []);
  call = put (put busy.call 1 (sending 5 (0 ∷ []) [])) 1 (dispatched 5 (0 ∷ []));
}

served_reached : Reach served
served_reached =
    step (step busy_reached (deliver 1 5 (0 ∷ []) (0 ∷ []) 0 refl refl refl refl))
      (end_dispatch 1 5 (0 ∷ []) refl)

never_panics_example :
    (busy.panicked ≡ false)
    × ((i v : ℕ) (all pending : List ℕ) (c : ℕ)
        → busy.call i ≡ sending v all pending
        → member c pending ≡ true
        → (member c busy.listeners ≡ true) × (busy.is_closed c ≡ false))
never_panics_example = never_panics busy_reached

dispatch_delivers_example : from_call 1 (served.inbox 0) ≡ 5 ∷ []
dispatch_delivers_example = dispatch_delivers 1 5 (0 ∷ []) served_reached refl 0

dispatch_can_return_example :
    (t : Emitter ℕ) × Steps Step busy t × (t.call 1 ≡ dispatched 5 (0 ∷ []))
dispatch_can_return_example =
    dispatch_can_return 1 5 (0 ∷ []) (0 ∷ []) busy_reached refl (λ c m. ground arith)

off_deadlocks_example : (is_sending (leaving.call 1) ≡ true) × (leaving.call 2 ≡ waiting (off 0))
off_deadlocks_example =
    off_deadlocks {s = leaving} {t = leaving} 1 0 2 (off 0) leaving_reached refl refl refl refl here
