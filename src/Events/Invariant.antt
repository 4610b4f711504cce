-- ===== src/Events/Invariant.antt =====
-- internal/common/events/events.go: what holds in every reachable state of the emitter, and so that
-- it never panics.
mod Defs
mod Lock
mod Channels
pub use Defs.{Inv, new_emitter-Inv}
use serverpouch.Common.{
  ℕ, true, false, ◌||◌, List, [], ◌∷◌, none, some, ◌≡◌, ◌≢◌, ◌≤◌, refl, arith, ◌==◌, nat_eq, member,
  remove, IsDistinct, member-append, member-remove, member_of_remove, remove-IsDistinct,
  append-IsDistinct, Bool-cases, inl, inr, ◌∙◌, if_both, Steps-keep, subst,
}
use serverpouch.Events.{
  Request, on, off, dispatch, close, working, sending, Emitter, is_sending, close_channel,
  close_channels, new_emitter, Step, begin, lock, rlock, end_on, end_off, end_close, deliver,
  send_closed, end_dispatch, Reach,
}
use Lock.{Step-working, Step-alone, Step-pending, Step-pending-IsDistinct}
use Channels.{Step-open, Step-made, Step-made_closed, Step-IsDistinct, Step-calm}

module _ {V : Type 0} where
  pub Step-Inv : (s t : Emitter V) → Inv s → Step s t → Inv t
  Step-Inv s t v st = record {
    working_writes = Step-working v st;
    writer_alone = Step-alone v st;
    pending_listen = Step-pending v st;
    listeners_open = Step-open v st;
    listeners_made = Step-made v st;
    made_closed = Step-made_closed v st;
    pending_distinct = Step-pending-IsDistinct v st;
    distinct = Step-IsDistinct v st;
    calm = Step-calm v st;
  }

  pub Reach-Inv : {s : Emitter V} → Reach s → Inv s
  Reach-Inv r = Steps-keep Inv Step-Inv new_emitter-Inv r

  -- Whatever is called and in whatever order, nothing panics: no channel is closed twice, and none is
  -- sent to when it is closed. A `Dispatch` that sends keeps every channel that it has still to serve
  -- open and among the listeners.
  pub never_panics :
      {s : Emitter V}
      → Reach s
      → (s.panicked ≡ false)
        × ((i : ℕ) (v : V) (all pending : List ℕ) (c : ℕ)
            → s.call i ≡ sending v all pending
            → member c pending ≡ true
            → (member c s.listeners ≡ true) × (s.is_closed c ≡ false))
  never_panics r =
      let v = Reach-Inv r in
      (
        v.calm,
        λ i w all p c e m.
            let listens = v.pending_listen i w all p c e m in (listens, v.listeners_open c listens),
      )
