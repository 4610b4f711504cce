-- ===== src/Events/Stuck.antt =====
-- internal/common/events/events.go: `Off` takes the lock that `Dispatch` holds while it waits for
-- the receivers, so a receiver that calls `Off` in that time is waited for by what it waits for.
use serverpouch.Common.{
  ℕ, Bool, true, false, ◌≡◌, ◌≢◌, arith, nat_eq, member, member-remove, Steps, Steps-keep,
}
use serverpouch.Events.{
  Request, on, off, dispatch, close, Call, waiting, working, sending, Emitter, is_sending, writes,
  IsFree, Step, begin, lock, rlock, end_on, end_off, end_close, deliver, send_closed, end_dispatch,
  Reach,
}
use serverpouch.Events.Invariant.{Inv, Reach-Inv, Step-Inv}

module _ {V : Type 0} where
  -- Whether a call has still to send to a channel.
  abbrev pub owes : Call V → ℕ → Bool
  owes (sending v all pending) c = member c pending
  owes _ c = false

  -- Call `i` has to send to the channel `c`, whose receiver is gone, while call `k` waits for the
  -- lock.
  record IsStuck (i c k : ℕ) (r : Request V) (s : Emitter V) : Type 0 where
    inv : Inv s
    owing : owes (s.call i) c ≡ true
    deaf : s.listening c ≡ false
    waits : s.call k ≡ waiting r

  owing-is_sending : (x : Call V) (c : ℕ) → owes x c ≡ true → is_sending x ≡ true
  owing-is_sending x c h = ground arith

  module _ {i c k : ℕ} {r : Request V} (w : writes r ≡ true) {s : Emitter V}
      (h : IsStuck i c k r s) where
    no_work : (j : ℕ) (q : Request V) → s.call j ≢ working q
    no_work j q e = ground (
      arith,
      h.inv.working_writes j q e,
      h.inv.writer_alone i,
      owing-is_sending (s.call i) c h.owing,
    )

    not_free : IsFree s → ⊥
    not_free f = ground (arith, f.1 i, owing-is_sending (s.call i) c h.owing)

    Step-owing : (t : Emitter V) → Step s t → owes (t.call i) c ≡ true
    Step-owing _ (begin j on e) = ground (arith, h.owing)
    Step-owing _ (begin j (off d) e) = ground (arith, h.owing)
    Step-owing _ (begin j (dispatch v) e) = ground (arith, h.owing)
    Step-owing _ (begin j close e) = ground (arith, h.owing)
    Step-owing _ (lock j q e x f) = absurd (not_free f)
    Step-owing _ (rlock j v e f) = ground (arith, h.owing)
    Step-owing _ (end_on j e) = absurd (no_work j on e)
    Step-owing _ (end_off j d e) = absurd (no_work j (off d) e)
    Step-owing _ (end_close j e) = absurd (no_work j close e)
    Step-owing _ (deliver j v all p d e m o l) =
        ground (arith, h.owing, h.deaf, member-remove d c p (h.inv.pending_distinct j v all p e))
    Step-owing _ (send_closed j v all p d e m o) = h.owing
    Step-owing _ (end_dispatch j v all e) = ground (arith, h.owing)

    Step-deaf : (t : Emitter V) → Step s t → t.listening c ≡ false
    Step-deaf _ (begin j on e) = h.deaf
    Step-deaf _ (begin j (off d) e) = ground (arith, h.deaf)
    Step-deaf _ (begin j (dispatch v) e) = h.deaf
    Step-deaf _ (begin j close e) = h.deaf
    Step-deaf _ (lock j q e x f) = h.deaf
    Step-deaf _ (rlock j v e f) = h.deaf
    Step-deaf _ (end_on j e) = absurd (no_work j on e)
    Step-deaf _ (end_off j d e) = absurd (no_work j (off d) e)
    Step-deaf _ (end_close j e) = absurd (no_work j close e)
    Step-deaf _ (deliver j v all p d e m o l) = h.deaf
    Step-deaf _ (send_closed j v all p d e m o) = h.deaf
    Step-deaf _ (end_dispatch j v all e) = h.deaf

    Step-waits : (t : Emitter V) → Step s t → t.call k ≡ waiting r
    Step-waits _ (begin j on e) = ground (arith, h.waits)
    Step-waits _ (begin j (off d) e) = ground (arith, h.waits)
    Step-waits _ (begin j (dispatch v) e) = ground (arith, h.waits)
    Step-waits _ (begin j close e) = ground (arith, h.waits)
    Step-waits _ (lock j q e x f) = absurd (not_free f)
    Step-waits _ (rlock j v e f) = ground (arith, h.waits)
    Step-waits _ (end_on j e) = absurd (no_work j on e)
    Step-waits _ (end_off j d e) = absurd (no_work j (off d) e)
    Step-waits _ (end_close j e) = absurd (no_work j close e)
    Step-waits _ (deliver j v all p d e m o l) = ground (arith, h.waits)
    Step-waits _ (send_closed j v all p d e m o) = h.waits
    Step-waits _ (end_dispatch j v all e) = ground (arith, h.waits)

  Step-IsStuck :
      (i c k : ℕ) (r : Request V)
      → writes r ≡ true
      → (s t : Emitter V) → IsStuck i c k r s
      → Step s t
      → IsStuck i c k r t
  Step-IsStuck i c k r w s t h st = record {
    inv = Step-Inv s t h.inv st;
    owing = Step-owing w h t st;
    deaf = Step-deaf w h t st;
    waits = Step-waits w h t st;
  }

  -- If a `Dispatch` has still to send to a channel whose receiver does not receive any more, as it is
  -- in its call of `Off`, then in every later state the `Dispatch` has not returned, and each `On`,
  -- `Off` and `Close` that waited, that `Off` as well, still waits.
  pub off_deadlocks :
      {s t : Emitter V} (i c k : ℕ) (r : Request V)
      → Reach s
      → owes (s.call i) c ≡ true
      → s.listening c ≡ false
      → s.call k ≡ waiting r
      → writes r ≡ true
      → Steps Step s t
      → (is_sending (t.call i) ≡ true) × (t.call k ≡ waiting r)
  off_deadlocks {s} {t} i c k r reached owing deaf waits w later =
      let now : IsStuck i c k r s = record {
        inv = Reach-Inv reached;
        owing = owing;
        deaf = deaf;
        waits = waits;
      } in
      let h = Steps-keep (IsStuck i c k r) (Step-IsStuck i c k r w) now later in
      (owing-is_sending (t.call i) c h.owing, h.waits)
