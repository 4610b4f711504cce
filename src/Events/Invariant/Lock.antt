-- ===== src/Events/Invariant/Lock.antt =====
-- The lock and the pending sends, across a step of the emitter.
use serverpouch.Common.{
  ℕ, true, false, List, none, some, ◌≡◌, ◌≢◌, arith, ◌==◌, nat_eq, member, remove, IsDistinct,
  member_of_remove, remove-IsDistinct, Bool-cases, inl, inr, subst,
}
use serverpouch.Events.{
  Request, on, off, dispatch, close, working, sending, Emitter, is_sending, Step, begin, lock,
  rlock, end_on, end_off, end_close, deliver, send_closed, end_dispatch,
}
use serverpouch.Events.Invariant.Defs.{Inv, close_channels_frame}

module _ {V : Type 0} {s : Emitter V} (v : Inv s) where
  pub Step-working :
      {t : Emitter V}
      → Step s t
      → (k : ℕ) (r : Request V) → t.call k ≡ working r
      → t.writer ≡ some k
  Step-working (begin i on e) k r h = ground (arith, v.working_writes k r)
  Step-working (begin i (off c) e) k r h = ground (arith, v.working_writes k r)
  Step-working (begin i (dispatch w) e) k r h = ground (arith, v.working_writes k r)
  Step-working (begin i close e) k r h = ground (arith, v.working_writes k r)
  Step-working (lock i q e w f) k r h = ground (arith, v.working_writes k r, f.0)
  Step-working (rlock i w e f) k r h = ground (arith, v.working_writes k r)
  Step-working (end_on i e) k r h = ground (arith, v.working_writes k r, v.working_writes i on)
  Step-working (end_off i c e) k r h =
      ground (arith, v.working_writes k r, v.working_writes i (off c))
  Step-working (end_close i e) k r h =
      ground (arith, v.working_writes k r, v.working_writes i close)
  Step-working (deliver i w all p c e m o l) k r h = ground (arith, v.working_writes k r)
  Step-working (send_closed i w all p c e m o) k r h = v.working_writes k r h
  Step-working (end_dispatch i w all e) k r h = ground (arith, v.working_writes k r)

  pub Step-alone :
      {t : Emitter V} → Step s t → (k : ℕ) → t.writer ≢ none → is_sending (t.call k) ≡ false
  Step-alone (begin i on e) k h = ground (arith, v.writer_alone k)
  Step-alone (begin i (off c) e) k h = ground (arith, v.writer_alone k)
  Step-alone (begin i (dispatch w) e) k h = ground (arith, v.writer_alone k)
  Step-alone (begin i close e) k h = ground (arith, v.writer_alone k)
  Step-alone (lock i q e w f) k h = ground (arith, v.writer_alone k, f.1 k)
  Step-alone (rlock i w e f) k h = ground (arith, v.writer_alone k)
  Step-alone (end_on i e) k h = ground (arith, v.writer_alone k)
  Step-alone (end_off i c e) k h = ground (arith, v.writer_alone k)
  Step-alone (end_close i e) k h = ground (arith, v.writer_alone k)
  Step-alone (deliver i w all p c e m o l) k h = ground (arith, v.writer_alone k, v.writer_alone i)
  Step-alone (send_closed i w all p c e m o) k h = ground (arith, v.writer_alone k)
  Step-alone (end_dispatch i w all e) k h = ground (arith, v.writer_alone k)

  pub Step-pending :
      {t : Emitter V}
      → Step s t
      → (k : ℕ) (w' : V) (all' pending' : List ℕ) (d : ℕ) → t.call k ≡ sending w' all' pending'
      → member d pending' ≡ true
      → member d t.listeners ≡ true
  Step-pending (begin i on e) k w' all' p' d h n =
      ground (arith, v.pending_listen k w' all' p' d, v.writer_alone k)
  Step-pending (begin i (off c) e) k w' all' p' d h n =
      ground (arith, v.pending_listen k w' all' p' d, v.writer_alone k)
  Step-pending (begin i (dispatch w) e) k w' all' p' d h n =
      ground (arith, v.pending_listen k w' all' p' d, v.writer_alone k)
  Step-pending (begin i close e) k w' all' p' d h n =
      ground (arith, v.pending_listen k w' all' p' d, v.writer_alone k)
  Step-pending (lock i q e w f) k w' all' p' d h n =
      ground (arith, v.pending_listen k w' all' p' d, v.writer_alone k)
  Step-pending (rlock i w e f) k w' all' p' d h n =
      ground (arith, v.pending_listen k w' all' p' d, v.writer_alone k)
  Step-pending (end_on i e) k w' all' p' d h n =
      ground (arith, v.writer_alone k, v.working_writes i on)
  Step-pending (end_off i c e) k w' all' p' d h n =
      ground (arith, v.writer_alone k, v.working_writes i (off c))
  Step-pending (end_close i e) k w' all' p' d h n =
      ground (arith, v.writer_alone k, v.working_writes i close, close_channels_frame s.listeners s)
  Step-pending (deliver i w all p c e m o l) k w' all' p' d h n = ground (
    arith,
    v.pending_listen k w' all' p' d,
    v.writer_alone k,
    v.pending_listen i w all p d,
    member_of_remove c d p,
  )
  Step-pending (send_closed i w all p c e m o) k w' all' p' d h n =
      ground (arith, v.pending_listen k w' all' p' d, v.writer_alone k)
  Step-pending (end_dispatch i w all e) k w' all' p' d h n =
      ground (arith, v.pending_listen k w' all' p' d, v.writer_alone k)

  pub Step-pending-IsDistinct :
      {t : Emitter V}
      → Step s t
      → (k : ℕ) (w' : V) (all' pending' : List ℕ) → t.call k ≡ sending w' all' pending'
      → IsDistinct pending'
  Step-pending-IsDistinct (begin i on e) k w' all' p' h =
      v.pending_distinct k w' all' p' (ground arith)
  Step-pending-IsDistinct (begin i (off c) e) k w' all' p' h =
      v.pending_distinct k w' all' p' (ground arith)
  Step-pending-IsDistinct (begin i (dispatch w) e) k w' all' p' h =
      v.pending_distinct k w' all' p' (ground arith)
  Step-pending-IsDistinct (begin i close e) k w' all' p' h =
      v.pending_distinct k w' all' p' (ground arith)
  Step-pending-IsDistinct (lock i q e w f) k w' all' p' h =
      v.pending_distinct k w' all' p' (ground arith)
  Step-pending-IsDistinct (rlock i w e f) k w' all' p' h = elim (Bool-cases (i == k)) [
    | inl same ↦ let p : s.listeners ≡ p' = ground arith in subst IsDistinct p v.distinct
    | inr other ↦ v.pending_distinct k w' all' p' (ground arith)
  ]
  Step-pending-IsDistinct (end_on i e) k w' all' p' h =
      v.pending_distinct k w' all' p' (ground arith)
  Step-pending-IsDistinct (end_off i c e) k w' all' p' h =
      v.pending_distinct k w' all' p' (ground arith)
  Step-pending-IsDistinct (end_close i e) k w' all' p' h =
      v.pending_distinct k w' all' p' (ground arith)
  Step-pending-IsDistinct (deliver i w all p c e m o l) k w' all' p' h =
      elim (Bool-cases (i == k)) [
        | inl same ↦
            let left : remove c p ≡ p' = ground arith in
            subst IsDistinct left (remove-IsDistinct c p (v.pending_distinct i w all p e))
        | inr other ↦ v.pending_distinct k w' all' p' (ground arith)
      ]
  Step-pending-IsDistinct (send_closed i w all p c e m o) k w' all' p' h =
      v.pending_distinct k w' all' p' (ground arith)
  Step-pending-IsDistinct (end_dispatch i w all e) k w' all' p' h =
      v.pending_distinct k w' all' p' (ground arith)
