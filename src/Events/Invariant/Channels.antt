-- ===== src/Events/Invariant/Channels.antt =====
-- The listeners and the channels, across a step of the emitter.
use serverpouch.Common.{
  ℕ, true, false, [], ◌∷◌, ◌≡◌, ◌≤◌, refl, arith, nat_eq, member, IsDistinct, member-append,
  member-remove, member_of_remove, remove-IsDistinct, append-IsDistinct, ◌∙◌, if_both,
}
use serverpouch.Events.{
  on, off, dispatch, close, Emitter, Step, begin, lock, rlock, end_on, end_off, end_close, deliver,
  send_closed, end_dispatch,
}
use serverpouch.Events.Invariant.Defs.{Inv, close_channels_lem, close_channels_frame}

module _ {V : Type 0} {s : Emitter V} (v : Inv s) where
  pub Step-open :
      {t : Emitter V} → Step s t → (d : ℕ) → member d t.listeners ≡ true → t.is_closed d ≡ false
  Step-open (begin i on e) d h = v.listeners_open d h
  Step-open (begin i (off c) e) d h = v.listeners_open d h
  Step-open (begin i (dispatch w) e) d h = v.listeners_open d h
  Step-open (begin i close e) d h = v.listeners_open d h
  Step-open (lock i q e w f) d h = v.listeners_open d h
  Step-open (rlock i w e f) d h = v.listeners_open d h
  Step-open (end_on i e) d h =
      ground
        (arith, v.listeners_open d, v.made_closed s.next, member-append d s.listeners (s.next ∷ []))
  Step-open (end_off i c e) d h =
      ground (arith, v.listeners_open d, member-remove c d s.listeners v.distinct)
  Step-open (end_close i e) d h = absurd (cc)
  Step-open (deliver i w all p c e m o l) d h = v.listeners_open d h
  Step-open (send_closed i w all p c e m o) d h = v.listeners_open d h
  Step-open (end_dispatch i w all e) d h = v.listeners_open d h

  pub Step-made : {t : Emitter V} → Step s t → (d : ℕ) → t.next ≤ d → member d t.listeners ≡ false
  Step-made (begin i on e) d h = v.listeners_made d h
  Step-made (begin i (off c) e) d h = v.listeners_made d h
  Step-made (begin i (dispatch w) e) d h = v.listeners_made d h
  Step-made (begin i close e) d h = v.listeners_made d h
  Step-made (lock i q e w f) d h = v.listeners_made d h
  Step-made (rlock i w e f) d h = v.listeners_made d h
  Step-made (end_on i e) d h =
      ground (arith, v.listeners_made d, member-append d s.listeners (s.next ∷ []))
  Step-made (end_off i c e) d h =
      ground (arith, v.listeners_made d, member_of_remove c d s.listeners)
  Step-made (end_close i e) d h = refl
  Step-made (deliver i w all p c e m o l) d h = v.listeners_made d h
  Step-made (send_closed i w all p c e m o) d h = v.listeners_made d h
  Step-made (end_dispatch i w all e) d h = v.listeners_made d h

  pub Step-made_closed : {t : Emitter V} → Step s t → (d : ℕ) → t.next ≤ d → t.is_closed d ≡ false
  Step-made_closed (begin i on e) d h = v.made_closed d h
  Step-made_closed (begin i (off c) e) d h = v.made_closed d h
  Step-made_closed (begin i (dispatch w) e) d h = v.made_closed d h
  Step-made_closed (begin i close e) d h = v.made_closed d h
  Step-made_closed (lock i q e w f) d h = v.made_closed d h
  Step-made_closed (rlock i w e f) d h = v.made_closed d h
  Step-made_closed (end_on i e) d h = ground (arith, v.made_closed d, v.listeners_made d)
  Step-made_closed (end_off i c e) d h = ground (arith, v.made_closed d, v.listeners_made d)
  Step-made_closed (end_close i e) d h = ground (
    arith,
    v.made_closed d,
    v.listeners_made d,
    (close_channels_frame s.listeners s).1,
    (close_channels_lem s.listeners s v.distinct v.listeners_open).1 d,
  )
  Step-made_closed (deliver i w all p c e m o l) d h = v.made_closed d h
  Step-made_closed (send_closed i w all p c e m o) d h = v.made_closed d h
  Step-made_closed (end_dispatch i w all e) d h = v.made_closed d h

  pub Step-IsDistinct : {t : Emitter V} → Step s t → IsDistinct t.listeners
  Step-IsDistinct (begin i on e) = v.distinct
  Step-IsDistinct (begin i (off c) e) = v.distinct
  Step-IsDistinct (begin i (dispatch w) e) = v.distinct
  Step-IsDistinct (begin i close e) = v.distinct
  Step-IsDistinct (lock i q e w f) = v.distinct
  Step-IsDistinct (rlock i w e f) = v.distinct
  Step-IsDistinct (end_on i e) =
      append-IsDistinct s.next s.listeners v.distinct (v.listeners_made s.next (omega arith))
  Step-IsDistinct (end_off i c e) =
      if_both {A = Emitter V} (λ t. IsDistinct t.listeners) (member c s.listeners)
        (remove-IsDistinct c s.listeners v.distinct) v.distinct
  Step-IsDistinct (end_close i e) = tt
  Step-IsDistinct (deliver i w all p c e m o l) = v.distinct
  Step-IsDistinct (send_closed i w all p c e m o) = v.distinct
  Step-IsDistinct (end_dispatch i w all e) = v.distinct

  pub Step-calm : {t : Emitter V} → Step s t → t.panicked ≡ false
  Step-calm (begin i on e) = v.calm
  Step-calm (begin i (off c) e) = v.calm
  Step-calm (begin i (dispatch w) e) = v.calm
  Step-calm (begin i close e) = v.calm
  Step-calm (lock i q e w f) = v.calm
  Step-calm (rlock i w e f) = v.calm
  Step-calm (end_on i e) = v.calm
  Step-calm (end_off i c e) = ground (arith, v.calm, v.listeners_open c)
  Step-calm (end_close i e) =
      (close_channels_lem s.listeners s v.distinct v.listeners_open).0 ∙ v.calm
  Step-calm (deliver i w all p c e m o l) = v.calm
  Step-calm (send_closed i w all p c e m o) =
      ground (arith, v.pending_listen i w all p c, v.listeners_open c)
  Step-calm (end_dispatch i w all e) = v.calm
