-- ===== src/Events/Delivery.antt =====
-- internal/common/events/events.go: what `Dispatch` delivers, and that it comes to its end while the
-- receivers receive.
use serverpouch.Common.{
  ℕ, true, List, [], ◌∷◌, ◌++◌, ◌≡◌, refl, ap, ◌∙◌, arith, if◌then◌else◌, ◌==◌, nat_eq, put, member,
  remove, member-remove, member_of_remove, here, step, Steps, Steps-trans, Steps-keep,
}
use serverpouch.Events.{
  on, off, dispatch, close, Call, sending, dispatched, Emitter, close_channel, close_channels,
  new_emitter, Step, begin, lock, rlock, end_on, end_off, end_close, deliver, send_closed,
  end_dispatch, Reach,
}
use serverpouch.Events.Invariant.{Inv, Reach-Inv, Step-Inv, new_emitter-Inv}

module _ {V : Type 0} where
  -- The values that a receiver has got from one call, the oldest first.
  abbrev pub from_call : ℕ → List (ℕ × V) → List V
  from_call i [] = []
  from_call i ((k, v) ∷ xs) = if k == i then v ∷ from_call i xs else from_call i xs

  from_call-append :
      (i k : ℕ) (v : V) (xs : List (ℕ × V))
      → from_call i (xs ++ (k, v) ∷ []) ≡ from_call i xs ++ (if k == i then v ∷ [] else [])
  from_call-append i k v [] = ground arith
  from_call-append i k v ((j, w) ∷ xs) = ground (arith, from_call-append i k v xs)

  -- What the receiver of a channel has from a call that stands so.
  abbrev expected : Call V → ℕ → List V
  expected (sending v all pending) c =
      if member c pending then [] else if member c all then v ∷ [] else []
  expected (dispatched v all) c = if member c all then v ∷ [] else []
  expected _ c = []

  record Told (i : ℕ) (s : Emitter V) : Type 0 where
    inv : Inv s
    within :
        (v : V) (all pending : List ℕ) (c : ℕ)
        → s.call i ≡ sending v all pending
        → member c pending ≡ true
        → member c all ≡ true
    told : (c : ℕ) → from_call i (s.inbox c) ≡ expected (s.call i) c

  close_channels_inbox :
      (cs : List ℕ) (s : Emitter V) (c : ℕ) → (close_channels cs s).inbox c ≡ s.inbox c
  unfolding close_channels
  close_channels_inbox [] s c = refl
  close_channels_inbox (x ∷ cs) s c = close_channels_inbox cs (close_channel x s) c

  module _ {i : ℕ} {s : Emitter V} (h : Told i s) where
    Step-within :
        {t : Emitter V}
        → Step s t
        → (v : V) (all pending : List ℕ) (c : ℕ) → t.call i ≡ sending v all pending
        → member c pending ≡ true
        → member c all ≡ true
    Step-within (begin k on e) w' all' p' d e' m' = ground (arith, h.within w' all' p' d)
    Step-within (begin k (off c) e) w' all' p' d e' m' = ground (arith, h.within w' all' p' d)
    Step-within (begin k (dispatch w) e) w' all' p' d e' m' = ground (arith, h.within w' all' p' d)
    Step-within (begin k close e) w' all' p' d e' m' = ground (arith, h.within w' all' p' d)
    Step-within (lock k q e w f) w' all' p' d e' m' = ground (arith, h.within w' all' p' d)
    Step-within (rlock k w e f) w' all' p' d e' m' = ground (arith, h.within w' all' p' d)
    Step-within (end_on k e) w' all' p' d e' m' = ground (arith, h.within w' all' p' d)
    Step-within (end_off k c e) w' all' p' d e' m' = ground (arith, h.within w' all' p' d)
    Step-within (end_close k e) w' all' p' d e' m' = ground (arith, h.within w' all' p' d)
    Step-within (deliver k w all p c e m o l) w' all' p' d e' m' =
        ground (arith, h.within w' all' p' d, h.within w all p d, member_of_remove c d p)
    Step-within (send_closed k w all p c e m o) w' all' p' d e' m' =
        ground (arith, h.within w' all' p' d)
    Step-within (end_dispatch k w all e) w' all' p' d e' m' = ground (arith, h.within w' all' p' d)

    Step-told :
        {t : Emitter V} → Step s t → (c : ℕ) → from_call i (t.inbox c) ≡ expected (t.call i) c
    Step-told (begin k on e) d = ground (arith, h.told d)
    Step-told (begin k (off c) e) d = ground (arith, h.told d)
    Step-told (begin k (dispatch w) e) d = ground (arith, h.told d)
    Step-told (begin k close e) d = ground (arith, h.told d)
    Step-told (lock k q e w f) d = ground (arith, h.told d)
    Step-told (rlock k w e f) d = ground (arith, h.told d)
    Step-told (end_on k e) d = ground (arith, h.told d)
    Step-told (end_off k c e) d = ground (arith, h.told d)
    Step-told (end_close k e) d = ground (arith, h.told d, close_channels_inbox s.listeners s d)
    Step-told (deliver k w all p c e m o l) d = ground (
      arith,
      h.told d,
      h.within w all p d,
      member-remove c d p (h.inv.pending_distinct k w all p e),
      from_call-append i k w (s.inbox d),
    )
    Step-told (send_closed k w all p c e m o) d = ground (arith, h.told d)
    Step-told (end_dispatch k w all e) d = ground (arith, h.told d)

  Step-Told : {i : ℕ} (s t : Emitter V) → Told i s → Step s t → Told i t
  Step-Told s t h st = record {
    inv = Step-Inv s t h.inv st;
    within = Step-within h st;
    told = Step-told h st;
  }

  new_emitter-Told : (i : ℕ) → Told i new_emitter
  new_emitter-Told i = record {
    inv = new_emitter-Inv;
    within = λ v all p c h. absurd (cc);
    told = λ c. refl;
  }

  -- A `Dispatch` that has returned has delivered its value exactly once to each listener that it saw
  -- under its lock, and to no other.
  pub dispatch_delivers :
      {s : Emitter V} (i : ℕ) (v : V) (all : List ℕ)
      → Reach s
      → s.call i ≡ dispatched v all
      → (c : ℕ) → from_call i (s.inbox c) ≡ (if member c all then v ∷ [] else [])
  dispatch_delivers i v all r e c =
      let h = Steps-keep (Told i) Step-Told (new_emitter-Told i) r in
      h.told c ∙ ap (λ k. expected k c) e

  -- The steps in which the goroutines of a `Dispatch` send what is pending.
  sends :
      (s : Emitter V) (i : ℕ) (v : V) (all pending : List ℕ)
      → Inv s
      → s.call i ≡ sending v all pending
      → ((c : ℕ) → member c pending ≡ true → s.listening c ≡ true)
      → (t : Emitter V) × Steps Step s t × (t.call i ≡ dispatched v all)
  sends s i v all [] h e l = (
    record s { call = put s.call i (dispatched v all) },
    step here (end_dispatch i v all e),
    ground arith,
  )
  sends s i v all (c ∷ pending) h e l =
      let t : Emitter V = record s {
        inbox = put s.inbox c (s.inbox c ++ (i, v) ∷ []);
        call = put s.call i (sending v all (remove c (c ∷ pending)));
      } in
      let listens : member c s.listeners ≡ true =
        h.pending_listen i v all (c ∷ pending) c e (ground arith) in
      let st : Step s t =
        deliver i v all (c ∷ pending) c e (ground arith) (h.listeners_open c listens)
          (l c (ground arith)) in
      let (u, r, returned) =
        sends t i v all pending (Step-Inv s t h st) (ground arith) (λ d m. l d (ground arith)) in
      (u, Steps-trans (step here st) r, returned)

  -- A `Dispatch` that sends can return if the receivers of the channels that it has still to serve
  -- receive.
  pub dispatch_can_return :
      {s : Emitter V} (i : ℕ) (v : V) (all pending : List ℕ)
      → Reach s
      → s.call i ≡ sending v all pending
      → ((c : ℕ) → member c pending ≡ true → s.listening c ≡ true)
      → (t : Emitter V) × Steps Step s t × (t.call i ≡ dispatched v all)
  dispatch_can_return {s} i v all pending r e l = sends s i v all pending (Reach-Inv r) e l
