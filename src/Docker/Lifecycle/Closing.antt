-- ===== src/Docker/Lifecycle/Closing.antt =====
-- How the goroutine and the calls end.
use serverpouch.Common.{
  put, ℕ, true, false, none, some, ◌≡◌, ◌≢◌, ◌⊎◌, inl, inr, refl, sym, ◌∙◌, ap, arith, nat_eq,
  Bool-cases, subst,
}
use serverpouch.Docker.Lifecycle.{
  Worker, asking, acting, returned, refused, Loop, selecting, refreshing, draining, signalling,
  finished, closing, closed, System, Step, acquire, refuse, release, drain, refresh, leave,
  leave_busy, signal, Steps, here, step, Reach,
}
use serverpouch.Docker.Lifecycle.Monotone.{Steps-stay_closed}
use serverpouch.Docker.Lifecycle.Releasing.{Steps-trans, first, to_releasing}
use serverpouch.Docker.Lifecycle.Exclusion.{busy, holder, left, Inv, Steps-Inv, Reach-Inv}

not_busy : (w : Worker) → (busy w ≡ true → ⊥) → busy w ≡ false
not_busy w h = elim (Bool-cases (busy w)) [
  | inl yes_busy ↦ absurd (h yes_busy)
  | inr no_busy ↦ no_busy
]

-- Once a call of `Close` has returned, in every later state no call acts on the instance, whatever
-- is still called, the context is done, and no other call of `Close` has returned or ever does.
pub closed_for_good :
    {s t : System} (j : ℕ)
    → Reach s
    → s.closer j ≡ closed
    → Steps s t
    → ((i : ℕ) → busy (t.worker i) ≡ false)
      × (t.loop ≡ finished)
      × (t.cancelled ≡ true)
      × ((k : ℕ) → k ≢ j → t.closer k ≢ closed)
closed_for_good {s} {t} j r h later =
    let v : Inv t = Steps-Inv (Reach-Inv r) later in
    let still = Steps-stay_closed j later h in
    let over = v.closed_finished j still in
    (
      λ i. not_busy (t.worker i) (λ b. cc (v.held i b)),
      over,
      v.left_cancelled (ap left over),
      λ k differs e. differs (v.one_closed k j e still),
    )

-- The call of `Close` at `j` has returned after some steps, in which no other call of `Close` moves.
abbrev pub Returns : ℕ → System → Type 0
Returns j s =
    (t : System) × Steps s t × (t.closer j ≡ closed) × ((k : ℕ) → k ≢ j → t.closer k ≡ s.closer k)

Returns-first : {s t : System} (j : ℕ) → Step s t → t.closer ≡ s.closer → Returns j t → Returns j s
Returns-first j st same (u, r, h, others) =
    (u, first st r, h, λ k differs. others k differs ∙ ap (λ f. f k) same)

from_signalling : (s : System) (j : ℕ) → s.closer j ≡ closing → s.loop ≡ signalling → Returns j s
from_signalling s j waits l = (
  record s { loop = finished; closer = put s.closer j closed },
  step here (signal j waits l),
  ground arith,
  λ k differs. ground arith,
)

from_selecting :
    (s : System) (j : ℕ)
    → s.closer j ≡ closing
    → s.cancelled ≡ true
    → s.loop ≡ selecting none
    → Returns j s
from_selecting s j waits over l =
    Returns-first j (leave l over) refl
      (from_signalling (record s { loop = signalling }) j waits refl)

from_draining :
    (s : System) (j i : ℕ)
    → s.closer j ≡ closing
    → s.loop ≡ draining i
    → busy (s.worker i) ≡ true
    → Returns j s
from_draining s j i waits l b =
    let (t, r, a, l', c, _, _) = to_releasing s i b in
    let u = record t { loop = signalling; worker = put t.worker i returned } in
    let (w, r', h, others) = from_signalling u j (ap (λ f. f j) c ∙ waits) refl in
    (
      w,
      Steps-trans r (first (drain i a (l' ∙ l)) r'),
      h,
      λ k differs. others k differs ∙ ap (λ f. f k) c,
    )

pub close-Returns :
    {s : System} (j : ℕ) → Reach s → s.closer j ≡ closing → s.loop ≢ finished → Returns j s
close-Returns {s} j r waits running = go s.loop refl
  where
    v : Inv s
    v = Reach-Inv r

    over : s.cancelled ≡ true
    over = v.closing_cancelled j (λ e. cc)

    go : (l : Loop) → s.loop ≡ l → Returns j s
    go (selecting none) e = from_selecting s j waits over e
    go (selecting (some i)) e =
        Returns-first j (leave_busy i e over) refl
          (from_draining (record s { loop = draining i }) j i waits refl (v.holds i (ap holder e)))
    go refreshing e =
        Returns-first j (refresh e) refl
          (from_selecting (record s { loop = selecting none }) j waits over refl)
    go (draining i) e = from_draining s j i waits e (v.holds i (ap holder e))
    go signalling e = from_signalling s j waits e
    go finished e = absurd (running e)

-- A call of `Close` that waits can return, in every reachable state where no other has returned:
-- the call that acts, if there is one, comes to its end by itself, and no new call is needed.
pub close_can_return :
    {s : System} (j : ℕ)
    → Reach s
    → s.closer j ≡ closing
    → s.loop ≢ finished
    → (t : System) × Steps s t × (t.closer j ≡ closed)
close_can_return j r waits running =
    let (t, r', h, others) = close-Returns j r waits running in (t, r', h)

-- The call at `i` may act after some steps, in which the context is not done.
abbrev MayAct : ℕ → System → Type 0
MayAct i s = (t : System) × Steps s t × (t.cancelled ≡ s.cancelled) × (t.worker i ≡ acting)

from_free : (s : System) (i : ℕ) → s.worker i ≡ asking → s.loop ≡ selecting none → MayAct i s
from_free s i e l = (
  record s { loop = selecting (some i); worker = put s.worker i acting },
  step here (acquire i e l),
  refl,
  ground arith,
)

may_act : {s : System} (i : ℕ) → Inv s → s.worker i ≡ asking → s.cancelled ≡ false → MayAct i s
may_act {s} i v asks c = go s.loop refl
  where
    go : (l : Loop) → s.loop ≡ l → MayAct i s
    go (selecting none) e = from_free s i asks e
    go (selecting (some k)) e =
        let (t, q, a, l, _, d, others) = to_releasing s k (v.holds k (ap holder e)) in
        let differs : i ≢ k = λ same.
          let acts : busy asking ≡ true =
            subst (λ w. busy w ≡ true) (sym (ap s.worker same) ∙ asks) (v.holds k (ap holder e)) in
          cc acts in
        let (u, q', d', h) =
          from_free (record t { loop = selecting none; worker = put t.worker k returned }) i
            (ground (arith, others i differs)) refl in
        (u, Steps-trans q (first (release k a (l ∙ e)) q'), d' ∙ d, h)
    go refreshing e =
        let (u, q, d, h) = from_free (record s { loop = selecting none }) i asks refl in
        (u, first (refresh e) q, d, h)
    go (draining k) e = absurd (cc (v.left_cancelled (ap left e)))
    go signalling e = absurd (cc (v.left_cancelled (ap left e)))
    go finished e = absurd (cc (v.left_cancelled (ap left e)))

-- A call that asks for the action can be answered, in every reachable state, and without a change of
-- whether the context is done: where it is not, the call that acts before it, or the timer's update,
-- can end and it may act; where it is, it can be refused.
pub asking_can_be_answered :
    {s : System} (i : ℕ)
    → Reach s
    → s.worker i ≡ asking
    → (t : System) × Steps s t
      × (t.cancelled ≡ s.cancelled)
      × (((s.cancelled ≡ false) × (t.worker i ≡ acting))
          ⊎ ((s.cancelled ≡ true) × (t.worker i ≡ refused)))
asking_can_be_answered {s} i r asks = elim (Bool-cases s.cancelled) [
  | inl over ↦ (
    record s { worker = put s.worker i refused },
    step here (refuse i asks over),
    refl,
    inr (over, ground arith),
  )
  | inr open_still ↦
      let (t, q, d, h) = may_act i (Reach-Inv r) asks open_still in (t, q, d, inl (open_still, h))
]
