-- ===== src/Events.antt =====
-- internal/common/events/events.go: the emitter as a step relation, over any number of concurrent
-- calls. A step takes or gives up the lock with the work done under it, or is one rendezvous on a
-- channel. A channel has the one receiver that got it from `On`: it receives until it calls `Off`.
pub mod Invariant
pub mod Delivery
pub mod Stuck
mod Tests
use serverpouch.Common.{
  ℕ, suc, Bool, true, false, ◌||◌, List, [], ◌∷◌, ◌++◌, Option, none, some, ◌≡◌, if◌then◌else◌,
  ◌==◌, nat_eq, put, member, remove, Steps,
}

-- A call with its argument; a channel is its number.
pub data Request (V : Type 0) : Type 0 where
  on : Request V
  off : ℕ → Request V
  dispatch : V → Request V
  close : Request V

-- Where a call stands.
pub data Call (V : Type 0) : Type 0 where
  absent : Call V  -- not called yet
  waiting : Request V → Call V  -- at the lock
  working : Request V → Call V  -- between `Lock` and `Unlock`
  -- A `Dispatch` between `RLock` and `RUnlock`: its value, the listeners that its loop saw, and
  -- those that its goroutines have not sent to yet.
  sending : V → (all pending : List ℕ) → Call V
  got : ℕ → Call V  -- `On` has returned this channel
  dispatched : V → (all : List ℕ) → Call V
  done : Call V  -- `Off` or `Close` has returned

pub record Emitter (V : Type 0) : Type 0 where
  pub listeners : List ℕ
  pub next : ℕ  -- the next channel that `make` gives
  pub is_closed : ℕ → Bool
  pub listening : ℕ → Bool  -- whether the receiver of the channel receives
  pub inbox : ℕ → List (ℕ × V)  -- what the receiver has got, with the call that it came from
  pub writer : Option ℕ  -- who holds the lock for writing
  pub call : ℕ → Call V
  pub panicked : Bool

module _ {V : Type 0} where
  abbrev pub is_sending : Call V → Bool
  is_sending (sending v all pending) = true
  is_sending _ = false

  -- The requests that take the lock for writing.
  abbrev pub writes : Request V → Bool
  writes (dispatch v) = false
  writes _ = true

  -- Nobody holds the lock.
  abbrev pub IsFree : Emitter V → Type 0
  IsFree s = (s.writer ≡ none) × ((k : ℕ) → is_sending (s.call k) ≡ false)

  -- `close(channel)`, which panics on a closed channel.
  abbrev pub close_channel : ℕ → Emitter V → Emitter V
  close_channel c s = record s {
    is_closed = put s.is_closed c true;
    panicked = s.panicked || s.is_closed c;
  }

  -- The loop of `Close`.
  pub close_channels : List ℕ → Emitter V → Emitter V
  close_channels [] s = s
  close_channels (c ∷ cs) s = close_channels cs (close_channel c s)

  -- `New`
  abbrev pub new_emitter : Emitter V
  new_emitter = record {
    listeners = [];
    next = 0;
    is_closed = λ _. false;
    listening = λ _. false;
    inbox = λ _. [];
    writer = none;
    call = λ _. absent;
    panicked = false;
  }

  -- The begin of a call. The receiver of a channel that it calls `Off` with receives no longer.
  abbrev pub ask : ℕ → Request V → Emitter V → Emitter V
  ask i (off c) s = record s {
    call = put s.call i (waiting (off c));
    listening = put s.listening c false;
  }
  ask i r s = record s { call = put s.call i (waiting r) }

  -- `On` under the lock, with its `Unlock`.
  abbrev pub work_on : ℕ → Emitter V → Emitter V
  work_on i s = record s {
    listeners = s.listeners ++ s.next ∷ [];
    next = suc s.next;
    listening = put s.listening s.next true;
    writer = none;
    call = put s.call i (got s.next);
  }

  -- `Off` under the lock, with its `Unlock`.
  abbrev pub work_off : ℕ → ℕ → Emitter V → Emitter V
  work_off i c s =
      let left = record s { writer = none; call = put s.call i done } in
      if member c s.listeners
      then close_channel c (record left { listeners = remove c s.listeners })
      else left

  -- `Close` under the lock, with its `Unlock`.
  abbrev pub work_close : ℕ → Emitter V → Emitter V
  work_close i s =
      let emptied = close_channels s.listeners s in
      record emptied { listeners = []; writer = none; call = put s.call i done }

-- One step of the emitter and its callers.
pub data Step {V : Type 0} (s : Emitter V) : Emitter V → Type 0 where
  begin : (i : ℕ) (r : Request V) → s.call i ≡ absent → Step s (ask i r s)
  lock :
      (i : ℕ) (r : Request V)
      → s.call i ≡ waiting r
      → writes r ≡ true
      → IsFree s
      → Step s (record s { writer = some i; call = put s.call i (working r) })
  rlock :
      (i : ℕ) (v : V)
      → s.call i ≡ waiting (dispatch v)
      → s.writer ≡ none
      → Step s (record s { call = put s.call i (sending v s.listeners s.listeners) })
  end_on : (i : ℕ) → s.call i ≡ working on → Step s (work_on i s)
  end_off : (i c : ℕ) → s.call i ≡ working (off c) → Step s (work_off i c s)
  end_close : (i : ℕ) → s.call i ≡ working close → Step s (work_close i s)
  deliver :
      (i : ℕ) (v : V) (all pending : List ℕ) (c : ℕ)
      → s.call i ≡ sending v all pending
      → member c pending ≡ true
      → s.is_closed c ≡ false
      → s.listening c ≡ true
      → Step s (record s {
        inbox = put s.inbox c (s.inbox c ++ (i, v) ∷ []);
        call = put s.call i (sending v all (remove c pending));
      })
  send_closed :
      (i : ℕ) (v : V) (all pending : List ℕ) (c : ℕ)
      → s.call i ≡ sending v all pending
      → member c pending ≡ true
      → s.is_closed c ≡ true
      → Step s (record s { panicked = true })
  end_dispatch :
      (i : ℕ) (v : V) (all : List ℕ)
      → s.call i ≡ sending v all []
      → Step s (record s { call = put s.call i (dispatched v all) })

-- The states after any history from `New`.
abbrev pub Reach : {V : Type 0} → Emitter V → Type 0
Reach = Steps Step new_emitter
