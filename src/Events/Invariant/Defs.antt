-- ===== src/Events/Invariant/Defs.antt =====
-- internal/common/events/events.go: the invariant of the emitter.
use serverpouch.Common.{
  ℕ, true, false, ◌||◌, List, [], ◌∷◌, none, some, ◌≡◌, ◌≢◌, ◌≤◌, refl, arith, nat_eq, member,
  IsDistinct,
}
use serverpouch.Events.{
  Request, working, sending, Emitter, is_sending, close_channel, close_channels, new_emitter,
}

module _ {V : Type 0} where
  -- What the lock, the listeners and the channels have to do with each other.
  pub record Inv (s : Emitter V) : Type 0 where
    pub working_writes : (k : ℕ) (r : Request V) → s.call k ≡ working r → s.writer ≡ some k
    pub writer_alone : (k : ℕ) → s.writer ≢ none → is_sending (s.call k) ≡ false
    pub pending_listen :
        (k : ℕ) (v : V) (all pending : List ℕ) (c : ℕ)
        → s.call k ≡ sending v all pending
        → member c pending ≡ true
        → member c s.listeners ≡ true
    pub listeners_open : (c : ℕ) → member c s.listeners ≡ true → s.is_closed c ≡ false
    pub listeners_made : (c : ℕ) → s.next ≤ c → member c s.listeners ≡ false
    pub made_closed : (c : ℕ) → s.next ≤ c → s.is_closed c ≡ false
    pub pending_distinct :
        (k : ℕ) (v : V) (all pending : List ℕ)
        → s.call k ≡ sending v all pending
        → IsDistinct pending
    pub distinct : IsDistinct s.listeners
    pub calm : s.panicked ≡ false

  pub new_emitter-Inv : Inv new_emitter
  new_emitter-Inv = record {
    working_writes = λ k r h. absurd (cc);
    writer_alone = λ k h. refl;
    pending_listen = λ k v all p c h. absurd (cc);
    listeners_open = λ c h. absurd (cc);
    listeners_made = λ c h. refl;
    made_closed = λ c h. refl;
    pending_distinct = λ k v all p h. absurd (cc);
    distinct = tt;
    calm = refl;
  }

  -- The loop of `Close` over open channels without duplicates: they are closed, the others stay,
  -- and nothing panics.
  pub close_channels_lem :
      (cs : List ℕ) (s : Emitter V)
      → IsDistinct cs
      → ((c : ℕ) → member c cs ≡ true → s.is_closed c ≡ false)
      → ((close_channels cs s).panicked ≡ s.panicked)
        × ((c : ℕ) → (close_channels cs s).is_closed c ≡ (member c cs || s.is_closed c))
  unfolding close_channels
  close_channels_lem [] s d o = (refl, λ c. refl)
  close_channels_lem (x ∷ cs) s d o =
      let (calm, closed) =
        close_channels_lem cs (close_channel x s) d.1 (λ c m. ground (arith, o c, d.0)) in
      (ground (arith, calm, o x), λ c. ground (arith, closed c))

  pub close_channels_frame :
      (cs : List ℕ) (s : Emitter V)
      → ((close_channels cs s).call ≡ s.call) × ((close_channels cs s).next ≡ s.next)
  unfolding close_channels
  close_channels_frame [] s = (refl, refl)
  close_channels_frame (x ∷ cs) s = close_channels_frame cs (close_channel x s)
