-- ===== src/Usecases/Closing.antt =====
-- internal/domain/usecases/usecases.go, `Close`, over the instances as docker's lifecycle goroutines:
-- one goroutine for each instance calls its `Close`, all at once, and `Close` waits for all of them.
-- It is called once, and nobody else closes an instance.
pub mod Quiet
pub mod Returns
mod Tests
use serverpouch.Common.{ℕ, true, List, ◌≡◌, ◌≢◌, member, Steps}
use serverpouch.Docker.Lifecycle as Instance

-- `system` is the instance of an identifier, whose call of `Close` by these goroutines is number 0.
pub record Registry : Type 0 where
  pub ids : List ℕ  -- the keys of `srvInstances`
  pub system : ℕ → Instance.System
  pub caller : Instance.Closer  -- where the call of `Close` stands

abbrev pub registry : List ℕ → Registry
registry ids = record { ids = ids; system = λ _. Instance.init; caller = Instance.open_yet }

pub data Step (s : Registry) (t : Registry) : Type 0 where
  -- A step of one instance; its `Close` begins only in a goroutine of `Close`.
  run :
      (k : ℕ)
      → Instance.Step (s.system k) (t.system k)
      → ((j : ℕ) → j ≢ 0 → (t.system k).closer j ≡ Instance.open_yet)
      → (s.caller ≡ Instance.open_yet → (t.system k).closer 0 ≡ Instance.open_yet)
      → ((j : ℕ) → j ≢ k → t.system j ≡ s.system j)
      → t.ids ≡ s.ids
      → t.caller ≡ s.caller
      → Step s t
  -- The loop that starts the goroutines.
  start : s.caller ≡ Instance.open_yet → t ≡ record s { caller = Instance.closing } → Step s t
  -- `wg.Wait()` returns when every goroutine is done.
  wait :
      s.caller ≡ Instance.closing
      → ((k : ℕ) → member k s.ids ≡ true → (s.system k).closer 0 ≡ Instance.closed)
      → t ≡ record s { caller = Instance.closed }
      → Step s t

abbrev pub Reach : List ℕ → Registry → Type 0
Reach ids = Steps Step (registry ids)
