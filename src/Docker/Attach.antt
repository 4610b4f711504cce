-- ===== src/Docker/Attach.antt =====
-- internal/infrastructure/docker/lifecycle.go, `lifecycleInitAttach`: what is typed goes to the
-- container, and what the container prints goes to the listeners.
pub mod Lines
use serverpouch.Common.{
  Bytes, codes, Bool, true, false, List, [], ◌∷◌, ◌++◌, Option, none, some, if◌then◌else◌, ◌==◌,
  nat_eq,
}
use serverpouch.Docker.Instance.{Instance, print}

-- What the `select` of the loop takes.
pub data Taken : Type 0 where
  context_done : Taken
  term_in : Bytes → Taken

-- Where the function stands: at its `select`; at the deferred `TerminalIn.Off`, which waits while a
-- `Dispatch` has the lock of the emitter; or it has returned.
pub data Stage : Type 0 where
  selecting leaving ended : Stage

-- `strings.HasSuffix(termIn, "\n")`
abbrev pub ends_with_newline : Bytes → Bool
ends_with_newline [] = false
ends_with_newline (c ∷ []) = c == b'\n'
ends_with_newline (c ∷ d ∷ s) = ends_with_newline (d ∷ s)

unfoldable pub with_newline : Bytes → Bytes
with_newline s = if ends_with_newline s then s else s ++ b'\n' ∷ []

-- The connection: `ContainerAttach`, `attach.Conn.Write` and `attach.Close`, on the state of the
-- daemon.
pub record Terminal (D : Type 0) : Type 0 where
  pub attach : Bytes → D → Option Bytes × D
  pub write : Bytes → D → Option Bytes × D
  pub close : D → D

module _ {D : Type 0} where
  -- The goroutine that scans what the container prints.
  pub scanned : List Bytes → Instance D → Instance D
  scanned [] s = s
  scanned (line ∷ lines) s = scanned lines (print line s)

module _ {D : Type 0} (terminal : Terminal D) where
  -- The loop, over what its `select` takes.
  unfoldable pub attach_loop : List Taken → Instance D → Stage × Instance D
  unfolding with_newline
  attach_loop [] s = (selecting, s)
  attach_loop (context_done ∷ taken) s = (leaving, s)
  attach_loop (term_in text ∷ taken) s =
      let (failed, daemon) = terminal.write (with_newline text) s.daemon in
      let wrote : Instance D = record s { daemon = daemon } in
      elim failed [
        | some e ↦ (leaving, print (codes "Error writing to container: " ++ e) wrote)
        | none ↦ attach_loop taken wrote
      ]

  -- The deferred calls, where `off_returns` says whether the `Off` has.
  pub deferred : (off_returns : Bool) → Stage × Instance D → Stage × Instance D
  deferred true (leaving, s) = (ended, record s { daemon = terminal.close s.daemon })
  deferred off_returns (stage, s) = (stage, s)

  -- `lifecycleInitAttach`
  unfoldable pub lifecycle_init_attach :
      (off_returns : Bool) → List Taken → Instance D → Stage × Instance D
  unfolding attach_loop deferred
  lifecycle_init_attach off_returns taken s =
      let (failed, daemon) = terminal.attach s.container_id s.daemon in
      let attached : Instance D = record s { daemon = daemon } in
      elim failed [
        | some e ↦ (ended, print (codes "Unable to attach to container: " ++ e) attached)
        | none ↦ deferred off_returns (attach_loop taken attached)
      ]
