-- ===== src/Docker/Instance.antt =====
-- internal/infrastructure/docker/instance.go and action.go: the state of a server instance and the
-- actions on it, each from the moment that it may run until it returns. Which action may run when
-- is modelled in Docker/Lifecycle.
-- The channels that the events go to are a log, the oldest first; the daemon's state is a field.
pub mod Invariant
pub mod Actions
pub mod Calls
use serverpouch.Common.{
  ℕ, Bytes, codes, Bool, true, false, List, [], ◌∷◌, ◌++◌, Option, none, some, Result, ok, err,
  if◌then◌else◌, Errors, ◌==◌, text_eq,
}
use serverpouch.Server.{
  Status, initializing, idle, starting, running, stopping, errored, status_eq, status_text,
}
use serverpouch.Docker.Config.{Options}
use serverpouch.Docker.Client.{Client}

-- What is dispatched to the listeners of `events.Status` and `events.TerminalOut`.
pub data Emitted : Type 0 where
  status_event : Status → Emitted
  terminal_out : Bytes → Emitted

-- `dockerServerInstance`: its client's daemon, its options, what `mu` guards, and its events.
pub record Instance (D : Type 0) : Type 0 where
  pub daemon : D
  pub options : Options
  pub container_id : Bytes
  pub status : Status
  pub log : List Emitted

module _ {D : Type 0} where
  -- `dsi.events.TerminalOut.Dispatch`
  abbrev pub print : Bytes → Instance D → Instance D
  print text s = record s { log = s.log ++ terminal_out text ∷ [] }

  -- `setStatus`
  abbrev pub set_status : Status → Instance D → Instance D
  set_status status s = record s { status = status; log = s.log ++ status_event status ∷ [] }

  -- The instance of `NewInstance` before its goroutines run.
  unfoldable pub new_instance : D → Options → Instance D
  new_instance daemon options = record {
    daemon = daemon;
    options = options;
    container_id = [];
    status = initializing;
    log = [];
  }

-- The `switch` of `lifecycleActionUpdateStatus`.
unfoldable pub settle : {D : Type 0} → Bytes → Instance D → Instance D
settle reported s =
    if reported == codes "created"
    then set_status idle s
    else if reported == codes "exited"
    then set_status idle s
    else if reported == codes "running"
    then set_status running s
    else set_status errored (print (codes "Unknown docker status: " ++ reported) s)

module _ {D : Type 0} where
  -- What `lifecycleActionUpdateStatus` does with the answer to its inspection.
  unfoldable pub inspected : Result Bytes × D → Instance D → Instance D
  unfolding settle
  inspected (err e, daemon) s =
      print (codes "Unable to inspect container: " ++ e) (record s { daemon = daemon })
  inspected (ok reported, daemon) s = settle reported (record s { daemon = daemon })

module _ {D : Type 0} (client : Client D) where
  -- `lifecycleActionUpdateStatus`
  unfoldable pub update_status : Instance D → Instance D
  unfolding inspected
  update_status s =
      if s.container_id == []
      then set_status initializing s
      else inspected (client.container_inspect s.container_id s.daemon) s

module _ {D : Type 0} where
  -- What an action does with the answer to its call of docker.
  pub called : Bytes → Option Bytes × D → Instance D → Option Bytes × Instance D
  called done (none, daemon) s = (none, record s { daemon = daemon })
  called done (some e, daemon) s = (
    none,
    print (codes "Unable to " ++ (done ++ (codes " container: " ++ e)))
        (record s { daemon = daemon }),
  )

  -- What `Start`, `Stop` and `Kill` do between the acquisition and the release of the action: the
  -- guard on the status, the new status, the call of docker, and the print of its failure.
  unfoldable pub act :
      (name done : Bytes) (wanted next : Status) (call : Bytes → D → Option Bytes × D)
      → Instance D
      → Option Bytes × Instance D
  unfolding called
  act name done wanted next call s =
      let message = name ++ (codes " is an invalid action for status " ++ status_text s.status) in
      if s.status == wanted
      then called done (call s.container_id s.daemon) (set_status next s)
      else (some message, print message s)

module _ {D : Type 0} (x : Errors) (client : Client D) where
  -- An action: `granted` says which case of the `select` in `lifecycleAction` was taken, `false` is
  -- the end of the context. The deferred `actionDone` updates the status.
  unfoldable pub action :
      (name done : Bytes) (wanted next : Status) (call : Bytes → D → Option Bytes × D)
      → Bool
      → Instance D
      → Option Bytes × Instance D
  unfolding act update_status
  action name done wanted next call granted s =
      if granted
      then (let (e, s') = act name done wanted next call s in (e, update_status client s'))
      else (
        x.wrap (some (codes "context closed"))
            (codes "failed to acquire " ++ (done ++ codes " action")),
        s,
      )

  unfoldable pub start : Bool → Instance D → Option Bytes × Instance D
  unfolding action
  start = action (codes "Start") (codes "start") idle starting client.container_start

  unfoldable pub stop : Bool → Instance D → Option Bytes × Instance D
  unfolding action
  stop = action (codes "Stop") (codes "stop") running stopping client.container_stop

  -- `ContainerKill` is called with "SIGKILL".
  unfoldable pub kill : Bool → Instance D → Option Bytes × Instance D
  unfolding action
  kill = action (codes "Kill") (codes "kill") running stopping client.container_kill
