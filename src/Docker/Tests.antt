-- ===== src/Docker/Tests.antt =====
-- The theorems about docker instances, at a daemon that runs one container.
use serverpouch.Common.{
  List, if◌then◌else◌, ◌==◌, ℤ, pos, Bytes, codes, true, [], ◌∷◌, Option, none, some, ◌≡◌, ◌≢◌, ◌↔◌,
  refl, prefixing, arith, lookup, text_eq, int_eq, same_iff,
}
use serverpouch.Server.{idle, starting, running, stopping}
use serverpouch.Docker.Config.{entries, port_binding, to_options}
use serverpouch.Docker.Config.Published.{to_options-publishes}
use serverpouch.Docker.Client.{Client}
use serverpouch.Docker.Instance.{
  Emitted, Instance, terminal_out, status_event, action, start, stop, kill,
}
use serverpouch.Docker.Instance.Invariant.{Inv, actions-Inv}
use serverpouch.Docker.Instance.Calls.{actions_call}
use serverpouch.Docker.Instance.Actions.{action-none_iff, action_fails, start-stop}
use serverpouch.Docker.Attach.{Terminal, context_done, term_in, leaving, attach_loop}
use serverpouch.Docker.Attach.Lines.{Lines, written, reported, attach_loop-written}
use serverpouch.Docker.Samples.{sample, ports, volumes, ports-IsRange, daemon_with, idle_one}

only_80 :
    (other : ℤ) → lookup other (entries sample.ports) ≡ some (codes "8080/tcp") → other ≡ pos 80
only_80 other h = ground (arith, same_iff (pos 80) other, same_iff (pos 81) other)

to_options-publishes_example :
    lookup (codes "8080/tcp") (to_options sample ports volumes).1.port_bindings
    ≡ some (port_binding (pos 80) ∷ [])
to_options-publishes_example =
    to_options-publishes sample ports volumes ports-IsRange (pos 80) (codes "8080/tcp") refl only_80

idle_one-Inv : Inv idle_one
idle_one-Inv = record { listeners_know = refl; container_known = λ h e. cc }

actions-Inv_example :
    Inv (start prefixing (daemon_with []) true idle_one).1
    × Inv (stop prefixing (daemon_with []) true idle_one).1
    × Inv (kill prefixing (daemon_with []) true idle_one).1
actions-Inv_example = actions-Inv prefixing (daemon_with []) true idle_one idle_one-Inv

action-none_iff_example :
    ((action prefixing
        (daemon_with [])
        (codes "Start")
        (codes "start")
        idle
        starting
        (daemon_with []).container_start
        true
        idle_one).0
      ≡ none)
    ↔ ((true ≡ true) × (idle_one.status ≡ idle))
action-none_iff_example =
    action-none_iff prefixing (daemon_with []) (codes "Start") (codes "start") idle starting
      (daemon_with []).container_start true idle_one

-- A daemon whose calls fail for the empty ID.
abbrev careful : Bytes → Bytes → Option Bytes × Bytes
careful [] d = (some (codes "no ID"), d)
careful (c ∷ id) d = (none, codes "running")

careful_agrees :
    (id : Bytes) → id ≢ [] → (d : Bytes) → (daemon_with []).container_start id d ≡ careful id d
careful_agrees [] h d = absurd (h refl)
careful_agrees (c ∷ id) h d = refl

abbrev careful_daemon : Client Bytes
careful_daemon = record (daemon_with []) { container_start = careful }

actions_call_example :
    (start prefixing (daemon_with []) true idle_one ≡ start prefixing careful_daemon true idle_one)
    × (stop prefixing (daemon_with []) true idle_one ≡ stop prefixing careful_daemon true idle_one)
    × (kill prefixing (daemon_with []) true idle_one ≡ kill prefixing careful_daemon true idle_one)
actions_call_example =
    actions_call (daemon_with []) careful_daemon (λ id h d. refl) prefixing true idle_one
      idle_one-Inv careful_agrees (λ id h d. refl) (λ id h d. refl)

abbrev running_one : Instance Bytes
running_one = record idle_one { status = running }

action_fails_example :
    ((action prefixing
        (daemon_with [])
        (codes "Kill")
        (codes "kill")
        running
        stopping
        (daemon_with []).container_kill
        true
        running_one).0
      ≡ none)
    × (rest : List Emitted) × ((action prefixing
          (daemon_with [])
          (codes "Kill")
          (codes "kill")
          running
          stopping
          (daemon_with []).container_kill
          true
          running_one).1.log
        ≡ status_event idle
          ∷ status_event stopping
          ∷ terminal_out (codes "Unable to kill container: no such process")
          ∷ rest)
action_fails_example =
    action_fails prefixing (daemon_with []) (codes "Kill") (codes "kill") running stopping
      (daemon_with []).container_kill running_one (codes "no such process") (codes "created") refl
      refl

start-stop_example :
    let (started, t) = start prefixing (daemon_with []) true idle_one in
    let (stopped, u) = stop prefixing (daemon_with []) true t in
    (started ≡ none)
    × (stopped ≡ none)
    × (t.status ≡ running)
    × (u.status ≡ idle)
    × (u.daemon ≡ codes "exited")
    × (u.container_id ≡ codes "c1")
    × (u.log
        ≡ status_event idle
          ∷ status_event starting
          ∷ status_event running
          ∷ status_event stopping
          ∷ status_event idle
          ∷ [])
start-stop_example =
    start-stop prefixing (daemon_with []) idle_one (codes "running") (codes "running")
      (codes "exited") (codes "exited") refl (λ e. cc) refl refl refl refl

-- A connection whose daemon keeps what was written last, and that is broken once "exit" was.
abbrev shell : Terminal Bytes
shell = record {
  attach = λ id d. (none, d);
  write = λ text d. (if d == codes "exit\n" then some (codes "broken pipe") else none, text);
  close = λ d. d;
}

attach_loop-written_example :
    (lines : List Bytes) × Lines (codes "exit" ∷ codes "list\n" ∷ []) lines
    × (attach_loop shell
          (term_in (codes "exit") ∷ term_in (codes "list\n") ∷ context_done ∷ [])
          idle_one
        ≡ (leaving, reported shell (written shell lines (codes "created")) idle_one))
attach_loop-written_example =
    attach_loop-written shell (codes "exit" ∷ codes "list\n" ∷ []) [] idle_one
