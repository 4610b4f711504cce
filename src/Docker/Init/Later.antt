-- ===== src/Docker/Init/Later.antt =====
-- internal/infrastructure/docker: what may happen to an instance that knows of no container.
use serverpouch.Common.{
  ◌==◌, Bytes, codes, Bool, true, false, List, [], ◌∷◌, Option, ◌≡◌, refl, Errors, text_eq,
  list_beq_iff, subst, sym,
}
use serverpouch.Server.{Status, initializing, idle, starting, running, stopping, status_eq}
use serverpouch.Docker.Client.{Client}
use serverpouch.Docker.Instance.{
  Instance, set_status, update_status, act, action, start, stop, kill,
}

-- The timer's update, or an action, with the answer to its request for the right to act.
pub data Event : Type 0 where
  timer : Event
  starts stops kills : Bool → Event

module _ {D : Type 0} (x : Errors) (client : Client D) where
  abbrev pub happens : Event → Instance D → Instance D
  happens timer s = update_status client s
  happens (starts granted) s = (start x client granted s).1
  happens (stops granted) s = (stop x client granted s).1
  happens (kills granted) s = (kill x client granted s).1

  abbrev pub all_happen : List Event → Instance D → Instance D
  all_happen [] s = s
  all_happen (e ∷ events) s = all_happen events (happens e s)

module _ {D : Type 0} (client : Client D) where
  -- Without a container ID an update makes the status `initializing`, and asks nobody.
  pub update_status_unknown :
      (s : Instance D) → s.container_id ≡ [] → update_status client s ≡ set_status initializing s
  unfolding update_status
  update_status_unknown s e = rw ((list_beq_iff s.container_id []).1 e)

  -- No container is known, and the status says so.
  abbrev pub Unknown : Instance D → Type 0
  Unknown s = (s.container_id ≡ []) × (s.status ≡ initializing)

  update_status-Unknown : (s : Instance D) → s.container_id ≡ [] → Unknown (update_status client s)
  update_status-Unknown s e = subst Unknown (sym (update_status_unknown s e)) (e, refl)

module _ {D : Type 0} (x : Errors) (client : Client D) where
  act_refused :
      (name done : Bytes) (wanted next : Status) (call : Bytes → D → Option Bytes × D)
      (s : Instance D)
      → (initializing == wanted) ≡ false
      → Unknown client s
      → (act name done wanted next call s).1.container_id ≡ []
  unfolding act
  act_refused name done wanted next call s differs (unknown, is) = rw (is, differs, act) unknown

  action-Unknown :
      (name done : Bytes) (wanted next : Status) (call : Bytes → D → Option Bytes × D)
      (granted : Bool) (s : Instance D)
      → (initializing == wanted) ≡ false
      → Unknown client s
      → Unknown client (action x client name done wanted next call granted s).1
  unfolding action
  action-Unknown name done wanted next call false s differs h = h
  action-Unknown name done wanted next call true s differs h =
      update_status-Unknown client (act name done wanted next call s).1
        (act_refused name done wanted next call s differs h)

  happens-Unknown :
      (e : Event) (s : Instance D) → Unknown client s → Unknown client (happens x client e s)
  unfolding start stop kill
  happens-Unknown timer s h = update_status-Unknown client s h.0
  happens-Unknown (starts granted) s h =
      action-Unknown (codes "Start") (codes "start") idle starting client.container_start granted s
        refl h
  happens-Unknown (stops granted) s h =
      action-Unknown (codes "Stop") (codes "stop") running stopping client.container_stop granted s
        refl h
  happens-Unknown (kills granted) s h =
      action-Unknown (codes "Kill") (codes "kill") running stopping client.container_kill granted s
        refl h

  -- An instance that knows of no container stays so, whatever is called.
  pub all_happen-Unknown :
      (events : List Event) (s : Instance D)
      → Unknown client s
      → Unknown client (all_happen x client events s)
  all_happen-Unknown [] s h = h
  all_happen-Unknown (e ∷ events) s h =
      all_happen-Unknown events (happens x client e s) (happens-Unknown e s h)
