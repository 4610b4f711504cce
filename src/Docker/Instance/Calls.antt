-- ===== src/Docker/Instance/Calls.antt =====
-- internal/infrastructure/docker/action.go: for which IDs the actions call docker.
use serverpouch.Common.{
  Bytes, codes, Bool, true, false, [], Option, Errors, ◌≡◌, ◌≢◌, subst, refl, sym, ap, ◌==◌,
  text_eq, inl, inr, Bool-cases, list_beq_iff, ◌∙◌,
}
use serverpouch.Server.{Status, idle, starting, running, stopping, status_eq, status_beq_iff}
use serverpouch.Docker.Client.{Client}
use serverpouch.Docker.Instance.{Instance, update_status, act, action, start, stop, kill}
use serverpouch.Docker.Instance.Invariant.{has_container, Inv}

module _ {D : Type 0} (client other : Client D)
    (inspects : (id : Bytes)
      → id ≢ []
      → (d : D) → client.container_inspect id d ≡ other.container_inspect id d) where
  update_status_call : (s : Instance D) → update_status client s ≡ update_status other s
  unfolding update_status
  update_status_call s = elim (Bool-cases (s.container_id == [])) [
    | inl unknown ↦ rw (unknown, update_status) refl
    | inr known ↦
        rw
          (
            known,
            update_status,
            inspects s.container_id (λ e. cc ((list_beq_iff s.container_id []).1 e)) s.daemon,
          )
          refl
  ]

  act_call :
      (name done : Bytes) (wanted next : Status) (call call' : Bytes → D → Option Bytes × D)
      (s : Instance D)
      → (s.status ≡ wanted → call s.container_id s.daemon ≡ call' s.container_id s.daemon)
      → act name done wanted next call s ≡ act name done wanted next call' s
  unfolding act
  act_call name done wanted next call call' s same = elim (Bool-cases (s.status == wanted)) [
    | inl allowed ↦ rw (same ((status_beq_iff s.status wanted).0 allowed))
    | inr refused ↦ rw (refused, act)
  ]

  action_call :
      (x : Errors) (name done : Bytes) (wanted next : Status)
      (call call' : Bytes → D → Option Bytes × D) (granted : Bool) (s : Instance D)
      → Inv s
      → has_container wanted ≡ true
      → ((id : Bytes) → id ≢ [] → (d : D) → call id d ≡ call' id d)
      → action x client name done wanted next call granted s
        ≡ action x other name done wanted next call' granted s
  unfolding action
  action_call x name done wanted next call call' false s v there agree = refl
  action_call x name done wanted next call call' true s v there agree =
      let same : act name done wanted next call s ≡ act name done wanted next call' s =
        act_call name done wanted next call call' s λ e.
          agree s.container_id
            (v.container_known (subst (λ t. has_container t ≡ true) (sym e) there)) s.daemon in
      ap (λ r. (r.0, update_status client r.1)) same
      ∙ ap (λ t. ((act name done wanted next call' s).0, t))
          (update_status_call (act name done wanted next call' s).1)

  -- An action calls docker at most for the ID of a container, be it to start, to stop, to kill or to
  -- inspect one: two clients that agree on every nonempty ID and every state of the daemon make the
  -- same actions of an instance that satisfies the invariant.
  pub actions_call :
      (x : Errors) (granted : Bool) (s : Instance D)
      → Inv s
      → ((id : Bytes)
          → id ≢ []
          → (d : D) → client.container_start id d ≡ other.container_start id d)
      → ((id : Bytes) → id ≢ [] → (d : D) → client.container_stop id d ≡ other.container_stop id d)
      → ((id : Bytes) → id ≢ [] → (d : D) → client.container_kill id d ≡ other.container_kill id d)
      → (start x client granted s ≡ start x other granted s)
        × (stop x client granted s ≡ stop x other granted s)
        × (kill x client granted s ≡ kill x other granted s)
  unfolding start stop kill
  actions_call x granted s v starts stops kills = (
    action_call x (codes "Start") (codes "start") idle starting client.container_start
        other.container_start granted s v refl starts,
    action_call x (codes "Stop") (codes "stop") running stopping client.container_stop
        other.container_stop granted s v refl stops,
    action_call x (codes "Kill") (codes "kill") running stopping client.container_kill
        other.container_kill granted s v refl kills,
  )
