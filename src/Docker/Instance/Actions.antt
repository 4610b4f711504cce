-- ===== src/Docker/Instance/Actions.antt =====
-- What the actions return, and what they do to the status.
use serverpouch.Common.{
  Bytes, codes, Bool, true, false, [], ◌∷◌, ◌++◌, Option, none, ok, err, Errors, ◌≡◌, ◌≢◌, ◌↔◌,
  refl, ap, arith, ◌==◌, text_eq, append_assoc, List, some, ◌∙◌,
}
use serverpouch.Server.{
  Status, idle, starting, running, stopping, errored, status_eq, status_beq_iff,
}
use serverpouch.Docker.Client.{Client}
use serverpouch.Docker.Instance.{
  Emitted, status_event, terminal_out, Instance, print, set_status, settle, inspected,
  update_status, called, act, action, start, stop,
}
use serverpouch.Docker.Instance.Invariant.{update_status_cases, settle_cases}

-- The statuses that an action passes through.
abbrev pub in_between : Status → Bool
in_between starting = true
in_between stopping = true
in_between _ = false

beq_nil : (id : Bytes) → id ≢ [] → (id == []) ≡ false
beq_nil [] h = absurd (h refl)
beq_nil (c ∷ id) h = refl

module _ {D : Type 0} (client : Client D) where
  -- A status that an update leaves in between means that docker could not be asked.
  pub update_status-settles :
      (s : Instance D)
      → in_between (update_status client s).status ≡ true
      → (e : Bytes) × ((client.container_inspect s.container_id s.daemon).0 ≡ err e)
  update_status-settles s =
      update_status_cases client
        (λ t.
          in_between t.status ≡ true
          → (e : Bytes) × ((client.container_inspect s.container_id s.daemon).0 ≡ err e))
        s (λ _ h. cc) (λ e daemon _ failed h. (e, ap (λ r. r.0) failed))
        λ reported daemon known _.
          settle_cases
            (λ t.
              in_between t.status ≡ true
              → (e : Bytes) × ((client.container_inspect s.container_id s.daemon).0 ≡ err e))
            reported (record s { daemon = daemon }) (λ h. cc) (λ h. cc) (λ h. cc)

module _ {D : Type 0} (x : Errors) (client : Client D) (name done : Bytes) (wanted next : Status)
    (call : Bytes → D → Option Bytes × D) where
  act-none_iff :
      (s : Instance D) → ((act name done wanted next call s).0 ≡ none) ↔ (s.status ≡ wanted)
  unfolding act called
  act-none_iff s = ground (arith, status_beq_iff s.status wanted)

  -- An action returns nil exactly when it was acquired in the status that it wants, whether docker
  -- carries it out or not.
  pub action-none_iff :
      (granted : Bool) (s : Instance D)
      → ((action x client name done wanted next call granted s).0 ≡ none)
        ↔ ((granted ≡ true) × (s.status ≡ wanted))
  unfolding action
  action-none_iff true s = (λ h. (refl, (act-none_iff s).0 h), λ (_, h). (act-none_iff s).1 h)
  action-none_iff false s = (
    λ h. cc (
        x.wrap_some (codes "context closed")
          (codes "failed to acquire " ++ (done ++ codes " action"))),
    λ (h, _). cc,
  )

module _ {D : Type 0} (client : Client D) where
  -- An update adds to what was told.
  update_status_tells :
      (s : Instance D) → (rest : List Emitted) × ((update_status client s).log ≡ s.log ++ rest)
  update_status_tells s =
      update_status_cases client (λ t. (rest : List Emitted) × (t.log ≡ s.log ++ rest)) s
        (λ _. (_, refl)) (λ e daemon _ _. (_, refl))
        (λ reported daemon _ _.
          settle_cases (λ t. (rest : List Emitted) × (t.log ≡ s.log ++ rest)) reported
            (record s { daemon = daemon }) (_, refl) (_, refl)
            (_, append_assoc s.log (terminal_out _ ∷ []) (status_event errored ∷ [])))

module _ {D : Type 0} (x : Errors) (client : Client D) (name done : Bytes) (wanted next : Status)
    (call : Bytes → D → Option Bytes × D) where
  -- If docker fails to carry out an action that was acquired in the status that it wants, the action
  -- returns nil all the same, and the listeners are told of the next status, and then of docker's
  -- error, before what the update of the status tells.
  pub action_fails :
      (s : Instance D) (e : Bytes) (d : D)
      → s.status ≡ wanted
      → call s.container_id s.daemon ≡ (some e, d)
      → ((action x client name done wanted next call true s).0 ≡ none)
        × (rest : List Emitted) × ((action x client name done wanted next call true s).1.log
            ≡ s.log
              ++ status_event next
                ∷ terminal_out (codes "Unable to " ++ (done ++ (codes " container: " ++ e)))
                ∷ rest)
  unfolding action act called
  action_fails s e d allowed failed =
      rw ((status_beq_iff s.status wanted).1 allowed, failed, called)
        (let printed : Instance D =
            print (codes "Unable to " ++ (done ++ (codes " container: " ++ e)))
              (record (set_status next s) { daemon = d }) in
          let (rest, told) = update_status_tells client printed in
          (refl, rest, told ∙ simp append_assoc))

module _ {D : Type 0} (x : Errors) (client : Client D) (name done : Bytes) (wanted next : Status)
    (call : Bytes → D → Option Bytes × D) where
  -- An action that docker carries out and reports on.
  action_done :
      (s : Instance D) (reported : Bytes) (d₁ d₂ : D)
      → s.status ≡ wanted
      → s.container_id ≢ []
      → call s.container_id s.daemon ≡ (none, d₁)
      → client.container_inspect s.container_id d₁ ≡ (ok reported, d₂)
      → action x client name done wanted next call true s
        ≡ (none, settle reported (record (set_status next s) { daemon = d₂ }))
  unfolding action act called update_status inspected
  action_done s reported d₁ d₂ allowed known called_docker answer =
      rw ((status_beq_iff s.status wanted).1 allowed, called_docker, called)
        (rw (beq_nil s.container_id known, answer, inspected))

module _ {D : Type 0} (x : Errors) (client : Client D) (s : Instance D) (d₁ d₂ : D)
    (known : s.container_id ≢ []) where
  start_done :
      s.status ≡ idle
      → client.container_start s.container_id s.daemon ≡ (none, d₁)
      → client.container_inspect s.container_id d₁ ≡ (ok (codes "running"), d₂)
      → start x client true s
        ≡ (none, set_status running (record (set_status starting s) { daemon = d₂ }))
  unfolding start settle
  start_done allowed started answer =
      action_done x client (codes "Start") (codes "start") idle starting client.container_start s
        (codes "running") d₁ d₂ allowed known started answer

  stop_done :
      s.status ≡ running
      → client.container_stop s.container_id s.daemon ≡ (none, d₁)
      → client.container_inspect s.container_id d₁ ≡ (ok (codes "exited"), d₂)
      → stop x client true s
        ≡ (none, set_status idle (record (set_status stopping s) { daemon = d₂ }))
  unfolding stop settle
  stop_done allowed stopped answer =
      action_done x client (codes "Stop") (codes "stop") running stopping client.container_stop s
        (codes "exited") d₁ d₂ allowed known stopped answer

module _ {D : Type 0} (x : Errors) (client : Client D) where
  -- `Start` and then `Stop` of an idle instance, where docker carries out both calls and reports the
  -- container as running after the first and as exited after the second: both return nil, the
  -- instance is idle again, and the listeners were told of the four statuses in their order.
  pub start-stop :
      (s : Instance D) (d₁ d₂ d₃ d₄ : D)
      → s.status ≡ idle
      → s.container_id ≢ []
      → client.container_start s.container_id s.daemon ≡ (none, d₁)
      → client.container_inspect s.container_id d₁ ≡ (ok (codes "running"), d₂)
      → client.container_stop s.container_id d₂ ≡ (none, d₃)
      → client.container_inspect s.container_id d₃ ≡ (ok (codes "exited"), d₄)
      → let (started, t) = start x client true s in
        let (stopped, u) = stop x client true t in
        (started ≡ none)
        × (stopped ≡ none)
        × (t.status ≡ running)
        × (u.status ≡ idle)
        × (u.daemon ≡ d₄)
        × (u.container_id ≡ s.container_id)
        × (u.log
            ≡ s.log
              ++ status_event starting
                ∷ status_event running
                ∷ status_event stopping
                ∷ status_event idle
                ∷ [])
  start-stop s d₁ d₂ d₃ d₄ is_idle known a b c d =
      let t = set_status running (record (set_status starting s) { daemon = d₂ }) in
      rw (start_done x client s d₁ d₂ known is_idle a b) (
        rw (stop_done x client t d₃ d₄ known refl c d)
          (refl, refl, refl, refl, refl, refl, simp append_assoc))
