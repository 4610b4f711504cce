-- ===== src/Docker/Instance/Invariant.antt =====
-- What holds of an instance whatever the daemon answers.
use serverpouch.Common.{
  Bytes, codes, Bool, true, false, List, [], ◌∷◌, ◌++◌, Option, none, some, Result, ok, err, Errors,
  ◌≡◌, ◌≢◌, subst, refl, sym, ◌∙◌, arith, ◌==◌, text_eq, list_beq_iff, inl, inr, Bool-cases,
}
use serverpouch.Server.{
  Status, initializing, idle, starting, running, stopping, errored, status_eq, status_beq_iff,
}
use serverpouch.Docker.Client.{Client}
use serverpouch.Docker.Instance.{
  Emitted, status_event, terminal_out, Instance, print, set_status, settle, inspected,
  update_status, called, act, action, start, stop, kill,
}

-- The status that a listener to every event knows, if it knew `known` before.
abbrev pub told : Status → List Emitted → Status
told known [] = known
told known (status_event status ∷ log) = told status log
told known (terminal_out text ∷ log) = told known log

told-append :
    (known : Status) (log more : List Emitted)
    → told known (log ++ more) ≡ told (told known log) more
told-append known [] more = refl
told-append known (status_event status ∷ log) more = told-append status log more
told-append known (terminal_out text ∷ log) more = told-append known log more

-- The statuses in which there is a container.
abbrev pub has_container : Status → Bool
has_container initializing = false
has_container errored = false
has_container _ = true

-- The listeners know the status, and a status that speaks of a container comes with its ID.
pub record Inv {D : Type 0} (s : Instance D) : Type 0 where
  pub listeners_know : told initializing s.log ≡ s.status
  pub container_known : has_container s.status ≡ true → s.container_id ≢ []

module _ {D : Type 0} where
  set_status-Inv :
      (status : Status) (s : Instance D)
      → (has_container status ≡ true → s.container_id ≢ [])
      → Inv (set_status status s)
  set_status-Inv status s h = record {
    listeners_know = told-append initializing s.log (status_event status ∷ []);
    container_known = h;
  }

  print-Inv : (text : Bytes) (s : Instance D) → Inv s → Inv (print text s)
  print-Inv text s v = record {
    listeners_know = told-append initializing s.log (terminal_out text ∷ []) ∙ v.listeners_know;
    container_known = v.container_known;
  }

  -- The `switch` sets one of three statuses.
  pub settle_cases {ℓ} :
      (P : Instance D → Type ℓ) (reported : Bytes) (s : Instance D)
      → P (set_status idle s)
      → P (set_status running s)
      → P (set_status errored (print (codes "Unknown docker status: " ++ reported) s))
      → P (settle reported s)
  unfolding settle
  settle_cases P reported s a b c = ground arith

module _ {D : Type 0} (client : Client D) where
  -- The three ways in which an update goes.
  pub update_status_cases {ℓ} :
      (P : Instance D → Type ℓ) (s : Instance D)
      → (s.container_id ≡ [] → P (set_status initializing s))
      → ((e : Bytes) (daemon : D)
          → s.container_id ≢ []
          → client.container_inspect s.container_id s.daemon ≡ (err e, daemon)
          → P (print (codes "Unable to inspect container: " ++ e) (record s { daemon = daemon })))
      → ((reported : Bytes) (daemon : D)
          → s.container_id ≢ []
          → client.container_inspect s.container_id s.daemon ≡ (ok reported, daemon)
          → P (settle reported (record s { daemon = daemon })))
      → P (update_status client s)
  unfolding update_status
  update_status_cases P s unknown failed answered = elim (Bool-cases (s.container_id == [])) [
    | inl none_yet ↦
        rw (none_yet, update_status) (unknown ((list_beq_iff s.container_id []).0 none_yet))
    | inr known ↦
        let is_known : s.container_id ≢ [] = λ e. cc ((list_beq_iff s.container_id []).1 e) in
        rw (known, update_status)
          (go (client.container_inspect s.container_id s.daemon) refl is_known)
  ]
    where
      go :
          (r : Result Bytes × D)
          → client.container_inspect s.container_id s.daemon ≡ r
          → s.container_id ≢ []
          → P (inspected r s)
      go (err e, daemon) h known = failed e daemon known h
      go (ok reported, daemon) h known = answered reported daemon known h

module _ {D : Type 0} (client : Client D) where
  settle-Inv : (reported : Bytes) (s : Instance D) → s.container_id ≢ [] → Inv (settle reported s)
  settle-Inv reported s known =
      settle_cases Inv reported s (set_status-Inv idle s (λ _. known))
        (set_status-Inv running s (λ _. known))
        (set_status-Inv errored (print (codes "Unknown docker status: " ++ reported) s)
          (λ _. known))

  pub update_status-Inv : (s : Instance D) → Inv s → Inv (update_status client s)
  update_status-Inv s v =
      update_status_cases client Inv s (λ _. set_status-Inv initializing s (λ h. cc))
        (λ e daemon known _.
          print-Inv _ (record s { daemon = daemon })
            (record { listeners_know = v.listeners_know; container_known = v.container_known }))
        (λ reported daemon known _. settle-Inv reported (record s { daemon = daemon }) known)

  called-Inv :
      (done : Bytes) (answer : Option Bytes × D) (s : Instance D)
      → Inv s
      → Inv (called done answer s).1
  unfolding called
  called-Inv done (none, daemon) s v = record {
    listeners_know = v.listeners_know;
    container_known = v.container_known;
  }
  called-Inv done (some e, daemon) s v =
      print-Inv _ (record s { daemon = daemon })
        (record { listeners_know = v.listeners_know; container_known = v.container_known })

  act-Inv :
      (name done : Bytes) (wanted next : Status) (call : Bytes → D → Option Bytes × D)
      (s : Instance D)
      → (has_container wanted ≡ true)
      → Inv s
      → Inv (act name done wanted next call s).1
  unfolding act
  act-Inv name done wanted next call s there v = elim (Bool-cases (s.status == wanted)) [
    | inl allowed ↦
        rw (allowed, act)
          (called-Inv done (call s.container_id s.daemon) (set_status next s) (
            set_status-Inv next s (λ _. v.container_known (
              subst (λ t. has_container t ≡ true) (sym ((status_beq_iff s.status wanted).0 allowed))
                there))))
    | inr refused ↦ rw (refused, act) (print-Inv _ s v)
  ]

module _ {D : Type 0} (x : Errors) (client : Client D) where
  action-Inv :
      (name done : Bytes) (wanted next : Status) (call : Bytes → D → Option Bytes × D)
      (granted : Bool) (s : Instance D)
      → has_container wanted ≡ true
      → Inv s
      → Inv (action x client name done wanted next call granted s).1
  unfolding action
  action-Inv name done wanted next call true s there v =
      update_status-Inv client (act name done wanted next call s).1
        (act-Inv client name done wanted next call s there v)
  action-Inv name done wanted next call false s there v = v

  -- Whatever the daemon answers, an action keeps what the listeners know equal to the status, and
  -- a status that speaks of a container in step with the container's ID.
  pub actions-Inv :
      (granted : Bool) (s : Instance D)
      → Inv s
      → Inv (start x client granted s).1
        × Inv (stop x client granted s).1
        × Inv (kill x client granted s).1
  unfolding start stop kill
  actions-Inv granted s v = (
    action-Inv (codes "Start") (codes "start") idle starting client.container_start granted s refl
        v,
    action-Inv (codes "Stop") (codes "stop") running stopping client.container_stop granted s refl
        v,
    action-Inv (codes "Kill") (codes "kill") running stopping client.container_kill granted s refl
        v,
  )
