-- ===== src/Docker/Init/Outcome.antt =====
-- How the initialization of an instance ends.
use serverpouch.Common.{
  ℕ, ℤ, Bytes, true, List, [], ◌∷◌, Option, none, some, ok, ◌≡◌, ◌≢◌, refl, sym, ◌∙◌, ap, Errors,
  text_eq, eq_false, codes, ◌⊎◌, inl, inr, Bool-cases, same_iff, ◌==◌, subst, pair_path,
}
use serverpouch.Server.{Status, initializing, idle, running, errored}
use serverpouch.Docker.Client.{Client, Container}
use serverpouch.Docker.Instance.{Instance, set_status, settle, inspected, update_status}
use serverpouch.Docker.Init.Later.{Event, all_happen, all_happen-Unknown, update_status_unknown}
use serverpouch.Docker.Init.Keeps.{init_body_keeps}
use serverpouch.Docker.Init.{
  find_container, found, init_body, lifecycle_init, initialized, run_init,
}

-- The status for the state that docker reports of a container.
abbrev pub Settled : Bytes → Status → Type 0
Settled reported status =
    (((reported ≡ codes "created") ⊎ (reported ≡ codes "exited")) × (status ≡ idle))
    ⊎ (((reported ≡ codes "running") × (status ≡ running))
        ⊎ ((reported ≢ codes "created")
            × (reported ≢ codes "exited")
            × (reported ≢ codes "running")
            × (status ≡ errored)))

settle-Settled :
    {D : Type 0} (reported : Bytes) (s : Instance D) → Settled reported (settle reported s).status
unfolding settle
settle-Settled reported s = elim (Bool-cases (reported == codes "created")) [
  | inl is ↦ rw is (inl (inl ((same_iff reported (codes "created")).0 is), refl))
  | inr created ↦ elim (Bool-cases (reported == codes "exited")) [
    | inl is ↦ rw (created, is) (inl (inr ((same_iff reported (codes "exited")).0 is), refl))
    | inr exited ↦ elim (Bool-cases (reported == codes "running")) [
      | inl is ↦
          rw (created, exited, is) (inr (inl ((same_iff reported (codes "running")).0 is, refl)))
      | inr other ↦
          rw (created, exited, other)
            (inr (
              inr (
                λ e. cc ((same_iff reported (codes "created")).1 e),
                λ e. cc ((same_iff reported (codes "exited")).1 e),
                λ e. cc ((same_iff reported (codes "running")).1 e),
                refl,
              )))
    ]
  ]
]

module _ {D : Type 0} (client : Client D) where
  update_status_known :
      (s : Instance D) (reported : Bytes) (daemon : D)
      → s.container_id ≢ []
      → client.container_inspect s.container_id s.daemon ≡ (ok reported, daemon)
      → update_status client s ≡ settle reported (record s { daemon = daemon })
  unfolding update_status inspected
  update_status_known s reported daemon known answer = rw (eq_false known, answer)

module _ {D : Type 0} (x : Errors) (client : Client D) (uuid_string : ℕ → Bytes)
    (ports : List (ℤ × Bytes)) (volumes : List (Bytes × Bytes)) where
  -- A container of the instance's name that runs another image: no error is returned, and no ID.
  pub init_body-mismatch :
      (s : Instance D) (containers : List Container) (c : Container) (daemon : D)
      → client.container_list s.daemon ≡ (ok containers, daemon)
      → find_container (b'/' ∷ uuid_string s.options.instance_id) containers ≡ some c
      → c.image ≢ s.options.image
      → init_body x client uuid_string ports volumes s ≡ (([], none), record s { daemon = daemon })
  unfolding init_body
  init_body-mismatch s containers c daemon listed named differs =
      rw (listed, named) (rw (eq_false differs, found) (rw x.wrap_nil))

module _ {D : Type 0} (x : Errors) (client : Client D) (uuid_string : ℕ → Bytes)
    (ports : List (ℤ × Bytes)) (volumes : List (Bytes × Bytes)) where
  init_body_unknown :
      (s : Instance D)
      → s.container_id ≡ []
      → (init_body x client uuid_string ports volumes s).1.container_id ≡ []
  init_body_unknown s e =
      init_body_keeps x client uuid_string ports volumes (λ t. t.container_id ≡ []) (λ s d h. h)
        (λ s text h. h) s e

  -- The deferred update finds no container ID yet, whatever the result is.
  lifecycle_init_updates :
      (s t : Instance D) (r : Bytes × Option Bytes)
      → t.container_id ≡ []
      → init_body x client uuid_string ports volumes s ≡ (r, t)
      → lifecycle_init x client uuid_string ports volumes true s ≡ (r, set_status initializing t)
  unfolding lifecycle_init
  lifecycle_init_updates s t r unknown e =
      ap (λ q. (q.0, update_status client q.1)) e
      ∙ ap (λ u. (r, u)) (update_status_unknown client t unknown)

  -- What the others do between leaves the instance as it is: it knows of no container.
  run_init_ends :
      (between : List Event) (s t : Instance D) (r : Bytes × Option Bytes)
      → t.container_id ≡ []
      → init_body x client uuid_string ports volumes s ≡ (r, t)
      → (u : Instance D) × (u.container_id ≡ [])
        × (u.status ≡ initializing)
        × (run_init x client uuid_string ports volumes (all_happen x client between) true s
            ≡ initialized (r, u))
  unfolding run_init
  run_init_ends between s t r unknown e =
      let u = all_happen x client between (set_status initializing t) in
      let (still, is) =
        all_happen-Unknown x client between (set_status initializing t) (unknown, refl) in
      (
        u,
        still,
        is,
        ap (λ q. initialized (q.0, all_happen x client between q.1))
            (lifecycle_init_updates s t r unknown e),
      )

  -- A container of the instance's name that runs another image: the initialization of a new
  -- instance ends without an error, but with no container ID, and the status stays `initializing`,
  -- whatever actions are called and updates happen before and after.
  pub run_init-mismatch :
      (between later : List Event) (s : Instance D) (containers : List Container) (c : Container)
      (daemon : D)
      → s.container_id ≡ []
      → client.container_list s.daemon ≡ (ok containers, daemon)
      → find_container (b'/' ∷ uuid_string s.options.instance_id) containers ≡ some c
      → c.image ≢ s.options.image
      → let t = run_init x client uuid_string ports volumes (all_happen x client between) true s in
        ((lifecycle_init x client uuid_string ports volumes true s).0 ≡ ([], none))
        × ((all_happen x client later t).container_id ≡ [])
        × ((all_happen x client later t).status ≡ initializing)
  unfolding initialized
  run_init-mismatch between later s containers c daemon fresh listed named differs =
      let mismatch =
        init_body-mismatch x client uuid_string ports volumes s containers c daemon listed named
          differs in
      let t : Instance D = record s { daemon = daemon } in
      let (u, unknown, is, ends) = run_init_ends between s t ([], none) fresh mismatch in
      let (still, stays) =
        all_happen-Unknown x client later (record u { container_id = [] }) (refl, is) in
      (
        ap (λ r. r.0) (lifecycle_init_updates s t ([], none) fresh mismatch),
        ap (λ v. (all_happen x client later v).container_id) ends ∙ still,
        ap (λ v. (all_happen x client later v).status) ends ∙ stays,
      )

  -- An initialization of a new instance that fails sets the status `errored`, whatever actions are
  -- called and updates happen before it does; the next update of the status, of the timer or of a
  -- refused action, makes it `initializing`, though nothing initializes the instance any more.
  pub run_init-errored :
      (between : List Event) (s t : Instance D) (id e : Bytes)
      → s.container_id ≡ []
      → init_body x client uuid_string ports volumes s ≡ ((id, some e), t)
      → let u = run_init x client uuid_string ports volumes (all_happen x client between) true s in
        (u.status ≡ errored)
        × (u.container_id ≡ [])
        × ((update_status client u).status ≡ initializing)
  unfolding initialized
  run_init-errored between s t id e fresh failed =
      let unknown : t.container_id ≡ [] =
        ap (λ r. r.1.container_id) (sym failed) ∙ init_body_unknown s fresh in
      let (u, still, is, ends) = run_init_ends between s t (id, some e) unknown failed in
      rw ends (
        refl,
        still,
        ap (λ v. v.status) (update_status_unknown client (set_status errored u) still),
      )

  -- An initialization of a new instance that ends without an error and with an ID that is not empty
  -- leaves the status `initializing`, whatever actions are called and updates happen before the ID is
  -- assigned; if docker reports one state of the container whenever it is asked, the next update sets
  -- the status `idle` for created and exited, `running` for running, and `errored` for any other.
  pub run_init-succeeded :
      (between : List Event) (s t : Instance D) (id reported : Bytes)
      → s.container_id ≡ []
      → id ≢ []
      → init_body x client uuid_string ports volumes s ≡ ((id, none), t)
      → ((d : D) → (client.container_inspect id d).0 ≡ ok reported)
      → let u = run_init x client uuid_string ports volumes (all_happen x client between) true s in
        (u.status ≡ initializing)
        × (u.container_id ≡ id)
        × Settled reported (update_status client u).status
  unfolding initialized
  run_init-succeeded between s t id reported fresh known done answer =
      let unknown : t.container_id ≡ [] =
        ap (λ r. r.1.container_id) (sym done) ∙ init_body_unknown s fresh in
      let (u, still, is, ends) = run_init_ends between s t (id, none) unknown done in
      let asked = client.container_inspect id u.daemon in
      rw ends (
        is,
        refl,
        subst (λ v. Settled reported v.status)
            (sym (
              update_status_known client (record u { container_id = id }) reported asked.1 known
                (pair_path (answer u.daemon) refl)))
            (settle-Settled reported (record u { container_id = id; daemon = asked.1 })),
      )
