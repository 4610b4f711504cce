-- ===== src/Docker/Init/Tests.antt =====
-- Initializations of a docker instance, at a daemon that runs one container.
use serverpouch.Common.{
  Bytes, codes, true, [], ◌∷◌, none, ok, ◌≡◌, refl, prefixing, text_eq, int_eq,
}
use serverpouch.Server.{initializing, errored}
use serverpouch.Docker.Client.{Client, Container}
use serverpouch.Docker.Instance.{Instance, terminal_out, update_status}
use serverpouch.Docker.Init.{init_body, lifecycle_init, run_init}
use serverpouch.Docker.Init.Later.{timer, starts, all_happen}
use serverpouch.Docker.Init.Outcome.{
  Settled, run_init-mismatch, run_init-errored, run_init-succeeded,
}
use serverpouch.Docker.Samples.{sample, ports, volumes, name_of, daemon_with}

abbrev new_one : Instance Bytes
new_one = record {
  daemon = codes "created";
  options = sample;
  container_id = [];
  status = initializing;
  log = [];
}

abbrev other_image : Container
other_image = record { id = codes "c9"; names = codes "/seven" ∷ []; image = codes "other" }

run_init-mismatch_example :
    let client = daemon_with (other_image ∷ []) in
    let t =
      run_init prefixing client name_of ports volumes
        (all_happen prefixing client (timer ∷ []))
        true
        new_one in
    ((lifecycle_init prefixing client name_of ports volumes true new_one).0 ≡ ([], none))
    × ((all_happen prefixing client (starts true ∷ timer ∷ []) t).container_id ≡ [])
    × ((all_happen prefixing client (starts true ∷ timer ∷ []) t).status ≡ initializing)
run_init-mismatch_example =
    run_init-mismatch prefixing (daemon_with (other_image ∷ [])) name_of ports volumes (timer ∷ [])
      (starts true ∷ timer ∷ []) new_one (other_image ∷ []) other_image (codes "created") refl refl
      refl (λ e. cc)

abbrev after_failure : Instance Bytes
after_failure = record new_one { log = terminal_out (codes "Pulling image \"test\"") ∷ [] }

run_init-errored_example :
    let client = daemon_with [] in
    let u =
      run_init prefixing client name_of ports volumes
        (all_happen prefixing client (timer ∷ []))
        true
        new_one in
    (u.status ≡ errored) × (u.container_id ≡ []) × ((update_status client u).status ≡ initializing)
unfolding init_body prefixing
run_init-errored_example =
    run_init-errored prefixing (daemon_with []) name_of ports volumes (timer ∷ []) new_one
      after_failure [] (codes "Failed to pull image \"test\": no network") refl refl

abbrev own_container : Container
own_container = record { id = codes "c1"; names = codes "/seven" ∷ []; image = codes "test" }

-- Its container runs, whatever else is asked.
abbrev running_daemon : Client Bytes
running_daemon = record (daemon_with (own_container ∷ [])) {
  container_inspect = λ id d. (ok (codes "running"), d);
}

run_init-succeeded_example :
    let u =
      run_init prefixing running_daemon name_of ports volumes
        (all_happen prefixing running_daemon (timer ∷ []))
        true
        new_one in
    (u.status ≡ initializing)
    × (u.container_id ≡ codes "c1")
    × Settled (codes "running") (update_status running_daemon u).status
unfolding init_body
run_init-succeeded_example =
    run_init-succeeded prefixing running_daemon name_of ports volumes (timer ∷ []) new_one new_one
      (codes "c1") (codes "running") refl (λ e. cc) refl (λ d. refl)
