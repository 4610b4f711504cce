-- ===== src/Usecases/Concurrent/Tests.antt =====
-- Two calls of `CreateServer` side by side. The second call overtakes the first.
use serverpouch.Common.{
  ℕ, Bytes, ok, ◌≡◌, refl, Result, prefixing, format_int, pos, Steps, here, step, nat_eq,
}
use serverpouch.Docker.Config.{Options, id}
use serverpouch.Usecases.{get_server}
use serverpouch.Usecases.Concurrent.{
  System, at, asking, done, from, registry, answered, instantiated, registered, Step, begin, query,
  make, lock_registry, write, unlock_registry, holding, readers, writer,
}
use serverpouch.Usecases.Concurrent.Kept.{never_lost}
use serverpouch.Usecases.Concurrent.Ends.{create_server-can_end}
use serverpouch.Usecases.Concurrent.Samples.{rows, instances, Nothing, numbers, red, blue, empty}

-- The second is in the registry, and has the lock still; the first waits for it.
abbrev overtaken : System ℕ Options
overtaken =
    registered 1 (record blue { instance_id = 1 }) (record blue { instance_id = 1 })
      (record (at 1 (holding (record blue { instance_id = 1 }) (record blue { instance_id = 1 })) (
        instantiated instances 1 (record blue { instance_id = 1 })
          (instantiated instances 0 red (
            answered prefixing 1 (ok (record blue { instance_id = 1 }), 2)
              (answered prefixing 0 (ok red, 1)
                (at 1 (asking blue) (at 0 (asking red) (from empty)))))))) { lock = writer 1 })

history : Steps (Step prefixing rows instances Nothing) (from empty) overtaken
unfolding answered instantiated registered
history =
    step
      (step
        (step
          (step
            (step
              (step (step (step here (begin 0 red refl refl)) (begin 1 blue refl refl))
                (query 0 red refl refl))
              (query 1 blue refl refl))
            (make 0 red refl refl))
          (make 1 (record blue { instance_id = 1 }) refl refl))
        (lock_registry 1 (record blue { instance_id = 1 }) (record blue { instance_id = 1 }) refl
          refl refl))
      (write 1 (record blue { instance_id = 1 }) (record blue { instance_id = 1 }) refl refl)

abbrev freed : System ℕ Options
freed = record (at 1 (done (ok (record blue { instance_id = 1 }))) overtaken) { lock = readers 0 }

abbrev both : System ℕ Options
both = registered 0 red red (record (at 0 (holding red red) freed) { lock = writer 0 })

later : Steps (Step prefixing rows instances Nothing) overtaken both
unfolding answered instantiated registered
later =
    step
      (step (step here (unlock_registry 1 (record blue { instance_id = 1 }) refl refl))
        (lock_registry 0 red red refl refl refl))
      (write 0 red red refl refl)

abbrev as_text : ℕ → Bytes
as_text k = format_int (pos k)

never_lost_example :
    ((c : ℕ) (i : Options)
      → overtaken.call c ≡ done (ok i)
      → get_server as_text (id i) (registry both) ≡ ok i)
    × ((k : ℕ) (i : Options)
        → get_server as_text k (registry overtaken) ≡ ok i
        → get_server as_text k (registry both) ≡ ok i)
never_lost_example =
    never_lost prefixing rows instances Nothing numbers as_text empty overtaken both
      (λ k i h. absurd (cc)) history later

create_server-can_end_example :
    (t : System ℕ Options) × (r : Result Options) × Steps
      (Step prefixing rows instances Nothing)
      overtaken
      t
    × (t.call 0 ≡ done r)
unfolding answered instantiated registered
create_server-can_end_example =
    create_server-can_end prefixing rows instances Nothing empty overtaken 0 history
      (λ e. absurd (cc))
