-- ===== src/Usecases/Concurrent/Taken.antt =====
-- internal/infrastructure/database over the table of the servers: the identifiers that it gives away.
use serverpouch.Common.{
  ℕ, Bool, true, false, Option, none, some, ok, Errors, ◌≡◌, refl, sym, ap, ◌∙◌, subst, arith,
  nat_eq, same_iff,
}
use serverpouch.Docker.Config.{Options, id}
use serverpouch.Database.{Row, OptionsJson}
use serverpouch.Database
use serverpouch.Database.Stored.{converted_id}
use serverpouch.Schema.{Driver, queries}
use serverpouch.Schema.Serves.{Serves}
use serverpouch.Schema.Created.{create_server-row, create_server-keeps}
use serverpouch.Usecases.Interfaces.{ServerInstances}
use serverpouch.Usecases.Concurrent.{Keys}

abbrev pub is_some {ℓ} : {A : Type ℓ} → Option A → Bool
is_some none = false
is_some (some a) = true

is_some-there {ℓ} : {A : Type ℓ} (o : Option A) → is_some o ≡ true → (a : A) × (o ≡ some a)
is_some-there none h = absurd (cc)
is_some-there (some a) h = (a, refl)

module _ {W I Doc : Type 0} (x : Errors) (values : OptionsJson Doc) (db : Driver W Doc)
    (v : Serves values db) (servers : ServerInstances W I) (Others : W → W → Type 0)
    (keeps_rows : (config : Options) (w : W) (k : ℕ)
      → v.row_at (servers.new_instance config w).1 k ≡ v.row_at w k)
    (others_keep : (w w' : W) (k : ℕ) (row : Row Doc)
      → Others w w'
      → v.row_at w k ≡ some row
      → v.row_at w' k ≡ some row) where
  -- An identifier is taken if the table has a row of it.
  abbrev pub taken : W → ℕ → Bool
  taken w k = is_some (v.row_at w k)

  create_new :
      (config stored : Options) (w after : W)
      → Database.create_server x values (queries db) config w ≡ (ok stored, after)
      → (taken w (id stored) ≡ false) × (taken after (id stored) ≡ true)
  create_new config stored w after h =
      let (row, read, fresh, kept) = create_server-row x values db v config stored w after h in
      let now : v.row_at after row.id ≡ some row =
        kept row.id ∙ ground (arith, same_iff row.id row.id) in
      subst (λ k. (taken w k ≡ false) × (taken after k ≡ true))
        (sym (converted_id x values row stored read)) (ap is_some fresh, ap is_some now)

  -- A table whose rows stay gives every identifier once.
  pub queries-Keys : Keys (Database.database x values (queries db)) servers Others
  queries-Keys = record {
    taken = taken;
    create_new = create_new;
    create_keeps = λ config w k h.
        let (row, there) = is_some-there (v.row_at w k) h in
        ap is_some (create_server-keeps x values db v config w k row there);
    instance_keeps = λ config w k h. ap is_some (keeps_rows config w k) ∙ h;
    others_keep = λ w w' k o h.
        let (row, there) = is_some-there (v.row_at w k) h in
        ap is_some (others_keep w w' k row o there);
  }

  pub queries-Keys-taken :
      (w : W) (k : ℕ) (row : Row Doc) → v.row_at w k ≡ some row → queries-Keys.taken w k ≡ true
  unfolding queries-Keys
  queries-Keys-taken w k row there = ap is_some there
