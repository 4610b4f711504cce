-- ===== src/Usecases/Restart/Started.antt =====
-- internal/domain/usecases/usecases.go, `New`, over the table of the servers.
use serverpouch.Common.{
  ok-injective, ℕ, List, [], ◌∷◌, All, some, Result, ok, err, Errors, Option-cases, Bool-cases, inl,
  inr, and_then-ok, ◌≡◌, ◌↔◌, refl, sym, ap, ◌∙◌, subst, arith, ◌==◌, nat_eq,
}
use serverpouch.Docker.Config.{Options}
use serverpouch.Database.{Row, OptionsJson, convert_to_server, convert_rows}
use serverpouch.Database
use serverpouch.Database.Stored.{converted_id, wrap_error-ok}
use serverpouch.Schema.{Driver, queries}
use serverpouch.Schema.Serves as Table
use serverpouch.Schema.Serves.{Serves, last_row}
use serverpouch.Usecases.{Usecases, started, listed, init, new}
use serverpouch.Usecases.Interfaces.{ServerInstances}
use serverpouch.Usecases.Found.{IsKeyed}
use serverpouch.Usecases.Restart.{Mirrors, IsReadable, new-Mirrors}
use serverpouch.Usecases.Restart.Rows.{Matches}
use serverpouch.Usecases.Restart.Registered.{config_of, config_at}
use serverpouch.Usecases.Concurrent.Kept.{IsKnown}
use serverpouch.Usecases.Concurrent.Taken.{queries-Keys, queries-Keys-taken}

-- What holds of every row holds of the last one with a key, which has the key.
last_row-All :
    {Doc : Type 0} (P : Row Doc → Type 0) (k : ℕ) (rows : List (Row Doc)) (row : Row Doc)
    → All P rows
    → last_row k rows ≡ some row
    → P row × (row.id ≡ k)
last_row-All P k [] row each h = absurd (cc)
last_row-All P k (r ∷ rows) row (one, each) h = elim (Option-cases (last_row k rows)) [
  | inr (found, there) ↦
      let is_row : some found ≡ some row = rw there at h in
      last_row-All P k rows row each (there ∙ is_row)
  | inl absent ↦ elim (Bool-cases (r.id == k)) [
    | inl same ↦
        let is_row : r ≡ row = cc (rw (absent, same) at h) in
        subst (λ o. P o × (o.id ≡ k)) is_row (one, ground arith)
    | inr other ↦ absurd (cc (rw (absent, other) at h))
  ]
]

module _ {W Doc : Type 0} (x : Errors) (values : OptionsJson Doc) (db : Driver W Doc)
    (v : Serves values db) where
  pub row_at-id : (w : W) (k : ℕ) (row : Row Doc) → v.row_at w k ≡ some row → row.id ≡ k
  row_at-id w k row h =
      let (rows, answer, there, same, kept) = Table.get_servers-listed values db v w in
      (last_row-All (λ r. v.row_at w r.id ≡ some r) k rows row there (same k ∙ h)).1

  convert_rows-All :
      (rows : List (Row Doc)) (configs : List Options)
      → convert_rows x values rows ≡ ok configs
      → All (λ (row : Row Doc). (c : Options) × (convert_to_server x values row ≡ ok c)) rows
  unfolding convert_rows
  convert_rows-All [] configs h = tt
  convert_rows-All (row ∷ rows) configs h =
      let (config, one, more) = and_then-ok _ _ h in
      let (rest, others, same) = and_then-ok _ _ more in
      (
        (config, wrap_error-ok x _ (convert_to_server x values row) one),
        convert_rows-All rows rest others,
      )

  list_servers-rows :
      (w : W)
      → (rows : List (Row Doc)) × ((Database.list_servers x values (queries db) w).0
          ≡ convert_rows x values rows)
        × All (λ (row : Row Doc). v.row_at w row.id ≡ some row) rows
        × ((k : ℕ) → last_row k rows ≡ v.row_at w k)
  unfolding Database.list_servers Database.wrap_error
  list_servers-rows w =
      let (rows, answer, there, same, kept) = Table.get_servers-listed values db v w in
      (rows, rw answer refl, there, same)

module _ {W I : Type 0} (x : Errors) (servers : ServerInstances W I) where
  started-listed :
      (answer : Result (List Options) × W) (u v : Usecases W I)
      → started x (listed x servers answer u) ≡ ok v
      → (configs : List Options) × (answer.0 ≡ ok configs)
  unfolding started listed
  started-listed (err e, w) u v h = absurd (cc)
  started-listed (ok configs, w) u v h = (configs, refl)

module _ {W I Doc : Type 0} (x : Errors) (values : OptionsJson Doc) (db : Driver W Doc)
    (v : Serves values db) (servers : ServerInstances W I)
    (keeps_rows : (config : Options) (w : W) (k : ℕ)
      → v.row_at (servers.new_instance config w).1 k ≡ v.row_at w k) where
  pub new-IsReadable :
      (w : W) (u : Usecases W I)
      → new x (Database.database x values (queries db)) servers w ≡ ok u
      → IsReadable x values db v servers keeps_rows w
  unfolding new init
  new-IsReadable w u h k row there =
      let (rows, answer, stored, same) = list_servers-rows x values db v w in
      let (configs, read) =
        started-listed x servers (Database.list_servers x values (queries db) w) _ u h in
      (last_row-All _ k rows row (convert_rows-All x values db v rows configs (sym answer ∙ read))
        (same k ∙ there)).0

  -- If the database serves its statements and a new instance leaves the table alone, `New` succeeds
  -- exactly when every row of the table can be converted.
  pub new-ok_iff :
      (w : W)
      → ((u : Usecases W I) × (new x (Database.database x values (queries db)) servers w ≡ ok u))
        ↔ IsReadable x values db v servers keeps_rows w
  new-ok_iff w = (
    λ (u, h). new-IsReadable w u h,
    λ readable.
        let (u, h, mirrors, kept) = new-Mirrors x values db v servers keeps_rows w readable in
        (u, h),
  )

  -- A registry that `New` has made mirrors the table, and the rows are as they were.
  pub new-started :
      (w : W) (u : Usecases W I)
      → new x (Database.database x values (queries db)) servers w ≡ ok u
      → Mirrors x values db v servers keeps_rows u × ((k : ℕ) → v.row_at u.world k ≡ v.row_at w k)
  new-started w u h =
      let (again, same, mirrors, rows) =
        new-Mirrors x values db v servers keeps_rows w (new-IsReadable w u h) in
      let is_u : again ≡ u = ok-injective (sym same ∙ h) in
      (
        subst (Mirrors x values db v servers keeps_rows) is_u mirrors,
        subst (λ (z : Usecases W I). (k : ℕ) → v.row_at z.world k ≡ v.row_at w k) is_u rows,
      )

  -- A registry that mirrors the table keeps every instance under the identifier of its config, which
  -- the table has.
  pub Mirrors-IsKnown :
      (Others : W → W → Type 0)
      (others_keep : (w w' : W) (k : ℕ) (row : Row Doc)
        → Others w w'
        → v.row_at w k ≡ some row
        → v.row_at w' k ≡ some row)
      (u : Usecases W I)
      → Mirrors x values db v servers keeps_rows u
      → IsKnown x
          (Database.database x values (queries db))
          servers
          Others
          (queries-Keys x values db v servers Others keeps_rows others_keep)
          u
  Mirrors-IsKnown Others others_keep u mirrors k i there =
      let at_k : config_at servers k u ≡ some (servers.config i) =
        ap (config_of servers.config) there in
      let alike : Matches x values (v.row_at u.world k) (some (servers.config i)) =
        subst (Matches x values (v.row_at u.world k)) at_k (mirrors k) in
      elim (Option-cases (v.row_at u.world k)) [
        | inl absent ↦
            absurd (subst (λ r. Matches x values r (some (servers.config i))) absent alike)
        | inr (row, stored) ↦
            let read : convert_to_server x values row ≡ ok (servers.config i) =
              subst (λ r. Matches x values r (some (servers.config i))) stored alike in
            (
              converted_id x values row (servers.config i) read
                  ∙ row_at-id x values db v u.world k row stored,
              queries-Keys-taken x values db v servers Others keeps_rows others_keep u.world k row
                  stored,
            )
      ]

  pub Mirrors-IsKeyed :
      (u : Usecases W I) → Mirrors x values db v servers keeps_rows u → IsKeyed servers u
  Mirrors-IsKeyed u mirrors k i there =
      sym (Mirrors-IsKnown (λ w w'. ⊥) (λ w w' k row o h. absurd (o)) u mirrors k i there).0
