-- ===== src/Schema/Memory.antt =====
-- A database that serves the statements of internal/infrastructure/database/schema/servers.sql.go: a
-- table in memory, that is the rows and the next key. Documents are the options themselves.
use serverpouch.Common.{
  map, All, ltb, ℕ, zero, suc, ◌≤◌, ◌<◌, ◌==◌, nat_eq, if◌then◌else◌, ap, subst, ok-injective, sym,
  put, Bytes, codes, List, [], ◌∷◌, Option, none, some, Result, ok, err, ◌≡◌, refl, text_eq, arith,
}
use serverpouch.Docker.Config.{Options}
use serverpouch.Database.{Row, OptionsJson}
use serverpouch.Schema.{Arg, uuid_arg, text_arg, bytes_arg, Column, Driver}
use serverpouch.Schema.Serves.{Timed, timed_columns, last_row, columns, Serves}

-- The rows below the next key; the key of a row is its place.
pub record Table : Type 0 where
  pub rows : ℕ → Option (Row Options)
  pub next : ℕ

abbrev keyed : ℕ → Option (Row Options) → Option (Row Options)
keyed k none = none
keyed k (some row) = some (record row { id = k })

abbrev pub row_at : Table → ℕ → Option (Row Options)
row_at w k = if ltb k w.next then keyed k (w.rows k) else none

abbrev shown : Option (Row Options) → Result (List (Column Options))
shown none = err (codes "no rows in result set")
shown (some row) = ok (columns row [] [])

abbrev add_row : ℕ → Option (Row Options) → List (Timed Options) → List (Timed Options)
add_row k none listed = listed
add_row k (some row) listed = (record row { id = k }, [], []) ∷ listed

-- The rows below a key, the newest first.
abbrev collect : (ℕ → Option (Row Options)) → ℕ → List (Timed Options)
collect rows zero = []
collect rows (suc n) = add_row n (rows n) (collect rows n)

-- `INSERT`
abbrev insert_row : Bytes → Options → Table → Result (List (Column Options)) × Table
insert_row t d w =
    let row : Row Options = record { id = w.next; type = t; config = d } in
    (ok (columns row [] []), record { rows = put w.rows w.next (some row); next = suc w.next })

-- `UPDATE`, with the row that has the key.
abbrev update_row :
    Option (Row Options) → ℕ → Options → Table → Result (List (Column Options)) × Table
update_row none k d w = (err (codes "no rows in result set"), w)
update_row (some old) k d w =
    let row : Row Options = record { id = k; type = old.type; config = d } in
    (ok (columns row [] []), record w { rows = put w.rows k (some row) })

-- The statements by their arguments.
abbrev execute : List (Arg Options) → Table → Result (List (Column Options)) × Table
execute (text_arg t ∷ bytes_arg d ∷ []) w = insert_row t d w
execute (uuid_arg k ∷ bytes_arg d ∷ []) w = update_row (row_at w k) k d w
execute (uuid_arg k ∷ []) w = (shown (row_at w k), w)
execute _ w = (err (codes "syntax error"), w)

abbrev pub memory : Driver Table Options
memory = record {
  query_row = λ sql args w. execute args w;
  query = λ sql args w.
      (ok (record { read = map timed_columns (collect w.rows w.next); failed = none }), w);
  mismatch = codes "cannot scan";
}

abbrev pub plain : OptionsJson Options
plain = record { marshal = λ o. ok o; unmarshal = λ d. ok d }

inserted :
    (t : Bytes) (d : Options) (w after : Table) (cs : List (Column Options))
    → insert_row t d w ≡ (ok cs, after)
    → (row : Row Options) × (created : Bytes) × (updated : Bytes) × (cs
        ≡ columns row created updated)
      × (row.type ≡ t)
      × (◌≡◌ {A = Result Options} (ok row.config) (ok d))
      × (row_at w row.id ≡ none)
      × ((j : ℕ) → row_at after j ≡ (if row.id == j then some row else row_at w j))
inserted t d w after cs h =
    let row : Row Options = record { id = w.next; type = t; config = d } in
    let left : record { rows = put w.rows w.next (some row); next = suc w.next } ≡ after =
      ap (λ p. p.1) h in
    (
      row,
      [],
      [],
      ok-injective (sym (ap (λ p. p.0) h)),
      refl,
      refl,
      ground arith,
      λ j.
          subst (λ z. row_at z j ≡ (if w.next == j then some row else row_at w j)) left
            (ground arith),
    )

updated_row :
    (o : Option (Row Options)) (k : ℕ) (d : Options) (w after : Table) (cs : List (Column Options))
    → row_at w k ≡ o
    → update_row o k d w ≡ (ok cs, after)
    → (row : Row Options) × (old : Row Options) × (created : Bytes) × (updated : Bytes) × (cs
        ≡ columns row created updated)
      × (row_at w k ≡ some old)
      × (row.id ≡ k)
      × (row.type ≡ old.type)
      × (◌≡◌ {A = Result Options} (ok row.config) (ok d))
      × ((j : ℕ) → row_at after j ≡ (if k == j then some row else row_at w j))
updated_row none k d w after cs e h = absurd (cc)
updated_row (some old) k d w after cs e h =
    let row : Row Options = record { id = k; type = old.type; config = d } in
    let left : record w { rows = put w.rows k (some row) } ≡ after = ap (λ p. p.1) h in
    (
      row,
      old,
      [],
      [],
      ok-injective (sym (ap (λ p. p.0) h)),
      e,
      refl,
      refl,
      refl,
      λ j. subst (λ z. row_at z j ≡ (if k == j then some row else row_at w j)) left (ground arith),
    )

last_row-collect :
    (rows : ℕ → Option (Row Options)) (n k : ℕ)
    → last_row k (map (λ (t : Timed Options). t.0) (collect rows n))
      ≡ (if ltb k n then keyed k (rows k) else none)
last_row-collect rows zero k = ground arith
last_row-collect rows (suc n) k = ground (arith, last_row-collect rows n k)

abbrev AreStored : Table → List (Timed Options) → Type 0
AreStored w listed = All (λ (t : Timed Options). row_at w t.0.id ≡ some t.0) listed

add_row-AreStored :
    (w : Table) (k : ℕ) (o : Option (Row Options)) (listed : List (Timed Options))
    → w.rows k ≡ o
    → k < w.next
    → AreStored w listed
    → AreStored w (add_row k o listed)
add_row-AreStored w k none listed e below h = h
add_row-AreStored w k (some row) listed e below h = (ground arith, h)

collect-AreStored : (w : Table) (n : ℕ) → n ≤ w.next → AreStored w (collect w.rows n)
collect-AreStored w zero h = tt
collect-AreStored w (suc n) h =
    add_row-AreStored w n (w.rows n) (collect w.rows n) refl (omega arith)
      (collect-AreStored w n (omega arith))

pub served : Serves plain memory
served = record {
  row_at = row_at;
  no_rows = codes "no rows in result set";
  selects = λ k w h. ap shown h;
  selects_row = λ k w row h. ([], [], ap shown h);
  lists = λ w. (
    collect w.rows w.next,
    refl,
    collect-AreStored w w.next (omega arith),
    λ k. last_row-collect w.rows w.next k,
    λ k. refl,
  );
  inserts = inserted;
  inserts_keep = λ t d w k row h. ground arith;
  updates = λ k d w after cs h. updated_row (row_at w k) k d w after cs refl h;
}

pub row_at-served : (w : Table) (k : ℕ) → served.row_at w k ≡ row_at w k
unfolding served
row_at-served w k = refl
