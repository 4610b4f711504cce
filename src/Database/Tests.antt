-- ===== src/Database/Tests.antt =====
-- The theorems about the database at a table of one kind of documents, the options themselves.
use serverpouch.Common.{
  ℕ, codes, List, [], ◌∷◌, none, some, Result, ok, err, ◌≡◌, refl, sym, ap, subst, ok-injective,
  prefixing, if◌then◌else◌, ◌==◌, nat_eq,
}
use serverpouch.Docker.Config.{Options, id, type}
use serverpouch.Database.{Row, Queries, OptionsJson, get_server, list_servers, create_server}
use serverpouch.Database.Stored.{SameOptions, IsFaithful, Keeps, create_server-stored}

abbrev plain : OptionsJson Options
plain = record { marshal = λ o. ok o; unmarshal = λ d. ok d }

-- The row with this identifier.
abbrev row_of : ℕ → List (Row Options) → Result (Row Options)
row_of k [] = err (codes "no rows in result set")
row_of k (row ∷ rows) = if row.id == k then ok row else row_of k rows

-- A table that gives every row the identifier 7 and keeps the newest first.
abbrev table : Queries (List (Row Options)) Options
table = record {
  get_server = λ k w. (row_of k w, w);
  get_servers = λ w. (ok w, w);
  update_server = λ k d w. (err (codes "no rows in result set"), w);
  create_server = λ t d w.
      (ok (record { id = 7; type = t; config = d }), record { id = 7; type = t; config = d } ∷ w);
}

abbrev options : Options
options = record {
  instance_id = 0;
  image = codes "test";
  volumes = none;
  ports = some [];
  env = some (codes "PORT=8080" ∷ []);
}

abbrev stored_options : Options
stored_options = record options { instance_id = 7 }

abbrev row : Row Options
row = record { id = 7; type = codes "docker"; config = options }

plain-IsFaithful : IsFaithful plain options
unfolding IsFaithful
plain-IsFaithful d written = (
  options,
  sym written,
  record { image_same = refl; env_same = refl; ports_same = λ k. refl; volumes_same = λ k. refl },
)

table-Keeps : Keeps plain table
unfolding Keeps
table-Keeps t d w after r answer =
    let added : Row Options = record { id = 7; type = t; config = d } in
    let is_r : added ≡ r = ok-injective (ap (λ p. p.0) answer) in
    let left : added ∷ w ≡ after = ap (λ p. p.1) answer in
    (
      ap (λ s. s.type) (sym is_r),
      ap (λ s. ok s.config) (sym is_r),
      subst (λ s. row_of s.id after ≡ ok s) is_r (subst (λ v. row_of 7 v ≡ ok added) left refl),
    )

row_created : create_server prefixing plain table options [] ≡ (ok stored_options, row ∷ [])
unfolding create_server type
row_created = refl

create_server-stored_example :
    SameOptions stored_options options
    × ((get_server prefixing plain table 7 (row ∷ [])).0 ≡ ok stored_options)
unfolding id
create_server-stored_example =
    create_server-stored prefixing plain table options stored_options [] (row ∷ []) plain-IsFaithful
      table-Keeps row_created

rows_listed : list_servers prefixing plain table (row ∷ []) ≡ (ok (stored_options ∷ []), row ∷ [])
unfolding list_servers
rows_listed = refl
