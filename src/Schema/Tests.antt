-- ===== src/Schema/Tests.antt =====
-- The queries at a table in memory.
use serverpouch.Common.{
  ℕ, nat_eq, sym, put, codes, none, some, ok, ◌≡◌, ◌≢◌, refl, text_eq, prefixing,
}
use serverpouch.Docker.Config.{Options, id}
use serverpouch.Database.{Row, OptionsJson}
use serverpouch.Database
use serverpouch.Database.Stored.{SameOptions, IsFaithful}
use serverpouch.Schema.{update_server, queries}
use serverpouch.Schema.Updates.{update_server-get_server}
use serverpouch.Schema.Memory.{Table, memory, plain, served}

abbrev old_options : Options
old_options = record {
  instance_id = 3;
  image = codes "old";
  volumes = none;
  ports = none;
  env = none;
}

abbrev new_options : Options
new_options = record old_options { image = codes "new" }

abbrev before : Table
before = record {
  rows = put (λ _. none) 3 (some (record { id = 3; type = codes "docker"; config = old_options }));
  next = 4;
}

abbrev after : Table
after = record before {
  rows = put before.rows 3 (some (record { id = 3; type = codes "docker"; config = new_options }));
}

plain-IsFaithful : IsFaithful plain new_options
unfolding IsFaithful
plain-IsFaithful d written = (
  new_options,
  sym written,
  record { image_same = refl; env_same = refl; ports_same = λ k. refl; volumes_same = λ k. refl },
)

row_updated :
    Database.update_server prefixing plain (queries memory) 3 new_options before
    ≡ (ok new_options, after)
unfolding Database.update_server update_server
row_updated = refl

update_server-get_server_example :
    (id new_options ≡ 3)
    × SameOptions new_options new_options
    × ((Database.get_server prefixing plain (queries memory) 3 after).0 ≡ ok new_options)
    × ((j : ℕ)
        → j ≢ 3
        → (Database.get_server prefixing plain (queries memory) j after).0
          ≡ (Database.get_server prefixing plain (queries memory) j before).0)
update_server-get_server_example =
    update_server-get_server prefixing plain memory served 3 new_options new_options before after
      plain-IsFaithful row_updated
