-- ===== src/Usecases/Concurrent/Samples.antt =====
-- A database that numbers its rows; an instance is its options.
use serverpouch.Common.{
  ℕ, suc, codes, ltb, [], none, ok, ◌≡◌, refl, ap, ok-injective, arith, nat_eq,
}
use serverpouch.Server.{initializing}
use serverpouch.Docker.Config.{Options, id}
use serverpouch.Usecases.{Usecases}
use serverpouch.Usecases.Interfaces.{Database, ServerInstances}
use serverpouch.Usecases.Concurrent.{Keys}

abbrev pub rows : Database ℕ
rows = record {
  list_servers = λ n. (ok [], n);
  create_server = λ c n. (ok (record c { instance_id = n }), suc n);
}

abbrev pub instances : ServerInstances ℕ Options
instances = record {
  new_instance = λ c n. (c, n);
  config = λ i. i;
  status = λ i n. initializing;
  config-new_instance = λ c n. refl;
}

abbrev pub Nothing : ℕ → ℕ → Type 0
Nothing n m = ⊥

pub numbers : Keys rows instances Nothing
unfolding id
numbers = record {
  taken = λ n k. ltb k n;
  create_new = λ config stored n after h.
      let named : n ≡ id stored = ap id (ok-injective (ap (λ p. p.0) h)) in
      let left : suc n ≡ after = ap (λ p. p.1) h in (ground arith, ground arith);
  create_keeps = λ config n k h. ground arith;
  instance_keeps = λ config n k h. h;
  others_keep = λ n m k o h. absurd (o);
}

abbrev pub red : Options
red = record { instance_id = 0; image = codes "red"; volumes = none; ports = none; env = none }

abbrev pub blue : Options
blue = record red { image = codes "blue" }

abbrev pub empty : Usecases ℕ Options
empty = record { world = 0; instances = [] }
