-- ===== src/Database/Stored.antt =====
-- internal/infrastructure/database/servers.go: what is stored is what is read again.
use serverpouch.Common.{
  pair_path, ℕ, ℤ, Bytes, List, [], ◌∷◌, map, Result, ok, err, inl, inr, ok-injective, and_then-ok,
  Errors, ◌≡◌, refl, sym, ap, ◌∙◌, subst, lookup, int_eq, text_eq, Bool-cases, ◌==◌, eq_true,
}
use serverpouch.Server.{docker_type}
use serverpouch.Docker.Config.{Options, entries, id, type}
use serverpouch.Database.{
  Row, Queries, OptionsJson, wrap_error, to_json, docker_options, convert_to_server, convert_rows,
  get_server, list_servers, store, create_server,
}

-- The same options up to the identifier and the order of the maps.
pub record SameOptions (a b : Options) : Type 0 where
  pub image_same : a.image ≡ b.image
  pub env_same : a.env ≡ b.env
  pub ports_same : (k : ℤ) → lookup k (entries a.ports) ≡ lookup k (entries b.ports)
  pub volumes_same : (k : Bytes) → lookup k (entries a.volumes) ≡ lookup k (entries b.volumes)

-- encoding/json reads options back that it has written, up to the order of the maps.
unfoldable pub IsFaithful : {Doc : Type 0} → OptionsJson Doc → Options → Type 0
IsFaithful {Doc} json config =
    (d : Doc)
    → json.marshal config ≡ ok d
    → (back : Options) × (json.unmarshal d ≡ ok back) × SameOptions back config

-- The table keeps a row that it inserts: the columns are the values, where the document may be
-- written in another way that the decoder reads alike, and the row is found under its identifier.
unfoldable pub Keeps : {W Doc : Type 0} → OptionsJson Doc → Queries W Doc → Type 0
Keeps {W} {Doc} json queries =
    (t : Bytes) (d : Doc) (w after : W) (row : Row Doc)
    → queries.create_server t d w ≡ (ok row, after)
    → (row.type ≡ t)
      × (json.unmarshal row.config ≡ json.unmarshal d)
      × ((queries.get_server row.id after).0 ≡ ok row)

-- The identifier is not compared.
pub renamed :
    (o config : Options) (k : ℕ)
    → SameOptions o config
    → SameOptions (record o { instance_id = k }) config
renamed o config k h = record {
  image_same = h.image_same;
  env_same = h.env_same;
  ports_same = h.ports_same;
  volumes_same = h.volumes_same;
}

pub wrap_error-ok {ℓ} :
    {A : Type ℓ} (x : Errors) (message : Bytes) (r : Result A) {a : A}
    → wrap_error x message r ≡ ok a
    → r ≡ ok a
unfolding wrap_error
wrap_error-ok x message (ok b) h = h
wrap_error-ok x message (err e) h = absurd (cc)

module _ {Doc : Type 0} (x : Errors) (json : OptionsJson Doc) where
  -- A row that is converted is the options of its document, under its identifier.
  pub converted :
      (row : Row Doc) (config : Options)
      → convert_to_server x json row ≡ ok config
      → (o : Options) × (json.unmarshal row.config ≡ ok o)
        × (record o { instance_id = row.id } ≡ config)
  unfolding convert_to_server docker_options
  converted row config h = elim (Bool-cases (row.type == docker_type)) [
    | inr other ↦
        absurd (let bad : err _ ≡ ok config = rw (convert_to_server, other) at h in cc bad)
    | inl is_docker ↦
        let (o, read, same) =
          and_then-ok _ _ (rw (convert_to_server, is_docker, docker_options) at h) in
        (o, wrap_error-ok x _ (json.unmarshal row.config) read, ok-injective same)
  ]

  pub converted_id :
      (row : Row Doc) (config : Options)
      → convert_to_server x json row ≡ ok config
      → id config ≡ row.id
  unfolding id
  converted_id row config h =
      let (o, read, same) = converted row config h in ap (λ c. id c) (sym same)

  convert_rows_ids :
      (rows : List (Row Doc)) (configs : List Options)
      → convert_rows x json rows ≡ ok configs
      → map id configs ≡ map (λ row. row.id) rows
  unfolding convert_rows
  convert_rows_ids [] configs h = ap (map id) (sym (ok-injective h))
  convert_rows_ids (row ∷ rows) configs h =
      let (config, one, more) = and_then-ok _ _ h in
      let (rest, others, same) = and_then-ok _ _ more in
      let named = converted_id row config (wrap_error-ok x _ (convert_to_server x json row) one) in
      let all_named = convert_rows_ids rows rest others in
      ap (map id) (sym (ok-injective same)) ∙ cc (named, all_named)

module _ {W Doc : Type 0} (x : Errors) (json : OptionsJson Doc) (queries : Queries W Doc) where
  -- When `ListServers` succeeds, the identifiers of its configs are those of the rows that the query
  -- answers, in their order.
  pub list_servers_ids :
      (w after : W) (configs : List Options)
      → list_servers x json queries w ≡ (ok configs, after)
      → (rows : List (Row Doc)) × (queries.get_servers w ≡ (ok rows, after))
        × (map id configs ≡ map (λ row. row.id) rows)
  unfolding list_servers
  list_servers_ids w after configs h =
      let (rows, answered, read) = and_then-ok _ _ (ap (λ p. p.0) h) in
      let answer = wrap_error-ok x _ (queries.get_servers w).0 answered in
      let left : (queries.get_servers w).1 ≡ after = ap (λ p. p.1) h in
      (rows, pair_path answer left, convert_rows_ids x json rows configs read)

  pub store_ok :
      (message : Bytes) (query : Doc → W → Result (Row Doc) × W) (doc : Result Doc)
      (stored : Options) (w after : W)
      → store x json queries message query doc w ≡ (ok stored, after)
      → (d : Doc) × (row : Row Doc) × (doc ≡ ok d)
        × (query d w ≡ (ok row, after))
        × (convert_to_server x json row ≡ ok stored)
  unfolding store
  store_ok message query (err e) stored w after h = absurd (cc)
  store_ok message query (ok d) stored w after h =
      let (row, answered, read) = and_then-ok _ _ (ap (λ p. p.0) h) in
      let answer = wrap_error-ok x _ (query d w).0 answered in
      let left : (query d w).1 ≡ after = ap (λ p. p.1) h in
      (d, row, refl, pair_path answer left, read)

  pub get_server-found :
      (row : Row Doc) (stored : Options) (after : W)
      → (queries.get_server row.id after).0 ≡ ok row
      → convert_to_server x json row ≡ ok stored
      → (get_server x json queries row.id after).0 ≡ ok stored
  unfolding get_server wrap_error
  get_server-found row stored after kept read = rw (get_server, kept) read

  -- If the decoder reads the written config back and the table keeps what it inserts, then a config
  -- that `CreateServer` answers has the image, environment, ports and volumes of the one that was
  -- given, and `GetServer` finds the answered config under its identifier.
  pub create_server-stored :
      (config stored : Options) (w after : W)
      → IsFaithful json config
      → Keeps json queries
      → create_server x json queries config w ≡ (ok stored, after)
      → SameOptions stored config × ((get_server x json queries (id stored) after).0 ≡ ok stored)
  unfolding create_server to_json Keeps IsFaithful
  create_server-stored config stored w after faithful keeps h =
      let (d, row, written, answer, read) =
        store_ok _ (queries.create_server (type config)) (to_json x json config) stored w after h in
      let (o, decoded, same) = converted x json row stored read in
      let (typed, alike, found) = keeps (type config) d w after row answer in
      let (back, back_read, kept) = faithful d (wrap_error-ok x _ (json.marshal config) written) in
      let is_back : back ≡ o = ok-injective (sym back_read ∙ (sym alike ∙ decoded)) in
      (
        subst (λ c. SameOptions c config) same
            (renamed o config row.id (subst (λ c. SameOptions c config) is_back kept)),
        rw (converted_id x json row stored read) (get_server-found row stored after found read),
      )

  convert_to_server-found :
      (row : Row Doc) (o : Options)
      → row.type ≡ docker_type
      → json.unmarshal row.config ≡ ok o
      → convert_to_server x json row ≡ ok (record o { instance_id = row.id })
  unfolding convert_to_server docker_options wrap_error
  convert_to_server-found row o typed read =
      rw (convert_to_server, eq_true typed, docker_options, read) refl

  -- If the decoder reads the written config back and the table keeps what it inserts, then
  -- `CreateServer` succeeds whenever the encoder and the insertion do, and its answer has the
  -- identifier of the row.
  pub create_server-succeeds :
      (config : Options) (d : Doc) (row : Row Doc) (w after : W)
      → IsFaithful json config
      → Keeps json queries
      → json.marshal config ≡ ok d
      → queries.create_server (type config) d w ≡ (ok row, after)
      → (stored : Options) × (create_server x json queries config w ≡ (ok stored, after))
        × (id stored ≡ row.id)
  unfolding create_server store to_json wrap_error Keeps IsFaithful type id
  create_server-succeeds config d row w after faithful keeps written answer =
      let (typed, alike, found) = keeps (type config) d w after row answer in
      let (back, back_read, kept) = faithful d written in
      let read = convert_to_server-found row back typed (alike ∙ back_read) in
      (
        record back { instance_id = row.id },
        rw (create_server, to_json, written, answer, read) refl,
        refl,
      )
