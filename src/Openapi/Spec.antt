-- ===== src/Openapi/Spec.antt =====
-- internal/delivery/http/openapi/openapi.gen.go: the embedded specification, over the libraries that
-- decode it. What is embedded is an argument.
use serverpouch.Common.{
  Bytes, codes, List, [], ◌∷◌, ◌++◌, none, some, Result, ok, err, ◌>>=◌, occupied, if◌then◌else◌,
  lookup, text_eq,
}

-- `base64.StdEncoding.DecodeString`, `gzip.NewReader`, `buf.ReadFrom`, `path.Clean`, and
-- `LoadFromData` of a loader whose `ReadFromURIFunc` is the first argument.
pub record Loader (Zip Swagger : Type 0) : Type 0 where
  pub decode_string : Bytes → Result Bytes
  pub new_reader : Bytes → Result Zip
  pub read_from : Zip → Result Bytes
  pub clean : Bytes → Bytes
  pub load_from_data : (Bytes → Result Bytes) → Bytes → Result Swagger

-- `fmt.Errorf` with a text in front of the error.
abbrev pub prefixed {ℓ} : {A : Type ℓ} → Bytes → Result A → Result A
prefixed text (err e) = err (text ++ e)
prefixed text (ok a) = ok a

-- `strings.Join(parts, "")`
abbrev pub join : List Bytes → Bytes
join [] = []
join (part ∷ parts) = part ++ join parts

module _ {Zip Swagger : Type 0} (loader : Loader Zip Swagger) where
  -- `decodeSpec`
  unfoldable pub decode_spec : List Bytes → Result Bytes
  decode_spec swagger_spec = do
    zipped ←
        prefixed (codes "error base64 decoding spec: ") (loader.decode_string (join swagger_spec))
    reader ← prefixed (codes "error decompressing spec: ") (loader.new_reader zipped)
    prefixed (codes "error decompressing spec: ") (loader.read_from reader)

  -- `PathToRawSpec`, with what `rawSpec()` gives.
  unfoldable pub path_to_raw_spec : Result Bytes → Bytes → List (Bytes × Result Bytes)
  path_to_raw_spec raw path_to_file = if occupied path_to_file then (path_to_file, raw) ∷ [] else []

  -- `loader.ReadFromURIFunc`
  unfoldable pub read_from_uri : List (Bytes × Result Bytes) → Bytes → Result Bytes
  read_from_uri resolve_path url = elim (lookup (loader.clean url) resolve_path) [
    | none ↦ err (codes "path not found: " ++ loader.clean url)
    | some spec ↦ spec
  ]

  -- `GetSwagger`
  unfoldable pub get_swagger : Result Bytes → Result Swagger
  unfolding path_to_raw_spec read_from_uri
  get_swagger raw = do
    spec_data ← raw
    loader.load_from_data (read_from_uri (path_to_raw_spec raw [])) spec_data
