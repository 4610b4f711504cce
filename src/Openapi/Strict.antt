-- ===== src/Openapi/Strict.antt =====
-- internal/delivery/http/openapi/openapi.gen.go: the responses, the strict handlers and the
-- wrapper of the path parameter. What a handler does to its `http.ResponseWriter` is the list of
-- the calls that it makes.
use serverpouch.Common.{
  ℕ, ℤ, format_int, Bytes, codes, List, [], ◌∷◌, ◌++◌, Option, none, some, Result, ok, err,
}
use serverpouch.Openapi.Union.{Server}

-- What is encoded to the body: `ServerResponse` or `ServersResponse`.
pub data Body (Doc : Type 0) : Type 0 where
  server_response : Server Doc → Body Doc
  servers_response : List (Server Doc) → Body Doc

-- `w.Header().Set`, `w.WriteHeader`, `json.NewEncoder(w).Encode` and `http.Error`.
pub data Call (Doc : Type 0) : Type 0 where
  set_header : (key value : Bytes) → Call Doc
  write_header : ℕ → Call Doc
  encode : Body Doc → Call Doc
  http_error : Bytes → ℕ → Call Doc

pub data ListServersResponse (Doc : Type 0) : Type 0 where
  list_servers_200 : List (Server Doc) → ListServersResponse Doc
  list_servers_500 : ListServersResponse Doc

pub data CreateServerResponse (Doc : Type 0) : Type 0 where
  create_server_201 : Server Doc → CreateServerResponse Doc
  create_server_400 create_server_500 : CreateServerResponse Doc

pub data GetServerResponse (Doc : Type 0) : Type 0 where
  get_server_200 : Server Doc → GetServerResponse Doc
  get_server_404 get_server_500 : GetServerResponse Doc

-- The errors of the generated code about parameters; an error inside is its text.
pub data ParamError : Type 0 where
  unescaped_cookie unmarshaling required_header invalid_format : (name e : Bytes) → ParamError
  required : (name : Bytes) → ParamError
  too_many_values : (name : Bytes) (count : ℤ) → ParamError

-- `InvalidParamFormatError.Error`
unfoldable pub invalid_param : (name e : Bytes) → Bytes
invalid_param name e = codes "Invalid format for parameter " ++ (name ++ (codes ": " ++ e))

-- Their methods `Error`.
unfoldable pub param_error : ParamError → Bytes
unfolding format_int invalid_param
param_error (unescaped_cookie name e) =
    codes "error unescaping cookie parameter '" ++ (name ++ codes "'")
param_error (unmarshaling name e) =
    codes "Error unmarshaling parameter " ++ (name ++ (codes " as JSON: " ++ e))
param_error (required_header name e) =
    codes "Header parameter " ++ (name ++ codes " is required, but not found")
param_error (invalid_format name e) = invalid_param name e
param_error (required name) =
    codes "Query argument " ++ (name ++ codes " is required, but not found")
param_error (too_many_values name count) =
    codes "Expected one value for " ++ (name ++ (codes ", got " ++ format_int count))

-- Their methods `Unwrap`, of those that have one.
unfoldable pub unwrap : ParamError → Option Bytes
unwrap (unescaped_cookie name e) = some e
unwrap (unmarshaling name e) = some e
unwrap (required_header name e) = some e
unwrap (invalid_format name e) = some e
unwrap (required name) = none
unwrap (too_many_values name count) = none

-- The shape of a JSON response.
abbrev pub json_calls : {Doc : Type 0} → ℕ → Body Doc → List (Call Doc)
json_calls status body =
    set_header (codes "Content-Type") (codes "application/json")
    ∷ write_header status
    ∷ encode body
    ∷ []

-- The `Visit` methods: the calls and the error that is returned. `encoded` is the error of
-- encoding a body to the writer.
module _ {Doc : Type 0} (encoded : Body Doc → Option Bytes) where
  unfoldable pub visit_list_servers : ListServersResponse Doc → List (Call Doc) × Option Bytes
  visit_list_servers (list_servers_200 servers) =
      (json_calls 200 (servers_response servers), encoded (servers_response servers))
  visit_list_servers list_servers_500 = (write_header 500 ∷ [], none)

  unfoldable pub visit_create_server : CreateServerResponse Doc → List (Call Doc) × Option Bytes
  visit_create_server (create_server_201 server) =
      (json_calls 201 (server_response server), encoded (server_response server))
  visit_create_server create_server_400 = (write_header 400 ∷ [], none)
  visit_create_server create_server_500 = (write_header 500 ∷ [], none)

  unfoldable pub visit_get_server : GetServerResponse Doc → List (Call Doc) × Option Bytes
  visit_get_server (get_server_200 server) =
      (json_calls 200 (server_response server), encoded (server_response server))
  visit_get_server get_server_404 = (write_header 404 ∷ [], none)
  visit_get_server get_server_500 = (write_header 500 ∷ [], none)

module _ {Doc : Type 0} where
  -- The handlers of `Unimplemented`, which all do this.
  unfoldable pub unimplemented : List (Call Doc)
  unimplemented = write_header 501 ∷ []

  -- `RequestErrorHandlerFunc` and `ResponseErrorHandlerFunc` of `NewStrictHandler`.
  unfoldable pub request_error : Bytes → List (Call Doc)
  request_error e = http_error e 400 ∷ []

  unfoldable pub response_error : Bytes → List (Call Doc)
  response_error e = http_error e 500 ∷ []

  -- After a visit: its error is reported on the same writer.
  unfoldable pub visited : List (Call Doc) × Option Bytes → List (Call Doc)
  unfolding response_error
  visited (calls, none) = calls
  visited (calls, some e) = calls ++ response_error e

module _ {Doc R : Type 0} (visit : R → List (Call Doc) × Option Bytes) where
  -- The end of each strict handler: what it does with the answer of the implementation.
  unfoldable pub respond : Result R → List (Call Doc)
  unfolding visited
  respond (err e) = response_error e
  respond (ok response) = visited (visit response)
