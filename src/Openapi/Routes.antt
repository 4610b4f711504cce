-- ===== src/Openapi/Routes.antt =====
-- internal/delivery/http/openapi/openapi.gen.go: the routes of `HandlerWithOptions`, over the router
-- of github.com/go-chi/chi.
pub mod FirstFit
pub mod Reached
use serverpouch.Common.{
  Bytes, codes, Bool, not, ◌&&◌, ◌||◌, List, [], ◌∷◌, ◌++◌, Option, none, some, ◌≡◌, true, false,
  every, occupied, Any, if◌then◌else◌, ◌==◌, nat_eq, text_eq, lookup, ℕ,
}

-- `wrapper.ListServers`, `wrapper.CreateServer` and `wrapper.GetServer`.
pub data Operation : Type 0 where
  to_list_servers to_create_server to_get_server : Operation

pub record Route : Type 0 where
  pub method : Bytes
  pub pattern : Bytes
  pub operation : Operation

-- The calls of `r.Get` and `r.Post`, in their order, where `BaseURL` is `base`.
unfoldable pub handler_with_options : (base : Bytes) → List Route
handler_with_options base =
    record {
      method = codes "GET";
      pattern = base ++ codes "/api/servers";
      operation = to_list_servers;
    }
    ∷ record {
      method = codes "POST";
      pattern = base ++ codes "/api/servers";
      operation = to_create_server;
    }
    ∷ record {
      method = codes "GET";
      pattern = base ++ codes "/api/servers/{id}";
      operation = to_get_server;
    }
    ∷ []

-- `HandlerFromMux`
unfoldable pub handler_from_mux : List Route
unfolding handler_with_options
handler_from_mux = handler_with_options []

-- `Handler` on a new router, and `HandlerFromMuxWithBaseURL`.
unfoldable pub handler : List Route
unfolding handler_with_options
handler = handler_with_options []

unfoldable pub handler_from_mux_with_base_url : (base : Bytes) → List Route
unfolding handler_with_options
handler_from_mux_with_base_url base = handler_with_options base

-- The handler that a router finds, with the parameters of the path.
pub data Found : Type 0 where
  matched : Operation → List (Bytes × Bytes) → Found
  not_found not_allowed : Found

-- A byte that stands for itself in a pattern.
abbrev pub is_plain : ℕ → Bool
is_plain c = not (c == b'{') && not (c == b'*')

abbrev pub not_slash : ℕ → Bool
not_slash c = not (c == b'/')

-- A byte of the name of a placeholder.
abbrev pub is_name : ℕ → Bool
is_name c = not (c == b'}') && (not (c == b'{') && not (c == b':'))

-- What chi documents: a pattern without placeholders fits itself only, and a placeholder at the end
-- of a pattern fits a nonempty text without a slash. A handler is found if its route has the method
-- of the request and a pattern that the path fits, and only then. `url_param` is `chi.URLParam`.
pub record Router : Type 0 where
  pub fits : (pattern path : Bytes) → Option (List (Bytes × Bytes))
  pub find : List Route → (method path : Bytes) → Found
  pub fits_plain :
      (pattern path : Bytes)
      → every is_plain pattern ≡ true
      → fits pattern path ≡ (if pattern == path then some [] else none)
  pub fits_placeholder :
      (start name segment : Bytes)
      → every is_plain start ≡ true
      → every is_name name ≡ true
      → occupied segment ≡ true
      → every not_slash segment ≡ true
      → fits (start ++ b'{' ∷ (name ++ b'}' ∷ [])) (start ++ segment) ≡ some ((name, segment) ∷ [])
  pub url_param : Bytes → List (Bytes × Bytes) → Bytes
  pub url_param_named : (name segment : Bytes) → url_param name ((name, segment) ∷ []) ≡ segment
  pub find_sound :
      (routes : List Route) (method path : Bytes) (op : Operation) (params : List (Bytes × Bytes))
      → find routes method path ≡ matched op params
      → Any
          (λ (r : Route).
            (r.method ≡ method) × (fits r.pattern path ≡ some params) × (r.operation ≡ op))
          routes
  pub find_complete :
      (routes : List Route) (method path : Bytes)
      → Any
          (λ (r : Route).
            (r.method ≡ method)
            × (params : List (Bytes × Bytes)) × (fits r.pattern path ≡ some params))
          routes
      → (op : Operation) × (params : List (Bytes × Bytes)) × (find routes method path
          ≡ matched op params)
