-- ===== src/Http/Mux/New.antt =====
-- internal/delivery/http/http.go, `New`, with the embedded specification of openapi.gen.go.
use serverpouch.Common.{
  Bytes, codes, List, ◌++◌, Result, ok, err, Errors, and_then-ok, ok-injective, ◌≡◌, ◌↔◌, refl, ap,
}
use serverpouch.Openapi.Spec.{Loader, decode_spec, get_swagger, path_to_raw_spec, read_from_uri}
use serverpouch.Http.Mux.{new_mux, new_handler}

module _ {Zip Swagger Mux : Type 0} (x : Errors) (loader : Loader Zip Swagger)
    (make : Swagger → Mux) (swagger_spec : List Bytes) where
  new_handler_ok :
      (swagger : Result Swagger) (mux : Mux)
      → new_handler x (new_mux x make swagger) ≡ ok mux
      → (s : Swagger) × (swagger ≡ ok s) × (make s ≡ mux)
  unfolding new_handler new_mux
  new_handler_ok (err e) mux h = absurd (cc)
  new_handler_ok (ok s) mux h = (s, refl, ok-injective h)

  -- `New` gives a router exactly if the embedded specification is decoded, and loaded by a loader
  -- that finds no other file; the router is then made of what was loaded.
  pub new_handler-ok_iff :
      (mux : Mux)
      → (new_handler x (new_mux x make (get_swagger loader (decode_spec loader swagger_spec)))
          ≡ ok mux)
        ↔ ((spec_data : Bytes) × (swagger : Swagger) × (decode_spec loader swagger_spec
              ≡ ok spec_data)
            × (loader.load_from_data
                  (λ url. err (codes "path not found: " ++ loader.clean url))
                  spec_data
                ≡ ok swagger)
            × (make swagger ≡ mux))
  unfolding new_handler new_mux get_swagger path_to_raw_spec read_from_uri
  new_handler-ok_iff mux = (
    λ h.
        let (swagger, loaded, made) =
          new_handler_ok (get_swagger loader (decode_spec loader swagger_spec)) mux h in
        let (spec_data, decoded, read) = and_then-ok (decode_spec loader swagger_spec) _ loaded in
        (spec_data, swagger, decoded, read, made),
    λ (spec_data, swagger, decoded, read, made). rw (decoded, read) (ap ok made),
  )
