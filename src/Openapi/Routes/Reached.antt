-- ===== src/Openapi/Routes/Reached.antt =====
-- internal/delivery/http/openapi/openapi.gen.go: which handler is found for a method and a path.
use serverpouch.Common.{
  Bytes, codes, List, [], ◌∷◌, ◌++◌, Option, none, some, ◌≡◌, refl, sym, ◌∙◌, arith, inl, inr,
  every, occupied, true, if◌then◌else◌, ◌==◌, text_eq, same_iff,
}
use serverpouch.Openapi.Routes.{
  Operation, to_list_servers, to_create_server, to_get_server, matched, Router,
  handler_with_options, handler_from_mux, not_slash,
}

abbrev pub servers_path : Bytes
servers_path = codes "/api/servers"

abbrev pub server_pattern : Bytes
server_pattern = codes "/api/servers/{id}"

module _ (router : Router) where
  pub find_create_server :
      (method path : Bytes) (params : List (Bytes × Bytes))
      → router.find handler_from_mux method path ≡ matched to_create_server params
      → (method ≡ codes "POST") × (path ≡ servers_path)
  unfolding handler_from_mux handler_with_options
  find_create_server method path params h =
      elim (router.find_sound handler_from_mux method path to_create_server params h) [
        | inl (m, fit, op) ↦ absurd (cc)
        | inr (inl (m, fit, op)) ↦
            let exact : (if servers_path == path then some [] else none) ≡ some params =
              sym (router.fits_plain servers_path path refl) ∙ fit in
            (sym m, ground (arith, same_iff servers_path path))
        | inr (inr (inl (m, fit, op))) ↦ absurd (cc)
        | inr (inr (inr never)) ↦ absurd (never)
      ]

  pub find_get_server :
      (segment : Bytes)
      → occupied segment ≡ true
      → every not_slash segment ≡ true
      → router.find handler_from_mux (codes "GET") (codes "/api/servers/" ++ segment)
        ≡ matched to_get_server ((codes "id", segment) ∷ [])
  unfolding handler_from_mux handler_with_options
  find_get_server segment some_byte no_slash =
      let fits_id =
        router.fits_placeholder (codes "/api/servers/") (codes "id") segment refl refl some_byte
          no_slash in
      let (op, params, found) =
        router.find_complete handler_from_mux (codes "GET") (codes "/api/servers/" ++ segment)
          (inr (inr (inl (refl, (codes "id", segment) ∷ [], fits_id)))) in
      elim (router.find_sound handler_from_mux (codes "GET") (codes "/api/servers/" ++ segment) op
        params found) [
          | inl (m, fit, to) ↦
              let other = router.fits_plain servers_path (codes "/api/servers/" ++ segment) refl in
              absurd (cc)
          | inr (inl (m, fit, to)) ↦ absurd (cc)
          | inr (inr (inl (m, fit, to))) ↦
              let same : ◌≡◌ {A = Option (List (Bytes × Bytes))} (some params)
                  (some ((codes "id", segment) ∷ [])) =
                sym fit ∙ fits_id in
              cc
          | inr (inr (inr never)) ↦ absurd (never)
        ]

  pub find_post :
      router.find handler_from_mux (codes "POST") servers_path ≡ matched to_create_server []
  unfolding handler_from_mux handler_with_options
  find_post =
      let plain = router.fits_plain servers_path servers_path refl in
      let (op, params, found) =
        router.find_complete handler_from_mux (codes "POST") servers_path
          (inr (inl (refl, [], plain))) in
      elim (router.find_sound handler_from_mux (codes "POST") servers_path op params found) [
        | inl (m, fit, to) ↦ absurd (cc)
        | inr (inl (m, fit, to)) ↦
            let same : ◌≡◌ {A = Option (List (Bytes × Bytes))} (some params) (some []) =
              sym fit ∙ plain in
            cc
        | inr (inr (inl (m, fit, to))) ↦ absurd (cc)
        | inr (inr (inr never)) ↦ absurd (never)
      ]

  pub find_list_servers :
      (method path : Bytes) (params : List (Bytes × Bytes))
      → router.find handler_from_mux method path ≡ matched to_list_servers params
      → (method ≡ codes "GET") × (path ≡ servers_path)
  unfolding handler_from_mux handler_with_options
  find_list_servers method path params h =
      elim (router.find_sound handler_from_mux method path to_list_servers params h) [
        | inl (m, fit, op) ↦
            let exact : (if servers_path == path then some [] else none) ≡ some params =
              sym (router.fits_plain servers_path path refl) ∙ fit in
            (sym m, ground (arith, same_iff servers_path path))
        | inr (inl (m, fit, op)) ↦ absurd (cc)
        | inr (inr (inl (m, fit, op))) ↦ absurd (cc)
        | inr (inr (inr never)) ↦ absurd (never)
      ]

  pub find_one_server :
      (method path : Bytes) (params : List (Bytes × Bytes))
      → router.find handler_from_mux method path ≡ matched to_get_server params
      → (method ≡ codes "GET") × (router.fits server_pattern path ≡ some params)
  unfolding handler_from_mux handler_with_options
  find_one_server method path params h =
      elim (router.find_sound handler_from_mux method path to_get_server params h) [
        | inl (m, fit, op) ↦ absurd (cc)
        | inr (inl (m, fit, op)) ↦ absurd (cc)
        | inr (inr (inl (m, fit, op))) ↦ (sym m, fit)
        | inr (inr (inr never)) ↦ absurd (never)
      ]

  -- A request of the API: one of `GET /api/servers`, `POST /api/servers` and `GET /api/servers/{id}`.
  pub data Documented (method path : Bytes) : Type 0 where
    lists : method ≡ codes "GET" → path ≡ servers_path → Documented method path
    creates : method ≡ codes "POST" → path ≡ servers_path → Documented method path
    gets :
        (params : List (Bytes × Bytes))
        → method ≡ codes "GET"
        → router.fits server_pattern path ≡ some params
        → Documented method path

  plain_fits : (path : Bytes) → path ≡ servers_path → router.fits servers_path path ≡ some []
  plain_fits path h =
      router.fits_plain servers_path path refl ∙ ground (arith, same_iff servers_path path)

  -- Every request of the API has a route.
  pub Documented-found :
      (method path : Bytes)
      → Documented method path
      → (op : Operation) × (params : List (Bytes × Bytes)) × (router.find handler_from_mux method
            path
          ≡ matched op params)
  unfolding handler_from_mux handler_with_options
  Documented-found method path (lists m p) =
      router.find_complete handler_from_mux method path (inl (sym m, [], plain_fits path p))
  Documented-found method path (creates m p) =
      router.find_complete handler_from_mux method path (inr (inl (sym m, [], plain_fits path p)))
  Documented-found method path (gets params m fit) =
      router.find_complete handler_from_mux method path (inr (inr (inl (sym m, params, fit))))
