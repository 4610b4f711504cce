-- ===== src/Openapi/Routes/FirstFit.antt =====
-- A router for the routes of internal/delivery/http/openapi/openapi.gen.go: the first route that
-- fits.
use serverpouch.Common.{
  lookup, ℕ, Bytes, List, [], ◌∷◌, ◌++◌, Option, none, some, ◌≡◌, refl, ◌∙◌, true, every, occupied,
  ◌&&◌, Any, inl, inr, if◌then◌else◌, ◌==◌, nat_eq, text_eq, same_iff, arith, take_while,
  drop_while, take_while-append, drop_while-append, ◌⊎◌, Bool-cases, Bool,
}
use serverpouch.Openapi.Routes.{
  Operation, Route, Found, matched, not_found, not_allowed, Router, is_plain, is_name, not_slash,
}

-- What follows a start.
abbrev strip : Bytes → Bytes → Option Bytes
strip [] path = some path
strip (c ∷ start) [] = none
strip (c ∷ start) (d ∷ path) = if c == d then strip start path else none

abbrev placeholder : Bytes → Option Bytes → Option (List (Bytes × Bytes))
placeholder name none = none
placeholder name (some segment) =
    if occupied segment && every not_slash segment then some ((name, segment) ∷ []) else none

abbrev fit_rest : (start rest path : Bytes) → Option (List (Bytes × Bytes))
fit_rest start [] path = if start == path then some [] else none
fit_rest start (c ∷ rest) path = placeholder (take_while is_name rest) (strip start path)

abbrev fits : (pattern path : Bytes) → Option (List (Bytes × Bytes))
fits pattern path = fit_rest (take_while is_plain pattern) (drop_while is_plain pattern) path

take_every : (p : ℕ → Bool) (xs : Bytes) → every p xs ≡ true → take_while p xs ≡ xs
take_every p [] h = refl
take_every p (x ∷ xs) h = ground (arith, take_every p xs)

drop_every : (p : ℕ → Bool) (xs : Bytes) → every p xs ≡ true → drop_while p xs ≡ []
drop_every p [] h = refl
drop_every p (x ∷ xs) h = ground (arith, drop_every p xs)

fits_plain :
    (pattern path : Bytes)
    → every is_plain pattern ≡ true
    → fits pattern path ≡ (if pattern == path then some [] else none)
fits_plain pattern path h = rw (take_every is_plain pattern h, drop_every is_plain pattern h) refl

strip-append : (start segment : Bytes) → strip start (start ++ segment) ≡ some segment
strip-append [] segment = refl
strip-append (c ∷ start) segment = ground (arith, strip-append start segment, same_iff c c)

fits_placeholder :
    (start name segment : Bytes)
    → every is_plain start ≡ true
    → every is_name name ≡ true
    → occupied segment ≡ true
    → every not_slash segment ≡ true
    → fits (start ++ b'{' ∷ (name ++ b'}' ∷ [])) (start ++ segment) ≡ some ((name, segment) ∷ [])
fits_placeholder start name segment plain named filled whole =
    rw
      (
        take_while-append is_plain start b'{' (name ++ b'}' ∷ []) plain refl,
        drop_while-append is_plain start b'{' (name ++ b'}' ∷ []) plain refl,
        take_while-append is_name name b'}' [] named refl,
        strip-append start segment,
        filled,
        whole,
      )
      refl

abbrev blocked : Found → Found
blocked not_found = not_allowed
blocked not_allowed = not_allowed
blocked (matched op params) = matched op params

-- A route, what its pattern makes of the path, and what the routes after it make of the request.
abbrev choose : Route → Option (List (Bytes × Bytes)) → Bytes → Found → Found
choose r none method later = later
choose r (some params) method later =
    if r.method == method then matched r.operation params else blocked later

abbrev find : List Route → (method path : Bytes) → Found
find [] method path = not_found
find (r ∷ routes) method path = choose r (fits r.pattern path) method (find routes method path)

abbrev Serves : Bytes → Bytes → Operation → List (Bytes × Bytes) → Route → Type 0
Serves method path op params r =
    (r.method ≡ method) × (fits r.pattern path ≡ some params) × (r.operation ≡ op)

abbrev Fits : Bytes → Bytes → Route → Type 0
Fits method path r =
    (r.method ≡ method) × (params : List (Bytes × Bytes)) × (fits r.pattern path ≡ some params)

unblocked :
    (f : Found) (op : Operation) (params : List (Bytes × Bytes))
    → blocked f ≡ matched op params
    → f ≡ matched op params
unblocked not_found op params h = absurd (cc)
unblocked not_allowed op params h = absurd (cc)
unblocked (matched other found) op params h = h

choose_sound :
    (r : Route) (o : Option (List (Bytes × Bytes))) (method path : Bytes) (later : Found)
    (op : Operation) (params : List (Bytes × Bytes))
    → fits r.pattern path ≡ o
    → choose r o method later ≡ matched op params
    → Serves method path op params r ⊎ (later ≡ matched op params)
choose_sound r none method path later op params e h = inr h
choose_sound r (some found) method path later op params e h =
    elim (Bool-cases (r.method == method)) [
      | inl same ↦
          let taken : matched r.operation found ≡ matched op params = rw same at h in
          inl ((same_iff r.method method).0 same, e ∙ cc taken, cc taken)
      | inr other ↦
          let left : blocked later ≡ matched op params = rw other at h in
          inr (unblocked later op params left)
    ]

find_sound :
    (routes : List Route) (method path : Bytes) (op : Operation) (params : List (Bytes × Bytes))
    → find routes method path ≡ matched op params
    → Any (Serves method path op params) routes
find_sound [] method path op params h = absurd (cc)
find_sound (r ∷ routes) method path op params h =
    elim (choose_sound r (fits r.pattern path) method path (find routes method path) op params refl
      h) [ inl here ↦ inl here | inr later ↦ inr (find_sound routes method path op params later) ]

abbrev IsMatched : Found → Type 0
IsMatched f = (op : Operation) × (params : List (Bytes × Bytes)) × (f ≡ matched op params)

choose_first :
    (r : Route) (params : List (Bytes × Bytes)) (method : Bytes) (later : Found)
    → r.method ≡ method
    → IsMatched (choose r (some params) method later)
choose_first r params method later h =
    (r.operation, params, rw ((same_iff r.method method).1 h) refl)

choose_later :
    (r : Route) (o : Option (List (Bytes × Bytes))) (method : Bytes) (later : Found)
    → IsMatched later
    → IsMatched (choose r o method later)
choose_later r none method later h = h
choose_later r (some params) method later (op, found, h) = elim (Bool-cases (r.method == method)) [
  | inl same ↦ (r.operation, params, rw same refl)
  | inr other ↦ (op, found, rw (other, h) refl)
]

find_complete :
    (routes : List Route) (method path : Bytes)
    → Any (Fits method path) routes
    → IsMatched (find routes method path)
find_complete [] method path h = absurd (h)
find_complete (r ∷ routes) method path (inl (same, params, fit)) =
    rw fit (choose_first r params method (find routes method path) same)
find_complete (r ∷ routes) method path (inr later) =
    choose_later r (fits r.pattern path) method (find routes method path)
      (find_complete routes method path later)

abbrev or_empty : Option Bytes → Bytes
or_empty none = []
or_empty (some value) = value

url_param_named : (name segment : Bytes) → or_empty (lookup name ((name, segment) ∷ [])) ≡ segment
url_param_named name segment = ground (arith, same_iff name name)

pub first_fit : Router
first_fit = record {
  fits = fits;
  find = find;
  url_param = λ name params. or_empty (lookup name params);
  url_param_named = url_param_named;
  fits_plain = fits_plain;
  fits_placeholder = fits_placeholder;
  find_sound = find_sound;
  find_complete = find_complete;
}
