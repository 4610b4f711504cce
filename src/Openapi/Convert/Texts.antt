-- ===== src/Openapi/Convert/Texts.antt =====
-- The texts that one round of each loop of `dockerOAPIToConfig` accepts.
use serverpouch.Common.{
  ℕ, ap, ◌∙◌, ℤ, pos, Bytes, true, false, [], ◌∷◌, ◌++◌, some, ok, ◌≡◌, inl, inr, refl, subst,
  arith, ◌≤◌, ◌==◌, text_eq, occupied, int_eq, Errors, max_int, is_digit, value_from, atoi,
  Option-cases, Bool-cases,
}
use serverpouch.Openapi.Patterns.{not_colon, find_port, find_volume, find_env}
use serverpouch.Openapi.Patterns.Language.{
  Matches, plus, container_port, env_entry, find_port_iff, find_volume_iff, find_env_iff,
}
use serverpouch.Openapi.Convert.{read_port, read_volume, read_env}
use serverpouch.Openapi.Convert.RoundTrip.{IsPort, IsVolume}

-- A port text that the pattern accepts and whose host port is an `int`.
abbrev pub IsPortText : Bytes → Type 0
IsPortText s =
    (h : Bytes) × (c : Bytes) × (s ≡ h ++ b':' ∷ c)
    × Matches (plus is_digit) h
    × Matches container_port c
    × (value_from 0 h ≤ max_int)

abbrev pub IsVolumeText : Bytes → Type 0
IsVolumeText s =
    (h : Bytes) × (c : Bytes) × (s ≡ h ++ b':' ∷ c)
    × Matches (plus not_colon) h
    × Matches (plus not_colon) c

pub read_port_ok :
    (x : Errors) (s : Bytes) (p : ℤ × Bytes) → read_port x s ≡ ok p → IsPortText s × IsPort p
unfolding read_port atoi
read_port_ok x s p h = elim (Option-cases (find_port s)) [
  | inl e ↦ absurd (ground arith)
  | inr ((host, container), e) ↦
      let (whole, digits, port) = (find_port_iff s host container).0 e in
      let same : container ≡ p.1 = ground arith in
      (
        (host, container, whole, digits, port, ground arith),
        (value_from 0 host, ground arith, ground arith, subst (Matches container_port) same port),
      )
]

-- The number of a port text is that of its digits.
pub read_port_digits :
    (x : Errors) (s : Bytes) (host : ℤ) (c : Bytes)
    → read_port x s ≡ ok (host, c)
    → IsPort (host, c)
      × (digits : Bytes) × (s ≡ digits ++ b':' ∷ c)
      × Matches (plus is_digit) digits
      × ((n : ℕ) → host ≡ pos n → value_from 0 digits ≡ n)
unfolding read_port atoi
read_port_digits x s host c h = elim (Option-cases (find_port s)) [
  | inl e ↦ absurd (ground arith)
  | inr ((digits, container), e) ↦
      let (whole, fits, port) = (find_port_iff s digits container).0 e in
      let same : container ≡ c = ground arith in
      (
        (read_port_ok x s (host, c) h).1,
        digits,
        whole ∙ ap (λ t. digits ++ b':' ∷ t) same,
        fits,
        λ n is_n. ground arith,
      )
]

pub read_port_text_ok :
    (x : Errors) (s : Bytes) → IsPortText s → (p : ℤ × Bytes) × (read_port x s ≡ ok p)
unfolding read_port atoi
read_port_text_ok x s (h, c, whole, digits, port, small) =
    ((pos (value_from 0 h), c), ground (arith, (find_port_iff s h c).1 (whole, digits, port)))

pub read_volume_ok :
    (s : Bytes) (v : Bytes × Bytes) → read_volume s ≡ ok v → IsVolumeText s × IsVolume v
unfolding read_volume
read_volume_ok s (host, container) h =
    let found : find_volume s ≡ some (host, container) = ground arith in
    let (whole, host_part, part) = (find_volume_iff s host container).0 found in
    ((host, container, whole, host_part, part), (host_part, part))

pub read_volume_text_ok :
    (s : Bytes) → IsVolumeText s → (v : Bytes × Bytes) × (read_volume s ≡ ok v)
unfolding read_volume
read_volume_text_ok s (h, c, whole, host, container) =
    ((h, c), ground (arith, (find_volume_iff s h c).1 (whole, host, container)))

occupied_of_ne : (m : Bytes) → (m == []) ≡ false → occupied m ≡ true
occupied_of_ne [] h = cc
occupied_of_ne (c ∷ m) h = refl

pub read_env_ok : (s m : Bytes) → read_env s ≡ ok m → Matches env_entry s × (m ≡ s)
unfolding read_env
read_env_ok s m h = elim (Bool-cases (find_env s == [])) [
  | inl empty ↦ absurd (ground arith)
  | inr found ↦
      let (same, fits) =
        (find_env_iff s (find_env s)).0 (refl, occupied_of_ne (find_env s) found) in
      (fits, ground arith)
]
