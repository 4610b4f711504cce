-- ===== src/Openapi/Patterns/Language.antt =====
-- The expressions as languages: what a text that matches is made of, with the groups named.
use serverpouch.Common.{
  ℕ, Bytes, codes, Bool, true, false, [], ◌∷◌, ◌++◌, some, ◌≡◌, ◌↔◌, ◌⊎◌, inl, inr, refl, ap, ◌∙◌,
  arith, is_digit, every, occupied, take_while, drop_while, Option-cases, every-take_while,
  take_while-append, drop_while-append, list_beq_iff,
}
use serverpouch.Openapi.Patterns.{
  not_colon, is_word, not_newline, after, split_at, is_protocol, is_container_port, find_port,
  find_volume, find_env,
}

-- The expressions over classes of bytes.
pub data Regex : Type 0 where
  literal : Bytes → Regex
  plus : (ℕ → Bool) → Regex  -- one or more bytes of the class
  seq : Regex → Regex → Regex
  alt : Regex → Regex → Regex

-- The texts that an expression describes.
abbrev pub Matches : Regex → Bytes → Type 0
Matches (literal t) s = s ≡ t
Matches (plus p) s = (occupied s ≡ true) × (every p s ≡ true)
Matches (seq r t) s = (u : Bytes) × (v : Bytes) × (s ≡ u ++ v) × Matches r u × Matches t v
Matches (alt r t) s = Matches r s ⊎ Matches t s

-- `\d+/(?:udp|tcp)`
abbrev pub container_port : Regex
container_port =
    seq (plus is_digit)
      (seq (literal (codes "/")) (alt (literal (codes "udp")) (literal (codes "tcp"))))

abbrev pub env_entry : Regex
env_entry = seq (plus is_word) (seq (literal (codes "=")) (plus not_newline))

is_protocol_iff : (s : Bytes) → (is_protocol s ≡ true) ↔ ((s ≡ codes "udp") ⊎ (s ≡ codes "tcp"))
unfolding is_protocol
is_protocol_iff s = ground (arith, list_beq_iff s (codes "udp"), list_beq_iff s (codes "tcp"))

module _ (p : ℕ → Bool) (b : ℕ) where
  after-drop_while : (s t : Bytes) → after b (drop_while p s) ≡ some t → s ≡ take_while p s ++ b ∷ t
  unfolding after
  after-drop_while [] t h = cc
  after-drop_while (c ∷ s) t h = ground (arith, after-drop_while s t)

  split_at-some :
      (s u t : Bytes)
      → split_at p b s ≡ some (u, t)
      → (s ≡ u ++ b ∷ t) × (occupied u ≡ true) × (every p u ≡ true)
  unfolding split_at
  split_at-some s u t h = ground (arith, after-drop_while s t, every-take_while p s)

  split_at-append :
      (u t : Bytes)
      → p b ≡ false
      → occupied u ≡ true
      → every p u ≡ true
      → split_at p b (u ++ b ∷ t) ≡ some (u, t)
  unfolding split_at
  split_at-append u t stop some_byte all =
      ground (arith, take_while-append p u b t all stop, drop_while-append p u b t all stop)

  -- A text is cut at `b` exactly when it reads so; the class does not hold `b`.
  split_at_iff :
      (s u t : Bytes)
      → p b ≡ false
      → (split_at p b s ≡ some (u, t))
        ↔ ((s ≡ u ++ b ∷ t) × (occupied u ≡ true) × (every p u ≡ true))
  split_at_iff s u t stop = (
    split_at-some s u t,
    λ (whole, some_byte, all). rw whole (split_at-append u t stop some_byte all),
  )

pub is_container_port_iff : (s : Bytes) → (is_container_port s ≡ true) ↔ Matches container_port s
unfolding is_container_port
is_container_port_iff s = (sound, complete)
  where
    sound : is_container_port s ≡ true → Matches container_port s
    sound h = elim (Option-cases (split_at is_digit b'/' s)) [
      | inl e ↦ absurd (ground arith)
      | inr ((n, p), e) ↦
          let (whole, some_digit, digits) = split_at-some is_digit b'/' s n p e in
          (
            n,
            b'/' ∷ p,
            whole,
            (some_digit, digits),
            (codes "/", p, refl, refl, (is_protocol_iff p).0 (ground arith)),
          )
    ]

    complete : Matches container_port s → is_container_port s ≡ true
    complete (n, v, whole, digits, (slash, p, rest, is_slash, protocol)) = ground (
      arith,
      (is_protocol_iff p).1 protocol,
      (split_at_iff is_digit b'/' s n p refl).1
          ((whole ∙ ap (◌++◌ n) (rest ∙ ap (λ x. x ++ p) is_slash)), digits.0, digits.1),
    )

occupied_cut : (k v : Bytes) → occupied k ≡ true → occupied (k ++ b'=' ∷ v) ≡ true
occupied_cut [] v h = cc
occupied_cut (c ∷ k) v h = refl

-- `dockerPortPattern` finds the groups `h` and `c` exactly when the text is `h:c`, `h` is a
-- nonempty run of digits and `c` is one, a slash and a protocol.
pub find_port_iff :
    (s h c : Bytes)
    → (find_port s ≡ some (h, c))
      ↔ ((s ≡ h ++ b':' ∷ c) × Matches (plus is_digit) h × Matches container_port c)
unfolding find_port
find_port_iff s h c = (sound, complete)
  where
    sound :
        find_port s ≡ some (h, c)
        → (s ≡ h ++ b':' ∷ c) × Matches (plus is_digit) h × Matches container_port c
    sound found =
        let cut : split_at is_digit b':' s ≡ some (h, c) = ground arith in
        let (whole, some_digit, digits) = (split_at_iff is_digit b':' s h c refl).0 cut in
        (whole, (some_digit, digits), (is_container_port_iff c).0 (ground arith))

    complete :
        (s ≡ h ++ b':' ∷ c) × Matches (plus is_digit) h × Matches container_port c
        → find_port s ≡ some (h, c)
    complete (whole, digits, port) = ground (
      arith,
      (split_at_iff is_digit b':' s h c refl).1 (whole, digits.0, digits.1),
      (is_container_port_iff c).1 port,
    )

-- `dockerVolumePattern` finds the groups `h` and `c` exactly when the text is `h:c` and both are
-- nonempty and hold no colon.
pub find_volume_iff :
    (s h c : Bytes)
    → (find_volume s ≡ some (h, c))
      ↔ ((s ≡ h ++ b':' ∷ c) × Matches (plus not_colon) h × Matches (plus not_colon) c)
unfolding find_volume
find_volume_iff s h c = (sound, complete)
  where
    sound :
        find_volume s ≡ some (h, c)
        → (s ≡ h ++ b':' ∷ c) × Matches (plus not_colon) h × Matches (plus not_colon) c
    sound found =
        let cut : split_at not_colon b':' s ≡ some (h, c) = ground arith in
        let (whole, some_byte, all) = (split_at_iff not_colon b':' s h c refl).0 cut in
        (whole, (some_byte, all), (ground arith, ground arith))

    complete :
        (s ≡ h ++ b':' ∷ c) × Matches (plus not_colon) h × Matches (plus not_colon) c
        → find_volume s ≡ some (h, c)
    complete (whole, host, container) =
        ground (arith, (split_at_iff not_colon b':' s h c refl).1 (whole, host.0, host.1))

-- `dockerEnvPattern` finds a nonempty match exactly in a text that is a nonempty run of word
-- bytes, `=` and a nonempty run without newline, and the match is then the whole text.
pub find_env_iff :
    (s m : Bytes) → ((find_env s ≡ m) × (occupied m ≡ true)) ↔ ((m ≡ s) × Matches env_entry s)
unfolding find_env
find_env_iff s m = (sound, complete)
  where
    sound : (find_env s ≡ m) × (occupied m ≡ true) → (m ≡ s) × Matches env_entry s
    sound (found, some_byte) = elim (Option-cases (split_at is_word b'=' s)) [
      | inl e ↦ absurd (ground arith)
      | inr ((k, v), e) ↦
          let (whole, key, word) = (split_at_iff is_word b'=' s k v refl).0 e in
          (
            ground arith,
            (
              k,
              b'=' ∷ v,
              whole,
              (key, word),
              (codes "=", v, refl, refl, (ground arith, ground arith)),
            ),
          )
    ]

    complete : (m ≡ s) × Matches env_entry s → (find_env s ≡ m) × (occupied m ≡ true)
    complete (same, (k, w, whole, key, (sign, v, rest, is_sign, value))) =
        let spelled : s ≡ k ++ b'=' ∷ v = whole ∙ ap (◌++◌ k) (rest ∙ ap (λ x. x ++ v) is_sign) in
        (
          ground (arith, (split_at_iff is_word b'=' s k v refl).1 (spelled, key.0, key.1)),
          ground (arith, occupied_cut k v key.0),
        )
