-- ===== src/Openapi/Patterns.antt =====
-- The three regular expressions of internal/delivery/http/openapi/server.go, as executable
-- matchers; the module below this one relates them to the expressions read as languages.
pub mod Language
use serverpouch.Common.{
  ℕ, ◌+◌, Bytes, codes, Bool, true, false, ◌&&◌, ◌||◌, not, List, [], ◌∷◌, ◌++◌, Option, none, some,
  if◌then◌else◌, leb, ◌==◌, nat_eq, text_eq, is_digit, every, occupied, take_while, drop_while,
}

-- `[^:]`
abbrev pub not_colon : ℕ → Bool
not_colon c = not (c == b':')

-- `\w`
abbrev pub is_word : ℕ → Bool
is_word c = is_digit c || ((leb b'A' c && leb c b'Z') || ((leb b'a' c && leb c b'z') || c == b'_'))

-- `.`
abbrev pub not_newline : ℕ → Bool
not_newline c = not (c == 10)

-- A text that starts with the byte, without it.
pub after : ℕ → Bytes → Option Bytes
after b [] = none
after b (c ∷ s) = if c == b then some s else none

-- `^([p]+)b`: the longest nonempty prefix of bytes of the class, and what stands behind the byte
-- `b`, which is not of the class.
pub split_at : (ℕ → Bool) → ℕ → Bytes → Option (Bytes × Bytes)
unfolding after
split_at p b s = elim (occupied (take_while p s)) [
  | false ↦ none
  | true ↦ elim (after b (drop_while p s)) [ none ↦ none | some t ↦ some (take_while p s, t) ]
]

-- `(?:udp|tcp)`
pub is_protocol : Bytes → Bool
is_protocol s = s == codes "udp" || s == codes "tcp"

-- `^\d+/(?:udp|tcp)$`
pub is_container_port : Bytes → Bool
unfolding split_at is_protocol
is_container_port s = elim (split_at is_digit b'/' s) [ none ↦ false | some (n, p) ↦ is_protocol p ]

-- `dockerPortPattern`: the two groups of `^(\d+):(\d+/(?:udp|tcp))$`.
unfoldable pub find_port : Bytes → Option (Bytes × Bytes)
unfolding is_container_port split_at
find_port s = elim (split_at is_digit b':' s) [
  | none ↦ none
  | some (h, c) ↦ if is_container_port c then some (h, c) else none
]

-- `dockerVolumePattern`: the two groups of `^([^:]+):([^:]+)$`.
unfoldable pub find_volume : Bytes → Option (Bytes × Bytes)
unfolding split_at
find_volume s = elim (split_at not_colon b':' s) [
  | none ↦ none
  | some (h, c) ↦ if occupied c && every not_colon c then some (h, c) else none
]

-- `dockerEnvPattern`: the match of `^\w+=.+$`, which is the whole text, or the empty text.
unfoldable pub find_env : Bytes → Bytes
unfolding split_at
find_env s = elim (split_at is_word b'=' s) [
  | none ↦ []
  | some (k, v) ↦ if occupied v && every not_newline v then s else []
]
