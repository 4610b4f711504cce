-- ===== src/Docker/Attach/Lines.antt =====
-- internal/infrastructure/docker/lifecycle.go, `lifecycleInitAttach`: which texts the container gets.
use serverpouch.Common.{
  Bytes, codes, true, List, [], ◌∷◌, ◌++◌, map, Option, none, some, ◌≡◌, refl, ap, ◌∙◌, arith,
  nat_eq, Option-cases, Bool-cases, ◌⊎◌, inl, inr,
}
use serverpouch.Docker.Instance.{Instance, print}
use serverpouch.Docker.Attach.{
  Taken, context_done, term_in, leaving, ends_with_newline, with_newline, Terminal, attach_loop,
}

append-ends_with_newline : (s : Bytes) → ends_with_newline (s ++ b'\n' ∷ []) ≡ true
append-ends_with_newline [] = refl
append-ends_with_newline (c ∷ []) = refl
append-ends_with_newline (c ∷ d ∷ s) = append-ends_with_newline (d ∷ s)

-- A text with a newline at its end.
abbrev pub IsLine : Bytes → Type 0
IsLine s = (body : Bytes) × (s ≡ body ++ b'\n' ∷ [])

ends-IsLine : (s : Bytes) → ends_with_newline s ≡ true → IsLine s
ends-IsLine [] h = absurd (cc)
ends-IsLine (c ∷ []) h =
    let is_newline : c ≡ b'\n' = ground arith in ([], ap (λ d. d ∷ []) is_newline)
ends-IsLine (c ∷ d ∷ s) h = let (body, e) = ends-IsLine (d ∷ s) h in (c ∷ body, ap (λ t. c ∷ t) e)

IsLine-ends : (s : Bytes) → IsLine s → ends_with_newline s ≡ true
IsLine-ends s (body, e) = ap ends_with_newline e ∙ append-ends_with_newline body

-- The line for a text that is typed: itself if it is one, and else the text with a newline.
abbrev pub Line : (typed line : Bytes) → Type 0
Line typed line =
    (IsLine typed × (line ≡ typed)) ⊎ ((IsLine typed → ⊥) × (line ≡ typed ++ b'\n' ∷ []))

-- The lines for texts, one for each and in their order.
abbrev pub Lines : (typed lines : List Bytes) → Type 0
Lines [] [] = Unit
Lines (s ∷ typed) (line ∷ lines) = Line s line × Lines typed lines
Lines [] (line ∷ lines) = ⊥
Lines (s ∷ typed) [] = ⊥

with_newline-Line : (s : Bytes) → Line s (with_newline s)
unfolding with_newline
with_newline-Line s = elim (Bool-cases (ends_with_newline s)) [
  | inl ends ↦ rw (with_newline, ends) (inl (ends-IsLine s ends, refl))
  | inr no_end ↦ rw (with_newline, no_end) (inr (λ line. let ends = IsLine-ends s line in cc, refl))
]

map-Lines : (texts : List Bytes) → Lines texts (map with_newline texts)
map-Lines [] = tt
map-Lines (s ∷ texts) = (with_newline-Line s, map-Lines texts)

module _ {D : Type 0} (terminal : Terminal D) where
  -- Texts that are written one after the other, up to the first that fails.
  unfoldable pub written : List Bytes → D → Option Bytes × D
  written [] d = (none, d)
  written (text ∷ texts) d =
      let (failed, after) = terminal.write text d in
      elim failed [ some e ↦ (some e, after) | none ↦ written texts after ]

  -- The instance after the writes.
  abbrev pub reported : Option Bytes × D → Instance D → Instance D
  reported (none, d) s = record s { daemon = d }
  reported (some e, d) s =
      print (codes "Error writing to container: " ++ e) (record s { daemon = d })

  reported_again :
      (p : Option Bytes × D) (d : D) (s : Instance D)
      → reported p (record s { daemon = d }) ≡ reported p s
  reported_again (none, d') d s = refl
  reported_again (some e, d') d s = refl

  loop :
      (texts : List Bytes) (later : List Taken) (s : Instance D)
      → attach_loop terminal (map term_in texts ++ context_done ∷ later) s
        ≡ (leaving, reported (written (map with_newline texts) s.daemon) s)
  unfolding attach_loop written
  loop [] later s = refl
  loop (text ∷ texts) later s =
      let now = terminal.write (with_newline text) s.daemon in
      elim (Option-cases (terminal.write (with_newline text) s.daemon).0) [
        | inl fine ↦
            rw (attach_loop, written, fine)
              (loop texts later (record s { daemon = now.1 })
                ∙ ap (λ t. (leaving, t))
                    (reported_again (written (map with_newline texts) now.1) now.1 s))
        | inr (e, failed) ↦ rw (attach_loop, written, failed) refl
      ]

  -- What is typed until the context is done is written to the container in its order, each text that
  -- has a newline at its end as it is and any other with a newline added, up to the first write that
  -- fails, which is printed; then the loop is left, with the status and the container's ID as they
  -- were.
  pub attach_loop-written :
      (texts : List Bytes) (later : List Taken) (s : Instance D)
      → (lines : List Bytes) × Lines texts lines
        × (attach_loop terminal (map term_in texts ++ context_done ∷ later) s
            ≡ (leaving, reported (written lines s.daemon) s))
  attach_loop-written texts later s = (map with_newline texts, map-Lines texts, loop texts later s)
