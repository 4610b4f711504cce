-- ===== src/Common/Wrapping.antt =====
-- github.com/pkg/errors, as far as the code relies on it. An `error` that may be nil is an
-- `Option` of its text.
use mathlib.Core.Path.{◌≡◌, refl}
use mathlib.Core.List.{◌++◌}
use mathlib.Core.Option.{Option, none, some}
use serverpouch.Common.Text.{Bytes, codes}

-- `Wrap` and `Wrapf` return nil for a nil error, as documented; else an error with a text.
pub record Errors : Type 0 where
  pub wrap : Option Bytes → Bytes → Option Bytes
  pub wrapped : Bytes → Bytes → Bytes
  pub wrap_nil : (message : Bytes) → wrap none message ≡ none
  pub wrap_some : (e message : Bytes) → wrap (some e) message ≡ some (wrapped e message)

pub prefix : Option Bytes → Bytes → Option Bytes
prefix none message = none
prefix (some e) message = some (message ++ (codes ": " ++ e))

pub prefix-nil : (message : Bytes) → prefix none message ≡ none
unfolding prefix
prefix-nil message = refl

pub prefix-some :
    (e message : Bytes) → prefix (some e) message ≡ some (message ++ (codes ": " ++ e))
unfolding prefix
prefix-some e message = refl

-- The message in front of the text of the error, for runs on concrete inputs.
unfoldable pub prefixing : Errors
unfolding prefix
prefixing = record {
  wrap = prefix;
  wrapped = λ e message. message ++ (codes ": " ++ e);
  wrap_nil = prefix-nil;
  wrap_some = prefix-some;
}
