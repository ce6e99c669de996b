-- ===== src/Message.antt =====
-- What a `format!` of the source is given: the literal text and the interpolated values, one piece
-- each, in order. How a value is printed is the standard library's business and is not modelled.
use ematix_probe.Prelude.{ℕ, ℤ, String, List}

-- `F` is the type of the `f64` values. `str` is `{}` and `debug_str` is `{:?}` of a text, `fixed k`
-- is `{:.k}` of a float, `duration` is `{:?}` of a `Duration` in nanoseconds.
pub data Piece (F : Type 0) : Type 0 where
  lit : String → Piece F
  str : String → Piece F
  debug_str : String → Piece F
  debug_strs : List String → Piece F
  debug_nats : List ℕ → Piece F
  nat : ℕ → Piece F
  int : ℤ → Piece F
  float : F → Piece F
  fixed : ℕ → F → Piece F
  duration : ℕ → Piece F

abbrev pub Message : Type 0 → Type 0
Message F = List (Piece F)
