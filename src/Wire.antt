-- ===== src/Wire.antt =====
-- Dynamic wire values and Python's `str` as the validators of pyrl_trainer see them.
-- A text is its list of code points. A float is its 64-bit IEEE pattern.
pub mod Hex
pub mod Str
pub mod Float
mod Tests
use py_rl_trainer.Prelude.{ℕ, Bool}
use py_rl_trainer.Prelude.Int.{ℤ}
use Str.{Text}

-- What `json.loads` can leave under a key that the validators test by `isinstance`. `other`
-- stands for a list or an object where a scalar is wanted.
pub data Value : Type 0 where
  null : Value
  bool : Bool → Value
  int : ℤ → Value
  float : ℕ → Value
  str : Text → Value
  other : Value
