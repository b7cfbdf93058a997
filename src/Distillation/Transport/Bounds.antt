-- ===== src/Distillation/Transport/Bounds.antt =====
-- What `integer` admits.
use py_rl_trainer.Prelude.{ℕ, ◌≤◌, ◌≡◌, ok, arith}
use py_rl_trainer.Prelude.Int.{pos, negsuc}
use py_rl_trainer.Wire.{Value, null, bool, int, float, str, other}
use py_rl_trainer.Distillation.Transport.{integer}

-- An admitted value lies in the range.
pub integer_bounds :
    (v : Value) (low high : ℕ) {n : ℕ} → integer v low high ≡ ok n → (low ≤ n) × (n ≤ high)
unfolding integer
integer_bounds (int (pos k)) low high h = ground arith
integer_bounds (int (negsuc k)) low high h = cc
integer_bounds null low high h = cc
integer_bounds (bool b) low high h = cc
integer_bounds (float b) low high h = cc
integer_bounds (str s) low high h = cc
integer_bounds other low high h = cc
