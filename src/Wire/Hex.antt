-- ===== src/Wire/Hex.antt =====
-- Fixed-width hexadecimal identities: the pattern `[0-9a-f]{n}`, `int(s, 16)` and `f"{n:016x}"`.
pub mod Laws
pub mod Order
use py_rl_trainer.Prelude.{
  ℕ, zero, suc, ◌+◌, ◌-◌, ◌*◌, ◌/◌, ◌%◌, Bool, true, ◌&&◌, ◌||◌, List, [], ◌∷◌, ◌++◌, ltb, leb,
  ◌==◌, length, if◌then◌else◌,
}
use py_rl_trainer.Wire.Str.{Text}

unfoldable pub is_hex_digit : ℕ → Bool
is_hex_digit c = (leb b'0' c && leb c b'9') || (leb b'a' c && leb c b'f')

unfoldable pub all_hex : Text → Bool
unfolding is_hex_digit
all_hex [] = true
all_hex (c ∷ s) = is_hex_digit c && all_hex s

-- `re.fullmatch(rf"[0-9a-f]{{{width}}}", s)`
unfoldable pub matches_hex : ℕ → Text → Bool
unfolding all_hex
matches_hex width s = length s == width && all_hex s

unfoldable pub digit_value : ℕ → ℕ
digit_value c = if leb c b'9' then c - 48 else c - 87

-- `int(s, 16)`, from the left
unfoldable pub int_hex_from : ℕ → Text → ℕ
unfolding digit_value
int_hex_from acc [] = acc
int_hex_from acc (c ∷ s) = int_hex_from (acc * 16 + digit_value c) s

unfoldable pub int_hex : Text → ℕ
unfolding int_hex_from
int_hex = int_hex_from 0

unfoldable pub hex_digit : ℕ → ℕ
hex_digit d = if ltb d 10 then d + 48 else d + 87

-- the digits of `n` with no leading zero, none for 0; `fuel` at least `n` is enough
unfoldable pub hex_min : ℕ → ℕ → Text
unfolding hex_digit
hex_min zero n = []
hex_min (suc fuel) n =
    let front = hex_min fuel (n / 16) in if n == 0 then [] else front ++ (hex_digit (n % 16) ∷ [])

-- `f"{n:0{width}x}"`: at least `width` digits
unfoldable pub hex_pad : ℕ → ℕ → Text
unfolding hex_min hex_digit
hex_pad zero n = hex_min n n
hex_pad (suc width) n = hex_pad width (n / 16) ++ (hex_digit (n % 16) ∷ [])

-- `f"{n:016x}"`
unfoldable pub hex16 : ℕ → Text
unfolding hex_pad
hex16 = hex_pad 16
