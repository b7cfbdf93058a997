-- ===== src/Wire/Hex/Laws.antt =====
-- Printing an identity and reading it back.
use py_rl_trainer.Prelude.{
  ℕ, zero, suc, ◌+◌, ◌*◌, ◌/◌, ◌%◌, ◌^◌, ◌≤◌, ◌<◌, ◌≡◌, refl, ◌∙◌, true, [], ◌∷◌, ◌++◌, arith,
  length, length-append,
}
use native.Mathlib.Nat.{pow-suc}
use py_rl_trainer.Wire.Str.{Text}
use py_rl_trainer.Wire.Hex.{
  is_hex_digit, all_hex, matches_hex, digit_value, int_hex_from, int_hex, hex_digit, hex_min,
  hex_pad, hex16,
}

digit_value-hex_digit : (d : ℕ) → d < 16 → digit_value (hex_digit d) ≡ d
unfolding digit_value hex_digit
digit_value-hex_digit d h = ground arith

is_hex_digit-hex_digit : (d : ℕ) → d < 16 → is_hex_digit (hex_digit d) ≡ true
unfolding is_hex_digit hex_digit
is_hex_digit-hex_digit d h = ground arith

int_hex_from-append :
    (s t : Text) (acc : ℕ) → int_hex_from acc (s ++ t) ≡ int_hex_from (int_hex_from acc s) t
unfolding int_hex_from
int_hex_from-append [] t acc = refl
int_hex_from-append (c ∷ s) t acc = int_hex_from-append s t (acc * 16 + digit_value c)

-- one more digit at the end
int_hex-snoc : (s : Text) (n : ℕ) → int_hex s ≡ n / 16 → int_hex (s ++ hex_digit (n % 16) ∷ []) ≡ n
unfolding int_hex int_hex_from
int_hex-snoc s n h =
    int_hex_from-append s (hex_digit (n % 16) ∷ []) 0
    ∙ omega (arith, h, digit_value-hex_digit (n % 16) (omega arith))

int_hex-hex_min : (fuel n : ℕ) → n ≤ fuel → int_hex (hex_min fuel n) ≡ n
unfolding hex_min
int_hex-hex_min zero n h = unfold int_hex in omega arith
int_hex-hex_min (suc fuel) zero h = unfold int_hex in refl
int_hex-hex_min (suc fuel) (suc n) h = ground (
  arith,
  int_hex-snoc (hex_min fuel (suc n / 16)) (suc n),
  int_hex-hex_min fuel (suc n / 16) (omega arith),
)

pub int_hex-hex_pad : (width n : ℕ) → int_hex (hex_pad width n) ≡ n
unfolding hex_pad
int_hex-hex_pad zero n = int_hex-hex_min n n (omega arith)
int_hex-hex_pad (suc width) n =
    int_hex-snoc (hex_pad width (n / 16)) n (int_hex-hex_pad width (n / 16))

pub all_hex-append : (s t : Text) → all_hex s ≡ true → all_hex t ≡ true → all_hex (s ++ t) ≡ true
unfolding all_hex
all_hex-append [] t h k = k
all_hex-append (c ∷ s) t h k = ground (arith, all_hex-append s t)

-- the bound on what is left after one digit
div-lt-pow : (width n : ℕ) → n < 16 ^ suc width → n / 16 < 16 ^ width
div-lt-pow width n h = omega (arith, pow-suc 16 width)

pub length-hex_pad : (width n : ℕ) → n < 16 ^ width → length (hex_pad width n) ≡ width
unfolding hex_pad hex_min
length-hex_pad zero zero h = refl
length-hex_pad zero (suc n) h = absurd (omega arith)
length-hex_pad (suc width) n h = omega (
  arith,
  length-append (hex_pad width (n / 16)) (hex_digit (n % 16) ∷ []),
  length-hex_pad width (n / 16) (div-lt-pow width n h),
)

pub all_hex-hex_pad : (width n : ℕ) → n < 16 ^ width → all_hex (hex_pad width n) ≡ true
unfolding hex_pad hex_min all_hex
all_hex-hex_pad zero zero h = refl
all_hex-hex_pad zero (suc n) h = absurd (omega arith)
all_hex-hex_pad (suc width) n h =
    all_hex-append (hex_pad width (n / 16)) (hex_digit (n % 16) ∷ [])
      (all_hex-hex_pad width (n / 16) (div-lt-pow width n h))
      (ground (arith, is_hex_digit-hex_digit (n % 16) (omega arith)))

pub matches_hex-hex_pad :
    (width n : ℕ) → n < 16 ^ width → matches_hex width (hex_pad width n) ≡ true
unfolding matches_hex
matches_hex-hex_pad width n h = ground (arith, length-hex_pad width n h, all_hex-hex_pad width n h)

-- A 64-bit number is printed as an admitted identity that reads back as the number.
pub hex16_roundtrip :
    (n : ℕ) → n < 2 ^ 64 → (matches_hex 16 (hex16 n) ≡ true) × (int_hex (hex16 n) ≡ n)
unfolding hex16
hex16_roundtrip n h = (matches_hex-hex_pad 16 n h, int_hex-hex_pad 16 n)
