-- ===== src/Wire/Hex/Order.antt =====
-- Between identities of one width, the order of texts is the order of the numbers.
use native.Mathlib.Nat.{pow-suc, mul-le-mul_right}
use py_rl_trainer.Prelude.{
  ℕ, ◌+◌, ◌*◌, ◌^◌, ◌≤◌, ◌<◌, ◌≡◌, refl, true, false, [], ◌∷◌, arith, ltb, length, Bool-cases, inl,
  inr, ap,
}
use py_rl_trainer.Wire.Str.{Text, text_ltb, text_leb, text_eq, text_eq_refl}
use py_rl_trainer.Wire.Hex.{is_hex_digit, all_hex, matches_hex, digit_value, int_hex_from, int_hex}

digit_value-lt : (c : ℕ) → is_hex_digit c ≡ true → digit_value c < 16
unfolding is_hex_digit digit_value
digit_value-lt c h = ground arith

-- the digits keep their order
digit_value_mono :
    (c d : ℕ)
    → is_hex_digit c ≡ true
    → is_hex_digit d ≡ true
    → c < d
    → digit_value c < digit_value d
unfolding is_hex_digit digit_value
digit_value_mono c d h k l = ground arith

-- one digit `d` before a text of weight `p`
digit-bounds :
    (p a d r : ℕ)
    → d < 16
    → (a * 16 + d) * p ≤ r
    → r < (a * 16 + d + 1) * p
    → (a * (p * 16) ≤ r) × (r < (a + 1) * (p * 16))
digit-bounds p a d r h lo hi = omega (arith, mul-le-mul_right p h)

-- the value of a text with `acc` before it
int_hex_from-bounds :
    (s : Text) (acc : ℕ)
    → all_hex s ≡ true
    → (acc * 16 ^ length s ≤ int_hex_from acc s) × (int_hex_from acc s < (acc + 1) * 16 ^ length s)
unfolding all_hex int_hex_from
int_hex_from-bounds [] acc h = omega arith
int_hex_from-bounds (c ∷ s) acc h =
    let digit : is_hex_digit c ≡ true = ground arith in
    let tail : all_hex s ≡ true = ground arith in
    let (lo, hi) = int_hex_from-bounds s (acc * 16 + digit_value c) tail in
    rw (pow-suc 16 (length s))
      (digit-bounds (16 ^ length s) acc (digit_value c) _ (digit_value-lt c digit) lo hi)

-- a lower first digit decides
first_digit-lt : (p a c d r q : ℕ) → c < d → r < (a * 16 + c + 1) * p → (a * 16 + d) * p ≤ q → r < q
first_digit-lt p a c d r q h hi lo = omega (arith, mul-le-mul_right p h)

-- A lower text has the lower value, with any digits before the two.
int_hex_from_mono :
    (s t : Text) (acc : ℕ)
    → length s ≡ length t
    → all_hex s ≡ true
    → all_hex t ≡ true
    → text_ltb s t ≡ true
    → int_hex_from acc s < int_hex_from acc t
unfolding text_ltb all_hex int_hex_from
int_hex_from_mono [] [] acc e h k l = cc
int_hex_from_mono [] (d ∷ t) acc e h k l = absurd (omega arith)
int_hex_from_mono (c ∷ s) [] acc e h k l = absurd (omega arith)
int_hex_from_mono (c ∷ s) (d ∷ t) acc e h k l =
    let same : length s ≡ length t = omega arith in
    let tails : (all_hex s ≡ true) × (all_hex t ≡ true) = ground arith in
    let digits : (is_hex_digit c ≡ true) × (is_hex_digit d ≡ true) = ground arith in
    elim (Bool-cases (ltb c d)) [
      | inl below ↦
          first_digit-lt (16 ^ length s) acc (digit_value c) (digit_value d) _ _
            (digit_value_mono c d digits.0 digits.1 (ground arith))
            (int_hex_from-bounds s (acc * 16 + digit_value c) tails.0).1
            (rw same (int_hex_from-bounds t (acc * 16 + digit_value d) tails.1).0)
      | inr level ↦
          let equal : c ≡ d = ground arith in
          let lower : text_ltb s t ≡ true = ground arith in
          rw equal (int_hex_from_mono s t (acc * 16 + digit_value d) same tails.0 tails.1 lower)
    ]

-- Texts of one length that are neither lower nor higher are the same text.
text_ltb_total :
    (s t : Text) → length s ≡ length t → text_ltb s t ≡ false → text_ltb t s ≡ false → s ≡ t
unfolding text_ltb
text_ltb_total [] [] e h k = refl
text_ltb_total [] (d ∷ t) e h k = absurd (omega arith)
text_ltb_total (c ∷ s) [] e h k = absurd (omega arith)
text_ltb_total (c ∷ s) (d ∷ t) e h k =
    let same : length s ≡ length t = omega arith in
    let rest : (c ≡ d) × (text_ltb s t ≡ false) × (text_ltb t s ≡ false) = ground arith in
    cc (rest.0, text_ltb_total s t same rest.1 rest.2)

-- Between two identities that the pattern admits at one width, `a < b` on the texts holds exactly
-- when it holds of the numbers that they name.
pub hex_order :
    (width : ℕ) (s t : Text)
    → matches_hex width s ≡ true
    → matches_hex width t ≡ true
    → text_ltb s t ≡ ltb (int_hex s) (int_hex t)
unfolding matches_hex int_hex
hex_order width s t h k =
    let lengths : length s ≡ length t = ground arith in
    let back : length t ≡ length s = omega arith in
    let digits : (all_hex s ≡ true) × (all_hex t ≡ true) = ground arith in
    elim (Bool-cases (text_ltb s t)) [
      | inl lower ↦ ground (arith, int_hex_from_mono s t 0 lengths digits.0 digits.1 lower)
      | inr other ↦ elim (Bool-cases (text_ltb t s)) [
        | inl higher ↦ ground (arith, int_hex_from_mono t s 0 back digits.1 digits.0 higher)
        | inr level ↦ ground (arith, ap (int_hex_from 0) (text_ltb_total s t lengths other level))
      ]
    ]

-- `not (t <= s)` on the texts, read as numbers
pub hex_above :
    (width : ℕ) (s t : Text)
    → matches_hex width s ≡ true
    → matches_hex width t ≡ true
    → text_leb t s ≡ false
    → int_hex s < int_hex t
unfolding text_leb
hex_above width s t h k above =
    let lengths : length t ≡ length s = unfold matches_hex in ground arith in
    elim (Bool-cases (text_ltb s t)) [
      | inl lower ↦ let same = hex_order width s t h k in ground (arith, lower, same)
      | inr other ↦
          let level : t ≡ s = text_ltb_total t s lengths (ground arith) other in
          let equal : text_eq t s ≡ true = rw level (text_eq_refl s) in ground (arith, equal, above)
    ]
