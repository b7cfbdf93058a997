-- ===== src/Reward.antt =====
-- pyrl_trainer/reward_contract.py: the scalar validators and the records of a reward envelope.
-- A wire object is given by its fields or is `misshapen`, which is what `_shape` refuses: no
-- mapping, or not exactly the keys of its type. The key sets and the literals of slither_contracts
-- are not in the repository: the keys are those that the module and its tests name, and the
-- literals are a parameter.
pub mod Errors
pub mod Control
pub mod Parse
pub mod Stream
pub mod Components
pub mod Tests
use py_rl_trainer.Prelude.{
  ◌≡◌, refl, ◌⊎◌, inl, inr, arith, ℕ, ◌-◌, ◌^◌, Bool, true, false, not, ◌&&◌, ◌||◌, Option, none,
  some, List, [], ◌∷◌, Result, ok, err, ◌>>=◌, ◌>>◌, guard, leb, ◌==◌, if◌then◌else◌,
}
use py_rl_trainer.Prelude.Int.{ℤ, pos, negsuc, ltb_ℤ, pos_part, neg_part}
use py_rl_trainer.Wire.{Value, null, bool, int, float, str, other}
use py_rl_trainer.Wire.Str.{Text, text_eq}
use py_rl_trainer.Wire.Hex.{matches_hex, int_hex}
use py_rl_trainer.Wire.Float.{is_finite, is_negative, float_of_int}

-- The two exceptions of the module, by their class, and two of Python's own: for a subscript of
-- `None`, and for an int too large for a float.
pub data RewardError : Type 0 where
  reward_contract_error reward_discontinuity_error type_error overflow_error : RewardError

abbrev pub Admitted : Type 0 → Type 0
Admitted = Result RewardError

pub data Shaped (A : Type 0) : Type 0 where
  misshapen : Shaped A
  shaped : A → Shaped A

-- `_shape`
unfoldable pub shape : {A : Type 0} → Shaped A → Admitted A
shape misshapen = err reward_contract_error
shape (shaped fields) = ok fields

abbrev pub max_exact : ℕ
max_exact = 2 ^ 53 - 1

-- `_identity`
unfoldable pub identity : Value → Bool → Admitted Text
identity (str s) zero_allowed = do
  guard (matches_hex 16 s) reward_contract_error
  guard (zero_allowed || not (int_hex s == 0)) reward_contract_error
  ok s
identity _ zero_allowed = err reward_contract_error

unfoldable pub sign_and_size : Bool → ℕ → Admitted ℕ
sign_and_size signed x =
    if not (is_finite x) || (not signed && is_negative x) then err reward_contract_error else ok x

unfoldable pub converted : Bool → Option ℕ → Admitted ℕ
unfolding sign_and_size
converted signed none = err reward_contract_error
converted signed (some x) = sign_and_size signed x

-- `_number(value, name, signed=signed)`
unfoldable pub number : Value → Bool → Admitted ℕ
unfolding converted float_of_int
number (float x) signed = converted signed (some x)
number (int n) signed = converted signed (float_of_int n)
number _ signed = err reward_contract_error

unfoldable pub leb_ℤ : ℤ → ℤ → Bool
leb_ℤ a b = not (ltb_ℤ b a)

-- `_integer(value, name, minimum, maximum)`
unfoldable pub exact_integer : Value → ℤ → ℤ → Admitted ℤ
unfolding leb_ℤ
exact_integer (int n) minimum maximum =
    if leb_ℤ minimum n && leb_ℤ n maximum then ok n else err reward_contract_error
exact_integer _ minimum maximum = err reward_contract_error

-- `_integer` with a minimum that is not negative
unfoldable pub exact_count : Value → ℕ → ℕ → Admitted ℕ
exact_count (int (pos n)) minimum maximum =
    if leb minimum n && leb n maximum then ok n else err reward_contract_error
exact_count _ minimum maximum = err reward_contract_error

unfoldable pub found : {A : Type 0} → Admitted A → Admitted (Option A)
found (ok a) = ok (some a)
found (err e) = err e

-- `None`, or what a validator made of the value
unfoldable pub optional : {A : Type 0} → Value → Admitted A → Admitted (Option A)
unfolding found
optional null checked = ok none
optional value checked = found checked

found-eq-ok :
    {A : Type 0} (checked : Admitted A) {t : Option A}
    → found checked ≡ ok t
    → (a : A) × (checked ≡ ok a) × (t ≡ some a)
unfolding found
found-eq-ok (ok a) h = (a, refl, ground arith)
found-eq-ok (err e) h = ground arith

pub optional-eq-ok :
    {A : Type 0} (v : Value) (checked : Admitted A) {t : Option A}
    → optional v checked ≡ ok t
    → (t ≡ none) ⊎ ((a : A) × (checked ≡ ok a) × (t ≡ some a))
unfolding optional
optional-eq-ok null checked h = inl (ground arith)
optional-eq-ok (bool b) checked h = inr (found-eq-ok checked h)
optional-eq-ok (int n) checked h = inr (found-eq-ok checked h)
optional-eq-ok (float x) checked h = inr (found-eq-ok checked h)
optional-eq-ok (str s) checked h = inr (found-eq-ok checked h)
optional-eq-ok other checked h = inr (found-eq-ok checked h)

-- `value == text`
unfoldable pub equals : Value → Text → Bool
equals (str s) t = text_eq s t
equals _ t = false

-- `value in get_args(…)`
unfoldable pub member : List Text → Value → Admitted Text
unfolding equals
member [] value = err reward_contract_error
member (t ∷ ts) value = let later = member ts value in if equals value t then ok t else later

-- The literals of slither_contracts, and `CONSTANTS.get("externalRewardVersion")`.
pub record RewardWire : Type 0 where
  pub transition_kinds : List Text
  pub end_reasons : List Text
  pub control_sources : List Text
  pub external_reward_version : Value

pub record Command : Type 0 where
  pub sequence : Text
  pub client_action_id : Option Text
  pub client_tick : Text
  pub accepted_at_step : Text

pub record AppliedCommand : Type 0 where
  pub command : Command
  pub first_applied_step : Text

pub record ControlState : Type 0 where
  pub source : Option Text
  pub selected_at_step : Option Text
  pub accepted_count : ℕ
  pub applied_count : ℕ
  pub superseded_count : ℕ
  pub accepted_command : Option Command
  pub applied_command : Option AppliedCommand

pub record BodyState : Type 0 where
  pub starting_length : ℕ
  pub body_length : ℕ
  pub retained_growth : ℕ

-- Floats are binary64 patterns.
pub record Deltas : Type 0 where
  pub elapsed_seconds : ℕ
  pub alive_seconds_delta : ℕ
  pub points_delta : ℕ
  pub survival_points_delta : ℕ
  pub food_points_delta : ℕ
  pub kill_points_delta : ℕ
  pub other_points_delta : ℕ
  pub boost_points_spent_delta : ℕ
  pub food_count_delta : ℕ
  pub food_value_delta : ℕ
  pub length_delta : ℤ
  pub retained_growth_delta : ℤ
  pub kills_delta : ℕ

-- `_life(reward)`
pub record Life : Type 0 where
  pub run_id : Text
  pub world_epoch : Text
  pub lease_id : Text
  pub physical_snake_id : Text
  pub snake_id : ℕ

-- An admitted envelope.
pub record Reward : Type 0 where
  pub life : Life
  pub observation_sequence : Text
  pub previous_observation_sequence : Option Text
  pub from_step : Text
  pub to_step : Text
  pub transition_kind : Text
  pub reason : Option Text
  pub state : BodyState
  pub deltas : Deltas
  pub control : ControlState
