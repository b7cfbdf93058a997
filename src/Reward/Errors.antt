-- ===== src/Reward/Errors.antt =====
-- Which of the validators' calls raise, and what: the scalars.
use py_rl_trainer.Prelude.{
  ℕ, ◌≡◌, refl, Bool, true, false, Option, none, some, List, [], ◌∷◌, arith, ok, err, ◌>>=◌, guard,
  if◌then◌else◌,
}
use py_rl_trainer.Prelude.Int.{ℤ, pos, negsuc}
use py_rl_trainer.Wire.{Value, null, bool, int, float, str, other}
use py_rl_trainer.Wire.Str.{Text}
use py_rl_trainer.Wire.Float.{float_of_int}
use py_rl_trainer.Reward.{
  Admitted, Shaped, misshapen, shaped, shape, equals, converted, sign_and_size, identity,
  exact_count, exact_integer, number, optional, found, member, RewardError, reward_contract_error,
}

-- the call raises this one error or returns
pub data Only (e : RewardError) {A : Type 0} : Admitted A → Type 0 where
  returns : (a : A) → Only e (ok a)
  raises : Only e (err e)

abbrev pub OnlyContract : {A : Type 0} → Admitted A → Type 0
OnlyContract m = Only reward_contract_error m

pub raised : {e x : RewardError} {A : Type 0} {m : Admitted A} → Only e m → m ≡ err x → x ≡ e
raised (returns a) h = cc
raised raises h = ground arith

pub either-Only :
    {e : RewardError} {A : Type 0} {m k : Admitted A} (b : Bool)
    → Only e m
    → Only e k
    → Only e (if b then m else k)
either-Only true h l = h
either-Only false h l = l

pub bind :
    {e : RewardError} {A B : Type 0} {m : Admitted A} {k : A → Admitted B}
    → Only e m
    → ((a : A) → Only e (k a))
    → Only e (m >>= k)
bind (returns a) f = f a
bind raises f = raises

pub guard-Only : {e : RewardError} (b : Bool) → Only e (guard b e)
guard-Only true = returns tt
guard-Only false = raises

pub ruleset raising = (bind, guard-Only, returns, raises)

pub identity-OnlyContract : (v : Value) (z : Bool) → OnlyContract (identity v z)
unfolding identity
identity-OnlyContract (str s) z = search raising
identity-OnlyContract null z = raises
identity-OnlyContract (bool b) z = raises
identity-OnlyContract (int n) z = raises
identity-OnlyContract (float x) z = raises
identity-OnlyContract other z = raises

pub choice-OnlyContract :
    {A : Type 0} (b : Bool) (a : A) → OnlyContract (if b then ok a else err reward_contract_error)
choice-OnlyContract true a = returns a
choice-OnlyContract false a = raises

pub count-OnlyContract : (v : Value) (low high : ℕ) → OnlyContract (exact_count v low high)
unfolding exact_count
count-OnlyContract (int (pos n)) low high = search (raising, choice-OnlyContract)
count-OnlyContract (int (negsuc n)) low high = raises
count-OnlyContract (str s) low high = raises
count-OnlyContract null low high = raises
count-OnlyContract (bool b) low high = raises
count-OnlyContract (float x) low high = raises
count-OnlyContract other low high = raises

pub shape-OnlyContract : {A : Type 0} (raw : Shaped A) → OnlyContract (shape raw)
unfolding shape
shape-OnlyContract misshapen = raises
shape-OnlyContract (shaped fields) = returns fields

pub integer-OnlyContract : (v : Value) (low high : ℤ) → OnlyContract (exact_integer v low high)
unfolding exact_integer
integer-OnlyContract (int n) low high = search (raising, choice-OnlyContract)
integer-OnlyContract (str s) low high = raises
integer-OnlyContract null low high = raises
integer-OnlyContract (bool b) low high = raises
integer-OnlyContract (float x) low high = raises
integer-OnlyContract other low high = raises

pub refusal-OnlyContract :
    {A : Type 0} (b : Bool) (a : A) → OnlyContract (if b then err reward_contract_error else ok a)
refusal-OnlyContract true a = raises
refusal-OnlyContract false a = returns a

pub converted-OnlyContract : (signed : Bool) (x : Option ℕ) → OnlyContract (converted signed x)
unfolding converted sign_and_size
converted-OnlyContract signed none = raises
converted-OnlyContract signed (some x) = search (raising, refusal-OnlyContract)

pub number-OnlyContract : (v : Value) (signed : Bool) → OnlyContract (number v signed)
unfolding number
number-OnlyContract (float x) signed = converted-OnlyContract signed (some x)
number-OnlyContract (int n) signed = converted-OnlyContract signed (float_of_int n)
number-OnlyContract (str s) signed = raises
number-OnlyContract null signed = raises
number-OnlyContract (bool b) signed = raises
number-OnlyContract other signed = raises

pub found-OnlyContract : {A : Type 0} (m : Admitted A) → OnlyContract m → OnlyContract (found m)
unfolding found
found-OnlyContract (ok a) h = returns (some a)
found-OnlyContract (err e) h =
    let same : e ≡ reward_contract_error = raised h refl in rw same raises

pub optional-OnlyContract :
    {A : Type 0} (v : Value) (m : Admitted A) → OnlyContract m → OnlyContract (optional v m)
unfolding optional
optional-OnlyContract null m h = returns none
optional-OnlyContract (bool b) m h = found-OnlyContract m h
optional-OnlyContract (int n) m h = found-OnlyContract m h
optional-OnlyContract (float x) m h = found-OnlyContract m h
optional-OnlyContract (str s) m h = found-OnlyContract m h
optional-OnlyContract other m h = found-OnlyContract m h

pub member-OnlyContract : (ts : List Text) (v : Value) → OnlyContract (member ts v)
unfolding member
member-OnlyContract [] v = raises
member-OnlyContract (t ∷ ts) v = either-Only (equals v t) (returns t) (member-OnlyContract ts v)

pub ruleset scalars = (
  raising, shape-OnlyContract, identity-OnlyContract, count-OnlyContract, integer-OnlyContract,
  number-OnlyContract, optional-OnlyContract, member-OnlyContract,
)
