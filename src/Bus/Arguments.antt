-- ===== src/Bus/Arguments.antt =====
-- `get_arg` and `random_number`. A parameter stands for `strtol`: the number that a text begins with, and
-- whether the text ends there (`*tmp == '\0'`). Another stands for what `rand` returns.
use school_projects.Base.{
  ℕ, ◌%◌, ◌≤◌, ◌<◌, ◌≡◌, ◌↔◌, ◌==◌, arith, Bool, true, false, not, ◌||◌, Option, none, some, List,
  [], ◌∷◌, if◌then◌else◌,
}
use school_projects.Base.Int.{ℤ, pos, pos_part, neg_part, ltb_ℤ}

pub record Arguments : Type 0 where
  pub r : ℤ
  pub c : ℤ
  pub art : ℤ
  pub abt : ℤ

-- `INT_MAX` of `limits.h`.
abbrev pub int_max : ℕ
int_max = 2147483647

abbrev pub max_time : ℕ
max_time = 1000

-- `rand() % max`, `n` being what `rand` returns; the result is below a `max` that is not 0.
pub random_number : (n max : ℕ) → ℕ
random_number n max = if max == 0 then 0 else n % max

pub random_number-lt : (n max : ℕ) → 0 < max → random_number n max < max
unfolding random_number
random_number-lt n max h = grind arith

module _ {Text : Type 0} (strtol : Text → ℤ × Bool) where
  -- `number < low || number > high || *tmp != '\0'`, where `number <= 0` is `number < 1`
  pub wrong : (low high : ℤ) → Text → Bool
  wrong low high t =
      let (number, ends) = strtol t in ltb_ℤ number low || ltb_ℤ high number || not ends

  -- `none` is `exit(1)`. The casts to `int` keep the numbers that pass the tests.
  pub get_arg : (argv : List Text) → Option Arguments
  get_arg (program ∷ r ∷ c ∷ art ∷ abt ∷ []) =
      if wrong (pos 1) (pos int_max) r
        || wrong (pos 1) (pos int_max) c
        || wrong (pos 0) (pos max_time) art
        || wrong (pos 0) (pos max_time) abt
      then none
      else some (record {
        r = (strtol r).0;
        c = (strtol c).0;
        art = (strtol art).0;
        abt = (strtol abt).0;
      })
  get_arg _ = none

  -- A text that is a number from `low` to `high`, without a rest.
  abbrev pub Reads : (low high : ℕ) → Text → ℤ → Type 0
  Reads low high t z =
      (strtol t ≡ (z, true)) × (neg_part z ≡ 0) × (low ≤ pos_part z) × (pos_part z ≤ high)

  pub record Accepted (r c art abt : Text) (a : Arguments) : Type 0 where
    pub riders : Reads 1 int_max r a.r
    pub seats : Reads 1 int_max c a.c
    pub arrival_time : Reads 0 max_time art a.art
    pub bus_time : Reads 0 max_time abt a.abt

  passes :
      (low high : ℕ) (t : Text)
      → wrong (pos low) (pos high) t ≡ false
      → Reads low high t (strtol t).0
  unfolding wrong
  passes low high t h = ground arith

  fails_not :
      (low high : ℕ) (t : Text) (z : ℤ) → Reads low high t z → wrong (pos low) (pos high) t ≡ false
  unfolding wrong
  fails_not low high t z h = ground arith

  get_arg_sound :
      (program r c art abt : Text) (a : Arguments)
      → get_arg (program ∷ r ∷ c ∷ art ∷ abt ∷ []) ≡ some a
      → Accepted r c art abt a
  unfolding get_arg
  get_arg_sound program r c art abt a h =
      ground (
        arith,
        passes 1 int_max r,
        passes 1 int_max c,
        passes 0 max_time art,
        passes 0 max_time abt,
      )

  get_arg_complete :
      (program r c art abt : Text) (a : Arguments)
      → Accepted r c art abt a
      → get_arg (program ∷ r ∷ c ∷ art ∷ abt ∷ []) ≡ some a
  unfolding get_arg
  get_arg_complete program r c art abt a h = ground (
    arith,
    fails_not 1 int_max r a.r,
    fails_not 1 int_max c a.c,
    fails_not 0 max_time art a.art,
    fails_not 0 max_time abt a.abt,
  )

  -- With four arguments `get_arg` returns what `strtol` read from them exactly when each is a number without a
  -- rest, the first two from 1 to INT_MAX and the last two from 0 to MAX_TIME.
  pub get_arg_iff :
      (program r c art abt : Text) (a : Arguments)
      → (get_arg (program ∷ r ∷ c ∷ art ∷ abt ∷ []) ≡ some a) ↔ Accepted r c art abt a
  get_arg_iff program r c art abt a =
      (get_arg_sound program r c art abt a, get_arg_complete program r c art abt a)
