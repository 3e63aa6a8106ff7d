-- ===== src/Tail/Buffer.antt =====
-- `read_and_write` of tail.c: a buffer of `n` rows of 1026 characters, which are written in a circle.
pub mod Lines
use school_projects.Base.{
  ℕ, zero, suc, ◌+◌, ◌%◌, ◌^◌, ltb, Bool, true, false, Option, none, some, List, [], ◌∷◌, ◌++◌, set,
  ◌==◌, if◌then◌else◌,
}
use school_projects.Base.Family.{change}
use school_projects.Tail.{Text}

-- `buffer`, `i`, `charsCount` and `warning`; `skipping` is true in the loop over the rest of a line that is
-- too long.
pub record Reader : Type 0 where
  pub buffer : ℕ → Text
  pub i : ℕ
  pub chars_count : ℕ
  pub warning : Bool
  pub skipping : Bool

abbrev pub zeros : ℕ → Text
zeros zero = []
zeros (suc k) = 0 ∷ zeros k

abbrev pub empty_reader : Reader
empty_reader = record {
  buffer = λ r. zeros 1026;
  i = 0;
  chars_count = 0;
  warning = false;
  skipping = false;
}

-- One row: at most `count` characters, up to the first newline; `previous` is the character before.
unfoldable pub print_row : (count previous : ℕ) → Text → Text
print_row zero previous row = []
print_row (suc k) previous [] = []
print_row (suc k) previous (c ∷ row) = if previous == 10 then [] else c ∷ print_row k c row

-- The character before a row is the last one of the row before, for the first row what is before the buffer.
abbrev pub last_of_row : Text → ℕ
last_of_row [] = 0
last_of_row (c ∷ []) = c
last_of_row (c ∷ (d ∷ row)) = last_of_row (d ∷ row)

abbrev pub previous_of : (outside r : ℕ) → (ℕ → Text) → ℕ
previous_of outside zero buffer = outside
previous_of outside (suc r) buffer = last_of_row (buffer r)

module _ (n : ℕ) where
  -- `buffer[i % numberOfLines][column] = c`
  abbrev pub put : (column c : ℕ) → Reader → Reader
  put column c s = record s {
    buffer = change s.buffer (s.i % n) (set (s.buffer (s.i % n)) column c);
  }

  abbrev pub next_line : Reader → Reader
  next_line s = record s { i = suc s.i; chars_count = 0; skipping = false }

  -- MAX_LENGTH is 1024.
  abbrev pub check_length : Reader → Reader
  check_length s =
      if s.chars_count == 1025
      then put 1024 10 (record s { warning = true; skipping = true })
      else s

  abbrev pub store : (c : ℕ) → Reader → Reader
  store c s = record (put s.chars_count c s) { chars_count = suc s.chars_count }

  unfoldable pub take_char : (c : ℕ) → Reader → Reader
  take_char c s =
      if s.skipping
      then (if c == 10 then next_line s else s)
      else (if c == 10 then next_line (store c s) else check_length (store c s))

  unfoldable pub take_chars : Text → Reader → Reader
  unfolding take_char
  take_chars [] s = s
  take_chars (c ∷ cs) s = take_chars cs (take_char c s)

  -- `k` rows from the row `i % numberOfLines` on.
  unfoldable pub print_rows : (outside k i : ℕ) → (ℕ → Text) → Text
  unfolding print_row
  print_rows outside zero i buffer = []
  print_rows outside (suc k) i buffer =
      print_row 1025 (previous_of outside (i % n) buffer) (buffer (i % n))
      ++ print_rows outside k (suc i) buffer

  -- None if the loop over the rest of a line does not end, or if `i`, an `int`, overflows: in the end it is the
  -- number of lines read and `n` more.
  unfoldable pub tail : (outside : ℕ) → (input : Text) → Option Text
  unfolding take_chars print_rows
  tail outside input =
      let s = take_chars input empty_reader in
      if n == 0
      then some []
      else if s.skipping
      then none
      else (if ltb (s.i + n) (2 ^ 31) then some (print_rows outside n s.i s.buffer) else none)
