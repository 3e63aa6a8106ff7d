-- ===== src/Tail.antt =====
-- The program tail of sem_2/ijc/proj_2: the command line of tail.c and tail2.cc, and the loop of tail2.cc over
-- the lines of its input. `strtol` and the content of files are parameters; `args` is `argv` without the
-- name of the program.
mod Tests
pub mod Last
pub mod Buffer
pub mod Rows
use school_projects.Base.{
  ℕ, zero, suc, ◌-◌, Bool, true, false, ◌&&◌, Option, none, some, List, [], ◌∷◌, ◌++◌, length, ltb,
  ◌==◌, if◌then◌else◌,
}
use school_projects.Base.Int.{ℤ, pos, negsuc}

abbrev pub Text : Type 0
Text = List ℕ

abbrev pub same_text : Text → Text → Bool
same_text [] [] = true
same_text (a ∷ xs) (b ∷ ys) = a == b && same_text xs ys
same_text _ _ = false

-- "-n"
abbrev pub number_option : Text
number_option = 45 ∷ 110 ∷ []

-- "stdin", the name that stands for the standard input.
abbrev pub stdin_name : Text
stdin_name = 115 ∷ 116 ∷ 100 ∷ 105 ∷ 110 ∷ []

pub record Options : Type 0 where
  pub number_of_lines : ℕ
  pub file : Text

-- `strtol` gives the number, and whether the whole text was read; none for the wrong arguments.
unfoldable pub accept_number : ℤ × Bool → (file : Text) → Option Options
accept_number (pos n, true) file = some (record { number_of_lines = n; file = file })
accept_number (negsuc n, true) file = none
accept_number (n, false) file = none

module _ (strtol : Text → ℤ × Bool) where
  unfoldable pub get_option : (args : List Text) → Option Options
  unfolding accept_number
  get_option [] = some (record { number_of_lines = 10; file = stdin_name })
  get_option (file ∷ []) = some (record { number_of_lines = 10; file = file })
  get_option (option ∷ n ∷ []) =
      if same_text option number_option then accept_number (strtol n) stdin_name else none
  get_option (option ∷ n ∷ file ∷ []) =
      if same_text option number_option then accept_number (strtol n) file else none
  get_option (a ∷ b ∷ c ∷ d ∷ rest) = none

module _ {ℓ} {A : Type ℓ} where
  abbrev pub pop : List A → List A
  pop [] = []
  pop (x ∷ xs) = xs

  -- The loop over `getline`: `buffer` is the queue, its front first.
  unfoldable pub read_lines : (number_of_lines : ℕ) → (lines buffer : List A) → List A
  read_lines n [] buffer = buffer
  read_lines n (line ∷ lines) buffer =
      let pushed = buffer ++ line ∷ [] in
      read_lines n lines (if ltb n (length pushed) then pop pushed else pushed)

-- The program tail2.cc: the lines that it prints, or none for EXIT_FAILURE.
module _ (strtol : Text → ℤ × Bool) (open_file : Text → Option (List Text))
    (stdin : List Text) where
  abbrev pub input : (file : Text) → Option (List Text)
  input file = if same_text file stdin_name then some stdin else open_file file

  abbrev pub write_last : ℕ → Option (List Text) → Option (List Text)
  write_last n none = none
  write_last n (some lines) = some (read_lines n lines [])

  unfoldable pub read_and_write : Options → Option (List Text)
  read_and_write o = write_last o.number_of_lines (input o.file)

  unfoldable pub run_options : Option Options → Option (List Text)
  unfolding read_and_write
  run_options none = none
  run_options (some o) = read_and_write o

  unfoldable pub tail2 : (args : List Text) → Option (List Text)
  unfolding get_option run_options
  tail2 args = run_options (get_option strtol args)
