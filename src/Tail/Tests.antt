-- ===== src/Tail/Tests.antt =====
-- An input of three lines, and a file of two.
use school_projects.Base.{
  arith, ◌≡◌, Bool, true, false, Option, none, some, List, [], ◌∷◌, if◌then◌else◌,
}
use school_projects.Base.Int.{ℤ, pos}
use school_projects.Tail.{Text, same_text, number_option, tail2}
use school_projects.Tail.Buffer.{tail}
use school_projects.Tail.Rows.{encode_lines, tail_lem}
use school_projects.Tail.Last.{last, last_of, last_by, tail2_lem}

abbrev three_lines : List Text
three_lines = (5 ∷ []) ∷ (6 ∷ []) ∷ (7 ∷ []) ∷ []

-- A text of one digit is a number.
abbrev digit : Text → ℤ × Bool
digit (d ∷ []) = (pos d, true)
digit _ = (pos 0, false)

-- The only file has the name 9.
abbrev files : Text → Option (List Text)
files name = if same_text name (9 ∷ []) then some ((1 ∷ []) ∷ (2 ∷ []) ∷ []) else none

tail2_lem_example :
    (tail2 digit files three_lines [] ≡ some (last 10 three_lines))
    × (tail2 digit files three_lines ((9 ∷ []) ∷ [])
        ≡ last_of digit files three_lines 10 (files (9 ∷ [])))
    × (tail2 digit files three_lines (number_option ∷ (2 ∷ []) ∷ [])
        ≡ last_by digit files three_lines (pos 2, true) (some three_lines))
    × (tail2 digit files three_lines (number_option ∷ (2 ∷ []) ∷ (9 ∷ []) ∷ [])
        ≡ last_by digit files three_lines (pos 2, true) (files (9 ∷ [])))
tail2_lem_example = tail2_lem digit files three_lines (9 ∷ []) (2 ∷ [])

-- The last two of three lines.
tail_lem_example : tail 2 0 (encode_lines three_lines) ≡ some (encode_lines (last 2 three_lines))
tail_lem_example =
    tail_lem 2 0 three_lines
      (
        (omega arith, tt),
        omega arith,
        ((omega arith, tt), omega arith, ((omega arith, tt), omega arith, tt)),
      )
      (omega arith) (omega arith) (omega arith)
