-- ===== src/Tail/Last.antt =====
-- The queue holds the last lines.
use school_projects.Base.{
  ℕ, suc, ◌≤◌, ◌≡◌, refl, sym, ◌∙◌, ap, arith, Bool, true, false, Bool-cases, inl, inr, Option,
  none, some, List, [], ◌∷◌, ◌++◌, append-nil, append_assoc, length, length-append, ltb,
  if◌then◌else◌,
}
use school_projects.Base.Int.{ℤ, pos, negsuc}
use school_projects.Tail.{
  Text, number_option, stdin_name, accept_number, get_option, read_and_write, pop, read_lines,
  input, write_last, run_options, tail2,
}

-- The last `n` of a list, all of it if it is shorter.
abbrev pub last : {A : Type 0} → (n : ℕ) → List A → List A
last n [] = []
last n (x ∷ xs) = if ltb n (length (x ∷ xs)) then last n xs else x ∷ xs

last-short : {A : Type 0} (n : ℕ) (xs : List A) → length xs ≤ n → last n xs ≡ xs
last-short n [] h = refl
last-short n (x ∷ xs) h = let all : ltb n (length (x ∷ xs)) ≡ false = ground arith in rw all refl

-- A queue that is too long by one loses its front.
last-pop :
    {A : Type 0} (n : ℕ) (xs ys : List A)
    → length xs ≡ suc n
    → last n (xs ++ ys) ≡ last n (pop xs ++ ys)
last-pop n [] ys h = absurd (omega (arith, h))
last-pop n (x ∷ xs) ys h =
    let more : ltb n (length (x ∷ (xs ++ ys))) ≡ true = ground (arith, h, length-append xs ys) in
    rw more refl

length-pop : {A : Type 0} (n : ℕ) (xs : List A) → length xs ≡ suc n → length (pop xs) ≡ n
length-pop n [] h = absurd (omega (arith, h))
length-pop n (x ∷ xs) h = omega (arith, h)

read_lines-last :
    {A : Type 0} (n : ℕ) (lines buffer : List A)
    → length buffer ≤ n
    → read_lines n lines buffer ≡ last n (buffer ++ lines)
unfolding read_lines
read_lines-last n [] buffer h = sym (ap (last n) (append-nil buffer) ∙ last-short n buffer h)
read_lines-last n (line ∷ lines) buffer h =
    let pushed = buffer ++ line ∷ [] in
    let size : length pushed ≡ suc (length buffer) =
      omega (arith, length-append buffer (line ∷ [])) in
    let same : pushed ++ lines ≡ buffer ++ line ∷ lines = append_assoc buffer (line ∷ []) lines in
    elim (Bool-cases (ltb n (length pushed))) [
      | inl over ↦
          let full : length pushed ≡ suc n = ground (arith, over, size, h) in
          rw over (
            read_lines-last n lines (pop pushed) (omega (arith, length-pop n pushed full))
            ∙ sym (last-pop n pushed lines full)
            ∙ ap (last n) same)
      | inr within ↦
          rw within (read_lines-last n lines pushed (ground (arith, within)) ∙ ap (last n) same)
    ]

-- What the program is to print: the last lines of the standard input or of a file, ten unless `-n` says
-- otherwise; none where it fails.
module _ (strtol : Text → ℤ × Bool) (open_file : Text → Option (List Text))
    (stdin : List Text) where
  abbrev pub last_of : ℕ → Option (List Text) → Option (List Text)
  last_of n none = none
  last_of n (some lines) = some (last n lines)

  abbrev pub last_by : ℤ × Bool → Option (List Text) → Option (List Text)
  last_by (pos n, true) lines = last_of n lines
  last_by (pos n, false) lines = none
  last_by (negsuc n, b) lines = none

  abbrev content : (file : Text) → Option (List Text)
  content = input strtol open_file stdin

  write_last-last_of :
      (n : ℕ) (o : Option (List Text)) → write_last strtol open_file stdin n o ≡ last_of n o
  write_last-last_of n none = refl
  write_last-last_of n (some lines) = ap some (read_lines-last n lines [] (omega arith))

  numbered :
      (k : ℤ × Bool) (file : Text)
      → run_options strtol open_file stdin (accept_number k file)
        ≡ last_by k (input strtol open_file stdin file)
  unfolding run_options accept_number read_and_write
  numbered (pos n, true) file = write_last-last_of n (input strtol open_file stdin file)
  numbered (pos n, false) file = refl
  numbered (negsuc n, true) file = refl
  numbered (negsuc n, false) file = refl

  -- Without options tail2 prints the last ten lines of its standard input, with a file the last ten of that,
  -- and with `-n` as many as the number says, if all of it is read and it is not negative. It
  -- fails if the file cannot be opened.
  pub tail2_lem :
      (file number : Text)
      → (tail2 strtol open_file stdin [] ≡ some (last 10 stdin))
        × (tail2 strtol open_file stdin (file ∷ [])
            ≡ last_of 10 (input strtol open_file stdin file))
        × (tail2 strtol open_file stdin (number_option ∷ number ∷ [])
            ≡ last_by (strtol number) (some stdin))
        × (tail2 strtol open_file stdin (number_option ∷ number ∷ file ∷ [])
            ≡ last_by (strtol number) (input strtol open_file stdin file))
  unfolding tail2 get_option run_options read_and_write
  tail2_lem file number = (
    ap some (read_lines-last 10 stdin [] (omega arith)),
    write_last-last_of 10 (content file),
    numbered (strtol number) stdin_name,
    numbered (strtol number) file,
  )
