-- ===== src/Psed/Arguments.antt =====
-- The check of the command line in `main`: pairs of an expression and its replacement.
use school_projects.Base.{
  ℕ, suc, ◌+◌, ◌-◌, ◌*◌, ◌/◌, ◌%◌, ◌<◌, ◌≡◌, arith, ◌||◌, Option, none, some, ltb, ◌==◌,
  if◌then◌else◌, Bool-cases, inl, inr,
}

-- `regexCount`; none with the message that the number of arguments is wrong, and the exit code 1.
unfoldable pub regex_count : ℕ → Option ℕ
regex_count argc = if argc % 2 == 0 || ltb argc 3 then none else some ((argc - 1) / 2)

-- The arguments of the thread `i`: its expression and its replacement.
abbrev pub search_argument : ℕ → ℕ
search_argument i = 2 * i + 1

abbrev pub replace_argument : ℕ → ℕ
replace_argument i = 2 * i + 2

-- For an accepted command line every thread has two arguments of its own, and no argument is left over.
pub regex_count_lem :
    (argc n : ℕ) → regex_count argc ≡ some n → (0 < n) × (argc ≡ suc (replace_argument (n - 1)))
unfolding regex_count
regex_count_lem argc n e = elim (Bool-cases (argc % 2 == 0 || ltb argc 3)) [
  | inl wrong ↦ absurd (ground (arith, e, wrong))
  | inr right ↦ ground (arith, e, right)
]
