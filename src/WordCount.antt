-- ===== src/WordCount.antt =====
-- The word counter of sem_2/ijc/proj_2: get_word of io.c and the loop of wordcount.c, over the table of
-- LinkedTable. A parameter stands for `isspace`; the input is the characters that `getc` still returns.
pub mod Words
pub mod Counts
mod Tests
use school_projects.Base.{
  ℕ, zero, suc, Bool, true, false, Option, none, some, List, [], ◌∷◌, ◌++◌, ◌==◌, if◌then◌else◌,
}
use school_projects.Base.Int.{ℤ, pos, eqb_ℤ}
use school_projects.Memory.{Ptr, null, Outcome, done, undefined, exhausted, and_then}
use school_projects.HashTable.{Key}
use school_projects.LinkedTable.{Htab, htab_lookup_add}

abbrev pub is_nul : ℤ → Bool
is_nul c = eqb_ℤ c (pos 0)

-- The string that functions like `strcmp` and `strlen` see: it ends at the first `\0`.
abbrev pub c_string : List ℤ → Key
c_string [] = []
c_string (c ∷ cs) = if is_nul c then [] else c ∷ c_string cs

-- What `get_word` returns: all characters that it stores in `s` before the `\0` behind them, with the rest
-- of the input and whether it sets `warning`, or EOF. A loop that goes on reading at the end of the input
-- never ends.
pub data Got : Type 0 where
  word : Key → List ℤ → Bool → Got
  end_of_file : Got
  endless : Got

abbrev pub max_length : ℕ
max_length = 127

module _ (isspace : ℤ → Bool) where
  -- `while (isspace(c = getc(f))); ungetc(c, f);`
  unfoldable pub skip_spaces : List ℤ → List ℤ
  skip_spaces [] = []
  skip_spaces (c ∷ cs) = if isspace c then skip_spaces cs else c ∷ cs

  -- `while (!isspace(getc(f)));`, which EOF does not end.
  unfoldable pub skip_word : List ℤ → Option (List ℤ)
  skip_word [] = none
  skip_word (c ∷ cs) = if isspace c then some cs else skip_word cs

  unfoldable pub shortened : Key → List ℤ → Got
  shortened s cs = elim (skip_word cs) [ none ↦ endless | some rest ↦ word s rest true ]

  -- The loop with `i` characters in `s`, where it does not skip spaces.
  unfoldable pub word_loop : (max i : ℕ) → (s : Key) → List ℤ → Got
  word_loop max i s [] = end_of_file
  word_loop max i s (c ∷ cs) =
      let longer = word_loop max (suc i) (s ++ (c ∷ [])) cs in
      if isspace c then word s cs false else (if i == max then shortened s cs else longer)

  -- The first round after spaces: `c` is the next character, which `ungetc` has put back as well.
  unfoldable pub after_spaces : ℕ → List ℤ → Got
  after_spaces max [] = if max == 0 then endless else end_of_file
  after_spaces max (c ∷ cs) =
      if max == 0 then shortened [] (c ∷ cs) else word_loop max 1 (c ∷ []) (c ∷ cs)

  unfoldable pub get_word : ℕ → List ℤ → Got
  get_word max [] = end_of_file
  get_word max (c ∷ cs) =
      if isspace c then after_spaces max (skip_spaces cs) else word_loop max 0 [] (c ∷ cs)

  -- The loop of `main`, whose keys are the C strings in `word`; `items n` and `strings n` are what `malloc`
  -- returns in the round `n`. The result is false if the program ends with EXIT_FAILURE.
  unfoldable pub count_words : (items strings : ℕ → Ptr) → ℕ → ℕ → List ℤ → Htab → Outcome Htab Bool
  count_words items strings zero n input t = exhausted
  count_words items strings (suc fuel) n input t = elim (get_word max_length input) [
    | end_of_file ↦ done true t
    | endless ↦ exhausted
    | word w rest warned ↦
        and_then (htab_lookup_add (items n) (strings n) true (some (c_string w)) t) (λ p t'.
          elim (p == null) [
            | true ↦ done false t'
            | false ↦ count_words items strings fuel (suc n) rest t'
          ])
  ]
