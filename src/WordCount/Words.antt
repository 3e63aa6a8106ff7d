-- ===== src/WordCount/Words.antt =====
-- The words that `get_word` returns.
use school_projects.Base.{
  ℕ, suc, ◌+◌, ◌≤◌, ◌<◌, ◌≡◌, refl, arith, Bool, true, false, List, [], ◌∷◌, ◌++◌, append-nil,
  append_assoc, length,
}
use school_projects.Base.Int.{ℤ}
use school_projects.HashTable.{Key}
use school_projects.WordCount.{word, end_of_file, skip_spaces, word_loop, after_spaces, get_word}

module _ (isspace : ℤ → Bool) where
  -- The characters are all spaces, or none is.
  abbrev pub AllSpaces : List ℤ → Type 0
  AllSpaces [] = Unit
  AllSpaces (c ∷ cs) = (isspace c ≡ true) × AllSpaces cs

  abbrev pub NoSpaces : List ℤ → Type 0
  NoSpaces [] = Unit
  NoSpaces (c ∷ cs) = (isspace c ≡ false) × NoSpaces cs

  word_loop-word :
      (max i : ℕ) (s w : Key) (sp : ℤ) (rest : List ℤ)
      → NoSpaces w
      → isspace sp ≡ true
      → length w + i ≤ max
      → word_loop isspace max i s (w ++ sp ∷ rest) ≡ word (s ++ w) rest false
  unfolding word_loop
  word_loop-word max i s [] sp rest n h l = ground (arith, append-nil s)
  word_loop-word max i s (c ∷ w) sp rest n h l = ground (
    arith,
    n,
    append_assoc s (c ∷ []) w,
    word_loop-word max (suc i) (s ++ (c ∷ [])) w sp rest n.1 h (omega arith),
  )

  word_loop_end :
      (max i : ℕ) (s w : Key)
      → NoSpaces w
      → length w + i ≤ max
      → word_loop isspace max i s w ≡ end_of_file
  unfolding word_loop
  word_loop_end max i s [] n l = refl
  word_loop_end max i s (c ∷ w) n l =
      ground (arith, n, word_loop_end max (suc i) (s ++ (c ∷ [])) w n.1 (omega arith))

  skip_spaces-append :
      (sps : List ℤ) (c : ℤ) (cs : List ℤ)
      → AllSpaces sps
      → isspace c ≡ false
      → skip_spaces isspace (sps ++ c ∷ cs) ≡ c ∷ cs
  unfolding skip_spaces
  skip_spaces-append [] c cs h n = ground (arith, n)
  skip_spaces-append (sp ∷ sps) c cs h n = ground (arith, h, skip_spaces-append sps c cs h.1 n)

  -- At a word of at most `max` characters with a space behind, `get_word` returns the word, and the rest of
  -- the input starts after the space.
  pub get_word_lem :
      (max : ℕ) (c : ℤ) (w : Key) (sp : ℤ) (rest : List ℤ)
      → NoSpaces (c ∷ w)
      → isspace sp ≡ true
      → length (c ∷ w) ≤ max
      → get_word isspace max ((c ∷ w) ++ sp ∷ rest) ≡ word (c ∷ w) rest false
  unfolding get_word
  get_word_lem max c w sp rest n h l =
      ground (arith, n, word_loop-word max 0 [] (c ∷ w) sp rest n h (omega arith))

  -- With spaces in front of a word that is shorter than `max` and has a space behind, `get_word`
  -- returns the word with its first character twice.
  get_word_doubles :
      (max : ℕ) (first : ℤ) (spaces : List ℤ) (c : ℤ) (w : Key) (sp : ℤ) (rest : List ℤ)
      → AllSpaces (first ∷ spaces)
      → NoSpaces (c ∷ w)
      → isspace sp ≡ true
      → length (c ∷ w) < max
      → get_word isspace max ((first ∷ spaces) ++ ((c ∷ w) ++ sp ∷ rest))
        ≡ word (c ∷ c ∷ w) rest false
  unfolding get_word after_spaces
  get_word_doubles max first spaces c w sp rest a n h l =
      rw (a.0, skip_spaces-append spaces c (w ++ sp ∷ rest) a.1 n.0)
        (ground (arith, word_loop-word max 1 (c ∷ []) (c ∷ w) sp rest n h))

  -- A word that the input ends with, and no space behind it, is not returned.
  pub get_word_loses :
      (max : ℕ) (c : ℤ) (w : Key)
      → NoSpaces (c ∷ w)
      → length (c ∷ w) ≤ max
      → get_word isspace max (c ∷ w) ≡ end_of_file
  unfolding get_word
  get_word_loses max c w n l = ground (arith, n, word_loop_end max 0 [] (c ∷ w) n (omega arith))
