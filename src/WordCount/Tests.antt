-- ===== src/WordCount/Tests.antt =====
-- Words between spaces, in a table of four slots.
use school_projects.Base.{ℕ, ◌+◌, ◌≡◌, refl, arith, Bool, true, some, List, [], ◌∷◌}
use school_projects.Base.Int.{ℤ, pos, eqb_ℤ}
use school_projects.Memory.{Ptr, done}
use school_projects.HashTable.{Key}
use school_projects.LinkedTable.{Htab, htab_init, ulong}
use school_projects.LinkedTable.Count.{count}
use school_projects.WordCount.{count_words}
use school_projects.WordCount.Counts.{wordcount_lem, text, occurrences}

abbrev isspace : ℤ → Bool
isspace c = eqb_ℤ c (pos 32)

abbrev ab : Key
ab = pos 97 ∷ pos 98 ∷ []

abbrev pairs : List (Key × ℤ)
pairs = (ab, pos 32) ∷ (pos 99 ∷ [], pos 32) ∷ (ab, pos 32) ∷ []

abbrev items : ℕ → Ptr
items n = 2 + n + n

abbrev strings : ℕ → Ptr
strings n = 3 + n + n

wordcount_lem_example :
    (t : Htab) × (t' : Htab) × (htab_init 1 4 ≡ some t)
    × (count_words isspace items strings 4 0 (text pairs) t ≡ done true t')
    × ((k : Key) → count t' k ≡ ulong (occurrences k pairs))
wordcount_lem_example =
    wordcount_lem isspace items strings (λ n. (omega arith, omega arith)) 1 4 pairs (omega arith)
      (omega arith)
      (
        (refl, (refl, tt)),
        (refl, (refl, tt)),
        omega arith,
        omega arith,
        refl,
        (
          (refl, tt),
          (refl, tt),
          omega arith,
          omega arith,
          refl,
          ((refl, (refl, tt)), (refl, (refl, tt)), omega arith, omega arith, refl, tt),
        ),
      )
