-- ===== src/WordCount/Counts.antt =====
-- The counts of a whole input.
use school_projects.Base.{
  ℕ, zero, suc, ◌+◌, ◌%◌, ◌^◌, ◌≤◌, ◌<◌, ◌≡◌, ◌≢◌, refl, ap, ◌∙◌, arith, Bool, Bool-cases, inl, inr,
  true, false, some, List, [], ◌∷◌, ◌++◌, length, ==_of_ne, if◌then◌else◌,
}
use school_projects.Base.Int.{ℤ}
use school_projects.Memory.{Ptr, null, Outcome, done, undefined, exhausted}
use school_projects.Memory.Returns.{Returns}
use school_projects.HashTable.{Key, same_key}
use school_projects.HashTable.Lookup.{slot}
use school_projects.LinkedTable.{
  Htab, ulong, htab_lookup_add, htab_init, cleared, htab_hash_function,
}
use school_projects.LinkedTable.Count.{count, IsTable, htab_lookup_add-counts}
use school_projects.HashTable.Chain.{same_key-eq}
use school_projects.LinkedTable.Answer.{Held, htab_lookup_add-answers}
use school_projects.WordCount.{is_nul, c_string, word, get_word, count_words, max_length}
use school_projects.WordCount.Words.{NoSpaces, get_word_lem}

-- Words, each with the space behind it.
abbrev pub text : List (Key × ℤ) → List ℤ
text [] = []
text ((w, sp) ∷ ws) = w ++ sp ∷ text ws

abbrev pub occurrences : Key → List (Key × ℤ) → ℕ
occurrences k [] = 0
occurrences k ((w, sp) ∷ ws) = (if same_key w k then 1 else 0) + occurrences k ws

both :
    {A S : Type 0} (P Q : A → S → Type 0) (o : Outcome S A)
    → Returns P o
    → Returns Q o
    → (r : A) × (s : S) × (o ≡ done r s) × P r s × Q r s
both P Q (done r s) p q = (r, s, refl, p, q)
both P Q undefined p q = absurd p
both P Q exhausted p q = absurd p

length-cleared : (n : ℕ) → length (cleared n) ≡ n
length-cleared zero = refl
length-cleared (suc n) = ap suc (length-cleared n)

cleared-Held : (n : ℕ) → Held (cleared n)
cleared-Held zero = tt
cleared-Held (suc n) = (tt, cleared-Held n)

slot-cleared : (n i : ℕ) → slot (cleared n) i ≡ []
slot-cleared zero i = refl
slot-cleared (suc n) zero = refl
slot-cleared (suc n) (suc i) = slot-cleared n i

-- The characters of a word are not `\0`.
abbrev pub NoZeros : List ℤ → Type 0
NoZeros [] = Unit
NoZeros (c ∷ cs) = (is_nul c ≡ false) × NoZeros cs

c_string_whole : (w : List ℤ) → NoZeros w → c_string w ≡ w
c_string_whole [] h = refl
c_string_whole (c ∷ w) (nonzero, h) = rw nonzero (ap (λ r. c ∷ r) (c_string_whole w h))

module _ (isspace : ℤ → Bool) where
  -- Each word has a character and at most `MAX_LENGTH`, none of them `\0`, and the character behind it is a space.
  abbrev pub AllWords : List (Key × ℤ) → Type 0
  AllWords [] = Unit
  AllWords ((w, sp) ∷ ws) =
      NoSpaces isspace w
      × NoZeros w
      × (0 < length w)
      × (length w ≤ max_length)
      × (isspace sp ≡ true)
      × AllWords ws

  next_word :
      (w : Key) (sp : ℤ) (rest : List ℤ)
      → NoSpaces isspace w
      → 0 < length w
      → length w ≤ max_length
      → isspace sp ≡ true
      → get_word isspace max_length (w ++ sp ∷ rest) ≡ word w rest false
  next_word [] sp rest n pos l h = absurd (omega arith)
  next_word (c ∷ w) sp rest n pos l h = get_word_lem isspace max_length c w sp rest n h l

  module _ (items strings : ℕ → Ptr) (given : (n : ℕ) → (items n ≢ null) × (strings n ≢ null)) where
    abbrev Counted : List (Key × ℤ) → Htab → Htab → Type 0
    Counted ws t t' = (k : Key) → count t' k ≡ ulong (count t k + occurrences k ws)

    module _ (t u : Htab) (w : Key)
        (one : (k : Key)
          → count u k ≡ (if same_key w k then ulong (suc (count t w)) else count t k)) where
      add_up :
          (sp : ℤ) (ws : List (Key × ℤ)) (v : Htab) → Counted ws u v → Counted ((w, sp) ∷ ws) t v
      add_up sp ws v rest k = elim (Bool-cases (same_key w k)) [
        | inl same ↦
            let old : count t w ≡ count t k = ap (count t) (same_key-eq w k same) in
            let new : count u k ≡ ulong (suc (count t w)) = rw same at (one k) in
            rw same (omega (arith, old, new, rest k))
        | inr other ↦
            let new : count u k ≡ count t k = rw other at (one k) in
            rw other (omega (arith, new, rest k))
      ]

      stay_small : ((k : Key) → count t k < 2 ^ 64) → (k : Key) → count u k < 2 ^ 64
      stay_small small k = elim (Bool-cases (same_key w k)) [
        | inl same ↦
            let new : count u k ≡ ulong (suc (count t w)) = rw same at (one k) in omega (arith, new)
        | inr other ↦
            let new : count u k ≡ count t k = rw other at (one k) in omega (arith, new, small k)
      ]

    count_words_step :
        (fuel n : ℕ) (w : Key) (sp : ℤ) (ws : List (Key × ℤ)) (t u t' : Htab) (r : Ptr)
        → get_word isspace max_length (w ++ sp ∷ text ws) ≡ word w (text ws) false
        → c_string w ≡ w
        → htab_lookup_add (items n) (strings n) true (some w) t ≡ done r u
        → r ≢ null
        → count_words isspace items strings fuel (suc n) (text ws) u ≡ done true t'
        → count_words isspace items strings (suc fuel) n (text ((w, sp) ∷ ws)) t ≡ done true t'
    unfolding count_words
    count_words_step fuel n w sp ws t u t' r g whole e ne e' =
        ground (arith, g, whole, e, ==_of_ne r null ne, e')

    no_words :
        (fuel n : ℕ) (t : Htab) → count_words isspace items strings (suc fuel) n [] t ≡ done true t
    unfolding count_words get_word
    no_words fuel n t = refl

    count_words_all :
        (fuel n : ℕ) (ws : List (Key × ℤ)) (t : Htab)
        → length ws < fuel
        → AllWords ws
        → IsTable t
        → Held t.ptr
        → ((k : Key) → count t k < 2 ^ 64)
        → (t' : Htab) × (count_words isspace items strings fuel n (text ws) t ≡ done true t')
          × Counted ws t t'
    unfolding count_words
    count_words_all zero n ws t l a is held small = absurd (omega arith)
    count_words_all (suc fuel) n [] t l a is held small =
        (t, no_words fuel n t, λ k. omega (arith, small k))
    count_words_all (suc fuel) n ((w, sp) ∷ ws) t l (ns, nz, pos, len, space, a) is held small =
        let (r, u, e, (is', one), (ne, held')) =
          both _ _ (htab_lookup_add (items n) (strings n) true (some w) t)
            (htab_lookup_add-counts t is (items n) (strings n) w (given n).0 (given n).1)
            (htab_lookup_add-answers t is held (items n) (strings n) w (given n).0 (given n).1) in
        let (t', e', c) =
          count_words_all fuel (suc n) ws u (omega arith) a is' held'
            (stay_small t u w one small) in
        (
          t',
          count_words_step fuel n w sp ws t u t' r (next_word w sp (text ws) ns pos len space)
              (c_string_whole w nz) e ne e',
          add_up t u w one sp ws t' c,
        )

    -- On words of at most 127 characters, none of them `\0`, with one space behind each, and if `malloc` succeeds, `main` with a
    -- new table of any positive size reads all of the input in one round more than there are words, and
    -- counts for each key how often it stands in the input, on 64 bits.
    pub wordcount_lem :
        (p size : ℕ) (ws : List (Key × ℤ))
        → p ≢ null
        → 0 < size
        → AllWords ws
        → (t : Htab) × (t' : Htab) × (htab_init p size ≡ some t)
          × (count_words isspace items strings (suc (length ws)) 0 (text ws) t ≡ done true t')
          × ((k : Key) → count t' k ≡ ulong (occurrences k ws))
    unfolding htab_init
    wordcount_lem p size ws pn pos a =
        let t : Htab = record { size = 0; arr_size = size; ptr = cleared size; freed = [] } in
        let zero_count : (k : Key) → count t k ≡ 0 =
          λ k. rw (slot-cleared size (htab_hash_function k % size)) refl in
        let (t', e, c) =
          count_words_all (suc (length ws)) 0 ws t (omega arith) a
            (record { positive = pos; allocated = length-cleared size }) (cleared-Held size)
            (λ k. omega (arith, zero_count k)) in
        (
          t,
          t',
          rw (==_of_ne p null pn),
          e,
          λ k.
              c k
              ∙ ap (λ (m : ℕ). ulong (m + occurrences k ws)) (zero_count k)
              ∙ ap ulong (omega arith),
        )
