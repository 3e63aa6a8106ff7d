-- ===== src/Psed/Safety.antt =====
-- What every run of the program shows: its output, its mutexes, and the ends of its threads.
use school_projects.Base.{
  ℕ, ◌+◌, ◌≤◌, ◌<◌, ◌≡◌, ◌≢◌, ◌⊎◌, Bool-cases, ltb, subst, inl, inr, refl, sym, ◌∙◌, ap, arith,
  none, List, [], ◌∷◌, ◌++◌, append-nil, append_assoc, length,
}
use school_projects.Base.Family.{same_or_different, sum, add-le-sum, le-sum, sum_idle, sum_single}
use school_projects.Psed.{Text, to_cstr, ThreadPc, unlock_print, invalid_free, MainPc}
use school_projects.Psed.System.{System, start_of_run, Reach}
use school_projects.Psed.Output.{prints, print_all, prints_line, prints_prefix, print_all-append}
use school_projects.Psed.Thread.{turn, prints_now, printed, Fine}
use school_projects.Psed.Round.{
  released, done_of, main_turn, During, printed-Fine, locked-Fine, During-cases, all_done,
}
use school_projects.Psed.Invariant.{Invariant}
use school_projects.Psed.Driver.{quiet}
use school_projects.Psed.Runs.{Reach-Invariant}

printed-le_one : (p : ThreadPc) → printed p ≤ 1
printed-le_one unlock_print = omega arith
printed-le_one p = omega arith

empty : (xs : List Text) → length xs ≡ 0 → xs ≡ []
empty [] e = refl
empty (x ∷ xs) e = absurd (omega arith)

joined : (a b c d : List Text) → a ++ ((b ++ c) ++ d) ≡ (a ++ b) ++ (c ++ d)
joined a b c d = ap (λ r. a ++ r) (append_assoc b c d) ∙ sym (append_assoc a b (c ++ d))

module _ (edit : ℕ → Text → Text) (n : ℕ) (lines : List Text) {g : System}
    (h : Reach edit n (start_of_run lines) g) where
  abbrev kept : Invariant edit n lines g.shared g.driver g.threads
  kept = Reach-Invariant edit n lines h

  open g use {shared, driver, threads}

  abbrev done : ℕ
  done = done_of driver shared.thread_id_done

  abbrev count : ℕ
  count = done + sum printed n threads

  turn_of_printed : (j : ℕ) → j < n → 0 < printed (threads j) → done ≡ j
  turn_of_printed j lt more =
      (printed-Fine edit _ _ _ j (released n driver) _ (threads j) (kept.fine j lt) more).0

  count-le : count ≤ n
  count-le = elim (Bool-cases (ltb done n)) [
    | inl turn ↦
        let one : sum printed n threads ≤ printed (threads done) =
          sum_single printed n done threads (λ j lt ne.
            elim (Bool-cases (ltb 0 (printed (threads j)))) [
              | inl more ↦ absurd (ne (sym (turn_of_printed j lt (ground arith))))
              | inr idle ↦ ground arith
            ]) in
        ground (arith, one, printed-le_one (threads done))
    | inr over ↦
        let none : sum printed n threads ≡ 0 =
          sum_idle printed n threads (λ j lt more. ground (arith, turn_of_printed j lt more)) in
        omega (arith, none, kept.within, kept.bound)
  ]

  -- When the program ends, it has printed, for each line of its input in order, the line as each thread
  -- edits it, in the order of the threads, whatever the order of the steps.
  pub output_lem : driver ≡ MainPc.exited → shared.output ≡ print_all edit n lines
  unfolding prints_line
  output_lem e =
      let w : During lines kept.before shared.input shared.line MainPc.exited =
        subst (λ m. During lines kept.before shared.input shared.line m) e kept.during in
      kept.output
      ∙ ap (λ o. print_all edit n kept.before ++ prints_line edit (count) o) w.0
      ∙ append-nil (print_all edit n kept.before)
      ∙ ap (print_all edit n) (sym w.1)

  still_output :
      (shared.line ≡ none) ⊎ (released n driver ≡ 0) → shared.output ≡ print_all edit n kept.before
  unfolding prints_line
  still_output (inl idle) =
      kept.output
      ∙ ap (λ o. print_all edit n kept.before ++ prints_line edit count o) idle
      ∙ append-nil (print_all edit n kept.before)
  still_output (inr quiet_now) = quiet edit n lines kept quiet_now

  -- At every moment, what is printed so far begins what the program is to print for its whole input.
  pub output_prefix : (rest : List Text) × (print_all edit n lines ≡ shared.output ++ rest)
  unfolding print_all prints_line
  output_prefix =
      elim (During-cases n lines kept.before shared.input shared.line driver kept.during) [
        | inl (l, lit, split) ↦
            let (rest, e) = prints_prefix edit count n (to_cstr l) count-le in
            let now : shared.output
                ≡ print_all edit n kept.before ++ prints edit count (to_cstr l) =
              kept.output
              ∙ ap (λ o. print_all edit n kept.before ++ prints_line edit count o) lit in
            (
              rest ++ print_all edit n shared.input,
              ap (print_all edit n) split
                  ∙ print_all-append edit n kept.before (l ∷ shared.input)
                  ∙ ap (λ r. print_all edit n kept.before ++ (r ++ print_all edit n shared.input)) e
                  ∙ rw now (
                      joined (print_all edit n kept.before) (prints edit count (to_cstr l)) rest
                        (print_all edit n shared.input)),
            )
        | inr (rest, split, still) ↦ (
          print_all edit n rest,
          ap (print_all edit n) split
              ∙ print_all-append edit n kept.before rest
              ∙ ap (λ r. r ++ print_all edit n rest) (sym (still_output still)),
        )
      ]

  -- At every moment, for any number of threads from one on: every mutex is locked once at most. No thread and
  -- `main` are both between `lock` and `unlock` of `threadIdMutex`, and no two different threads are, nor of
  -- `stdOutMutex`.
  pub mutex_lem :
      (i j : ℕ)
      → i < n
      → j < n
      → (shared.std_out ≤ 1)
        × (shared.thread_id ≤ 1)
        × (shared.zamky i ≤ 1)
        × (turn (threads i) + main_turn driver ≤ 1)
        × ((i ≡ j)
            ⊎ ((prints_now (threads i) + prints_now (threads j) ≤ 1)
                × (turn (threads i) + turn (threads j) ≤ 1)))
  mutex_lem i j hi hj = (
    omega (arith, kept.prints),
    omega (arith, kept.turns),
    locked-Fine edit _ _ _ i _ _ (threads i) (kept.fine i hi),
    omega (arith, kept.turns, le-sum turn n i threads hi),
    elim (same_or_different i j) [
      | inl same ↦ inl same
      | inr ne ↦ inr (
        omega (arith, kept.prints, add-le-sum prints_now n i j threads hi hj ne),
        omega (arith, kept.turns, add-le-sum turn n i j threads hi hj ne),
      )
    ],
  )

  -- If the input has a line, no thread frees `result` before it has a value.
  pub free_lem : (i : ℕ) → i < n → lines ≢ [] → threads i ≢ invalid_free
  free_lem i lt ne e =
      let v =
        subst
          (λ p.
            Fine edit i (released n driver) (done_of driver shared.thread_id_done) (shared.zamky i)
              (length kept.before) shared.line p)
          e (kept.fine i lt) in
      let all =
        all_done n i lines kept.before shared.input shared.line driver kept.during v.2 v.1 in
      ne (all ∙ empty kept.before v.3)
