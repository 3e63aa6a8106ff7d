-- ===== src/Psed/Driver.antt =====
-- Every step of `main` keeps the invariant.
use school_projects.Base.{
  ℕ, suc, ◌+◌, ◌<◌, ◌≡◌, inl, inr, refl, sym, ◌∙◌, ap, arith, Bool-cases, ◌==◌, ltb, Option, none,
  some, List, [], ◌∷◌, ◌++◌, append-nil, append_assoc, length, length-append,
}
use school_projects.Base.Family.{change, sum, le-sum, sum_idle}
use school_projects.Base.Steps.{Then, Then-if, Then-if_both}
use school_projects.Psed.{Text, to_cstr, Shared, ThreadPc, MainPc, main_step, read_line, ended}
use school_projects.Psed.Output.{
  prints, print_all, prints_line, print_all-snoc, append-prints_line_zero,
}
use school_projects.Psed.Thread.{turn, printed}
use school_projects.Psed.Round.{
  released, done_of, main_turn, During, carry, park, end_round, raise, let_go, printed-Fine,
}
use school_projects.Psed.Invariant.{Invariant}

length-snoc : (xs : List Text) (x : Text) → length (xs ++ x ∷ []) ≡ suc (length xs)
length-snoc xs x = omega (arith, length-append xs (x ∷ []))

module _ (edit : ℕ → Text → Text) (n : ℕ) (lines : List Text) where
  module _ {s : Shared} {m : MainPc} {f : ℕ → ThreadPc} (v : Invariant edit n lines s m f) where
    abbrev Kept : Shared → MainPc → Type 0
    Kept s' m' = Invariant edit n lines s' m' f

    -- A step that changes no more than `threadIdDone` and its mutex, while no thread is concerned.
    moves :
        (a d : ℕ) (m' : MainPc)
        → released n m' ≡ released n m
        → done_of m' d ≡ done_of m s.thread_id_done
        → a + main_turn m' ≡ s.thread_id + main_turn m
        → During lines v.before s.input s.line m'
        → Kept (record s { thread_id = a; thread_id_done = d }) m'
    moves a d m' same_r same_d turns w = record {
      before = v.before;
      during = w;
      within = omega (arith, same_r, same_d, v.within);
      bound = omega (arith, same_r, v.bound);
      fine = λ i lt. carry edit _ _ _ i (f i) same_r same_d (v.fine i lt);
      turns = omega (arith, turns, v.turns);
      prints = v.prints;
      output =
          v.output
          ∙ ap (λ t. print_all edit n v.before ++ prints_line edit (t + sum printed n f) s.line)
              (sym same_d);
    }

    -- `zamky[i]->unlock()`.
    unlocks :
        (i : ℕ) (m' : MainPc)
        → i < n
        → released n m ≡ i
        → released n m' ≡ suc i
        → done_of m' s.thread_id_done ≡ done_of m s.thread_id_done
        → main_turn m' ≡ main_turn m
        → During lines v.before s.input s.line m'
        → Kept (record s { zamky = change s.zamky i (suc (s.zamky i)) }) m'
    unlocks i m' i-lt at_i next_i same_d turns w = record {
      before = v.before;
      during = w;
      within = omega (arith, at_i, next_i, same_d, v.within);
      bound = omega (arith, next_i, i-lt);
      fine = λ j lt. elim (Bool-cases (i == j)) [
        | inl same ↦
            let here : i ≡ j = ground arith in
            rw same (
              rw⁻¹ here (
                carry edit _ _ _ i (f i) next_i same_d (
                  let_go edit _ _ _ i _ (f i) (omega (arith, v.within, at_i))
                    (carry edit _ _ _ i (f i) (sym at_i) refl (v.fine i i-lt)))))
        | inr other ↦ rw other (
            carry edit _ _ _ j (f j) (omega (arith, next_i, at_i)) same_d
              (raise edit _ _ _ j (released n m) _ (f j) (ground (arith, at_i)) (v.fine j lt)))
      ];
      turns = omega (arith, turns, v.turns);
      prints = v.prints;
      output =
          v.output
          ∙ ap (λ t. print_all edit n v.before ++ prints_line edit (t + sum printed n f) s.line)
              (sym same_d);
    }

    no_turn : main_turn m ≡ 1 → (i : ℕ) → i < n → turn (f i) ≡ 0
    no_turn h i lt = omega (arith, v.turns, h, le-sum turn n i f lt)

    none_printed : released n m ≡ 0 → sum printed n f ≡ 0
    none_printed h = sum_idle printed n f (λ i lt more.
        let (now, released, lit) = printed-Fine edit _ _ _ i _ _ (f i) (v.fine i lt) more in
        omega (arith, released, h))

    -- What is printed, while no thread is released.
    pub quiet : released n m ≡ 0 → s.output ≡ print_all edit n v.before
    quiet h =
        v.output
        ∙ append-prints_line_zero edit (print_all edit n v.before) s.line
            (omega (arith, none_printed h, v.within, h))

    quiet_line :
        (o : Option Text)
        → released n m ≡ 0
        → s.output ≡ print_all edit n v.before ++ prints_line edit (0 + sum printed n f) o
    quiet_line o h =
        quiet h
        ∙ sym (
            append-prints_line_zero edit (print_all edit n v.before) o
              (omega (arith, none_printed h)))

  module _ {s : Shared} {f : ℕ → ThreadPc} where
    read_line-Invariant :
        (ls : List Text)
        → s.input ≡ ls
        → Invariant edit n lines s MainPc.read f
        → Invariant edit n lines (read_line ls s).0 (read_line ls s).1 f
    unfolding read_line
    read_line-Invariant [] e v = record {
      before = v.before;
      during = (refl, v.during.1 ∙ ap (λ r. v.before ++ r) e ∙ append-nil v.before);
      within = omega arith;
      bound = omega arith;
      fine = λ i lt. park edit _ _ _ i (f i) none (v.fine i lt);
      turns = v.turns;
      prints = v.prints;
      output = quiet_line v none refl;
    }
    read_line-Invariant (l ∷ ls) e v = record {
      before = v.before;
      during = (l, refl, v.during.1 ∙ ap (λ r. v.before ++ r) e);
      within = omega arith;
      bound = omega arith;
      fine = λ i lt. park edit _ _ _ i (f i) _ (v.fine i lt);
      turns = v.turns;
      prints = v.prints;
      output = quiet_line v (some (to_cstr l)) refl;
    }

    -- A thread that has printed, and is not counted, would be one of the `n`.
    none_late :
        Invariant edit n lines s MainPc.check_wait f → s.thread_id_done ≡ n → sum printed n f ≡ 0
    none_late v e = sum_idle printed n f (λ i lt more.
        let (now, released, lit) = printed-Fine edit _ _ _ i _ _ (f i) (v.fine i lt) more in
        omega (arith, now, lt, e))

    check-Invariant :
        Invariant edit n lines s MainPc.check_wait f
        → s.thread_id_done ≡ n
        → Invariant edit n lines s MainPc.unlock_round f
    unfolding prints_line
    check-Invariant v e =
        let (l, lit, rest) = v.during in
        let idle = none_late v e in
        record {
          before = v.before ++ l ∷ [];
          during = rest ∙ sym (append_assoc v.before (l ∷ []) s.input);
          within = omega arith;
          bound = omega arith;
          fine = λ i lt. rw (length-snoc v.before l) (
              end_round edit _ _ _ i n (f i) lt (no_turn v refl i lt) (to_cstr l, lit)
                (carry edit _ _ _ i (f i) refl (sym e) (v.fine i lt)));
          turns = v.turns;
          prints = v.prints;
          output =
              v.output
              ∙ ap
                  (λ o.
                    print_all edit n v.before
                    ++ prints_line edit (s.thread_id_done + sum printed n f) o)
                  lit
              ∙ ap (λ k. print_all edit n v.before ++ prints edit k (to_cstr l))
                  (omega (arith, e, idle))
              ∙ sym (print_all-snoc edit n v.before l)
              ∙ sym (append-prints_line_zero edit _ s.line (omega (arith, idle)));
        }

    clear-Invariant :
        Invariant edit n lines s MainPc.clear f
        → Invariant edit n lines (record s { line = none }) MainPc.read f
    clear-Invariant v = record {
      before = v.before;
      during = (refl, v.during);
      within = omega arith;
      bound = omega arith;
      fine = λ i lt. park edit _ _ _ i (f i) none (v.fine i lt);
      turns = v.turns;
      prints = v.prints;
      output = quiet_line v none refl;
    }

    pub main_step-Invariant :
        (m : MainPc)
        → Invariant edit n lines s m f
        → Then (λ s' m'. Invariant edit n lines s' m' f) (main_step n m f s)
    unfolding main_step
    main_step-Invariant MainPc.read v = read_line-Invariant s.input refl v
    main_step-Invariant MainPc.lock_reset v =
        Then-if _ (ltb 0 s.thread_id) _ _
          (λ e. moves v _ _ MainPc.reset refl refl (ground arith) v.during)
    main_step-Invariant MainPc.reset v = moves v _ _ MainPc.unlock_reset refl refl refl v.during
    main_step-Invariant MainPc.unlock_reset v =
        moves v _ _ (MainPc.release 0) refl refl (omega arith) v.during
    main_step-Invariant (MainPc.release i) v =
        Then-if_both _ (ltb i n) _ _ _ _
          (λ e. unlocks v i (MainPc.release (suc i)) (ground arith) refl refl refl refl v.during)
          (λ e. moves v _ _ MainPc.lock_wait (ground (arith, v.bound)) refl refl v.during)
    main_step-Invariant MainPc.lock_wait v =
        Then-if _ (ltb 0 s.thread_id) _ _
          (λ e. moves v _ _ MainPc.check_wait refl refl (ground arith) v.during)
    main_step-Invariant MainPc.check_wait v =
        Then-if_both _ (s.thread_id_done == n) _ _ _ _ (λ e. check-Invariant v (ground arith))
          (λ e. moves v _ _ MainPc.unlock_wait refl refl refl v.during)
    main_step-Invariant MainPc.unlock_wait v =
        moves v _ _ MainPc.lock_wait refl refl (omega arith) v.during
    main_step-Invariant MainPc.unlock_round v =
        moves v _ _ MainPc.clear refl refl (omega arith) v.during
    main_step-Invariant MainPc.clear v = clear-Invariant v
    main_step-Invariant (MainPc.finish i) v =
        Then-if_both _ (ltb i n) _ _ _ _
          (λ e. unlocks v i (MainPc.finish (suc i)) (ground arith) refl refl refl refl v.during)
          (λ e. moves v _ _ (MainPc.join 0) (ground (arith, v.bound)) refl refl v.during)
    main_step-Invariant (MainPc.join i) v = elim (Bool-cases (ltb i n)) [
      | inl more ↦ rw more (
          Then-if _ (ended (f i)) _ _
            (λ e. moves v _ _ (MainPc.join (suc i)) refl refl refl v.during))
      | inr last ↦ rw last (moves v _ _ MainPc.exited refl refl refl v.during)
    ]
    main_step-Invariant MainPc.exited v = tt
