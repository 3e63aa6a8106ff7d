-- ===== src/Psed/Invariant.antt =====
-- Every step of a thread and of `main` keeps the invariant.
use school_projects.Base.{
  ℕ, suc, ◌+◌, ◌≤◌, ◌<◌, ◌≡◌, ◌≢◌, inl, inr, sym, ◌∙◌, ap, arith, Bool-cases, ◌==◌, List, [], ◌∷◌,
  ◌++◌, append_assoc, length,
}
use school_projects.Base.Family.{change, sum, sum-change, add-le-sum, sum_idle}
use school_projects.Psed.{Text, Shared, ThreadPc, MainPc}
use school_projects.Psed.Output.{print_all, prints_line, prints_line-suc}
use school_projects.Psed.Thread.{
  turn, prints_now, printed, stores, advance, advance_cases, Lit, Fine, Writes, Works,
}
use school_projects.Psed.Round.{
  released, done_of, main_turn, During, in_round, shift, printed-Fine, store-Fine,
}

module _ (edit : ℕ → Text → Text) (n : ℕ) (lines : List Text) where
  pub record Invariant (s : Shared) (m : MainPc) (f : ℕ → ThreadPc) : Type 0 where
    pub before : List Text
    pub during : During lines before s.input s.line m
    pub within : done_of m s.thread_id_done ≤ released n m
    pub bound : released n m ≤ n
    pub fine :
        (i : ℕ)
        → i < n
        → Fine edit i
            (released n m)
            (done_of m s.thread_id_done)
            (s.zamky i)
            (length before)
            s.line
            (f i)
    pub turns : s.thread_id + main_turn m + sum turn n f ≡ 1
    pub prints : s.std_out + sum prints_now n f ≡ 1
    pub output :
        s.output
        ≡ print_all edit n before
          ++ prints_line edit (done_of m s.thread_id_done + sum printed n f) s.line

  module _ {s : Shared} {m : MainPc} {f : ℕ → ThreadPc} (v : Invariant s m f) where
    abbrev t : ℕ
    t = done_of m s.thread_id_done

    -- A thread between its `lock` and `unlock` of `threadIdMutex` keeps the others from it.
    alone : (i j : ℕ) → i < n → j < n → i ≢ j → turn (f i) ≡ 1 → turn (f j) ≡ 0
    alone i j hi hj ne h = omega (arith, v.turns, h, add-le-sum turn n i j f hi hj ne)

    module _ (i : ℕ) (i-lt : i < n) (s' : Shared) (p : ThreadPc)
        (k : Works edit i (released n m) t (length v.before) s (f i) s' p) where
      at_store : stores (f i) ≡ 1 → (t ≡ i) × (i < released n m) × Lit s.line × (turn (f i) ≡ 1)
      at_store = store-Fine edit _ _ _ i (released n m) t (f i) (v.fine i i-lt)

      same_count : Lit s.line → i < released n m → (d : ℕ) → done_of m d ≡ d
      same_count lit lt d = in_round n i d lines v.before s.input s.line m v.during lit lt

      done-advance : done_of m s'.thread_id_done ≡ advance (f i) t
      done-advance = elim (advance_cases (f i)) [
        | inl (store, up) ↦
            let (now, lt, lit, own) = at_store store in
            omega (
              arith,
              k.done,
              up t,
              up s.thread_id_done,
              same_count lit lt s.thread_id_done,
              same_count lit lt s'.thread_id_done,
            )
        | inr (idle, keep) ↦ ap (done_of m) (k.done ∙ keep s.thread_id_done) ∙ sym (keep t)
      ]

      others :
          (j : ℕ)
          → j < n
          → i ≢ j
          → Fine edit j (released n m) (advance (f i) t) (s'.zamky j) (length v.before) s.line (f j)
      others j j-lt ne = rw (k.zamky j ne) elim (advance_cases (f i)) [
        | inl (store, up) ↦
            let (now, lt, lit, own) = at_store store in
            rw (up t) (
              shift edit _ _ _ j _ t (f j) (λ e. ne (sym now ∙ sym e)) (alone i j i-lt j-lt ne own)
                (v.fine j j-lt))
        | inr (idle, keep) ↦ rw (keep t) (v.fine j j-lt)
      ]

      work-fine :
          (j : ℕ)
          → j < n
          → Fine edit j
              (released n m)
              (done_of m s'.thread_id_done)
              (s'.zamky j)
              (length v.before)
              s'.line
              (change f i p j)
      work-fine j j-lt = rw done-advance (
          rw k.line (elim (Bool-cases (i == j)) [
            | inl same ↦ rw same (let here : i ≡ j = ground arith in rw⁻¹ here k.fine)
            | inr other ↦ rw other (others j j-lt (ground arith))
          ]))

      work-within : done_of m s'.thread_id_done ≤ released n m
      work-within = elim (advance_cases (f i)) [
        | inl (store, up) ↦
            let (now, lt, lit, own) = at_store store in omega (arith, done-advance, up t, now, lt)
        | inr (idle, keep) ↦ omega (arith, done-advance, keep t, v.within)
      ]

      done_count : done_of m s'.thread_id_done ≡ t + stores (f i)
      done_count = elim (advance_cases (f i)) [
        | inl (store, up) ↦ omega (arith, done-advance, up t, store)
        | inr (idle, keep) ↦ omega (arith, done-advance, keep t, idle)
      ]

      -- When it is a thread's turn, only that thread may have printed a result that is not counted.
      none_printed : t ≡ i → printed (f i) ≡ 0 → sum printed n f ≡ 0
      none_printed now idle = sum_idle printed n f (λ j j-lt more.
          let (turns, lt, lit) =
            printed-Fine edit _ _ _ j (released n m) t (f j) (v.fine j j-lt) more in
          let same : i ≡ j = omega (arith, now, turns) in
          ground (arith, ap (λ a. printed (f a)) same))

      work-output :
          Writes edit i t s.line (f i) p s.output s'.output
          → s'.output
            ≡ print_all edit n v.before
              ++ prints_line edit
                  (done_of m s'.thread_id_done + sum printed n (change f i p))
                  s'.line
      work-output (inl (same, marks)) =
          same
          ∙ v.output
          ∙ ap (λ o. print_all edit n v.before ++ prints_line edit (t + sum printed n f) o)
              (sym k.line)
          ∙ ap (λ a. print_all edit n v.before ++ prints_line edit a s'.line)
              (omega (arith, done_count, sum-change printed n i f p i-lt, marks))
      work-output (inr (x, after, marked, unmarked, idle, now, (l, lit, made))) =
          let none = none_printed now unmarked in
          let first : t + sum printed n f ≡ i = omega (arith, none, now) in
          after
          ∙ ap (λ r. r ++ x ∷ []) v.output
          ∙ append_assoc (print_all edit n v.before) _ (x ∷ [])
          ∙ ap (λ r. print_all edit n v.before ++ r)
              (sym (prints_line-suc edit (t + sum printed n f) lit (rw first made)))
          ∙ ap (λ o. print_all edit n v.before ++ prints_line edit (suc (t + sum printed n f)) o)
              (sym k.line)
          ∙ ap (λ a. print_all edit n v.before ++ prints_line edit a s'.line)
              (omega (arith, done_count, sum-change printed n i f p i-lt, marked, unmarked, idle))

      work-During : During lines v.before s'.input s'.line m
      work-During = rw k.input (rw k.line v.during)

      pub work-Invariant : Invariant s' m (change f i p)
      work-Invariant = record {
        before = v.before;
        during = work-During;
        within = work-within;
        bound = v.bound;
        fine = work-fine;
        turns = omega (arith, v.turns, k.turns, sum-change turn n i f p i-lt);
        prints = omega (arith, v.prints, k.prints, sum-change prints_now n i f p i-lt);
        output = work-output k.output;
      }
