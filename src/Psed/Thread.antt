-- ===== src/Psed/Thread.antt =====
-- What holds of a thread at each of its stages, and what its next step keeps.
use school_projects.Base.{
  ℕ, suc, ◌+◌, ◌≤◌, ◌<◌, ◌≡◌, ◌≢◌, ◌⊎◌, inl, inr, refl, sym, subst, arith, Bool, true, false,
  Option, none, some, List, [], ◌∷◌, ◌++◌, ltb, ◌==◌,
}
use school_projects.Base.Steps.{Then, Then-if, Then-if_both}
use school_projects.Psed.{
  Text, to_cstr, Shared, ThreadPc, lock_line, check_line, lock_turn, check_turn, unlock_again,
  unlock_turn, lock_print, print, unlock_print, lock_done, load_done, store_done, unlock_done,
  exited, invalid_free, check_line_step, free_result, thread_step,
}

-- Between `threadIdMutex->lock()` and `threadIdMutex->unlock()`.
abbrev pub turn : ThreadPc → ℕ
turn (check_turn x) = 1
turn (unlock_again x) = 1
turn (unlock_turn x) = 1
turn load_done = 1
turn (store_done n) = 1
turn unlock_done = 1
turn _ = 0

-- Between `stdOutMutex->lock()` and `stdOutMutex->unlock()`.
abbrev pub prints_now : ThreadPc → ℕ
prints_now (print x) = 1
prints_now unlock_print = 1
prints_now _ = 0

-- The result is printed, and `threadIdDone` does not count it yet.
abbrev pub printed : ThreadPc → ℕ
printed unlock_print = 1
printed lock_done = 1
printed load_done = 1
printed (store_done n) = 1
printed _ = 0

-- About to store `threadIdDone`.
abbrev pub stores : ThreadPc → ℕ
stores (store_done n) = 1
stores _ = 0

-- `threadIdDone`, or what is to become of it, after the next step.
abbrev pub advance : ThreadPc → ℕ → ℕ
advance (store_done n) t = suc t
advance _ t = t

pub advance_cases :
    (p : ThreadPc)
    → ((stores p ≡ 1) × ((t : ℕ) → advance p t ≡ suc t))
      ⊎ ((stores p ≡ 0) × ((t : ℕ) → advance p t ≡ t))
advance_cases (store_done n) = inl (refl, λ t. refl)
advance_cases p = inr (refl, λ t. refl)

-- `result` has a value, unless the thread has not edited any of the `c` lines before and not the current one.
abbrev pub Ready : (c t i : ℕ) → Bool → Type 0
Ready c t i b = (b ≡ true) ⊎ ((c ≡ 0) × (t ≤ i))

abbrev pub Lit : Option Text → Type 0
Lit o = (l : Text) × (o ≡ some l)

module _ (edit : ℕ → Text → Text) where
  abbrev pub Made : ℕ → Option Text → Text → Type 0
  Made i o x = (l : Text) × (o ≡ some l) × (x ≡ to_cstr (edit i l))

  -- What holds of thread `i` while `t` threads are done with the line `o`, those before `r` are released,
  -- `c` lines are done, and its mutex is `z`.
  abbrev pub Fine : (i r t z c : ℕ) → Option Text → ThreadPc → Type 0
  Fine i r t z c o (lock_line b) =
      (((z ≡ 1) × (t ≤ i) × (i < r)) ⊎ ((z ≡ 0) × ((i < t) ⊎ (r ≤ i)))) × Ready c t i b
  Fine i r t z c o (check_line b) = (z ≡ 0) × (t ≤ i) × (i < r) × Ready c t i b
  Fine i r t z c o (lock_turn x) = (z ≡ 0) × (t ≤ i) × (i < r) × Made i o x
  Fine i r t z c o (check_turn x) = (z ≡ 0) × (t ≤ i) × (i < r) × Made i o x
  Fine i r t z c o (unlock_again x) = (z ≡ 0) × (t ≤ i) × (i < r) × Made i o x
  Fine i r t z c o (unlock_turn x) = (z ≡ 0) × (t ≡ i) × (i < r) × Made i o x
  Fine i r t z c o (lock_print x) = (z ≡ 0) × (t ≡ i) × (i < r) × Made i o x
  Fine i r t z c o (print x) = (z ≡ 0) × (t ≡ i) × (i < r) × Made i o x
  Fine i r t z c o unlock_print = (z ≡ 0) × (t ≡ i) × (i < r) × Lit o
  Fine i r t z c o lock_done = (z ≡ 0) × (t ≡ i) × (i < r) × Lit o
  Fine i r t z c o load_done = (z ≡ 0) × (t ≡ i) × (i < r) × Lit o
  Fine i r t z c o (store_done n) = (z ≡ 0) × (t ≡ i) × (i < r) × Lit o × (n ≡ t)
  Fine i r t z c o unlock_done = (z ≡ 0) × (t ≡ suc i) × (i < r) × Lit o
  Fine i r t z c o exited = (z ≡ 0) × (i < r) × (o ≡ none)
  Fine i r t z c o invalid_free = (z ≡ 0) × (i < r) × (o ≡ none) × (c ≡ 0)

  -- The output is untouched, or thread `i` prints its result, and it is its turn.
  abbrev pub Writes :
      (i t : ℕ) (o : Option Text) (p p' : ThreadPc) (before after : List Text) → Type 0
  Writes i t o p p' before after =
      ((after ≡ before) × (printed p' + stores p ≡ printed p))
      ⊎ ((x : Text) × (after ≡ before ++ x ∷ [])
          × (printed p' ≡ 1)
          × (printed p ≡ 0)
          × (stores p ≡ 0)
          × (t ≡ i)
          × Made i o x)

  pub record Works (i r t c : ℕ) (s : Shared) (p : ThreadPc) (s' : Shared) (p' : ThreadPc)
      : Type 0 where
    pub turns : s'.thread_id + turn p' ≡ s.thread_id + turn p
    pub prints : s'.std_out + prints_now p' ≡ s.std_out + prints_now p
    pub line : s'.line ≡ s.line
    pub input : s'.input ≡ s.input
    pub zamky : (j : ℕ) → i ≢ j → s'.zamky j ≡ s.zamky j
    pub done : s'.thread_id_done ≡ advance p s.thread_id_done
    pub output : Writes i t s.line p p' s.output s'.output
    pub fine : Fine i r (advance p t) (s'.zamky i) c s.line p'

  module _ (i r t c : ℕ) (s : Shared) where
    -- A step that changes no more than the two mutexes.
    moves :
        (a b : ℕ) (p p' : ThreadPc)
        → a + turn p' ≡ s.thread_id + turn p
        → b + prints_now p' ≡ s.std_out + prints_now p
        → printed p' + stores p ≡ printed p
        → s.thread_id_done ≡ advance p s.thread_id_done
        → Fine i r (advance p t) (s.zamky i) c s.line p'
        → Works i r t c s p (record s { thread_id = a; std_out = b }) p'
    moves a b p p' turns prints same d v = record {
      turns = turns;
      prints = prints;
      line = refl;
      input = refl;
      zamky = λ j ne. refl;
      done = d;
      output = inl (refl, same);
      fine = v;
    }

    free_result-Fine :
        (b : Bool)
        → Fine i r t (s.zamky i) c none (check_line b)
        → Fine i r t (s.zamky i) c none (free_result b)
    free_result-Fine true v = (v.0, v.2, refl)
    free_result-Fine false (z, l, h, inl e) = absurd cc
    free_result-Fine false (z, l, h, inr (e, k)) = (z, h, refl, e)

    ends :
        (b : Bool)
        → Fine i r t (s.zamky i) c s.line (free_result b)
        → Works i r t c s (check_line b) s (free_result b)
    ends true v = moves s.thread_id s.std_out (check_line true) exited refl refl refl refl v
    ends false v = moves s.thread_id s.std_out (check_line false) invalid_free refl refl refl refl v

    check_line_step-Works :
        (b : Bool) (o : Option Text)
        → s.line ≡ o
        → Fine i r t (s.zamky i) c s.line (check_line b)
        → Works i r t c s (check_line b) s (check_line_step edit i b o)
    unfolding check_line_step
    check_line_step-Works b none e v =
        ends b
          (subst (λ o. Fine i r t (s.zamky i) c o (free_result b)) (sym e) (free_result-Fine b v))
    check_line_step-Works b (some l) e v =
        moves s.thread_id s.std_out (check_line b) (lock_turn (to_cstr (edit i l))) refl refl refl
          refl (v.0, v.1, v.2, (l, e, refl))

    pub thread_step-Works :
        (p : ThreadPc)
        → Fine i r t (s.zamky i) c s.line p
        → (Lit s.line → i < r → s.thread_id_done ≡ t)
        → Then (λ s' p'. Works i r t c s p s' p') (thread_step edit i p s)
    unfolding thread_step
    thread_step-Works (lock_line b) (z, ready) h = Then-if _ (ltb 0 (s.zamky i)) _ _ (λ e. record {
      turns = refl;
      prints = refl;
      line = refl;
      input = refl;
      zamky = λ j ne. ground arith;
      done = refl;
      output = inl (refl, omega arith);
      fine = elim z [
        | inl (one, le, lt) ↦ (ground arith, le, lt, ready)
        | inr (locked, k) ↦ absurd (ground arith)
      ];
    })
    thread_step-Works (check_line b) v h = check_line_step-Works b s.line refl v
    thread_step-Works (lock_turn x) v h =
        Then-if _ (ltb 0 s.thread_id) _ _
          (λ e. moves _ _ (lock_turn x) (check_turn x) (ground arith) refl refl refl v)
    thread_step-Works (check_turn x) (z, le, lt, (l, lit, made)) h =
        Then-if_both _ (s.thread_id_done == i) _ _ _ _
          (λ e.
            moves _ _ (check_turn x) (unlock_turn x) refl refl refl refl
              (z, ground (arith, h (l, lit) lt, e), lt, (l, lit, made)))
          (λ e.
            moves _ _ (check_turn x) (unlock_again x) refl refl refl refl
              (z, le, lt, (l, lit, made)))
    thread_step-Works (unlock_again x) v h =
        moves _ _ (unlock_again x) (lock_turn x) (omega arith) refl refl refl v
    thread_step-Works (unlock_turn x) v h =
        moves _ _ (unlock_turn x) (lock_print x) (omega arith) refl refl refl v
    thread_step-Works (lock_print x) v h =
        Then-if _ (ltb 0 s.std_out) _ _
          (λ e. moves _ _ (lock_print x) (print x) refl (ground arith) refl refl v)
    thread_step-Works (print x) (z, now, lt, (l, lit, made)) h = record {
      turns = refl;
      prints = refl;
      line = refl;
      input = refl;
      zamky = λ j ne. refl;
      done = refl;
      output = inr (x, refl, refl, refl, refl, now, (l, lit, made));
      fine = (z, now, lt, (l, lit));
    }
    thread_step-Works unlock_print v h =
        moves _ _ unlock_print lock_done refl (omega arith) refl refl v
    thread_step-Works lock_done v h =
        Then-if _ (ltb 0 s.thread_id) _ _
          (λ e. moves _ _ lock_done load_done (ground arith) refl refl refl v)
    thread_step-Works load_done (z, now, lt, (l, lit)) h =
        moves _ _ load_done (store_done s.thread_id_done) refl refl refl refl
          (z, now, lt, (l, lit), h (l, lit) lt)
    thread_step-Works (store_done n) (z, now, lt, (l, lit), e) h = record {
      turns = refl;
      prints = refl;
      line = refl;
      input = refl;
      zamky = λ j ne. refl;
      done = omega (arith, e, h (l, lit) lt);
      output = inl (refl, refl);
      fine = (z, omega (arith, now), lt, (l, lit));
    }
    thread_step-Works unlock_done (z, now, lt, (l, lit)) h =
        moves _ _ unlock_done (lock_line true) (omega arith) refl refl refl
          (inr (z, inl (omega (arith, now))), inl refl)
    thread_step-Works exited v h = tt
    thread_step-Works invalid_free v h = tt
