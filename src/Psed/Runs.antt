-- ===== src/Psed/Runs.antt =====
-- Every run keeps the invariant.
use school_projects.Base.{ℕ, inr, refl, sym, arith, false, List, [], length}
use school_projects.Base.Family.{sum_const}
use school_projects.Base.Steps.{Then-some}
use school_projects.Psed.{Text, lock_line, MainPc}
use school_projects.Psed.System.{System, start_of_run, Step, work, drive, Reach, here, next}
use school_projects.Psed.Output.{print_all, prints_line}
use school_projects.Psed.Thread.{turn, prints_now, Works, thread_step-Works}
use school_projects.Psed.Round.{released, done_of, in_round}
use school_projects.Psed.Invariant.{Invariant, work-Invariant}
use school_projects.Psed.Driver.{main_step-Invariant}

module _ (edit : ℕ → Text → Text) (n : ℕ) (lines : List Text) where
  Step-Invariant :
      {g h : System}
      → Step edit n g h
      → Invariant edit n lines g.shared g.driver g.threads
      → Invariant edit n lines h.shared h.driver h.threads
  Step-Invariant (work g i {s'} {p} lt e) v = work-Invariant edit n lines v i lt s' p (
      Then-some
        (Works edit i (released n g.driver) (done_of g.driver g.shared.thread_id_done)
          (length v.before) g.shared (g.threads i))
        (thread_step-Works edit i (released n g.driver) (done_of g.driver g.shared.thread_id_done)
          (length v.before) g.shared (g.threads i) (v.fine i lt)
          (λ lit h. sym (
            in_round n i g.shared.thread_id_done lines v.before g.shared.input g.shared.line
              g.driver v.during lit h)))
        e)
  Step-Invariant (drive g {s'} {m} e) v =
      Then-some (λ s' m'. Invariant edit n lines s' m' g.threads)
        (main_step-Invariant edit n lines g.driver v) e

  start-Invariant :
      Invariant edit n lines (start_of_run lines).shared MainPc.read (start_of_run lines).threads
  unfolding print_all prints_line
  start-Invariant = record {
    before = [];
    during = (refl, refl);
    within = omega arith;
    bound = omega arith;
    fine = λ i lt. (inr (refl, inr (omega arith)), inr (refl, omega arith));
    turns = omega (arith, sum_const turn n (lock_line false) refl);
    prints = omega (arith, sum_const prints_now n (lock_line false) refl);
    output = refl;
  }

  pub Reach-Invariant :
      {g : System}
      → Reach edit n (start_of_run lines) g
      → Invariant edit n lines g.shared g.driver g.threads
  Reach-Invariant here = start-Invariant
  Reach-Invariant (next r st) = Step-Invariant st (Reach-Invariant r)
