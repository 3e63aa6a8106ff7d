-- ===== src/Bus/Safety.antt =====
-- What holds of `*counter`, `*waiting`, `*transported` and the output at every moment of the day.
use school_projects.Base.{ℕ, ◌+◌, ◌≤◌, ◌<◌, ◌≡◌, ◌⊎◌, inl, inr, sym, ◌∙◌, arith}
use school_projects.Bus.{Rider, BusPc, BusMessage, Stage}
use school_projects.Base.Family.{same_or_different, le-sum, add-le-sum, sum-le, full-sum}
use school_projects.Bus.Weights.{
  turn, stage, bus_stage, holds, bus_holds, at_stop, counted, let_in, expects, InRange,
}
use school_projects.Bus.System.{System, start_of_day, Numbered, Reach, total}
use school_projects.Bus.Invariant.{Holds, Reach-Invariant}
use school_projects.Bus.Invariant.Facts.{counted-le-one}

InRange-let_in : (c w : ℕ) (p : BusPc) → InRange c w p → (let_in p ≤ w) × (let_in p ≤ c)
InRange-let_in c w (BusPc.board n i) h = ground arith
InRange-let_in c w (BusPc.wait_boarded n i) h = ground arith
InRange-let_in c w (BusPc.settle n) h = ground arith
InRange-let_in c w p h = omega arith

idle_driver : (p : BusPc) → bus_holds p ≡ 0 → (let_in p ≡ 0) × (expects p ≡ 0)
idle_driver (BusPc.board n i) h = absurd (omega arith)
idle_driver (BusPc.wait_boarded n i) h = absurd (omega arith)
idle_driver (BusPc.settle n) h = absurd (omega arith)
idle_driver p h = omega arith

module _ (r c : ℕ) {s : System} (h : Reach r c start_of_day s) where
  abbrev kept : Holds r c s
  kept = Reach-Invariant r c h

  open s use {shared, driver, riders}

  -- For any numbers of riders and seats, at every moment of the day: no rider and the bus are both between
  -- `sem_wait` and `sem_post` of `sem_mutex`, nor of `sem_mutex2`, and neither are two different riders.
  pub mutual_exclusion :
      (i j : ℕ)
      → i < r
      → j < r
      → (holds (riders i).pc + bus_holds driver ≤ 1)
        × (turn (stage (riders i).pc) + turn (bus_stage driver) ≤ 1)
        × ((i ≡ j)
            ⊎ ((holds (riders i).pc + holds (riders j).pc ≤ 1)
                × (turn (stage (riders i).pc) + turn (stage (riders j).pc) ≤ 1)))
  mutual_exclusion i j hi hj = (
    omega (arith, kept.locks, le-sum (λ (a : Rider). holds a.pc) r i riders hi),
    omega (arith, kept.turns, le-sum (λ (a : Rider). turn (stage a.pc)) r i riders hi),
    elim (same_or_different i j) [
      | inl same ↦ inl same
      | inr ne ↦ inr (
        omega (arith, kept.locks, add-le-sum (λ (a : Rider). holds a.pc) r i j riders hi hj ne),
        omega (
          arith,
          kept.turns,
          add-le-sum (λ (a : Rider). turn (stage a.pc)) r i j riders hi hj ne,
        ),
      )
    ],
  )

  -- The lines of the output are numbered 1, 2, 3 and so on, and `*counter` is the number of the last one.
  output-Numbered : Numbered shared.output shared.counter
  output-Numbered = kept.numbered

  -- `*waiting` and the free tokens of `sem_bus` together are the riders at the stop and those that the bus has
  -- called in since it arrived; it has called in no more than `*waiting`, and no more than it has seats.
  pub boarding_lem :
      (shared.waiting + shared.bus ≡ total r c at_stop riders + let_in driver)
      × (let_in driver ≤ shared.waiting)
      × (let_in driver ≤ c)
  boarding_lem =
      let (fits, seats) = InRange-let_in c shared.waiting driver kept.range in
      (kept.stop, fits, seats)

  -- While the bus does not hold `sem_mutex`, `*waiting` is the number of riders at the stop.
  pub waiting_lem : bus_holds driver ≡ 0 → shared.waiting ≡ total r c at_stop riders
  waiting_lem free = omega (arith, kept.stop, kept.tokens, idle_driver driver free)

  -- `*transported` is the number of riders that have added themselves to it, `arguments.r` at most.
  pub transported_lem : (shared.transported ≡ total r c counted riders) × (shared.transported ≤ r)
  transported_lem = (
    kept.counts,
    omega (
      arith,
      kept.counts,
      sum-le (λ (a : Rider). counted a.pc) (λ a. counted-le-one a.pc) r riders,
    ),
  )

  -- When the bus announces that it finishes, every rider has been transported.
  pub finish-counted :
      (n : ℕ) (g : Stage) (i : ℕ)
      → driver ≡ BusPc.talk BusMessage.finish n g
      → i < r
      → counted (riders i).pc ≡ 1
  finish-counted n g i e lt =
      let complete : shared.transported ≡ r = rw e at kept.complete in
      full-sum (λ (a : Rider). counted a.pc) (λ a. counted-le-one a.pc) r i riders
        (sym kept.counts ∙ complete) lt
