-- ===== src/Bus/Tests.antt =====
-- Two riders and a bus with one seat.
use school_projects.Base.{
  ℕ, zero, suc, ◌+◌, ◌≤◌, ◌≡◌, ◌⊎◌, refl, sym, ap, ◌∙◌, arith, Option, Option-cases, inl, inr, none,
  some, List, [], ◌∷◌, ◌++◌, Bool, true, false, ◌==◌, if◌then◌else◌,
}
use school_projects.Bus.{Line, Speaker, BusMessage, RiderMessage, wait_turn, bus_says, rider_says}
use school_projects.Bus.System.{System, start_of_day, Reach, Step, here}
use school_projects.Bus.Weights.{holds, bus_holds, turn, stage, bus_stage, counted}
use school_projects.Bus.Schedule.{run, run-Reach}
use school_projects.Bus.Resources.{
  Semaphore, all_boarded, Segment, of_waiting, of_counter, of_transported, of_rid_counter, Attached,
  at_minus_one, at_segment, set_resources,
}
use school_projects.Bus.Resources.Left.{Leaves, set_resources-Leaves}
use school_projects.Bus.Safety.{mutual_exclusion, finish-counted}
use school_projects.Bus.Progress.{Finished, progress}

abbrev times : ℕ → ℕ → List ℕ
times zero p = []
times (suc n) p = p ∷ times n p

-- Both riders come to the stop, the first one boards and is slow to say that it has arrived, and the second
-- one boards in the second ride.
abbrev two_rides : List ℕ
two_rides =
    times 12 1
    ++ times 12 2
    ++ times 16 0
    ++ times 6 1
    ++ times 18 0
    ++ times 12 0
    ++ times 6 2
    ++ times 12 0
    ++ times 9 2

last_three : Option System → List Speaker
last_three none = []
last_three (some s) = three s.shared.output
  where
    three : List Line → List Speaker
    three (a ∷ b ∷ c ∷ ls) = a.speaker ∷ b.speaker ∷ c.speaker ∷ []
    three ls = []

-- The second rider leaves by the token of the first one, before its bus has arrived: the bus has departed,
-- and has not said `end`.
rider_finishes_before_end :
    last_three (run 2 1 two_rides start_of_day)
    ≡ rider_says 2 RiderMessage.finish
      ∷ bus_says BusMessage.depart
      ∷ bus_says BusMessage.end_boarding
      ∷ []
unfolding last_three run
rider_finishes_before_end = refl

outcome : Option System → System
outcome none = start_of_day
outcome (some s) = s

outcome-Reach : (r c : ℕ) (is : List ℕ) → Reach r c start_of_day (outcome (run r c is start_of_day))
unfolding outcome
outcome-Reach r c is = elim (Option-cases (run r c is start_of_day)) [
  | inl stops ↦ rw stops here
  | inr (s, ends) ↦ rw ends (run-Reach r c is here ends)
]

-- The first rider has confirmed that it boards.
boarding_now : System
boarding_now = outcome (run 2 1 (times 12 1 ++ times 12 2 ++ times 16 0 ++ times 6 1) start_of_day)

boarding_now-Reach : Reach 2 1 start_of_day boarding_now
unfolding boarding_now
boarding_now-Reach = outcome-Reach 2 1 (times 12 1 ++ times 12 2 ++ times 16 0 ++ times 6 1)

-- The bus is about to announce that it finishes.
evening : System
evening = outcome (run 2 1 (two_rides ++ times 4 1 ++ times 7 0) start_of_day)

evening-Reach : Reach 2 1 start_of_day evening
unfolding evening
evening-Reach = outcome-Reach 2 1 (two_rides ++ times 4 1 ++ times 7 0)

mutual_exclusion_example :
    (holds (boarding_now.riders 0).pc + bus_holds boarding_now.driver ≤ 1)
    × (turn (stage (boarding_now.riders 0).pc) + turn (bus_stage boarding_now.driver) ≤ 1)
    × (◌≡◌ {A = ℕ} 0 1
        ⊎ ((holds (boarding_now.riders 0).pc + holds (boarding_now.riders 1).pc ≤ 1)
            × (turn (stage (boarding_now.riders 0).pc) + turn (stage (boarding_now.riders 1).pc)
                ≤ 1)))
mutual_exclusion_example = mutual_exclusion 2 1 boarding_now-Reach 0 1 (omega arith) (omega arith)

finish-counted_example : counted (evening.riders 1).pc ≡ 1
unfolding evening outcome run
finish-counted_example = finish-counted 2 1 evening-Reach 0 wait_turn 1 refl (omega arith)

progress_example : Finished 2 1 boarding_now ⊎ ((t : System) × Step 2 1 boarding_now t)
progress_example = progress 2 1 boarding_now-Reach

-- The answers of a system in which one semaphore is there already.
abbrev one_missing : Semaphore → Bool
one_missing all_boarded = false
one_missing _ = true

abbrev number : Segment → ℕ
number of_waiting = 1
number of_counter = 2
number of_transported = 3
number of_rid_counter = 4

abbrev segment_at : ℕ → Segment
segment_at n =
    if n == 1
    then of_waiting
    else (if n == 2 then of_counter else (if n == 3 then of_transported else of_rid_counter))

abbrev attach_segment : Option ℕ → Attached
attach_segment none = at_minus_one
attach_segment (some i) = at_segment

segment_at-number : (s : Segment) → segment_at (number s) ≡ s
segment_at-number of_waiting = refl
segment_at-number of_counter = refl
segment_at-number of_transported = refl
segment_at-number of_rid_counter = refl

some_equal : {i j : ℕ} → some i ≡ some j → i ≡ j
some_equal e = cc

set_resources-Leaves_example :
    Leaves true one_missing
      (λ s. some (number s))
      attach_segment
      (λ call id. true)
      (set_resources true one_missing (λ s. some (number s)) attach_segment true (λ call id. true))
set_resources-Leaves_example =
    set_resources-Leaves true one_missing (λ s. some (number s)) attach_segment (λ call id. true)
      refl
      (λ s s' i e e'.
        sym (segment_at-number s) ∙ ap segment_at (some_equal (e ∙ sym e')) ∙ segment_at-number s')
