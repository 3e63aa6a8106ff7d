-- ===== src/Bus/Progress.antt =====
-- The processes never wait for each other in vain.
use school_projects.Base.{
  ℕ, ◌+◌, ◌≤◌, ◌<◌, ◌≡◌, ◌⊎◌, inl, inr, refl, arith, Option, none, some, Bool-cases, ltb,
}
use school_projects.Bus.{
  Shared, RiderPc, Rider, rider, rider_step, BusPc, bus_step, load_counter, start, enter, boarding,
  finish,
}
use school_projects.Base.Family.{sum, le-sum, sum-le-sum, full-sum, pick, sum-le, sum_add}
use school_projects.Bus.Weights.{
  turn, stage, bus_stage, holds, bus_holds, at_stop, on_step, counted, let_in, aboard, let_out,
  expects, InRange,
}
use school_projects.Bus.System.{System, start_of_day, Step, ride, drive, Reach, total}
use school_projects.Bus.Invariant.{Holds, Reach-Invariant}

-- Whether a process can take its next step.
answered : {A : Type 0} → Option A → ℕ
answered none = 0
answered (some a) = 1

answer : {A : Type 0} (o : Option A) → 0 < answered o → (a : A) × (o ≡ some a)
unfolding answered
answer none h = absurd (omega arith)
answer (some a) h = (a, refl)

ready : Shared → Rider → ℕ
unfolding answered
ready s a = answered (rider_step a.pc a.id s)

talks : RiderPc → ℕ
talks (RiderPc.talk m g) = 1
talks _ = 0

turn-le-ready : (s : Shared) (id : ℕ) (p : RiderPc) → turn (stage p) ≤ ready s (rider id p)
unfolding ready rider_step
turn-le-ready s id (RiderPc.talk start load_counter) = omega arith
turn-le-ready s id (RiderPc.talk enter load_counter) = omega arith
turn-le-ready s id (RiderPc.talk boarding load_counter) = omega arith
turn-le-ready s id (RiderPc.talk finish load_counter) = omega arith
turn-le-ready s id p = ground arith

talks-le-ready : (s : Shared) (id : ℕ) (p : RiderPc) → 0 < s.mutex2 → talks p ≤ ready s (rider id p)
unfolding ready rider_step talks
talks-le-ready s id (RiderPc.talk start load_counter) h = omega arith
talks-le-ready s id (RiderPc.talk enter load_counter) h = omega arith
talks-le-ready s id (RiderPc.talk boarding load_counter) h = omega arith
talks-le-ready s id (RiderPc.talk finish load_counter) h = omega arith
talks-le-ready s id p h = ground arith

-- A rider that holds `sem_mutex` never waits for anything but its turn to speak.
holds-le-ready : (s : Shared) (id : ℕ) (p : RiderPc) → 0 < s.mutex2 → holds p ≤ ready s (rider id p)
unfolding ready rider_step talks
holds-le-ready s id (RiderPc.talk enter g) h = talks-le-ready s id (RiderPc.talk enter g) h
holds-le-ready s id p h = omega arith

on_step-le-ready :
    (s : Shared) (id : ℕ) (p : RiderPc) → 0 < s.mutex2 → on_step p ≤ ready s (rider id p)
unfolding ready rider_step talks
on_step-le-ready s id (RiderPc.talk boarding g) h = talks-le-ready s id (RiderPc.talk boarding g) h
on_step-le-ready s id p h = omega arith

at_stop-le-ready :
    (s : Shared) (id : ℕ) (p : RiderPc)
    → 0 < s.mutex2
    → 0 < s.bus
    → at_stop p ≤ ready s (rider id p)
unfolding ready rider_step talks
at_stop-le-ready s id (RiderPc.talk enter g) h k = talks-le-ready s id (RiderPc.talk enter g) h
at_stop-le-ready s id RiderPc.wait_bus h k = ground arith
at_stop-le-ready s id p h k = omega arith

-- A rider that has been counted leaves as soon as it is let out.
counted-le-ready :
    (s : Shared) (id : ℕ) (p : RiderPc)
    → 0 < s.mutex2
    → 0 < s.can_finish
    → counted p ≤ ready s (rider id p) + let_out p
unfolding ready rider_step talks
counted-le-ready s id RiderPc.wait_finish h k = ground arith
counted-le-ready s id p h k = omega arith

counted-le-aboard : (p : RiderPc) → counted p ≤ aboard p
counted-le-aboard (RiderPc.talk finish g) = omega arith
counted-le-aboard p = omega arith

let_out-le-one : (p : RiderPc) → let_out p ≤ 1
let_out-le-one (RiderPc.talk finish g) = omega arith
let_out-le-one p = omega arith

-- Who has been let out and cannot go on has left.
exited-of-let_out :
    (s : Shared) (id : ℕ) (p : RiderPc)
    → 0 < s.mutex2
    → let_out p ≡ 1
    → ready s (rider id p) ≡ 0
    → p ≡ RiderPc.exited
unfolding talks
exited-of-let_out s id (RiderPc.talk finish g) h e z =
    absurd (omega (arith, talks-le-ready s id (RiderPc.talk finish g) h))
exited-of-let_out s id RiderPc.exited h e z = refl
exited-of-let_out s id p h e z = absurd (omega arith)

module _ (r c : ℕ) where
  pub record Finished (s : System) : Type 0 where
    pub driver : s.driver ≡ BusPc.exited
    pub riders : (i : ℕ) → i < r → (s.riders i).pc ≡ RiderPc.exited

  bus_turn-le-answered : (s : Shared) (p : BusPc) → turn (bus_stage p) ≤ answered (bus_step r c p s)
  unfolding bus_step answered
  bus_turn-le-answered s p = ground arith

  module _ (s : System) (v : Holds r c s) (stuck : sum (ready s.shared) r s.riders ≡ 0)
      (bus_stuck : answered (bus_step r c s.driver s.shared) ≡ 0) where
    none_ready :
        (w : RiderPc → ℕ) → ((a : Rider) → w a.pc ≤ ready s.shared a) → total r c w s.riders ≡ 0
    none_ready w h =
        omega (arith, stuck, sum-le-sum (λ (a : Rider). w a.pc) (ready s.shared) h r s.riders)

    may_speak : s.shared.mutex2 ≡ 1
    may_speak = omega (
      arith,
      v.turns,
      bus_stuck,
      bus_turn-le-answered s.shared s.driver,
      none_ready (λ q. turn (stage q)) (λ a. turn-le-ready s.shared a.id a.pc),
    )

    holds_zero : total r c holds s.riders ≡ 0
    holds_zero =
        none_ready holds (λ a. holds-le-ready s.shared a.id a.pc (omega (arith, may_speak)))

    at_stop_zero : 0 < s.shared.bus → total r c at_stop s.riders ≡ 0
    at_stop_zero k =
        none_ready at_stop (λ a. at_stop-le-ready s.shared a.id a.pc (omega (arith, may_speak)) k)

    on_step_zero : total r c on_step s.riders ≡ 0
    on_step_zero =
        none_ready on_step (λ a. on_step-le-ready s.shared a.id a.pc (omega (arith, may_speak)))

    -- The bus waits in vain for no rider to confirm, since one is at the stop for each free seat.
    exited-of-stuck :
        (p : BusPc)
        → answered (bus_step r c p s.shared) ≡ 0
        → s.shared.mutex + bus_holds p ≡ 1
        → s.shared.bus + s.shared.boarded ≡ expects p
        → s.shared.waiting + s.shared.bus ≡ total r c at_stop s.riders + let_in p
        → InRange c s.shared.waiting p
        → p ≡ BusPc.exited
    unfolding answered bus_step
    exited-of-stuck (BusPc.talk m n g) z l t w h = absurd (ground (arith, may_speak))
    exited-of-stuck (BusPc.wait_boarded n i) z l t w h = absurd (ground (arith, at_stop_zero))
    exited-of-stuck BusPc.exited z l t w h = refl
    exited-of-stuck p z l t w h = absurd (ground arith)

    driver_exited : s.driver ≡ BusPc.exited
    driver_exited =
        exited-of-stuck s.driver bus_stuck (omega (arith, v.locks, holds_zero))
          (omega (arith, v.tokens, on_step_zero)) v.stop v.range

    all_let_out : total r c let_out s.riders ≡ r
    all_let_out =
        let bound : total r c let_out s.riders ≤ r =
          sum-le (λ (a : Rider). let_out a.pc) (λ a. let_out-le-one a.pc) r s.riders in
        let full : s.shared.transported ≡ r = rw driver_exited at v.complete in
        let paid : total r c aboard s.riders + s.shared.bus
            ≡ s.shared.can_finish + total r c let_out s.riders + 0 =
          rw driver_exited at v.boards in
        elim (Bool-cases (ltb 0 s.shared.can_finish)) [
          | inl tokens ↦
              let open_door : 0 < s.shared.can_finish = ground arith in
              omega (
                arith,
                full,
                v.counts,
                stuck,
                bound,
                sum_add (ready s.shared) (λ (a : Rider). let_out a.pc) r s.riders,
                sum-le-sum (λ (a : Rider). counted a.pc)
                    (λ (a : Rider). ready s.shared a + let_out a.pc)
                    (λ a. counted-le-ready s.shared a.id a.pc (omega (arith, may_speak)) open_door)
                    r s.riders,
              )
          | inr closed ↦
              let empty : s.shared.can_finish ≡ 0 = ground arith in
              omega (
                arith,
                empty,
                full,
                v.counts,
                paid,
                bound,
                sum-le-sum (λ (a : Rider). counted a.pc) (λ (a : Rider). aboard a.pc)
                    (λ a. counted-le-aboard a.pc) r s.riders,
              )
        ]

    finished : Finished s
    finished = record {
      driver = driver_exited;
      riders = λ i lt.
          exited-of-let_out s.shared (s.riders i).id (s.riders i).pc (omega (arith, may_speak))
            (full-sum (λ (a : Rider). let_out a.pc) (λ a. let_out-le-one a.pc) r i s.riders
              all_let_out lt)
            (omega (arith, stuck, le-sum (ready s.shared) r i s.riders lt));
    }

  -- At every moment of the day all processes have exited or one of them can take its next step: for any
  -- numbers of riders and seats there is no deadlock.
  pub progress :
      {s : System} → Reach r c start_of_day s → Finished s ⊎ ((t : System) × Step r c s t)
  unfolding answered ready
  progress {s} h = elim (Bool-cases (ltb 0 (answered (bus_step r c s.driver s.shared)))) [
    | inl goes ↦
        let (a, e) = answer (bus_step r c s.driver s.shared) (ground arith) in inr (_, drive s e)
    | inr waits ↦ elim (Bool-cases (ltb 0 (sum (ready s.shared) r s.riders))) [
      | inl goes ↦
          let (i, lt, go) = pick (ready s.shared) r s.riders (ground arith) in
          let (a, e) = answer (rider_step (s.riders i).pc (s.riders i).id s.shared) go in
          inr (_, ride s i lt e)
      | inr wait ↦ inl (finished s (Reach-Invariant r c h) (ground arith) (ground arith))
    ]
  ]
