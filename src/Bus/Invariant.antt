-- ===== src/Bus/Invariant.antt =====
-- Every step of a process keeps the invariant.
pub mod Facts
use school_projects.Base.{
  ℕ, zero, suc, ◌+◌, ◌≤◌, ◌<◌, ◌≡◌, ◌≢◌, refl, sym, ◌∙◌, arith, Option, none, some, List, [], ◌∷◌,
  inl, inr,
}
use school_projects.Bus.{
  Shared, Line, RiderPc, Rider, rider, rider_step, RiderMessage, BusPc, BusMessage, bus_step, Stage,
  wait_turn, load_counter, store_counter, post_turn, initial,
}
use school_projects.Base.Family.{
  change, sum, sum-change, le-sum, sum-le-sum, sum_zero, sum_const, sum-le,
}
use school_projects.Bus.Weights.{
  turn, storing, loaded, stage, bus_stage, holds, bus_holds, storing_waiting, loaded_waiting,
  storing_transported, loaded_transported, at_stop, on_step, counted, let_in, expects, aboard,
  let_out, owes, InRange, Complete,
}
use school_projects.Base.Steps.{Then-some}
use school_projects.Bus.Riders.{Access, Prints, Rides, rider_step-Rides, rider_step-Prints}
use school_projects.Bus.Driver.{Drives, bus_step-Drives, bus_step-Prints}
use school_projects.Bus.System.{
  System, start_of_day, Numbered, Register, Step, ride, drive, Reach, here, next, total, Invariant,
}
use school_projects.Bus.Invariant.Facts.{
  Access-Register, Prints-Numbered, storing-le-turn, loaded_zero, storing_waiting-le-holds,
  loaded_waiting_zero, storing_transported-le-holds, loaded_transported_zero, counted-le-one,
  InRange-change, Complete-le,
}

module _ (r c : ℕ) {s : Shared} {p : BusPc} {f : ℕ → Rider} (v : Invariant r c s p f) where
  module _ (i : ℕ) (i-lt : i < r) (s' : Shared) (a : Rider) (k : Rides s (f i).pc s' a.pc) where
    moved : (w : RiderPc → ℕ) → total r c w (change f i a) + w (f i).pc ≡ total r c w f + w a.pc
    moved w = sum-change (λ (b : Rider). w b.pc) r i f a i-lt

    ride-turns : s'.mutex2 + turn (bus_stage p) + total r c (λ q. turn (stage q)) (change f i a) ≡ 1
    ride-turns = omega (arith, v.turns, k.turns, moved (λ q. turn (stage q)))

    ride-locks : s'.mutex + bus_holds p + total r c holds (change f i a) ≡ 1
    ride-locks = omega (arith, v.locks, k.locks, moved holds)

    ride-counter :
        Register s'.counter
          (storing (bus_stage p) + total r c (λ q. storing (stage q)) (change f i a))
          (loaded (bus_stage p) + total r c (λ q. loaded (stage q)) (change f i a))
        × (s'.counter ≡ s.counter + storing (stage (f i).pc))
    ride-counter =
        Access-Register _ _ _ _ k.counter v.counter (omega (arith, moved (λ q. storing (stage q))))
          (omega (arith, moved (λ q. loaded (stage q))))
          (omega (
            arith,
            storing-le-turn (bus_stage p),
            ride-turns,
            sum-le-sum (λ (b : Rider). storing (stage b.pc)) (λ (b : Rider). turn (stage b.pc))
                (λ b. storing-le-turn (stage b.pc)) r (change f i a),
          ))
          (λ z. omega (
            arith,
            loaded_zero (bus_stage p) (omega (arith, z)),
            sum_zero (λ (b : Rider). storing (stage b.pc)) (λ (b : Rider). loaded (stage b.pc))
                (λ b. loaded_zero (stage b.pc)) r (change f i a) (omega (arith, z)),
          ))

    ride-waiting :
        Register s'.waiting
          (total r c storing_waiting (change f i a))
          (total r c loaded_waiting (change f i a))
        × (s'.waiting ≡ s.waiting + storing_waiting (f i).pc)
    ride-waiting =
        Access-Register _ _ _ _ k.waiting v.waiting (moved storing_waiting) (moved loaded_waiting)
          (omega (
            arith,
            ride-locks,
            sum-le-sum (λ (b : Rider). storing_waiting b.pc) (λ (b : Rider). holds b.pc)
                (λ b. storing_waiting-le-holds b.pc) r (change f i a),
          ))
          (sum_zero (λ (b : Rider). storing_waiting b.pc) (λ (b : Rider). loaded_waiting b.pc)
            (λ b. loaded_waiting_zero b.pc) r (change f i a))

    ride-transported :
        Register s'.transported
          (total r c storing_transported (change f i a))
          (total r c loaded_transported (change f i a))
        × (s'.transported ≡ s.transported + storing_transported (f i).pc)
    ride-transported =
        Access-Register _ _ _ _ k.transported v.transported (moved storing_transported)
          (moved loaded_transported)
          (omega (
            arith,
            ride-locks,
            sum-le-sum (λ (b : Rider). storing_transported b.pc) (λ (b : Rider). holds b.pc)
                (λ b. storing_transported-le-holds b.pc) r (change f i a),
          ))
          (sum_zero (λ (b : Rider). storing_transported b.pc)
            (λ (b : Rider). loaded_transported b.pc) (λ b. loaded_transported_zero b.pc) r
            (change f i a))

    ride-counts : s'.transported ≡ total r c counted (change f i a)
    ride-counts = omega (arith, v.counts, k.counts, moved counted, ride-transported.1)

    -- While the bus holds `sem_mutex`, no rider stores `*waiting`.
    ride-idle : bus_holds p ≢ 0 → s'.waiting ≡ s.waiting
    ride-idle h = omega (
      arith,
      v.locks,
      ride-waiting.1,
      storing_waiting-le-holds (f i).pc,
      le-sum (λ (b : Rider). holds b.pc) r i f i-lt,
      h,
    )

    ride-Invariant :
        Prints s.output s'.output s'.counter (storing (stage (f i).pc))
        → Invariant r c s' p (change f i a)
    ride-Invariant w = record {
      turns = ride-turns;
      locks = ride-locks;
      tokens = omega (arith, v.tokens, k.tokens, moved on_step);
      counter = ride-counter.0;
      numbered =
          Prints-Numbered _ _ _ _ (storing (stage (f i).pc)) w (omega (arith, k.counter))
            ride-counter.1 v.numbered;
      waiting = ride-waiting.0;
      stop = omega (arith, v.stop, k.stop, moved at_stop, ride-waiting.1);
      transported = ride-transported.0;
      counts = ride-counts;
      boards = omega (arith, v.boards, k.boards, k.leaves, moved aboard, moved let_out);
      range = InRange-change c _ _ p ride-idle v.range;
      complete =
          Complete-le r _ _ p (omega (arith, ride-transported.1))
            (omega (
              arith,
              ride-counts,
              sum-le (λ (b : Rider). counted b.pc) (λ b. counted-le-one b.pc) r (change f i a),
            ))
            v.complete;
    }

  module _ (s' : Shared) (p' : BusPc) (k : Drives r c s p s' p') where
    drive-turns : s'.mutex2 + turn (bus_stage p') + total r c (λ q. turn (stage q)) f ≡ 1
    drive-turns = omega (arith, v.turns, k.turns)

    drive-counter :
        Register s'.counter
          (storing (bus_stage p') + total r c (λ q. storing (stage q)) f)
          (loaded (bus_stage p') + total r c (λ q. loaded (stage q)) f)
        × (s'.counter ≡ s.counter + storing (bus_stage p))
    drive-counter =
        Access-Register _ _ _ _ k.counter v.counter (omega arith) (omega arith)
          (omega (
            arith,
            storing-le-turn (bus_stage p'),
            drive-turns,
            sum-le-sum (λ (b : Rider). storing (stage b.pc)) (λ (b : Rider). turn (stage b.pc))
                (λ b. storing-le-turn (stage b.pc)) r f,
          ))
          (λ z. omega (
            arith,
            loaded_zero (bus_stage p') (omega (arith, z)),
            sum_zero (λ (b : Rider). storing (stage b.pc)) (λ (b : Rider). loaded (stage b.pc))
                (λ b. loaded_zero (stage b.pc)) r f (omega (arith, z)),
          ))

    -- While a rider is about to store `*waiting`, the bus does not.
    drive-waiting : Register s'.waiting (total r c storing_waiting f) (total r c loaded_waiting f)
    drive-waiting = (
      v.waiting.0,
      λ e.
          v.waiting.1 e
          ∙ sym (
              k.idle (
                omega (
                  arith,
                  e,
                  v.locks,
                  sum-le-sum (λ (b : Rider). storing_waiting b.pc) (λ (b : Rider). holds b.pc)
                      (λ b. storing_waiting-le-holds b.pc) r f,
                ))),
      v.waiting.2,
    )

    drive-Invariant :
        Prints s.output s'.output s'.counter (storing (bus_stage p)) → Invariant r c s' p' f
    drive-Invariant w = record {
      turns = drive-turns;
      locks = omega (arith, v.locks, k.locks);
      tokens = omega (arith, v.tokens, k.tokens);
      counter = drive-counter.0;
      numbered =
          Prints-Numbered _ _ _ _ (storing (bus_stage p)) w (omega (arith, k.counter))
            drive-counter.1 v.numbered;
      waiting = drive-waiting;
      stop = omega (arith, v.stop, k.stop);
      transported = rw k.transported v.transported;
      counts = k.transported ∙ v.counts;
      boards = omega (arith, v.boards, k.leaves);
      range = k.range;
      complete = k.complete;
    }

-- The invariant of a whole system.
abbrev pub Holds : (r c : ℕ) → System → Type 0
Holds r c s = Invariant r c s.shared s.driver s.riders

module _ (r c : ℕ) where
  Step-Invariant : {s t : System} → Step r c s t → Holds r c s → Holds r c t
  Step-Invariant (ride s i {s'} {a} lt e) v =
      let p = (s.riders i).pc in
      let k = rider_step-Rides p (s.riders i).id s.shared in
      let w = rider_step-Prints p (s.riders i).id s.shared in
      ride-Invariant r c v i lt s' a (Then-some (λ t b. Rides s.shared p t b.pc) k e) (
        Then-some (λ t (b : Rider). Prints s.shared.output t.output t.counter (storing (stage p))) w
          e)
  Step-Invariant (drive s {s'} {p} e) v =
      drive-Invariant r c v s' p
        (Then-some (Drives r c s.shared s.driver)
          (bus_step-Drives r c s.driver s.shared v.range v.complete) e)
        (Then-some (λ t b. Prints s.shared.output t.output t.counter (storing (bus_stage s.driver)))
          (bus_step-Prints r c s.driver s.shared) e)

  none_yet :
      (w : RiderPc → ℕ)
      → w (RiderPc.talk RiderMessage.start wait_turn) ≡ 0
      → total r c w start_of_day.riders ≡ 0
  none_yet w e =
      sum_const (λ (b : Rider). w b.pc) r (rider 0 (RiderPc.talk RiderMessage.start wait_turn)) e

  start-Invariant : Holds r c start_of_day
  start-Invariant = record {
    turns = omega (arith, none_yet (λ q. turn (stage q)) refl);
    locks = omega (arith, none_yet holds refl);
    tokens = omega (arith, none_yet on_step refl);
    counter =
        omega
          (arith, none_yet (λ q. storing (stage q)) refl, none_yet (λ q. loaded (stage q)) refl);
    numbered = refl;
    waiting = omega (arith, none_yet storing_waiting refl, none_yet loaded_waiting refl);
    stop = omega (arith, none_yet at_stop refl);
    transported =
        omega (arith, none_yet storing_transported refl, none_yet loaded_transported refl);
    counts = omega (arith, none_yet counted refl);
    boards = omega (arith, none_yet aboard refl, none_yet let_out refl);
    range = tt;
    complete = tt;
  }

  pub Reach-Invariant : {s : System} → Reach r c start_of_day s → Holds r c s
  Reach-Invariant here = start-Invariant
  Reach-Invariant (next r st) = Step-Invariant st (Reach-Invariant r)
