-- ===== src/Bus/Riders.antt =====
-- What one step of `rider` keeps of the semaphores and the counters, the rider's own share included.
use school_projects.Base.{ℕ, zero, suc, ◌+◌, ◌≤◌, ◌≡◌, refl, arith, List, ◌∷◌, ltb}
use school_projects.Bus.{
  Shared, Line, RiderPc, rider_step, wait_turn, load_counter, store_counter, post_turn, start,
  enter, boarding, finish,
}
use school_projects.Base.Steps.{Then, Then-if}
use school_projects.Bus.Weights.{
  turn, storing, loaded, stage, holds, storing_waiting, loaded_waiting, storing_transported,
  loaded_transported, at_stop, on_step, counted, aboard, let_out,
}

-- An access to a shared number `c` by a process with the mark `m` and the loaded value `v`: none, a load,
-- or a store of one more than what was loaded.
abbrev pub Access : (c c' m m' v v' : ℕ) → Type 0
Access c c' m m' v v' =
    (m ≡ 0 → (c' ≡ c) × (v ≡ 0))
    × (m ≡ 1 → (c' ≡ suc v) × (m' ≡ 0))
    × (m' ≡ 0 → v' ≡ 0)
    × (m' ≡ 1 → v' ≡ c)
    × (m ≤ 1)
    × (m' ≤ 1)

-- The output is untouched, or one line with the new number is written.
abbrev pub Prints : (before after : List Line) (n m : ℕ) → Type 0
Prints before after n zero = after ≡ before
Prints before after n (suc m) = (l : Line) × (after ≡ l ∷ before) × (l.number ≡ n)

pub record Rides (s : Shared) (p : RiderPc) (s' : Shared) (p' : RiderPc) : Type 0 where
  pub turns : s'.mutex2 + turn (stage p') ≡ s.mutex2 + turn (stage p)
  pub locks : s'.mutex + holds p' ≡ s.mutex + holds p
  pub tokens : s'.bus + on_step p' + s'.boarded ≡ s.bus + on_step p + s.boarded
  pub counter :
      Access s.counter s'.counter
        (storing (stage p))
        (storing (stage p'))
        (loaded (stage p))
        (loaded (stage p'))
  pub waiting :
      Access s.waiting s'.waiting
        (storing_waiting p)
        (storing_waiting p')
        (loaded_waiting p)
        (loaded_waiting p')
  pub stop : at_stop p' + s.bus ≡ at_stop p + s'.bus + storing_waiting p
  pub transported :
      Access s.transported s'.transported
        (storing_transported p)
        (storing_transported p')
        (loaded_transported p)
        (loaded_transported p')
  pub counts : counted p' ≡ counted p + storing_transported p
  pub boards : aboard p' + s'.bus ≡ aboard p + s.bus
  pub leaves : s'.can_finish + let_out p' ≡ s.can_finish + let_out p

pub rider_step-Prints :
    (p : RiderPc) (id : ℕ) (s : Shared)
    → Then (λ s' a. Prints s.output s'.output s'.counter (storing (stage p))) (rider_step p id s)
unfolding rider_step
rider_step-Prints (RiderPc.talk m wait_turn) id s = Then-if _ (ltb 0 s.mutex2) _ _ (λ h. refl)
rider_step-Prints (RiderPc.talk start load_counter) id s = refl
rider_step-Prints (RiderPc.talk enter load_counter) id s = refl
rider_step-Prints (RiderPc.talk boarding load_counter) id s = refl
rider_step-Prints (RiderPc.talk finish load_counter) id s = refl
rider_step-Prints (RiderPc.talk m (store_counter n)) id s = (_, refl, refl)
rider_step-Prints RiderPc.lock_stop id s = Then-if _ (ltb 0 s.mutex) _ _ (λ h. refl)
rider_step-Prints RiderPc.wait_bus id s = Then-if _ (ltb 0 s.bus) _ _ (λ h. refl)
rider_step-Prints RiderPc.lock_count id s = Then-if _ (ltb 0 s.mutex) _ _ (λ h. refl)
rider_step-Prints RiderPc.wait_finish id s = Then-if _ (ltb 0 s.can_finish) _ _ (λ h. refl)
rider_step-Prints RiderPc.exited id s = tt
rider_step-Prints p id s = refl

pub rider_step-Rides :
    (p : RiderPc) (id : ℕ) (s : Shared) → Then (λ s' a. Rides s p s' a.pc) (rider_step p id s)
unfolding rider_step
rider_step-Rides (RiderPc.talk m wait_turn) id s =
    Then-if _ (ltb 0 s.mutex2) _ _ (λ h. ground arith)
rider_step-Rides (RiderPc.talk start load_counter) id s = omega arith
rider_step-Rides (RiderPc.talk enter load_counter) id s = omega arith
rider_step-Rides (RiderPc.talk boarding load_counter) id s = omega arith
rider_step-Rides (RiderPc.talk finish load_counter) id s = omega arith
rider_step-Rides (RiderPc.talk m (store_counter n)) id s = ground arith
rider_step-Rides (RiderPc.talk m post_turn) id s = ground arith
rider_step-Rides RiderPc.lock_stop id s = Then-if _ (ltb 0 s.mutex) _ _ (λ h. ground arith)
rider_step-Rides RiderPc.wait_bus id s = Then-if _ (ltb 0 s.bus) _ _ (λ h. ground arith)
rider_step-Rides RiderPc.lock_count id s = Then-if _ (ltb 0 s.mutex) _ _ (λ h. ground arith)
rider_step-Rides RiderPc.wait_finish id s = Then-if _ (ltb 0 s.can_finish) _ _ (λ h. ground arith)
rider_step-Rides RiderPc.exited id s = tt
rider_step-Rides p id s = omega arith
