-- ===== src/Bus/Driver.antt =====
-- What one step of `bus` keeps of the semaphores and the counters, its own share included.
use school_projects.Base.{ℕ, ◌+◌, ◌≡◌, refl, arith, ltb, ◌==◌}
use school_projects.Bus.{Shared, BusPc, bus_step, wait_turn, store_counter}
use school_projects.Bus.Weights.{
  turn, storing, loaded, bus_stage, bus_holds, let_in, expects, owes, InRange, Complete,
}
use school_projects.Base.Steps.{Then, Then-if, Then-if_both}
use school_projects.Bus.Riders.{Access, Prints}

pub record Drives (r c : ℕ) (s : Shared) (p : BusPc) (s' : Shared) (p' : BusPc) : Type 0 where
  pub turns : s'.mutex2 + turn (bus_stage p') ≡ s.mutex2 + turn (bus_stage p)
  pub locks : s'.mutex + bus_holds p' ≡ s.mutex + bus_holds p
  pub tokens : s'.bus + s'.boarded + expects p ≡ s.bus + s.boarded + expects p'
  pub counter :
      Access s.counter s'.counter
        (storing (bus_stage p))
        (storing (bus_stage p'))
        (loaded (bus_stage p))
        (loaded (bus_stage p'))
  pub stop : s'.waiting + s'.bus + let_in p ≡ s.waiting + s.bus + let_in p'
  pub idle : bus_holds p ≡ 0 → s'.waiting ≡ s.waiting
  pub transported : s'.transported ≡ s.transported
  pub leaves : s'.can_finish + owes p' + s.bus ≡ s.can_finish + owes p + s'.bus
  pub range : InRange c s'.waiting p'
  pub complete : Complete r s'.transported p'

module _ (r c : ℕ) where
  pub bus_step-Prints :
      (p : BusPc) (s : Shared)
      → Then
          (λ s' a. Prints s.output s'.output s'.counter (storing (bus_stage p)))
          (bus_step r c p s)
  unfolding bus_step
  bus_step-Prints (BusPc.talk m n wait_turn) s = Then-if _ (ltb 0 s.mutex2) _ _ (λ h. refl)
  bus_step-Prints (BusPc.talk m n (store_counter k)) s = (_, refl, refl)
  bus_step-Prints BusPc.lock s = Then-if _ (ltb 0 s.mutex) _ _ (λ h. refl)
  bus_step-Prints (BusPc.wait_boarded n i) s = Then-if _ (ltb 0 s.boarded) _ _ (λ h. refl)
  bus_step-Prints BusPc.exited s = tt
  bus_step-Prints BusPc.check s =
      Then-if_both _ (s.transported == r) _ _ _ _ (λ e. refl) (λ e. refl)
  bus_step-Prints BusPc.decide s = Then-if_both _ (s.waiting == 0) _ _ _ _ (λ e. refl) (λ e. refl)
  bus_step-Prints (BusPc.board n i) s = Then-if_both _ (ltb i n) _ _ _ _ (λ e. refl) (λ e. refl)
  bus_step-Prints (BusPc.release n i) s = Then-if_both _ (ltb i n) _ _ _ _ (λ e. refl) (λ e. refl)
  bus_step-Prints p s = refl

  pub bus_step-Drives :
      (p : BusPc) (s : Shared)
      → InRange c s.waiting p
      → Complete r s.transported p
      → Then (Drives r c s p) (bus_step r c p s)
  unfolding bus_step
  bus_step-Drives (BusPc.talk m n wait_turn) s h k =
      Then-if _ (ltb 0 s.mutex2) _ _ (λ e. ground arith)
  bus_step-Drives BusPc.lock s h k = Then-if _ (ltb 0 s.mutex) _ _ (λ e. ground arith)
  bus_step-Drives (BusPc.wait_boarded n i) s h k =
      Then-if _ (ltb 0 s.boarded) _ _ (λ e. ground arith)
  bus_step-Drives BusPc.exited s h k = tt
  bus_step-Drives BusPc.check s h k =
      Then-if_both _ (s.transported == r) _ _ _ _ (λ e. ground arith) (λ e. ground arith)
  bus_step-Drives BusPc.decide s h k =
      Then-if_both _ (s.waiting == 0) _ _ _ _ (λ e. ground arith) (λ e. ground arith)
  bus_step-Drives (BusPc.board n i) s h k =
      Then-if_both _ (ltb i n) _ _ _ _ (λ e. ground arith) (λ e. ground arith)
  bus_step-Drives (BusPc.release n i) s h k =
      Then-if_both _ (ltb i n) _ _ _ _ (λ e. ground arith) (λ e. ground arith)
  bus_step-Drives p s h k = ground arith
