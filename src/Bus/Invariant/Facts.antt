-- ===== src/Bus/Invariant/Facts.antt =====
-- The laws of shared numbers, and how the parts of the invariant depend on a process.
use school_projects.Base.{ℕ, zero, suc, ◌+◌, ◌≤◌, ◌≡◌, ◌≢◌, refl, arith, List}
use school_projects.Bus.{Line, RiderPc, BusPc, BusMessage, Stage, wait_turn, store_counter}
use school_projects.Bus.Weights.{
  turn, storing, loaded, holds, bus_holds, storing_waiting, loaded_waiting, storing_transported,
  loaded_transported, counted, InRange, Complete,
}
use school_projects.Bus.Riders.{Access, Prints}
use school_projects.Bus.System.{Numbered, Register}

-- An access of one process to a number that the others have not loaded.
pub Access-Register :
    {c c' m m' v v' : ℕ} (a a' b b' : ℕ)
    → Access c c' m m' v v'
    → Register c a b
    → a' + m ≡ a + m'
    → b' + v ≡ b + v'
    → a' ≤ 1
    → (a' ≡ 0 → b' ≡ 0)
    → Register c' a' b' × (c' ≡ c + m)
Access-Register a a' b b' x y e k l z = ground arith

pub Prints-Numbered :
    (before after : List Line) (n n' m : ℕ)
    → Prints before after n' m
    → m ≤ 1
    → n' ≡ n + m
    → Numbered before n
    → Numbered after n'
Prints-Numbered before after n n' zero p l e h = rw (p, let same : n' ≡ n = omega arith in same) h
Prints-Numbered before after n n' (suc m) (x, w, k) l e h =
    rw (w, let more : n' ≡ suc n = omega arith in more) (omega arith, h)

pub storing-le-turn : (g : Stage) → storing g ≤ turn g
storing-le-turn wait_turn = omega arith
storing-le-turn (store_counter n) = omega arith
storing-le-turn g = omega arith

pub loaded_zero : (g : Stage) → storing g ≡ 0 → loaded g ≡ 0
loaded_zero (store_counter n) h = absurd (omega arith)
loaded_zero g h = refl

pub storing_waiting-le-holds : (p : RiderPc) → storing_waiting p ≤ holds p
storing_waiting-le-holds (RiderPc.store_waiting n) = omega arith
storing_waiting-le-holds p = omega arith

pub loaded_waiting_zero : (p : RiderPc) → storing_waiting p ≡ 0 → loaded_waiting p ≡ 0
loaded_waiting_zero (RiderPc.store_waiting n) h = absurd (omega arith)
loaded_waiting_zero p h = refl

pub storing_transported-le-holds : (p : RiderPc) → storing_transported p ≤ holds p
storing_transported-le-holds (RiderPc.store_transported n) = omega arith
storing_transported-le-holds p = omega arith

pub loaded_transported_zero : (p : RiderPc) → storing_transported p ≡ 0 → loaded_transported p ≡ 0
loaded_transported_zero (RiderPc.store_transported n) h = absurd (omega arith)
loaded_transported_zero p h = refl

pub counted-le-one : (p : RiderPc) → counted p ≤ 1
counted-le-one p = ground arith

-- What the bus relies on at the stop is its own while it holds `sem_mutex`.
pub InRange-change :
    (c w w' : ℕ) (p : BusPc) → (bus_holds p ≢ 0 → w' ≡ w) → InRange c w p → InRange c w' p
InRange-change c w w' (BusPc.talk BusMessage.start_boarding n g) h k = ground arith
InRange-change c w w' (BusPc.board n i) h k = ground arith
InRange-change c w w' (BusPc.wait_boarded n i) h k = ground arith
InRange-change c w w' (BusPc.settle n) h k = ground arith
InRange-change c w w' (BusPc.release n i) h k = k
InRange-change c w w' p h k = tt

pub Complete-le : (r t t' : ℕ) (p : BusPc) → t ≤ t' → t' ≤ r → Complete r t p → Complete r t' p
Complete-le r t t' (BusPc.talk BusMessage.finish n g) l k h = omega arith
Complete-le r t t' BusPc.exited l k h = omega arith
Complete-le r t t' p l k h = tt
