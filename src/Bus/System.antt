-- ===== src/Bus/System.antt =====
-- The bus and `arguments.r` riders together: in each step one process takes its next step. The processes of
-- `generator` are there from the start, since a rider may wait any time before its first step.
use school_projects.Base.{ℕ, zero, suc, ◌+◌, ◌≤◌, ◌<◌, ◌≡◌, some, List, [], ◌∷◌}
use school_projects.Bus.{
  Shared, Line, RiderPc, Rider, rider, rider_step, RiderMessage, BusPc, BusMessage, bus_step,
  wait_turn, initial,
}
use school_projects.Base.Family.{change, sum}
use school_projects.Bus.Weights.{
  turn, storing, loaded, stage, bus_stage, holds, bus_holds, storing_waiting, loaded_waiting,
  storing_transported, loaded_transported, at_stop, on_step, counted, let_in, expects, aboard,
  let_out, owes, InRange, Complete,
}

pub record System : Type 0 where
  pub shared : Shared
  pub driver : BusPc
  pub riders : ℕ → Rider

-- `main` after `fork`.
abbrev pub start_of_day : System
start_of_day = record {
  shared = initial;
  driver = BusPc.talk BusMessage.start 0 wait_turn;
  riders = λ i. rider 0 (RiderPc.talk RiderMessage.start wait_turn);
}

-- The lines are numbered from 1 on, the last one `n`.
abbrev pub Numbered : List Line → ℕ → Type 0
Numbered [] n = n ≡ 0
Numbered (l ∷ ls) zero = ⊥
Numbered (l ∷ ls) (suc n) = (l.number ≡ suc n) × Numbered ls n

-- One process at most is about to store the shared number `c`, and it has loaded what `c` still is.
abbrev pub Register : (c m v : ℕ) → Type 0
Register c m v = (m ≡ 0 → v ≡ 0) × (m ≡ 1 → v ≡ c) × (m ≤ 1)

module _ (r c : ℕ) where
  pub data Step : System → System → Type 0 where
    ride :
        (s : System) (i : ℕ) {s' : Shared} {a : Rider}
        → i < r
        → rider_step (s.riders i).pc (s.riders i).id s.shared ≡ some (s', a)
        → Step s (record s { shared = s'; riders = change s.riders i a })
    drive :
        (s : System) {s' : Shared} {p : BusPc}
        → bus_step r c s.driver s.shared ≡ some (s', p)
        → Step s (record s { shared = s'; driver = p })

  pub data Reach (s : System) : System → Type 0 where
    here : Reach s s
    next : {t u : System} → Reach s t → Step t u → Reach s u

  abbrev pub total : (RiderPc → ℕ) → (ℕ → Rider) → ℕ
  total w f = sum (λ (a : Rider). w a.pc) r f

  pub record Invariant (s : Shared) (p : BusPc) (f : ℕ → Rider) : Type 0 where
    pub turns : s.mutex2 + turn (bus_stage p) + total (λ q. turn (stage q)) f ≡ 1
    pub locks : s.mutex + bus_holds p + total holds f ≡ 1
    pub tokens : s.bus + total on_step f + s.boarded ≡ expects p
    pub counter :
        Register s.counter
          (storing (bus_stage p) + total (λ q. storing (stage q)) f)
          (loaded (bus_stage p) + total (λ q. loaded (stage q)) f)
    pub numbered : Numbered s.output s.counter
    pub waiting : Register s.waiting (total storing_waiting f) (total loaded_waiting f)
    pub stop : s.waiting + s.bus ≡ total at_stop f + let_in p
    pub transported :
        Register s.transported (total storing_transported f) (total loaded_transported f)
    pub counts : s.transported ≡ total counted f
    pub boards : total aboard f + s.bus ≡ s.can_finish + total let_out f + owes p
    pub range : InRange c s.waiting p
    pub complete : Complete r s.transported p
