-- ===== src/Bus.antt =====
-- The bus and its riders of sem_2/ios/proj_2/proj2.c: processes that share counters and semaphores. Each
-- process is a program counter with its live local variables, and a function for its next step: `none`
-- means that it waits. A step is one operation on a semaphore, or an access to shared memory, with the load of
-- `*counter`, `*waiting` and `*transported` apart from the store. What the bus does with `*waiting` between two
-- operations on semaphores is one step: it holds `sem_mutex` there, without which no rider writes `*waiting`.
pub mod Weights
pub mod Riders
pub mod Driver
pub mod System
pub mod Invariant
pub mod Progress
pub mod Safety
pub mod Schedule
pub mod Arguments
pub mod Resources
mod Tests
use school_projects.Base.{
  ℕ, zero, suc, ◌-◌, min, Bool, true, false, Option, none, some, List, [], ◌∷◌, ◌==◌, ltb,
  if◌then◌else◌,
}

-- The stages of an announcement: `sem_wait(sem_mutex2)`, the load of `*counter`, its store with the output,
-- and `sem_post(sem_mutex2)`.
pub data Stage : Type 0 where
  wait_turn : Stage
  load_counter : Stage
  store_counter : (n : ℕ) → Stage
  post_turn : Stage

pub data RiderMessage : Type 0 where
  start : RiderMessage
  enter : RiderMessage
  boarding : RiderMessage
  finish : RiderMessage

-- The announcements of the bus in their order; `_empty` marks those of a stop without riders.
pub data BusMessage : Type 0 where
  start : BusMessage
  arrival : BusMessage
  depart_empty : BusMessage
  end_empty : BusMessage
  start_boarding : BusMessage
  end_boarding : BusMessage
  depart : BusMessage
  end_ride : BusMessage
  finish : BusMessage

pub data Speaker : Type 0 where
  bus_says : BusMessage → Speaker
  rider_says : (id : ℕ) → RiderMessage → Speaker

-- A line of the output: its number, who says what, and `*waiting`, which some messages show.
pub record Line : Type 0 where
  pub number : ℕ
  pub speaker : Speaker
  pub shown : ℕ

-- The shared variables, the semaphores without the prefix `sem_`, and the output, last line first.
pub record Shared : Type 0 where
  pub waiting : ℕ
  pub counter : ℕ
  pub rid_counter : ℕ
  pub transported : ℕ
  pub mutex : ℕ
  pub mutex2 : ℕ
  pub bus : ℕ
  pub boarded : ℕ
  pub can_finish : ℕ
  pub output : List Line

-- `set_resources`
abbrev pub initial : Shared
initial = record {
  waiting = 0;
  counter = 0;
  rid_counter = 0;
  transported = 0;
  mutex = 1;
  mutex2 = 1;
  bus = 0;
  boarded = 0;
  can_finish = 0;
  output = [];
}

-- `fprintf(f, ..., n, ...)` after `*counter = n`.
abbrev pub say : Speaker → ℕ → Shared → Shared
say who n s = record s {
  counter = n;
  output = record { number = n; speaker = who; shown = s.waiting } ∷ s.output;
}

pub data RiderPc : Type 0 where
  talk : RiderMessage → Stage → RiderPc
  lock_stop : RiderPc
  load_waiting : RiderPc
  store_waiting : (n : ℕ) → RiderPc
  unlock_stop : RiderPc
  wait_bus : RiderPc
  post_boarded : RiderPc
  lock_count : RiderPc
  load_transported : RiderPc
  store_transported : (n : ℕ) → RiderPc
  unlock_count : RiderPc
  wait_finish : RiderPc
  exited : RiderPc

-- `id` is `ridNumber`, from its assignment on.
pub record Rider : Type 0 where
  pub id : ℕ
  pub pc : RiderPc

abbrev pub rider : ℕ → RiderPc → Rider
rider id pc = record { id = id; pc = pc }

-- Where a rider goes on after an announcement.
abbrev pub after_talk : RiderMessage → RiderPc
after_talk start = lock_stop
after_talk enter = unlock_stop
after_talk boarding = post_boarded
after_talk finish = exited

unfoldable pub rider_step : RiderPc → ℕ → Shared → Option (Shared × Rider)
rider_step (talk m wait_turn) id s =
    if ltb 0 s.mutex2
    then some (record s { mutex2 = s.mutex2 - 1 }, rider id (talk m load_counter))
    else none
rider_step (talk start load_counter) id s = some (
  record s { rid_counter = suc s.rid_counter },
  rider (suc s.rid_counter) (talk start (store_counter s.counter)),
)
rider_step (talk enter load_counter) id s =
    some (s, rider id (talk enter (store_counter s.counter)))
rider_step (talk boarding load_counter) id s =
    some (s, rider id (talk boarding (store_counter s.counter)))
rider_step (talk finish load_counter) id s =
    some (s, rider id (talk finish (store_counter s.counter)))
rider_step (talk m (store_counter n)) id s =
    some (say (rider_says id m) (suc n) s, rider id (talk m post_turn))
rider_step (talk m post_turn) id s =
    some (record s { mutex2 = suc s.mutex2 }, rider id (after_talk m))
rider_step lock_stop id s =
    if ltb 0 s.mutex then some (record s { mutex = s.mutex - 1 }, rider id load_waiting) else none
rider_step load_waiting id s = some (s, rider id (store_waiting s.waiting))
rider_step (store_waiting n) id s =
    some (record s { waiting = suc n }, rider id (talk enter wait_turn))
rider_step unlock_stop id s = some (record s { mutex = suc s.mutex }, rider id wait_bus)
rider_step wait_bus id s =
    if ltb 0 s.bus
    then some (record s { bus = s.bus - 1 }, rider id (talk boarding wait_turn))
    else none
rider_step post_boarded id s = some (record s { boarded = suc s.boarded }, rider id lock_count)
rider_step lock_count id s =
    if ltb 0 s.mutex
    then some (record s { mutex = s.mutex - 1 }, rider id load_transported)
    else none
rider_step load_transported id s = some (s, rider id (store_transported s.transported))
rider_step (store_transported n) id s =
    some (record s { transported = suc n }, rider id unlock_count)
rider_step unlock_count id s = some (record s { mutex = suc s.mutex }, rider id wait_finish)
rider_step wait_finish id s =
    if ltb 0 s.can_finish
    then some (record s { can_finish = s.can_finish - 1 }, rider id (talk finish wait_turn))
    else none
rider_step exited id s = none

-- `n` and `i` are the variables of `bus`.
pub data BusPc : Type 0 where
  talk : BusMessage → (n : ℕ) → Stage → BusPc
  check : BusPc
  lock : BusPc
  decide : BusPc
  unlock_empty : BusPc
  board : (n i : ℕ) → BusPc
  wait_boarded : (n i : ℕ) → BusPc
  settle : (n : ℕ) → BusPc
  unlock : (n : ℕ) → BusPc
  release : (n i : ℕ) → BusPc
  exited : BusPc

abbrev pub after_bus_talk : BusMessage → ℕ → BusPc
after_bus_talk start n = check
after_bus_talk arrival n = decide
after_bus_talk depart_empty n = talk end_empty n wait_turn
after_bus_talk end_empty n = check
after_bus_talk start_boarding n = board n 0
after_bus_talk end_boarding n = talk depart n wait_turn
after_bus_talk depart n = unlock n
after_bus_talk end_ride n = release n 0
after_bus_talk finish n = exited

-- `r` and `c` are the numbers of riders and of seats.
module _ (r c : ℕ) where
  unfoldable pub bus_step : BusPc → Shared → Option (Shared × BusPc)
  bus_step (talk m n wait_turn) s =
      if ltb 0 s.mutex2
      then some (record s { mutex2 = s.mutex2 - 1 }, talk m n load_counter)
      else none
  bus_step (talk m n load_counter) s = some (s, talk m n (store_counter s.counter))
  bus_step (talk m n (store_counter k)) s = some (say (bus_says m) (suc k) s, talk m n post_turn)
  bus_step (talk m n post_turn) s = some (record s { mutex2 = suc s.mutex2 }, after_bus_talk m n)
  bus_step check s =
      if s.transported == r then some (s, talk finish 0 wait_turn) else some (s, lock)
  bus_step lock s =
      if ltb 0 s.mutex
      then some (record s { mutex = s.mutex - 1 }, talk arrival 0 wait_turn)
      else none
  bus_step decide s =
      if s.waiting == 0
      then some (s, unlock_empty)
      else some (s, talk start_boarding (min s.waiting c) wait_turn)
  bus_step unlock_empty s = some (record s { mutex = suc s.mutex }, talk depart_empty 0 wait_turn)
  bus_step (board n i) s =
      if ltb i n then some (record s { bus = suc s.bus }, wait_boarded n i) else some (s, settle n)
  bus_step (wait_boarded n i) s =
      if ltb 0 s.boarded then some (record s { boarded = s.boarded - 1 }, board n (suc i)) else none
  bus_step (settle n) s = some (
    record s { waiting = if ltb c s.waiting then s.waiting - c else 0 },
    talk end_boarding n wait_turn,
  )
  bus_step (unlock n) s = some (record s { mutex = suc s.mutex }, talk end_ride n wait_turn)
  bus_step (release n i) s =
      if ltb i n
      then some (record s { can_finish = suc s.can_finish }, release n (suc i))
      else some (s, check)
  bus_step exited s = none
