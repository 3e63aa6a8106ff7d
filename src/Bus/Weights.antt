-- ===== src/Bus/Weights.antt =====
-- What a process holds, and the shared values that it has loaded and is about to store.
use school_projects.Base.{ℕ, suc, ◌≤◌, ◌≡◌, min, ◌-◌}
use school_projects.Bus.{Stage, wait_turn, store_counter, RiderPc, BusPc}
use school_projects.Bus.{RiderMessage, BusMessage}

-- Between `sem_wait(sem_mutex2)` and `sem_post(sem_mutex2)`.
abbrev pub turn : Stage → ℕ
turn wait_turn = 0
turn _ = 1

-- About to store `*counter`, and the value that was loaded.
abbrev pub storing : Stage → ℕ
storing (store_counter n) = 1
storing _ = 0

abbrev pub loaded : Stage → ℕ
loaded (store_counter n) = n
loaded _ = 0

-- A process that makes no announcement is in the first stage of none.
abbrev pub stage : RiderPc → Stage
stage (RiderPc.talk m g) = g
stage _ = wait_turn

abbrev pub bus_stage : BusPc → Stage
bus_stage (BusPc.talk m n g) = g
bus_stage _ = wait_turn

-- Between `sem_wait(sem_mutex)` and `sem_post(sem_mutex)`.
abbrev pub holds : RiderPc → ℕ
holds (RiderPc.talk RiderMessage.enter g) = 1
holds RiderPc.load_waiting = 1
holds (RiderPc.store_waiting n) = 1
holds RiderPc.unlock_stop = 1
holds RiderPc.load_transported = 1
holds (RiderPc.store_transported n) = 1
holds RiderPc.unlock_count = 1
holds _ = 0

abbrev pub bus_holds : BusPc → ℕ
bus_holds (BusPc.talk BusMessage.arrival n g) = 1
bus_holds (BusPc.talk BusMessage.start_boarding n g) = 1
bus_holds (BusPc.talk BusMessage.end_boarding n g) = 1
bus_holds (BusPc.talk BusMessage.depart n g) = 1
bus_holds BusPc.decide = 1
bus_holds BusPc.unlock_empty = 1
bus_holds (BusPc.board n i) = 1
bus_holds (BusPc.wait_boarded n i) = 1
bus_holds (BusPc.settle n) = 1
bus_holds (BusPc.unlock n) = 1
bus_holds _ = 0

-- About to store `*waiting` or `*transported`, and the value that was loaded.
abbrev pub storing_waiting : RiderPc → ℕ
storing_waiting (RiderPc.store_waiting n) = 1
storing_waiting _ = 0

abbrev pub loaded_waiting : RiderPc → ℕ
loaded_waiting (RiderPc.store_waiting n) = n
loaded_waiting _ = 0

abbrev pub storing_transported : RiderPc → ℕ
storing_transported (RiderPc.store_transported n) = 1
storing_transported _ = 0

abbrev pub loaded_transported : RiderPc → ℕ
loaded_transported (RiderPc.store_transported n) = n
loaded_transported _ = 0

-- At the stop: counted in `*waiting`, and not yet let in by `sem_bus`.
abbrev pub at_stop : RiderPc → ℕ
at_stop (RiderPc.talk RiderMessage.enter g) = 1
at_stop RiderPc.unlock_stop = 1
at_stop RiderPc.wait_bus = 1
at_stop _ = 0

-- Let in, and not yet confirmed by `sem_boarded`.
abbrev pub on_step : RiderPc → ℕ
on_step (RiderPc.talk RiderMessage.boarding g) = 1
on_step RiderPc.post_boarded = 1
on_step _ = 0

-- Counted in `*transported`.
abbrev pub counted : RiderPc → ℕ
counted RiderPc.unlock_count = 1
counted RiderPc.wait_finish = 1
counted (RiderPc.talk RiderMessage.finish g) = 1
counted RiderPc.exited = 1
counted _ = 0

-- What the bus has let in since it arrived, and whether it waits for one to confirm.
abbrev pub let_in : BusPc → ℕ
let_in (BusPc.board n i) = i
let_in (BusPc.wait_boarded n i) = suc i
let_in (BusPc.settle n) = n
let_in _ = 0

abbrev pub expects : BusPc → ℕ
expects (BusPc.wait_boarded n i) = 1
expects _ = 0

-- Let in by `sem_bus`, and let out by `sem_can_finish`.
abbrev pub aboard : RiderPc → ℕ
aboard (RiderPc.talk RiderMessage.boarding g) = 1
aboard (RiderPc.talk RiderMessage.finish g) = 1
aboard RiderPc.post_boarded = 1
aboard RiderPc.lock_count = 1
aboard RiderPc.load_transported = 1
aboard (RiderPc.store_transported n) = 1
aboard RiderPc.unlock_count = 1
aboard RiderPc.wait_finish = 1
aboard RiderPc.exited = 1
aboard _ = 0

abbrev pub let_out : RiderPc → ℕ
let_out (RiderPc.talk RiderMessage.finish g) = 1
let_out RiderPc.exited = 1
let_out _ = 0

-- How often the bus still has to post `sem_can_finish` for the riders that it has let in.
abbrev pub owes : BusPc → ℕ
owes (BusPc.board n i) = i
owes (BusPc.wait_boarded n i) = suc i
owes (BusPc.settle n) = n
owes (BusPc.talk BusMessage.end_boarding n g) = n
owes (BusPc.talk BusMessage.depart n g) = n
owes (BusPc.unlock n) = n
owes (BusPc.talk BusMessage.end_ride n g) = n
owes (BusPc.release n i) = n - i
owes _ = 0

-- `n` is what `*waiting` and `c` give while the riders board, and a loop's `i` stays within it.
abbrev pub InRange : (c w : ℕ) → BusPc → Type 0
InRange c w (BusPc.talk BusMessage.start_boarding n g) = n ≡ min w c
InRange c w (BusPc.board n i) = (n ≡ min w c) × (i ≤ n)
InRange c w (BusPc.wait_boarded n i) = (n ≡ min w c) × (suc i ≤ n)
InRange c w (BusPc.settle n) = n ≡ min w c
InRange c w (BusPc.release n i) = i ≤ n
InRange c w _ = Unit

-- After the loop of rides `*transported` is `arguments.r`.
abbrev pub Complete : (r t : ℕ) → BusPc → Type 0
Complete r t (BusPc.talk BusMessage.finish n g) = t ≡ r
Complete r t BusPc.exited = t ≡ r
Complete r t _ = Unit
