-- ===== src/Psed.antt =====
-- The stream editor of sem_3/ips/proj_1/psed.c: one thread per regular expression, and `main`, which reads a
-- line, lets every thread edit it, and waits until all have printed their result. A thread is a program counter
-- with its live local variables, and a function for its next step: `none` means that it waits for a mutex.
-- A step is one operation on a mutex, or an access to shared memory, with the load of `threadIdDone` apart from
-- the store where it is incremented. A mutex is the number of times that it can be locked, 1 or 0; `unlock`
-- adds one, so that a mutex that is unlocked twice shows. `edit` stands for std::regex_replace with the
-- arguments of a thread, and a text is the list of its characters.
mod Tests
pub mod System
pub mod Output
pub mod Thread
pub mod Round
pub mod Invariant
pub mod Driver
pub mod Runs
pub mod Safety
pub mod Arguments
use school_projects.Base.{
  ℕ, zero, suc, ◌-◌, Bool, true, false, Option, none, some, List, [], ◌∷◌, ◌++◌, ◌==◌, ltb,
  if◌then◌else◌,
}
use school_projects.Base.Family.{change}

abbrev pub Text : Type 0
Text = List ℕ

-- `strcpy` stops at the first character 0.
unfoldable pub to_cstr : Text → Text
to_cstr [] = []
to_cstr (zero ∷ cs) = []
to_cstr (suc c ∷ cs) = suc c ∷ to_cstr cs

-- The shared variables, what is left of the standard input, and the lines printed so far.
pub record Shared : Type 0 where
  pub zamky : ℕ → ℕ
  pub std_out : ℕ
  pub thread_id : ℕ
  pub line : Option Text
  pub thread_id_done : ℕ
  pub input : List Text
  pub output : List Text

-- `b` says whether `result` has a value yet, and `x` is that value.
pub data ThreadPc : Type 0 where
  lock_line : (b : Bool) → ThreadPc
  check_line : (b : Bool) → ThreadPc
  lock_turn : (x : Text) → ThreadPc
  check_turn : (x : Text) → ThreadPc
  unlock_again : (x : Text) → ThreadPc
  unlock_turn : (x : Text) → ThreadPc
  lock_print : (x : Text) → ThreadPc
  print : (x : Text) → ThreadPc
  unlock_print : ThreadPc
  lock_done : ThreadPc
  load_done : ThreadPc
  store_done : (n : ℕ) → ThreadPc
  unlock_done : ThreadPc
  exited : ThreadPc
  invalid_free : ThreadPc

-- `free(result)`, on NULL or on a pointer without a value.
abbrev pub free_result : Bool → ThreadPc
free_result true = exited
free_result false = invalid_free

module _ (edit : ℕ → Text → Text) where
  -- `result = to_cstr(std::regex_replace(line, reg, replace))`, or the end of the thread.
  unfoldable pub check_line_step : (id : ℕ) → Bool → Option Text → ThreadPc
  check_line_step id b none = free_result b
  check_line_step id b (some l) = lock_turn (to_cstr (edit id l))

  unfoldable pub thread_step : (id : ℕ) → ThreadPc → Shared → Option (Shared × ThreadPc)
  thread_step id (lock_line b) s =
      if ltb 0 (s.zamky id)
      then some (record s { zamky = change s.zamky id (s.zamky id - 1) }, check_line b)
      else none
  thread_step id (check_line b) s = some (s, check_line_step id b s.line)
  thread_step id (lock_turn x) s =
      if ltb 0 s.thread_id
      then some (record s { thread_id = s.thread_id - 1 }, check_turn x)
      else none
  thread_step id (check_turn x) s =
      if s.thread_id_done == id then some (s, unlock_turn x) else some (s, unlock_again x)
  thread_step id (unlock_again x) s = some (record s { thread_id = suc s.thread_id }, lock_turn x)
  thread_step id (unlock_turn x) s = some (record s { thread_id = suc s.thread_id }, lock_print x)
  thread_step id (lock_print x) s =
      if ltb 0 s.std_out then some (record s { std_out = s.std_out - 1 }, print x) else none
  thread_step id (print x) s = some (record s { output = s.output ++ x ∷ [] }, unlock_print)
  thread_step id unlock_print s = some (record s { std_out = suc s.std_out }, lock_done)
  thread_step id lock_done s =
      if ltb 0 s.thread_id then some (record s { thread_id = s.thread_id - 1 }, load_done) else none
  thread_step id load_done s = some (s, store_done s.thread_id_done)
  thread_step id (store_done n) s = some (record s { thread_id_done = suc n }, unlock_done)
  thread_step id unlock_done s = some (record s { thread_id = suc s.thread_id }, lock_line true)
  thread_step id exited s = none
  thread_step id invalid_free s = none

-- The stages of `main`, with the counters of its loops.
pub data MainPc : Type 0 where
  read : MainPc
  lock_reset : MainPc
  reset : MainPc
  unlock_reset : MainPc
  release : (i : ℕ) → MainPc
  lock_wait : MainPc
  check_wait : MainPc
  unlock_wait : MainPc
  unlock_round : MainPc
  clear : MainPc
  finish : (i : ℕ) → MainPc
  join : (i : ℕ) → MainPc
  exited : MainPc

-- `line = read_line(&res)`, where `ls` is left of the input, and the test of `res`.
unfoldable pub read_line : List Text → Shared → Shared × MainPc
read_line [] s = (record s { line = none }, finish 0)
read_line (l ∷ ls) s = (record s { line = some (to_cstr l); input = ls }, lock_reset)

-- Whether `join` returns.
abbrev pub ended : ThreadPc → Bool
ended exited = true
ended _ = false

-- `n` is `regexCount`.
module _ (n : ℕ) where
  unfoldable pub main_step : MainPc → (ℕ → ThreadPc) → Shared → Option (Shared × MainPc)
  main_step read f s = some (read_line s.input s)
  main_step lock_reset f s =
      if ltb 0 s.thread_id then some (record s { thread_id = s.thread_id - 1 }, reset) else none
  main_step reset f s = some (record s { thread_id_done = 0 }, unlock_reset)
  main_step unlock_reset f s = some (record s { thread_id = suc s.thread_id }, release 0)
  main_step (release i) f s =
      if ltb i n
      then some (record s { zamky = change s.zamky i (suc (s.zamky i)) }, release (suc i))
      else some (s, lock_wait)
  main_step lock_wait f s =
      if ltb 0 s.thread_id
      then some (record s { thread_id = s.thread_id - 1 }, check_wait)
      else none
  main_step check_wait f s =
      if s.thread_id_done == n then some (s, unlock_round) else some (s, unlock_wait)
  main_step unlock_wait f s = some (record s { thread_id = suc s.thread_id }, lock_wait)
  main_step unlock_round f s = some (record s { thread_id = suc s.thread_id }, clear)
  main_step clear f s = some (record s { line = none }, read)
  main_step (finish i) f s =
      if ltb i n
      then some (record s { zamky = change s.zamky i (suc (s.zamky i)) }, finish (suc i))
      else some (s, join 0)
  main_step (join i) f s =
      if ltb i n then (if ended (f i) then some (s, join (suc i)) else none) else some (s, exited)
  main_step exited f s = none
