-- ===== src/RingQueue.antt =====
-- The ring queue of sem_3/ial/proj_1/c203/c203.c and c203.h.
pub mod Ring
pub mod Refine
mod Tests
use school_projects.Base.{
  ℕ, zero, suc, ◌%◌, Bool, true, false, Option, none, some, List, [], ◌∷◌, ◌++◌, ◌==◌, ◌||◌, ltb,
  get_elem?, set, if◌then◌else◌,
}
use school_projects.Base.Int.{ℤ, pos, negsuc}
use school_projects.Memory.{Cmd, Outcome, done, undefined, pure, ◌>>=◌, ◌>>◌}

abbrev pub max_queue : ℕ
max_queue = 50

abbrev pub max_qerr : ℕ
max_qerr = 5

abbrev pub qerr_up : ℤ
qerr_up = pos 1

abbrev pub qerr_front : ℤ
qerr_front = pos 2

abbrev pub qerr_remove : ℤ
qerr_remove = pos 3

abbrev pub qerr_get : ℤ
qerr_get = pos 4

abbrev pub qerr_init : ℤ
qerr_init = pos 5

-- `tQueue`
pub record Queue : Type 0 where
  pub arr : List ℤ
  pub f_index : ℕ
  pub b_index : ℕ

-- The queue, the global `err_flag`, and which of `QERR_STRINGS` have been printed.
pub record QueueWorld : Type 0 where
  pub queue : Queue
  pub err_flag : Bool
  pub printed : List ℕ

abbrev pub Op : Type 0 → Type 0
Op = Cmd QueueWorld

abbrev pub message : ℤ → ℕ
message (negsuc n) = 0
message (pos n) = if (n == 0) || ltb max_qerr n then 0 else n

unfoldable pub queue_error : ℤ → Op (Unit {0})
queue_error error_code w =
    done tt (record w { err_flag = true; printed = w.printed ++ (message error_code ∷ []) })

-- `*`
abbrev pub star : ℤ
star = pos 42

-- The assignments `q->arr[i] = '*'` from `i` on, `k` of them.
unfoldable pub init_loop : ℕ → ℕ → List ℤ → List ℤ
init_loop zero i arr = arr
init_loop (suc k) i arr = init_loop k (suc i) (set arr i star)

-- `q->arr[i]`, on either side of an assignment: outside the array it is undefined.
unfoldable pub read_arr : ℕ → Op ℤ
read_arr i w = elim (get_elem? w.queue.arr i) [ none ↦ undefined | some c ↦ done c w ]

unfoldable pub write_arr : ℕ → ℤ → Op (Unit {0})
write_arr i c w = elim (get_elem? w.queue.arr i) [
  | none ↦ undefined
  | some _ ↦ done tt (record w { queue = record (w.queue) { arr = set w.queue.arr i c } })
]

abbrev pub get : Op Queue
get w = done w.queue w

abbrev pub put : Queue → Op (Unit {0})
put q w = done tt (record w { queue = q })

-- `queue_size` is the global `QUEUE_SIZE`.
module _ (queue_size : ℕ) where
  -- `given` tells whether `q` is a pointer to a queue, and not NULL.
  unfoldable pub queue_init : Bool → Op (Unit {0})
  unfolding queue_error init_loop
  queue_init given =
      if given
      then (do
        q ← get
        put (record { arr = init_loop queue_size 0 q.arr; f_index = 0; b_index = 0 }))
      else queue_error qerr_init

  unfoldable pub next_index : ℕ → ℕ
  next_index index = suc index % queue_size

  unfoldable pub queue_empty : Queue → Bool
  queue_empty q = q.f_index == q.b_index

  unfoldable pub queue_full : Queue → Bool
  unfolding next_index
  queue_full q = next_index q.b_index == q.f_index

  -- An output parameter `*c` is a value that is passed in and returned.
  unfoldable pub queue_front : ℤ → Op ℤ
  unfolding queue_empty queue_error read_arr
  queue_front c = do
    q ← get
    if queue_empty q then (do queue_error qerr_front; pure c) else read_arr q.f_index

  unfoldable pub queue_remove : Op (Unit {0})
  unfolding queue_empty queue_error next_index
  queue_remove = do
    q ← get
    if queue_empty q
        then queue_error qerr_remove
        else put (record q { f_index = next_index q.f_index })

  unfoldable pub queue_get : ℤ → Op ℤ
  unfolding queue_empty queue_error queue_front queue_remove
  queue_get c = do
    q ← get
    if queue_empty q
        then (do queue_error qerr_get; pure c)
        else do c' ← queue_front c; queue_remove; pure c'

  unfoldable pub queue_up : ℤ → Op (Unit {0})
  unfolding queue_full queue_error next_index write_arr
  queue_up c = do
    q ← get
    if queue_full q
        then queue_error qerr_up
        else do write_arr q.b_index c; q' ← get; put (record q' { b_index = next_index q'.b_index })
