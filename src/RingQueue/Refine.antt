-- ===== src/RingQueue/Refine.antt =====
-- The bounded first-in-first-out queue that c203.h promises, and the ring that stands for it.
use school_projects.Memory.{done}
use school_projects.Base.{
  ℕ, zero, suc, ◌<◌, ◌≤◌, ◌≡◌, refl, ◌++◌, Bool, true, false, Bool-cases, inl, inr, some, List, [],
  ◌∷◌, arith, ◌==◌, if◌then◌else◌, length, get_elem?, set, length-append, length-set,
  get_elem?-set_self, get_elem?-of_lt,
}
use school_projects.Base.Int.{ℤ}
use school_projects.Memory.Returns.{Returns}
use school_projects.RingQueue.{
  QueueWorld, message, qerr_up, qerr_front, qerr_remove, qerr_get, init_loop, queue_error,
  queue_init, queue_empty, queue_full, queue_front, queue_remove, queue_get, queue_up, read_arr,
  star, write_arr, next_index,
}
use school_projects.RingQueue.Ring.{next_index_lem, distance, Holds, Holds-set, Holds-snoc}

-- What is in the queue, oldest first; the error flag, and the messages.
pub record Fifo : Type 0 where
  pub items : List ℤ
  pub err_flag : Bool
  pub printed : List ℕ

abbrev pub fail : ℤ → Fifo → Fifo
fail code z = record z { err_flag = true; printed = z.printed ++ (message code ∷ []) }

-- One place of the `n` stays free.
abbrev pub up : ℕ → ℤ → Fifo → Fifo
up n c z =
    if suc (length z.items) == n then fail qerr_up z else record z { items = z.items ++ (c ∷ []) }

abbrev pub front : ℤ → List ℤ → ℤ
front c [] = c
front c (x ∷ xs) = x

abbrev pub fail_empty : ℤ → List ℤ → Fifo → Fifo
fail_empty code [] z = fail code z
fail_empty code (x ∷ xs) z = z

abbrev pub remove : ℤ → List ℤ → Fifo → Fifo
remove code [] z = fail code z
remove code (x ∷ xs) z = record z { items = xs }

pub record IsQueue (n : ℕ) (w : QueueWorld) (z : Fifo) : Type 0 where
  pub positive : 0 < n
  pub allocated : n ≤ length w.queue.arr
  pub front_bound : w.queue.f_index < n
  pub back_bound : w.queue.b_index < n
  pub fits : length z.items ≡ distance n w.queue.f_index w.queue.b_index
  pub holds : Holds n w.queue.arr w.queue.f_index z.items
  pub err_flag_is : w.err_flag ≡ z.err_flag
  pub printed_is : w.printed ≡ z.printed

init_loop-length : (k i : ℕ) (arr : List ℤ) → length (init_loop k i arr) ≡ length arr
unfolding init_loop
init_loop-length zero i arr = refl
init_loop-length (suc k) i arr =
    ground (arith, init_loop-length k (suc i) (set arr i star), length-set arr i star)

-- If `QUEUE_SIZE` is positive and at most the size of the array, `queueInit` of a queue makes it
-- an empty bounded queue and keeps the error flag.
pub queue_init_lem :
    (n : ℕ) (w : QueueWorld)
    → 0 < n
    → n ≤ length w.queue.arr
    → Returns
        (λ _ w'. IsQueue n w' (record { items = []; err_flag = w.err_flag; printed = w.printed }))
        (queue_init n true w)
unfolding queue_init
queue_init_lem n w h fits = record {
  positive = h;
  allocated = ground (arith, init_loop-length n 0 w.queue.arr);
  front_bound = h;
  back_bound = h;
  fits = ground arith;
  holds = tt;
  err_flag_is = refl;
  printed_is = refl;
}

module _ (w : QueueWorld) (i : ℕ) {x : ℤ} (holds : get_elem? w.queue.arr i ≡ some x) where
  read_arr-done : read_arr i w ≡ done x w
  unfolding read_arr
  read_arr-done = ground arith

  write_arr-done :
      (c : ℤ)
      → write_arr i c w
        ≡ done tt (record w { queue = record (w.queue) { arr = set w.queue.arr i c } })
  unfolding write_arr
  write_arr-done c = ground arith

module _ {n : ℕ} {w : QueueWorld} where
  failed :
      {z : Fifo} (code : ℤ)
      → IsQueue n w z
      → Returns (λ _ w'. IsQueue n w' (fail code z)) (queue_error code w)
  unfolding queue_error
  failed code is = record {
    positive = is.positive;
    allocated = is.allocated;
    front_bound = is.front_bound;
    back_bound = is.back_bound;
    fits = is.fits;
    holds = is.holds;
    err_flag_is = refl;
    printed_is = simp (is.printed_is);
  }

  -- On a represented queue, `queueFull` holds just if one place only is free.
  pub queue_full-length :
      (z : Fifo) → IsQueue n w z → queue_full n w.queue ≡ (suc (length z.items) == n)
  unfolding queue_full
  queue_full-length z is = ground (
    arith,
    next_index_lem n w.queue.b_index is.back_bound,
    is.fits,
    is.front_bound,
    is.back_bound,
    is.positive,
  )

  -- On a represented queue, `queueUp` appends the value, or sets the error flag and prints its
  -- message with the queue kept if one place only is free.
  pub queue_up_lem :
      (c : ℤ) (z : Fifo)
      → IsQueue n w z
      → Returns (λ _ w'. IsQueue n w' (up n c z)) (queue_up n c w)
  unfolding queue_up
  queue_up_lem c z is = elim (Bool-cases (suc (length z.items) == n)) [
    | inl out ↦ simp (queue_full-length z is, out) (failed qerr_up is)
    | inr got ↦
        let b = w.queue.b_index in
        let f = w.queue.f_index in
        let arr = w.queue.arr in
        let inside : b < length arr = omega (arith, is.back_bound, is.allocated) in
        let next = next_index_lem n b is.back_bound in
        simp (queue_full-length z is, got, write_arr-done w b (get_elem?-of_lt arr b inside).1 c)
          (record {
            positive = is.positive;
            allocated = ground (arith, is.allocated, length-set arr b c);
            front_bound = is.front_bound;
            back_bound = ground (arith, next, is.back_bound, is.positive);
            fits = ground (
              arith,
              next,
              is.fits,
              is.back_bound,
              is.front_bound,
              length-append z.items (c ∷ []),
            );
            holds =
                Holds-snoc n (set arr b c) f b c z.items is.front_bound is.back_bound is.fits
                  (get_elem?-set_self arr b c inside)
                  (Holds-set n arr f b c z.items is.front_bound is.back_bound
                    (omega (arith, is.fits)) is.holds);
            err_flag_is = is.err_flag_is;
            printed_is = is.printed_is;
          })
  ]

module _ {n : ℕ} {w : QueueWorld} where
  queue_empty-nil :
      {b : Bool} {l : List ℕ}
      → IsQueue n w (record { items = []; err_flag = b; printed = l })
      → queue_empty n w.queue ≡ true
  unfolding queue_empty
  queue_empty-nil is = ground (arith, is.fits, is.front_bound, is.back_bound)

  queue_empty-cons :
      {b : Bool} {l : List ℕ} (x : ℤ) (xs : List ℤ)
      → IsQueue n w (record { items = x ∷ xs; err_flag = b; printed = l })
      → queue_empty n w.queue ≡ false
  unfolding queue_empty
  queue_empty-cons x xs is = ground (arith, is.fits, is.front_bound, is.back_bound)

  removed :
      {b : Bool} {l : List ℕ} (x : ℤ) (xs : List ℤ)
      → IsQueue n w (record { items = x ∷ xs; err_flag = b; printed = l })
      → IsQueue n
          (record w { queue = record (w.queue) { f_index = next_index n w.queue.f_index } })
          (record { items = xs; err_flag = b; printed = l })
  removed x xs is =
      let next = next_index_lem n w.queue.f_index is.front_bound in
      record {
        positive = is.positive;
        allocated = is.allocated;
        front_bound = ground (arith, next, is.front_bound, is.positive);
        back_bound = is.back_bound;
        fits = ground (arith, next, is.fits, is.front_bound, is.back_bound);
        holds = is.holds.1;
        err_flag_is = is.err_flag_is;
        printed_is = is.printed_is;
      }

  -- On a represented queue, `queueFront` returns the oldest value and keeps the queue, or fails
  -- with its message if the queue is empty.
  pub queue_front_lem :
      (c : ℤ) (xs : List ℤ) (b : Bool) (l : List ℕ)
      → IsQueue n w (record { items = xs; err_flag = b; printed = l })
      → Returns
          (λ r w'.
            (r ≡ front c xs)
            × IsQueue n w'
                (fail_empty qerr_front xs (record { items = xs; err_flag = b; printed = l })))
          (queue_front n c w)
  unfolding queue_front queue_error
  queue_front_lem c [] b l is = simp (queue_empty-nil is) (refl, failed qerr_front is)
  queue_front_lem c (x ∷ xs) b l is =
      simp (queue_empty-cons x xs is, read_arr-done w w.queue.f_index is.holds.0) (refl, is)

  -- On a represented queue, `queueRemove` removes the oldest value, or fails with its message if
  -- the queue is empty.
  pub queue_remove_lem :
      (xs : List ℤ) (b : Bool) (l : List ℕ)
      → IsQueue n w (record { items = xs; err_flag = b; printed = l })
      → Returns
          (λ _ w'.
            IsQueue n w' (remove qerr_remove xs (record { items = xs; err_flag = b; printed = l })))
          (queue_remove n w)
  unfolding queue_remove
  queue_remove_lem [] b l is = simp (queue_empty-nil is) (failed qerr_remove is)
  queue_remove_lem (x ∷ xs) b l is = simp (queue_empty-cons x xs is) (removed x xs is)

  -- On a represented queue, `queueGet` returns and removes the oldest value, or fails with its own
  -- message, printed once, if the queue is empty.
  pub queue_get_lem :
      (c : ℤ) (xs : List ℤ) (b : Bool) (l : List ℕ)
      → IsQueue n w (record { items = xs; err_flag = b; printed = l })
      → Returns
          (λ r w'.
            (r ≡ front c xs)
            × IsQueue n w' (remove qerr_get xs (record { items = xs; err_flag = b; printed = l })))
          (queue_get n c w)
  unfolding queue_get queue_error
  queue_get_lem c [] b l is = simp (queue_empty-nil is) (refl, failed qerr_get is)
  queue_get_lem c (x ∷ xs) b l is =
      simp (queue_empty-cons x xs is, read_arr-done w w.queue.f_index is.holds.0)
        (refl, removed x xs is)
