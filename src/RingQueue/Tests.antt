-- ===== src/RingQueue/Tests.antt =====
-- The theorems on the ring queue, applied to a ring of three places.
use school_projects.Base.{refl, false, [], ◌∷◌, arith}
use school_projects.Base.Int.{pos}
use school_projects.Memory.Returns.{Returns}
use school_projects.RingQueue.{QueueWorld, queue_up}
use school_projects.RingQueue.Refine.{Fifo, IsQueue, up, queue_up_lem}

-- One value, in the last place.
abbrev world : QueueWorld
world = record {
  queue = record { arr = pos 7 ∷ pos 8 ∷ pos 9 ∷ []; f_index = 2; b_index = 0 };
  err_flag = false;
  printed = [];
}

abbrev fifo : Fifo
fifo = record { items = pos 9 ∷ []; err_flag = false; printed = [] }

world-IsQueue : IsQueue 3 world fifo
world-IsQueue = record {
  positive = ground arith;
  allocated = ground arith;
  front_bound = ground arith;
  back_bound = ground arith;
  fits = refl;
  holds = (refl, tt);
  err_flag_is = refl;
  printed_is = refl;
}

queue_up_lem_example : Returns (λ _ w'. IsQueue 3 w' (up 3 (pos 4) fifo)) (queue_up 3 (pos 4) world)
queue_up_lem_example = queue_up_lem (pos 4) fifo world-IsQueue
